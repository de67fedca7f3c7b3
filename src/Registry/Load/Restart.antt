-- ===== src/Registry/Load/Restart.antt =====
-- After a restart the table holds what the files hold.
use zombie_shooter_ps_vita_p.Prelude.{
  ◌+◌, ◌≤◌, ◌<◌, ◌≡◌, ◌≢◌, ◌↔◌, ◌⊎◌, refl, sym, subst, ap, ◌∙◌, Bool, true, false, ◌||◌, Option,
  none, some, List, [], ◌∷◌, ◌++◌, arith, length, if◌then◌else◌, str_eq, str_eq→eq, str_eq_refl,
  if_both, Bool-cases, Option-cases, inl, inr, leb, length-append,
}
use zombie_shooter_ps_vita_p.Registry.Table.{Str, Prefs, max_count, pref_grow, pref_value}
use zombie_shooter_ps_vita_p.Registry.Table.Laws.{
  lookup, position, pref_find-position, pref_value-lookup, lookup_of_position, position_of_lookup,
  lookup-append,
}
use zombie_shooter_ps_vita_p.Registry.FileName.{dat, has_nul, hex_bytes, pref_key_from_filename}
use zombie_shooter_ps_vita_p.Registry.FileName.RoundTrip.{pref_key_from_filename-hex_bytes}
use zombie_shooter_ps_vita_p.Registry.Files.{Files}
use zombie_shooter_ps_vita_p.Registry.Files.Atomic.{path_of}
use zombie_shooter_ps_vita_p.Registry.Files.Process.{
  card_of, IsFileKey, IsListing, contains, fitting,
}
use zombie_shooter_ps_vita_p.Registry.Load.{
  LoadFaults, pref_read_value_file, load_value, load_path, load_key, load_names, load_dir,
  pref_load,
}

abbrev first_of : Option Str → Option Str → Option Str
first_of none b = b
first_of (some a) b = some a

-- The table without a failing allocation: growing keeps the entries.
grow_keeps :
    (s : Prefs) → ((pref_grow true s).0.entries ≡ s.entries) × ((pref_grow true s).1 ≡ true)
unfolding pref_grow
grow_keeps s = ground arith

-- A value is added at the end, or its key is there already.
load_value_cases :
    (k v : Str) (s : Prefs)
    → length s.entries < max_count
    → ((w : Str) × (lookup k s.entries ≡ some w)
        × ((load_value true k (some v) s).entries ≡ s.entries))
      ⊎ ((lookup k s.entries ≡ none)
          × ((load_value true k (some v) s).entries
              ≡ s.entries ++ record { key = k; value = v } ∷ []))
unfolding load_value
load_value_cases k v s room = elim (Option-cases (lookup k s.entries)) [
  | inr (w, there) ↦ elim (Option-cases (position k s.entries)) [
    | inl missing ↦ cc (lookup_of_position k s.entries missing)
    | inr (x, found) ↦ inl (w, there, rw (pref_find-position k s, found, load_value) refl)
  ]
  | inl gone ↦
      let free : leb max_count (length s.entries) ≡ false = ground arith in
      inr (
        gone,
        rw (pref_find-position k s, position_of_lookup k s.entries gone, load_value)
            (rw (free, (grow_keeps s).1)
              (ap (λ es. es ++ record { key = k; value = v } ∷ []) (grow_keeps s).0)),
      )
]

load_value-lookup :
    (k j : Str) (v : Option Str) (s : Prefs)
    → length s.entries < max_count
    → lookup j (load_value true k v s).entries
      ≡ first_of (lookup j s.entries) (if str_eq k j then v else none)
load_value-lookup k j none s room = unfold load_value in ground arith
load_value-lookup k j (some v) s room = elim (load_value_cases k v s room) [
  | inl (w, there, same) ↦ rw same (ground (arith, str_eq→eq k j))
  | inr (gone, added) ↦ rw added (
      lookup-append j s.entries (record { key = k; value = v }) gone
      ∙ ground (arith, str_eq→eq k j))
]

load_value-length :
    (k : Str) (v : Option Str) (s : Prefs)
    → length s.entries < max_count
    → length (load_value true k v s).entries ≤ length s.entries + 1
load_value-length k none s room = unfold load_value in omega arith
load_value-length k (some v) s room = elim (load_value_cases k v s room) [
  | inl (w, there, same) ↦ rw same (omega arith)
  | inr (gone, added) ↦
      rw added (omega (arith, length-append s.entries (record { key = k; value = v } ∷ [])))
]

-- No allocation and no read fails.
pub record IsFaultlessLoad (f : LoadFaults) : Type 0 where
  pub dir : f.dir ≡ true
  pub key_copy : (n : Str) → f.key_copy n ≡ true
  pub reads : (p : Str) → f.reads p ≡ true
  pub table : (n : Str) → f.table n ≡ true

-- A directory entry is the data file of the key.
names_key : Str → Option Str → Bool
names_key j none = false
names_key j (some k) = str_eq k j

lists_key : Str → List Str → Bool
lists_key j [] = false
lists_key j (n ∷ names) = names_key j (pref_key_from_filename true n) || lists_key j names

module _ {f : LoadFaults} (ok : IsFaultlessLoad f) (dir j : Str) (fs : Files)
    (file_key : IsFileKey dir j) where
  load_path-length :
      (k : Str) (path : Option Str) (s : Prefs)
      → length s.entries < max_count
      → length (load_path f true k path fs s).entries ≤ length s.entries + 1
  unfolding load_path
  load_path-length k none s room = omega arith
  load_path-length k (some path) s room = load_value-length k _ s room

  load_path-other :
      (k : Str) (path : Option Str) (s : Prefs)
      → length s.entries < max_count
      → str_eq k j ≡ false
      → lookup j (load_path f true k path fs s).entries ≡ lookup j s.entries
  unfolding load_path
  load_path-other k none s room ne = refl
  load_path-other k (some path) s room ne = load_value-lookup k j _ s room ∙ rw ne (ground arith)

  load_path_self :
      (s : Prefs)
      → length s.entries < max_count
      → lookup j (load_path f true j (some (path_of dir j dat)) fs s).entries
        ≡ first_of (lookup j s.entries) (pref_read_value_file true (card_of dir fs j))
  unfolding load_path
  load_path_self s room = simp ok.reads (
      load_value-lookup j j (pref_read_value_file true (card_of dir fs j)) s room
      ∙ rw (str_eq_refl j))

  load_key-lookup :
      (table : Bool) (k : Option Str) (s : Prefs)
      → table ≡ true
      → length s.entries < max_count
      → (lookup j (load_key f dir table k fs s).entries
          ≡ first_of
              (lookup j s.entries)
              (if names_key j k then pref_read_value_file true (card_of dir fs j) else none))
        × (length (load_key f dir table k fs s).entries ≤ length s.entries + 1)
  unfolding load_key names_key
  load_key-lookup table none s t room = (ground arith, omega arith)
  load_key-lookup table (some k) s t room = rw t (
    elim (Bool-cases (str_eq k j)) [
      | inl same ↦
          rw (same, str_eq→eq k j same, fitting dir j dat file_key refl) (load_path_self s room)
      | inr other ↦ rw other (load_path-other k _ s room other ∙ ground arith)
    ],
    load_path-length k _ s room,
  )

  load_names-lookup :
      (names : List Str) (s : Prefs)
      → length s.entries + length names ≤ max_count
      → lookup j (load_names f dir names fs s).entries
        ≡ first_of
            (lookup j s.entries)
            (if lists_key j names then pref_read_value_file true (card_of dir fs j) else none)
  unfolding load_names lists_key
  load_names-lookup [] s room = ground arith
  load_names-lookup (n ∷ names) s room =
      let (found, grown) =
        load_key-lookup (f.table n) (pref_key_from_filename true n) s (ok.table n) (omega arith) in
      simp ok.key_copy (
        load_names-lookup names (load_key f dir (f.table n) (pref_key_from_filename true n) fs s)
          (omega arith)
        ∙ ground (arith, found))

listed_key :
    (j : Str) (names : List Str)
    → (pref_key_from_filename true (hex_bytes j ++ dat) ≡ some j)
    → contains (hex_bytes j ++ dat) names ≡ true
    → lists_key j names ≡ true
unfolding contains lists_key names_key
listed_key j [] d h = h
listed_key j (n ∷ names) d h = elim (Bool-cases (str_eq n (hex_bytes j ++ dat))) [
  | inl here ↦ rw (str_eq→eq n (hex_bytes j ++ dat) here, d, names_key, str_eq_refl j)
  | inr there ↦ ground (arith, listed_key j names d (rw there at h))
]

abbrev pub fresh : Prefs
fresh = record { entries = []; capacity = 0; loaded = false; dirty = false }

listed_value :
    (dir j : Str) (fs : Files) (names : List Str)
    → IsListing dir fs names
    → IsFileKey dir j
    → (if lists_key j names then pref_read_value_file true (card_of dir fs j) else none)
      ≡ pref_read_value_file true (card_of dir fs j)
unfolding pref_read_value_file
listed_value dir j fs names listed h = elim (Option-cases (card_of dir fs j)) [
  | inl gone ↦
      rw (gone, pref_read_value_file)
        (if_both (λ (v : Option Str). v ≡ none) (lists_key j names) refl refl)
  | inr (v, there) ↦ rw (
      listed_key j names (pref_key_from_filename-hex_bytes j h.0 h.1 h.2).0
        (listed (hex_bytes j ++ dat) (λ e. cc)))
]

pub load_reads :
    (f : LoadFaults) (dir j : Str) (fs : Files) (names : List Str)
    → IsFaultlessLoad f
    → f.names ≡ some names
    → IsListing dir fs names
    → length names ≤ max_count
    → IsFileKey dir j
    → pref_value j (pref_load f dir fs fresh) ≡ pref_read_value_file true (card_of dir fs j)
unfolding pref_load load_dir
load_reads f dir j fs names ok n listed fits h =
    simp (pref_value-lookup, ok.dir, n)
      (load_names-lookup ok dir j fs h names (record fresh { loaded = true }) (omega arith)
        ∙ unfold lookup in listed_value dir j fs names listed h)

-- The bytes that a value may have: no NUL.
abbrev pub IsText : Str → Type 0
IsText [] = Unit {0}
IsText (c ∷ cs) = (c ≢ 0) × IsText cs

pub IsText-has_nul : (v : Str) → (has_nul v ≡ false) ↔ IsText v
unfolding has_nul
IsText-has_nul [] = (λ h. tt, λ h. refl)
IsText-has_nul (c ∷ cs) =
    let rest = IsText-has_nul cs in
    (λ h. (ground arith, rest.0 (ground arith)), λ h. ground (arith, rest.1 h.1))

-- A file is read as it is, if it is short enough and has no NUL.
pub read_value_iff :
    (file : Option Str) (v : Str)
    → (pref_read_value_file true file ≡ some v)
      ↔ ((file ≡ some v) × (length v ≤ 1048576) × IsText v)
unfolding pref_read_value_file
read_value_iff none v = (λ h. absurd (cc), λ h. cc)
read_value_iff (some w) v =
    let text = IsText-has_nul w in
    (
      (λ h.
          let same : w ≡ v = ground arith in
          let short : length w ≤ 1048576 = ground arith in
          let clean : IsText w = text.0 (ground arith) in
          let both = subst (λ (u : Str). (length u ≤ 1048576) × IsText u) same (short, clean) in
          (ap some same, both.0, both.1)),
      (λ h.
          let same : w ≡ v = cc in
          let clean : has_nul w ≡ false = text.1 (subst IsText (sym same) h.2) in
          let short : length w ≤ 1048576 = subst (λ (u : Str). length u ≤ 1048576) (sym same) h.1 in
          ground arith),
    )

-- After a load at the start of the game in which no call fails, from a directory of at most 4096
-- entries, a read of a key finds a value exactly if the key's data file holds just that, and it is
-- at most 2 ^ 20 bytes long and has no NUL. So for any other file, and for none, it finds nothing.
pub pref_value-pref_load :
    (f : LoadFaults) (dir j : Str) (fs : Files) (names : List Str) (v : Str)
    → IsFaultlessLoad f
    → f.names ≡ some names
    → IsListing dir fs names
    → length names ≤ max_count
    → IsFileKey dir j
    → (pref_value j (pref_load f dir fs fresh) ≡ some v)
      ↔ ((card_of dir fs j ≡ some v) × (length v ≤ 1048576) × IsText v)
pref_value-pref_load f dir j fs names v ok n listed fits h =
    let read = load_reads f dir j fs names ok n listed fits h in
    let iff = read_value_iff (card_of dir fs j) v in
    (λ e. iff.0 (sym read ∙ e), λ e. read ∙ iff.1 e)
