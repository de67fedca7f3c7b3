-- ===== src/Registry/Load/Shape.antt =====
-- A load fills the table within the limits that pref_set keeps.
use zombie_shooter_ps_vita_p.Prelude.{
  ◌/◌, ◌≤◌, ◌<◌, ◌≡◌, ◌∙◌, refl, Bool, true, false, not, Option, none, some, List, [], ◌∷◌, ◌++◌,
  arith, length, if◌then◌else◌, Option-cases, inl, inr, leb, length-append, if_cases,
}
use zombie_shooter_ps_vita_p.Registry.Table.{Str, Prefs, max_key, max_value, max_count, pref_grow}
use zombie_shooter_ps_vita_p.Registry.Table.Laws.{
  lookup, position, pref_find-position, lookup_of_position,
}
use zombie_shooter_ps_vita_p.Registry.Table.Distinct.{IsDistinct-append, InLimits-append}
use zombie_shooter_ps_vita_p.Registry.Table.Methods.{IsWellFormed, grow_cases}
use zombie_shooter_ps_vita_p.Registry.FileName.{
  dat, bytes_of_hex, pref_hex_basename, strip_suffix, decode_basename, pref_key_from_filename,
  pref_path_for_key,
}
use zombie_shooter_ps_vita_p.Registry.Files.{Files, path_size}
use zombie_shooter_ps_vita_p.Registry.Load.{
  LoadFaults, pref_read_value_file, load_value, load_path, load_key, load_names, load_dir,
  pref_load,
}

length-bytes_of_hex : (s : Str) → length (bytes_of_hex s) ≡ length s / 2
unfolding bytes_of_hex
length-bytes_of_hex [] = refl
length-bytes_of_hex (a ∷ []) = refl
length-bytes_of_hex (a ∷ b ∷ s) = omega (arith, length-bytes_of_hex s)

basename_limits :
    (s : Str)
    → pref_hex_basename s ≡ true
    → (1 ≤ length (bytes_of_hex s)) × (length (bytes_of_hex s) ≤ max_key)
unfolding pref_hex_basename
basename_limits s h = ground (arith, length-bytes_of_hex s)

decoded_limits :
    (b : Option Str) (k : Str) → decode_basename b ≡ some k → (1 ≤ length k) × (length k ≤ max_key)
unfolding decode_basename
decoded_limits none k h = cc
decoded_limits (some s) k h = ground (arith, basename_limits s)

key_limits :
    (copied : Bool) (n k : Str)
    → pref_key_from_filename copied n ≡ some k
    → (1 ≤ length k) × (length k ≤ max_key)
unfolding pref_key_from_filename
key_limits true n k h = decoded_limits (strip_suffix dat n) k h
key_limits false n k h = cc

add_loaded :
    (table : Bool) (k v : Str) (s : Prefs)
    → lookup k s.entries ≡ none
    → (1 ≤ length k) × (length k ≤ max_key)
    → length v ≤ max_value
    → length s.entries < max_count
    → IsWellFormed s
    → IsWellFormed (
        let (s', grown) = pref_grow table s in
        if grown
        then record s' { entries = s'.entries ++ record { key = k; value = v } ∷ [] }
        else s')
add_loaded table k v s new kl vl room w = elim (grow_cases table s w.room) [
  | inl stuck ↦ rw stuck w
  | inr (c, grows, fits, e) ↦ rw e (record {
    distinct = IsDistinct-append s.entries (record { key = k; value = v }) w.distinct new;
    limits =
        InLimits-append s.entries (record { key = k; value = v }) w.limits (kl.0, kl.1, vl, tt);
    count = omega (arith, length-append s.entries (record { key = k; value = v } ∷ []));
    room = omega (arith, length-append s.entries (record { key = k; value = v } ∷ []));
  })
]

load_value-IsWellFormed :
    (table : Bool) (k : Str) (v : Option Str) (s : Prefs)
    → (1 ≤ length k) × (length k ≤ max_key)
    → ((w : Str) → v ≡ some w → length w ≤ max_value)
    → IsWellFormed s
    → IsWellFormed (load_value table k v s)
unfolding load_value
load_value-IsWellFormed table k none s kl vl w = w
load_value-IsWellFormed table k (some v) s kl vl w = elim (Option-cases (position k s.entries)) [
  | inr (x, found) ↦ rw (pref_find-position k s, found, load_value) w
  | inl missing ↦
      rw (pref_find-position k s, missing, load_value)
        (if_cases IsWellFormed (leb max_count (length s.entries)) (λ full. w)
          (λ free.
            add_loaded table k v s (lookup_of_position k s.entries missing) kl (vl v refl)
              (ground arith) w))
]

read_limits :
    (ok : Bool) (v : Option Str) (w : Str)
    → pref_read_value_file ok v ≡ some w
    → length w ≤ max_value
unfolding pref_read_value_file
read_limits ok none w h = cc
read_limits ok (some v) w h = ground arith

load_path-IsWellFormed :
    (f : LoadFaults) (table : Bool) (k : Str) (path : Option Str) (fs : Files) (s : Prefs)
    → (1 ≤ length k) × (length k ≤ max_key)
    → IsWellFormed s
    → IsWellFormed (load_path f table k path fs s)
unfolding load_path
load_path-IsWellFormed f table k none fs s kl w = w
load_path-IsWellFormed f table k (some p) fs s kl w =
    load_value-IsWellFormed table k (pref_read_value_file (f.reads p) (fs p)) s kl
      (read_limits (f.reads p) (fs p)) w

load_key-IsWellFormed :
    (f : LoadFaults) (dir : Str) (table : Bool) (k : Option Str) (fs : Files) (s : Prefs)
    → ((j : Str) → k ≡ some j → (1 ≤ length j) × (length j ≤ max_key))
    → IsWellFormed s
    → IsWellFormed (load_key f dir table k fs s)
unfolding load_key
load_key-IsWellFormed f dir table none fs s kl w = w
load_key-IsWellFormed f dir table (some k) fs s kl w =
    load_path-IsWellFormed f table k (pref_path_for_key dir path_size k dat) fs s (kl k refl) w

load_names-IsWellFormed :
    (f : LoadFaults) (dir : Str) (names : List Str) (fs : Files) (s : Prefs)
    → IsWellFormed s
    → IsWellFormed (load_names f dir names fs s)
unfolding load_names
load_names-IsWellFormed f dir [] fs s w = w
load_names-IsWellFormed f dir (n ∷ names) fs s w = load_names-IsWellFormed f dir names fs _ (
    load_key-IsWellFormed f dir (f.table n) (pref_key_from_filename (f.key_copy n) n) fs s
      (key_limits (f.key_copy n) n) w)

load_dir-IsWellFormed :
    (f : LoadFaults) (dir : Str) (names : Option (List Str)) (fs : Files) (s : Prefs)
    → IsWellFormed s
    → IsWellFormed (load_dir f dir names fs s)
unfolding load_dir
load_dir-IsWellFormed f dir none fs s w = w
load_dir-IsWellFormed f dir (some names) fs s w = load_names-IsWellFormed f dir names fs s w

value_loaded :
    (table : Bool) (k : Str) (v : Option Str) (s : Prefs)
    → (load_value table k v s).loaded ≡ s.loaded
unfolding load_value pref_grow
value_loaded table k none s = refl
value_loaded table k (some v) s = ground arith

key_loaded :
    (f : LoadFaults) (dir : Str) (table : Bool) (k : Option Str) (fs : Files) (s : Prefs)
    → (load_key f dir table k fs s).loaded ≡ s.loaded
unfolding load_key load_path
key_loaded f dir table none fs s = refl
key_loaded f dir table (some k) fs s = elim (Option-cases (pref_path_for_key dir path_size k dat)) [
  | inl none_fits ↦ rw (none_fits, load_path) refl
  | inr (p, fits) ↦
      rw (fits, load_path) (value_loaded table k (pref_read_value_file (f.reads p) (fs p)) s)
]

names_loaded :
    (f : LoadFaults) (dir : Str) (names : List Str) (fs : Files) (s : Prefs)
    → (load_names f dir names fs s).loaded ≡ s.loaded
unfolding load_names
names_loaded f dir [] fs s = refl
names_loaded f dir (n ∷ names) fs s =
    names_loaded f dir names fs _
    ∙ key_loaded f dir (f.table n) (pref_key_from_filename (f.key_copy n) n) fs s

dir_loaded :
    (f : LoadFaults) (dir : Str) (names : Option (List Str)) (fs : Files) (s : Prefs)
    → (load_dir f dir names fs s).loaded ≡ s.loaded
unfolding load_dir
dir_loaded f dir none fs s = refl
dir_loaded f dir (some names) fs s = names_loaded f dir names fs s

pub load_marks :
    (f : LoadFaults) (dir : Str) (fs : Files) (s : Prefs) → (pref_load f dir fs s).loaded ≡ true
unfolding pref_load
load_marks f dir fs s = ground (arith, dir_loaded f dir f.names fs (record s { loaded = true }))

pub load_again :
    (f : LoadFaults) (dir : Str) (fs : Files) (s : Prefs)
    → s.loaded ≡ true
    → pref_load f dir fs s ≡ s
unfolding pref_load
load_again f dir fs s h = rw h

pub same_table :
    {s : Prefs} (loaded dirty : Bool)
    → IsWellFormed s
    → IsWellFormed (record s { loaded = loaded; dirty = dirty })
same_table loaded dirty w = record {
  distinct = w.distinct;
  limits = w.limits;
  count = w.count;
  room = w.room;
}

-- Whatever files there are and whichever calls fail, a load keeps a well-formed table well formed,
-- marks it as loaded, and does nothing more to one that is.
pub pref_load-IsWellFormed :
    (f : LoadFaults) (dir : Str) (fs : Files) {s : Prefs}
    → IsWellFormed s
    → IsWellFormed (pref_load f dir fs s)
      × ((pref_load f dir fs s).loaded ≡ true)
      × (pref_load f dir fs (pref_load f dir fs s) ≡ pref_load f dir fs s)
unfolding pref_load
pref_load-IsWellFormed f dir fs {s} w = (
  if_cases IsWellFormed s.loaded (λ before. w)
      (λ first.
        if_cases IsWellFormed (not f.dir) (λ no_dir. same_table true false w)
          (λ opened.
            same_table _ false
              (load_dir-IsWellFormed f dir f.names fs _ (same_table true s.dirty w)))),
  load_marks f dir fs s,
  load_again f dir fs (pref_load f dir fs s) (load_marks f dir fs s),
)
