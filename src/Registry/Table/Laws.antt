-- ===== src/Registry/Table/Laws.antt =====
-- The table as a finite map: what a read finds after a write, and after a removal that moves the
-- last entry into the gap.
use zombie_shooter_ps_vita_p.Prelude.{
  ℕ, zero, suc, ◌+◌, ◌≡◌, refl, ap, ◌⊎◌, subst, Option, false, none, some, List, [], ◌∷◌, ◌++◌,
  arith, length, set, take, if◌then◌else◌, str_eq, str_eq→eq, str_eq_refl, str_eq_comm, inl, inr,
  Bool-cases, length-append,
}
use mathlib.Core.Option
use zombie_shooter_ps_vita_p.Registry.Table.{
  Str, PrefEntry, Prefs, find_from, set_value, last_entry, swap_remove, value_at, entry_at,
  pref_find, pref_value,
}

-- The value of the first entry with the key.
unfoldable pub lookup : Str → List PrefEntry → Option Str
lookup j [] = none
lookup j (e ∷ es) = if str_eq e.key j then some e.value else lookup j es

-- No key occurs twice.
abbrev pub IsDistinct : List PrefEntry → Type 0
IsDistinct [] = Unit {0}
IsDistinct (e ∷ es) = (lookup e.key es ≡ none) × IsDistinct es

-- The index that the loop of pref_find returns, by recursion on the table.
pub position : Str → List PrefEntry → Option ℕ
position k [] = none
position k (e ∷ es) = if str_eq e.key k then some 0 else Option.map (λ x. suc x) (position k es)

find_from-position :
    (i : ℕ) (k : Str) (es : List PrefEntry)
    → find_from i k es ≡ Option.map (λ x. i + x) (position k es)
unfolding find_from position
find_from-position i k [] = refl
find_from-position i k (e ∷ es) = ground (arith, find_from-position (suc i) k es)

pub pref_find-position : (k : Str) (s : Prefs) → pref_find k s ≡ position k s.entries
unfolding pref_find
pref_find-position k s = ground (arith, find_from-position 0 k s.entries)

value_at-none : (es : List PrefEntry) → value_at es none ≡ none
unfolding value_at
value_at-none [] = refl
value_at-none (e ∷ es) = refl

pub value_at-position : (k : Str) (es : List PrefEntry) → value_at es (position k es) ≡ lookup k es
unfolding value_at position lookup
value_at-position k [] = refl
value_at-position k (e ∷ es) = ground (arith, value_at-position k es, value_at-none es)

pub lookup_of_position : (k : Str) (es : List PrefEntry) → position k es ≡ none → lookup k es ≡ none
unfolding position lookup
lookup_of_position k [] h = refl
lookup_of_position k (e ∷ es) h = ground (arith, lookup_of_position k es)

pub position_of_lookup : (k : Str) (es : List PrefEntry) → lookup k es ≡ none → position k es ≡ none
unfolding position lookup
position_of_lookup k [] h = refl
position_of_lookup k (e ∷ es) h = ground (arith, position_of_lookup k es)

-- A read finds what the first entry with its key holds.
pub pref_value-lookup : (k : Str) (s : Prefs) → pref_value k s ≡ lookup k s.entries
unfolding pref_value
pref_value-lookup k s = rw pref_find-position (value_at-position k s.entries)

-- Replacing the value of a key that is there.
pub lookup-set_value :
    (k j v : Str) (es : List PrefEntry) (x : ℕ)
    → position k es ≡ some x
    → lookup j (set_value es x v) ≡ (if str_eq k j then some v else lookup j es)
unfolding position lookup set_value
lookup-set_value k j v [] x h = ground arith
lookup-set_value k j v (e ∷ es) zero h = ground (arith, str_eq→eq e.key k)
lookup-set_value k j v (e ∷ es) (suc x) h =
    ground
      (arith, lookup-set_value k j v es x, str_eq→eq e.key j, str_eq→eq k j, str_eq_comm e.key k)

pub lookup-append :
    (j : Str) (es : List PrefEntry) (l : PrefEntry)
    → lookup l.key es ≡ none
    → lookup j (es ++ l ∷ []) ≡ (if str_eq l.key j then some l.value else lookup j es)
unfolding lookup
lookup-append j [] l h = refl
lookup-append j (e ∷ es) l h = ground (
  arith,
  lookup-append j es l,
  str_eq→eq e.key j,
  str_eq→eq l.key j,
  str_eq_refl e.key,
  str_eq_comm e.key l.key,
)

last_entry-append : (d l : PrefEntry) (ys : List PrefEntry) → last_entry d (ys ++ l ∷ []) ≡ l
unfolding last_entry
last_entry-append d l [] = refl
last_entry-append d l (y ∷ ys) = last_entry-append y l ys

take-append : (ys : List PrefEntry) (l : PrefEntry) → take (length ys) (ys ++ l ∷ []) ≡ ys
take-append [] l = refl
take-append (y ∷ ys) l = ap (◌∷◌ y) (take-append ys l)

take-set :
    (ys : List PrefEntry) (l v : PrefEntry) (x : ℕ)
    → take (length ys) (set (ys ++ l ∷ []) x v) ≡ set ys x v
take-set [] l v x = refl
take-set (y ∷ ys) l v zero = ap (◌∷◌ v) (take-append ys l)
take-set (y ∷ ys) l v (suc x) = ap (◌∷◌ y) (take-set ys l v x)

length-snoc : (ys : List PrefEntry) (l : PrefEntry) → length (ys ++ l ∷ []) ≡ suc (length ys)
length-snoc ys l = omega (arith, length-append ys (l ∷ []))

-- The removed entry's place takes the last one.
pub swap_append :
    (ys : List PrefEntry) (l : PrefEntry) (x : ℕ) → swap_remove (ys ++ l ∷ []) x ≡ set ys x l
unfolding swap_remove
swap_append [] l x = refl
swap_append (y ∷ ys) l x = rw (length-snoc ys l, last_entry-append y l ys) (take-set (y ∷ ys) l l x)

pub last_absent :
    (ys : List PrefEntry) (l : PrefEntry) → IsDistinct (ys ++ l ∷ []) → lookup l.key ys ≡ none
unfolding lookup
last_absent [] l d = refl
last_absent (y ∷ ys) l d =
    ground (arith, last_absent ys l d.1, lookup-append y.key ys l, str_eq_comm l.key y.key)

-- In a table without repeated keys the last entry's move is not seen.
lookup-set_last :
    (k j : Str) (ys : List PrefEntry) (l : PrefEntry) (x : ℕ)
    → IsDistinct (ys ++ l ∷ [])
    → position k (ys ++ l ∷ []) ≡ some x
    → lookup j (set ys x l) ≡ (if str_eq k j then none else lookup j (ys ++ l ∷ []))
unfolding position lookup
lookup-set_last k j [] l x d h = ground (arith, str_eq→eq l.key k)
lookup-set_last k j (y ∷ ys) l zero d h = ground (
  arith,
  lookup-append j ys l (last_absent ys l d.1),
  lookup-append y.key ys l (last_absent ys l d.1),
  str_eq→eq y.key k,
  str_eq→eq y.key j,
  str_eq→eq k j,
  str_eq_comm y.key k,
)
lookup-set_last k j (y ∷ ys) l (suc x) d h =
    ground
      (arith, lookup-set_last k j ys l x d.1, str_eq→eq y.key j, str_eq→eq k j, str_eq_comm y.key k)

no_position : (k : Str) (x : ℕ) → ¬ (position k [] ≡ some x)
unfolding position
no_position k x h = cc

pub snoc_cases :
    (es : List PrefEntry)
    → (es ≡ []) ⊎ ((ys : List PrefEntry) × (l : PrefEntry) × (es ≡ ys ++ l ∷ []))
snoc_cases [] = inl refl
snoc_cases (e ∷ es) = elim (snoc_cases es) [
  | inl p ↦ inr ([], e, rw p refl)
  | inr (ys, l, p) ↦ inr (e ∷ ys, l, rw p refl)
]

-- After a removal the key is gone and every other read is as before.
pub lookup-swap_remove :
    (k j : Str) (es : List PrefEntry) (x : ℕ)
    → IsDistinct es
    → position k es ≡ some x
    → lookup j (swap_remove es x) ≡ (if str_eq k j then none else lookup j es)
lookup-swap_remove k j es x d h = elim (snoc_cases es) [
  | inl p ↦ absurd (no_position k x (subst (λ t. position k t ≡ some x) p h))
  | inr (ys, l, p) ↦
      rw (p, swap_append ys l x)
        (lookup-set_last k j ys l x (subst IsDistinct p d) (subst (λ t. position k t ≡ some x) p h))
]

entry_at-none : (es : List PrefEntry) → entry_at es none ≡ none
unfolding entry_at
entry_at-none [] = refl
entry_at-none (e ∷ es) = refl

-- The entry that the loop of pref_find stops at has the key and the value that a read returns.
pub entry_at-position :
    (k : Str) (es : List PrefEntry)
    → (lookup k es ≡ none)
      ⊎ ((e : PrefEntry) × (entry_at es (position k es) ≡ some e)
          × (e.key ≡ k)
          × (lookup k es ≡ some e.value))
unfolding lookup position entry_at
entry_at-position k [] = inl refl
entry_at-position k (e ∷ es) = elim (Bool-cases (str_eq e.key k)) [
  | inl same ↦ inr (e, rw same refl, str_eq→eq e.key k same, rw same refl)
  | inr other ↦ elim (entry_at-position k es) [
    | inl gone ↦ inl (rw other gone)
    | inr (l, there, key, value) ↦
        inr (l, step l there (position k es) refl other, key, rw other value)
  ]
]
  where
    step :
        (l : PrefEntry)
        → entry_at es (position k es) ≡ some l
        → (x : Option ℕ) → position k es ≡ x
        → str_eq e.key k ≡ false
        → entry_at (e ∷ es) (position k (e ∷ es)) ≡ some l
    step l there none h other = cc (entry_at-none es)
    step l there (some x) h other = rw (other, h) (rw h at there)
