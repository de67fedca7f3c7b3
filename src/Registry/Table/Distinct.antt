-- ===== src/Registry/Table/Distinct.antt =====
-- The shape of the table: no key twice, every key and value within the limits of pref_set.
use zombie_shooter_ps_vita_p.Prelude.{
  ℕ, zero, suc, ◌-◌, ◌≤◌, ◌≡◌, refl, subst, none, List, [], ◌∷◌, ◌++◌, arith, length, set,
  str_eq_comm, length-append, length-set, inl, inr,
}
use zombie_shooter_ps_vita_p.Registry.Table.{
  Str, PrefEntry, max_key, max_value, set_value, swap_remove,
}
use zombie_shooter_ps_vita_p.Registry.Table.Laws.{
  lookup, IsDistinct, lookup-append, last_absent, snoc_cases, swap_append,
}

abbrev pub InLimits : List PrefEntry → Type 0
InLimits [] = Unit {0}
InLimits (e ∷ es) =
    (1 ≤ length e.key) × (length e.key ≤ max_key) × (length e.value ≤ max_value) × InLimits es

absent-set_value :
    (j v : Str) (es : List PrefEntry) (x : ℕ)
    → lookup j es ≡ none
    → lookup j (set_value es x v) ≡ none
unfolding lookup set_value
absent-set_value j v [] x h = refl
absent-set_value j v (e ∷ es) zero h = ground arith
absent-set_value j v (e ∷ es) (suc x) h = ground (arith, absent-set_value j v es x)

pub IsDistinct-set_value :
    (v : Str) (es : List PrefEntry) (x : ℕ) → IsDistinct es → IsDistinct (set_value es x v)
unfolding set_value
IsDistinct-set_value v [] x d = d
IsDistinct-set_value v (e ∷ es) zero d = d
IsDistinct-set_value v (e ∷ es) (suc x) d =
    (absent-set_value e.key v es x d.0, IsDistinct-set_value v es x d.1)

pub IsDistinct-append :
    (es : List PrefEntry) (l : PrefEntry)
    → IsDistinct es
    → lookup l.key es ≡ none
    → IsDistinct (es ++ l ∷ [])
unfolding lookup
IsDistinct-append [] l d h = (refl, tt)
IsDistinct-append (e ∷ es) l d h = (
  ground (arith, lookup-append e.key es l, str_eq_comm e.key l.key),
  IsDistinct-append es l d.1 (ground arith),
)

absent-set :
    (j : Str) (ys : List PrefEntry) (l : PrefEntry) (x : ℕ)
    → lookup j ys ≡ none
    → lookup j (l ∷ []) ≡ none
    → lookup j (set ys x l) ≡ none
unfolding lookup
absent-set j [] l x h k = refl
absent-set j (y ∷ ys) l zero h k = ground arith
absent-set j (y ∷ ys) l (suc x) h k = ground (arith, absent-set j ys l x)

absent_parts :
    (j : Str) (ys : List PrefEntry) (l : PrefEntry)
    → lookup j (ys ++ l ∷ []) ≡ none
    → (lookup j ys ≡ none) × (lookup j (l ∷ []) ≡ none)
unfolding lookup
absent_parts j [] l h = (refl, h)
absent_parts j (y ∷ ys) l h = ground (arith, absent_parts j ys l)

IsDistinct-front : (ys : List PrefEntry) (l : PrefEntry) → IsDistinct (ys ++ l ∷ []) → IsDistinct ys
IsDistinct-front [] l d = tt
IsDistinct-front (y ∷ ys) l d = ((absent_parts y.key ys l d.0).0, IsDistinct-front ys l d.1)

IsDistinct-set_last :
    (ys : List PrefEntry) (l : PrefEntry) (x : ℕ)
    → IsDistinct (ys ++ l ∷ [])
    → IsDistinct (set ys x l)
unfolding lookup
IsDistinct-set_last [] l x d = tt
IsDistinct-set_last (y ∷ ys) l zero d = (last_absent ys l d.1, IsDistinct-front ys l d.1)
IsDistinct-set_last (y ∷ ys) l (suc x) d = (
  absent-set y.key ys l x (absent_parts y.key ys l d.0).0 (absent_parts y.key ys l d.0).1,
  IsDistinct-set_last ys l x d.1,
)

pub IsDistinct-swap_remove :
    (es : List PrefEntry) (x : ℕ) → IsDistinct es → IsDistinct (swap_remove es x)
unfolding swap_remove
IsDistinct-swap_remove es x d = elim (snoc_cases es) [
  | inl p ↦ rw p tt
  | inr (ys, l, p) ↦ rw (p, swap_append ys l x) (IsDistinct-set_last ys l x (subst IsDistinct p d))
]

pub InLimits-set_value :
    (v : Str) (es : List PrefEntry) (x : ℕ)
    → length v ≤ max_value
    → InLimits es
    → InLimits (set_value es x v)
unfolding set_value
InLimits-set_value v [] x h d = d
InLimits-set_value v (e ∷ es) zero h d = (d.0, d.1, h, d.3)
InLimits-set_value v (e ∷ es) (suc x) h d = (d.0, d.1, d.2, InLimits-set_value v es x h d.3)

pub InLimits-append :
    (es : List PrefEntry) (l : PrefEntry)
    → InLimits es
    → InLimits (l ∷ [])
    → InLimits (es ++ l ∷ [])
InLimits-append [] l d h = h
InLimits-append (e ∷ es) l d h = (d.0, d.1, d.2, InLimits-append es l d.3 h)

InLimits-parts :
    (ys : List PrefEntry) (l : PrefEntry)
    → InLimits (ys ++ l ∷ [])
    → InLimits ys × InLimits (l ∷ [])
InLimits-parts [] l d = (tt, d)
InLimits-parts (y ∷ ys) l d =
    let (front, last) = InLimits-parts ys l d.3 in ((d.0, d.1, d.2, front), last)

InLimits-set_last :
    (ys : List PrefEntry) (l : PrefEntry) (x : ℕ) → InLimits (ys ++ l ∷ []) → InLimits (set ys x l)
InLimits-set_last [] l x d = tt
InLimits-set_last (y ∷ ys) l zero d =
    let (front, last) = InLimits-parts ys l d.3 in (last.0, last.1, last.2, front)
InLimits-set_last (y ∷ ys) l (suc x) d = (d.0, d.1, d.2, InLimits-set_last ys l x d.3)

pub InLimits-swap_remove : (es : List PrefEntry) (x : ℕ) → InLimits es → InLimits (swap_remove es x)
unfolding swap_remove
InLimits-swap_remove es x d = elim (snoc_cases es) [
  | inl p ↦ rw p tt
  | inr (ys, l, p) ↦ rw (p, swap_append ys l x) (InLimits-set_last ys l x (subst InLimits p d))
]

pub length-set_value :
    (es : List PrefEntry) (x : ℕ) (v : Str) → length (set_value es x v) ≡ length es
unfolding set_value
length-set_value [] x v = refl
length-set_value (e ∷ es) zero v = refl
length-set_value (e ∷ es) (suc x) v = omega (arith, length-set_value es x v)

pub length-swap_remove : (es : List PrefEntry) (x : ℕ) → length (swap_remove es x) ≡ length es - 1
unfolding swap_remove
length-swap_remove es x = elim (snoc_cases es) [
  | inl p ↦ rw p refl
  | inr (ys, l, p) ↦
      rw (p, swap_append ys l x) (omega (arith, length-set ys x l, length-append ys (l ∷ [])))
]
