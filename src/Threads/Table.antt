-- ===== src/Threads/Table.antt =====
-- The table of the objects that have been initialized, reimpl/pthr.c: an address that is not 0
-- stands in it at most once.
use zombie_shooter_ps_vita_p.Prelude.{
  ℕ, ◌≡◌, ◌≢◌, refl, Bool, true, false, not, ◌&&◌, List, [], ◌∷◌, ◌==◌, if◌then◌else◌, arith,
}
use zombie_shooter_ps_vita_p.Threads.Objects.{has_object, add_object, drop_object}

unfoldable pub are_distinct : List ℕ → Bool
are_distinct [] = true
are_distinct (b ∷ bs) = if b == 0 then are_distinct bs else not (has_object b bs) && are_distinct bs

-- The table has an empty slot.
abbrev pub has_room : List ℕ → Bool
has_room = has_object 0

pub add_object-has_object :
    (a : ℕ) (os : List ℕ) → has_room os ≡ true → has_object a (add_object a os) ≡ true
unfolding has_object add_object
add_object-has_object a [] h = h
add_object-has_object a (b ∷ bs) h = ground (arith, add_object-has_object a bs)

pub add_object-elsewhere :
    (a b : ℕ) (os : List ℕ) → a ≢ b → b ≢ 0 → has_object b (add_object a os) ≡ has_object b os
unfolding has_object add_object
add_object-elsewhere a b [] ne nz = refl
add_object-elsewhere a b (c ∷ cs) ne nz = ground (arith, add_object-elsewhere a b cs ne nz)

pub add_object-full : (a : ℕ) (os : List ℕ) → has_room os ≡ false → add_object a os ≡ os
unfolding has_object add_object
add_object-full a [] h = refl
add_object-full a (b ∷ bs) h = ground (arith, add_object-full a bs)

pub add_object-are_distinct :
    (a : ℕ) (os : List ℕ)
    → a ≢ 0
    → has_object a os ≡ false
    → are_distinct os ≡ true
    → are_distinct (add_object a os) ≡ true
unfolding has_object add_object are_distinct
add_object-are_distinct a [] nz h d = d
add_object-are_distinct a (b ∷ bs) nz h d =
    ground (arith, add_object-are_distinct a bs nz, add_object-elsewhere a b bs)

pub drop_object-elsewhere :
    (a b : ℕ) (os : List ℕ) → a ≢ b → b ≢ 0 → has_object b (drop_object a os) ≡ has_object b os
unfolding has_object drop_object
drop_object-elsewhere a b [] ne nz = refl
drop_object-elsewhere a b (c ∷ cs) ne nz = ground (arith, drop_object-elsewhere a b cs ne nz)

pub drop_object-has_object :
    (a : ℕ) (os : List ℕ) → a ≢ 0 → are_distinct os ≡ true → has_object a (drop_object a os) ≡ false
unfolding has_object drop_object are_distinct
drop_object-has_object a [] nz d = refl
drop_object-has_object a (b ∷ bs) nz d = ground (arith, drop_object-has_object a bs nz)

pub drop_object-are_distinct :
    (a : ℕ) (os : List ℕ) → a ≢ 0 → are_distinct os ≡ true → are_distinct (drop_object a os) ≡ true
unfolding has_object drop_object are_distinct
drop_object-are_distinct a [] nz d = d
drop_object-are_distinct a (b ∷ bs) nz d =
    ground (arith, drop_object-are_distinct a bs nz, drop_object-elsewhere a b bs)
