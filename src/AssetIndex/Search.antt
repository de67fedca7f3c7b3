-- ===== src/AssetIndex/Search.antt =====
-- The sorted hashes of utils/asset_index.c and the binary search in them.
use zombie_shooter_ps_vita_p.Prelude.{
  ℕ, zero, suc, ◌+◌, ◌-◌, ◌/◌, ◌≤◌, ◌<◌, ◌≡◌, refl, Bool, true, false, not, ◌&&◌, List, [], ◌∷◌,
  ◌==◌, if◌then◌else◌, ltb, leb, arith, length, get_or, Bool-cases, if_cases, inl, inr,
}
use zombie_shooter_ps_vita_p.AssetIndex.Names.{insert_hash, sort_hashes, lower_bound, is_absent}

unfoldable pub contains_hash : ℕ → List ℕ → Bool
contains_hash h [] = false
contains_hash h (x ∷ xs) = if x == h then true else contains_hash h xs

unfoldable pub are_at_least : ℕ → List ℕ → Bool
are_at_least h [] = true
are_at_least h (x ∷ xs) = leb h x && are_at_least h xs

unfoldable pub are_sorted : List ℕ → Bool
are_sorted [] = true
are_sorted (x ∷ xs) = are_at_least x xs && are_sorted xs

are_at_least-weaken :
    (a b : ℕ) (xs : List ℕ) → a ≤ b → are_at_least b xs ≡ true → are_at_least a xs ≡ true
unfolding are_at_least
are_at_least-weaken a b [] le h = refl
are_at_least-weaken a b (x ∷ xs) le h = ground (arith, are_at_least-weaken a b xs le)

are_at_least-insert_hash :
    (a h : ℕ) (xs : List ℕ)
    → a ≤ h
    → are_at_least a xs ≡ true
    → are_at_least a (insert_hash h xs) ≡ true
unfolding are_at_least insert_hash
are_at_least-insert_hash a h [] le p = ground arith
are_at_least-insert_hash a h (x ∷ xs) le p = ground (arith, are_at_least-insert_hash a h xs le)

are_sorted-insert_hash :
    (h : ℕ) (xs : List ℕ) → are_sorted xs ≡ true → are_sorted (insert_hash h xs) ≡ true
unfolding are_sorted are_at_least insert_hash
are_sorted-insert_hash h [] p = refl
are_sorted-insert_hash h (x ∷ xs) p = ground (
  arith,
  are_sorted-insert_hash h xs,
  are_at_least-insert_hash x h xs,
  are_at_least-weaken h x xs,
)

pub are_sorted-sort_hashes : (hs : List ℕ) → are_sorted (sort_hashes hs) ≡ true
unfolding are_sorted sort_hashes
are_sorted-sort_hashes [] = refl
are_sorted-sort_hashes (h ∷ hs) =
    are_sorted-insert_hash h (sort_hashes hs) (are_sorted-sort_hashes hs)

contains_hash-insert_hash :
    (h x : ℕ) (xs : List ℕ)
    → contains_hash h (insert_hash x xs) ≡ (if x == h then true else contains_hash h xs)
unfolding contains_hash insert_hash
contains_hash-insert_hash h x [] = refl
contains_hash-insert_hash h x (y ∷ ys) = ground (arith, contains_hash-insert_hash h x ys)

pub contains_hash-sort_hashes :
    (h : ℕ) (hs : List ℕ) → contains_hash h (sort_hashes hs) ≡ contains_hash h hs
unfolding contains_hash sort_hashes
contains_hash-sort_hashes h [] = refl
contains_hash-sort_hashes h (x ∷ xs) =
    ground (arith, contains_hash-sort_hashes h xs, contains_hash-insert_hash h x (sort_hashes xs))

at_least-get_or :
    (a : ℕ) (xs : List ℕ) (j : ℕ) → are_at_least a xs ≡ true → j < length xs → a ≤ get_or xs j 0
unfolding are_at_least
at_least-get_or a [] j p lt = absurd (omega arith)
at_least-get_or a (x ∷ xs) zero p lt = ground arith
at_least-get_or a (x ∷ xs) (suc j) p lt = at_least-get_or a xs j (ground arith) (omega arith)

sorted-get_or :
    (xs : List ℕ) (i j : ℕ)
    → are_sorted xs ≡ true
    → i ≤ j
    → j < length xs
    → get_or xs i 0 ≤ get_or xs j 0
unfolding are_sorted
sorted-get_or [] i j p le lt = absurd (omega arith)
sorted-get_or (x ∷ xs) zero zero p le lt = omega arith
sorted-get_or (x ∷ xs) zero (suc j) p le lt = at_least-get_or x xs j (ground arith) (omega arith)
sorted-get_or (x ∷ xs) (suc i) zero p le lt = absurd (omega arith)
sorted-get_or (x ∷ xs) (suc i) (suc j) p le lt =
    sorted-get_or xs i j (ground arith) (omega arith) (omega arith)

le_of_not_lt : (a b : ℕ) → (b < a → ◌≡◌ {A = ℕ} 0 1) → a ≤ b
le_of_not_lt a b h = elim (Bool-cases (ltb b a)) [
  | inl lt ↦ absurd (let e = h (ground arith) in omega arith)
  | inr ge ↦ ground arith
]

-- The hashes before r are smaller than the one that is looked for, and those from r on are not.
abbrev Splits : List ℕ → ℕ → ℕ → ℕ → Type 0
Splits xs h lo hi =
    ((i : ℕ) → i < lo → get_or xs i 0 < h) × ((i : ℕ) → hi ≤ i → i < length xs → h ≤ get_or xs i 0)

module _ (xs : List ℕ) (h : ℕ) (sorted : are_sorted xs ≡ true) where
  lower_bound-Splits :
      (f lo hi : ℕ)
      → hi ≤ lo + f
      → lo ≤ hi
      → hi ≤ length xs
      → Splits xs h lo hi
      → (lower_bound f xs h lo hi ≤ length xs)
        × Splits xs h (lower_bound f xs h lo hi) (lower_bound f xs h lo hi)
  unfolding lower_bound
  lower_bound-Splits zero lo hi fuel le top s =
      (omega arith, (s.0, λ i from lt. s.1 i (omega arith) lt))
  lower_bound-Splits (suc f) lo hi fuel le top (below, above) =
      let mid = lo + (hi - lo) / 2 in
      if_cases (λ (r : ℕ). (r ≤ length xs) × Splits xs h r r) (ltb lo hi)
        (λ more.
          let lt : lo < hi = ground arith in
          if_cases (λ (r : ℕ). (r ≤ length xs) × Splits xs h r r) (ltb (get_or xs mid 0) h)
            (λ small. lower_bound-Splits f (mid + 1) hi (omega arith) (omega arith) top (
              (λ i j.
                  let m = sorted-get_or xs i mid sorted (omega arith) (omega arith) in
                  let s : get_or xs mid 0 < h = ground arith in omega arith),
              above,
            ))
            (λ big. lower_bound-Splits f lo mid (omega arith) (omega arith) (omega arith) (
              below,
              (λ i from j.
                  let m = sorted-get_or xs mid i sorted from j in
                  let s : h ≤ get_or xs mid 0 = ground arith in omega arith),
            )))
        (λ done. (omega arith, (below, λ i from lt. above i (ground arith) lt)))

  search-Splits :
      let r = lower_bound (length xs) xs h 0 (length xs) in (r ≤ length xs) × Splits xs h r r
  search-Splits =
      lower_bound-Splits (length xs) 0 (length xs) (omega arith) (omega arith) (omega arith)
        (λ i lt. absurd (omega arith), λ i from lt. absurd (omega arith))

index_of :
    (h : ℕ) (xs : List ℕ)
    → contains_hash h xs ≡ true
    → (i : ℕ) × (i < length xs) × (get_or xs i 0 ≡ h)
unfolding contains_hash
index_of h [] p = absurd (cc)
index_of h (x ∷ xs) p = elim (Bool-cases (x == h)) [
  | inl e ↦ (0, omega arith, ground arith)
  | inr e ↦ let r = index_of h xs (ground arith) in (suc r.0, (let lt = r.1 in omega arith), r.2)
]

contains_hash-get_or :
    (h : ℕ) (xs : List ℕ) (i : ℕ) → i < length xs → get_or xs i 0 ≡ h → contains_hash h xs ≡ true
unfolding contains_hash
contains_hash-get_or h [] i lt e = absurd (omega arith)
contains_hash-get_or h (x ∷ xs) zero lt e = ground arith
contains_hash-get_or h (x ∷ xs) (suc i) lt e =
    ground (arith, contains_hash-get_or h xs i (omega arith) e)

-- The binary search in sorted hashes answers that a hash is absent exactly when it is not among
-- them.
pub is_absent-contains_hash :
    (xs : List ℕ) (h : ℕ) → are_sorted xs ≡ true → is_absent xs h ≡ not (contains_hash h xs)
unfolding is_absent
is_absent-contains_hash xs h sorted =
    let r = lower_bound (length xs) xs h 0 (length xs) in
    let found = search-Splits xs h sorted in
    elim (Bool-cases (contains_hash h xs)) [
      | inl here ↦
          let at = index_of h xs here in
          let i = at.0 in
          let lt = at.1 in
          let e = at.2 in
          let reach : r ≤ i =
            le_of_not_lt r i (λ j. absurd (let b = found.1.0 i j in omega arith)) in
          let up = sorted-get_or xs r i sorted reach lt in
          let down = found.1.1 r (omega arith) (omega arith) in ground arith
      | inr gone ↦ elim (Bool-cases (r == length xs)) [
        | inl end ↦ ground arith
        | inr more ↦ elim (Bool-cases (get_or xs r 0 == h)) [
          | inl same ↦
              let le = found.0 in
              let c = contains_hash-get_or h xs r (ground arith) (ground arith) in absurd (cc)
          | inr other ↦ ground arith
        ]
      ]
    ]
