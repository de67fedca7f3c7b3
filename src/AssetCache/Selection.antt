-- ===== src/AssetCache/Selection.antt =====
-- One round of asset_cache_paths, utils/asset_cache.c: the path opened most comes first.
use zombie_shooter_ps_vita_p.Prelude.{
  ℕ, zero, suc, ◌+◌, ◌≤◌, ◌<◌, ◌≡◌, refl, sym, ap, subst, Bool, true, List, [], ◌∷◌, ltb, leb, ◌&&◌,
  ◌⊎◌, drop, arith, length, length-set, get_or, set, Bool-cases, inl, inr,
}
use zombie_shooter_ps_vita_p.AssetCache.{AssetPathStats}
use zombie_shooter_ps_vita_p.AssetCache.Paths.{no_path, best_from, swap_best}

-- No path has more opens than n.
unfoldable pub are_below : ℕ → List AssetPathStats → Bool
are_below n [] = true
are_below n (p ∷ ps) = leb p.opens n && are_below n ps

unfoldable pub are_descending : List AssetPathStats → Bool
are_descending [] = true
are_descending (p ∷ ps) = are_below p.opens ps && are_descending ps

-- Each path of the first list has at least as many opens as each of the second.
unfoldable pub are_above : List AssetPathStats → List AssetPathStats → Bool
are_above [] rest = true
are_above (p ∷ ps) rest = are_below p.opens rest && are_above ps rest

module _ (f : AssetPathStats → ℕ) where
  unfoldable pub sum_of : List AssetPathStats → ℕ
  sum_of [] = 0
  sum_of (p ∷ ps) = f p + sum_of ps

  sum_of-set :
      (ps : List AssetPathStats) (i : ℕ) (p : AssetPathStats)
      → i < length ps
      → sum_of (set ps i p) + f (get_or ps i no_path) ≡ sum_of ps + f p
  unfolding sum_of
  sum_of-set [] i p h = elim h [ ]
  sum_of-set (q ∷ qs) zero p h = omega arith
  sum_of-set (q ∷ qs) (suc i) p h = omega (arith, sum_of-set qs i p (omega arith))

pub are_below-weaken :
    (a b : ℕ) (ps : List AssetPathStats) → a ≤ b → are_below a ps ≡ true → are_below b ps ≡ true
unfolding are_below
are_below-weaken a b [] le h = refl
are_below-weaken a b (p ∷ ps) le h = ground (arith, are_below-weaken a b ps le)

-- The path that the inner loop ends at: the first one, or one of those it has seen.
best_from_lem :
    (ps : List AssetPathStats) (j best opens : ℕ)
    → ((best_from ps j best opens ≡ best) × (are_below opens ps ≡ true))
      ⊎ ((i : ℕ) × (best_from ps j best opens ≡ j + i)
          × (i < length ps)
          × (opens ≤ (get_or ps i no_path).opens)
          × (are_below (get_or ps i no_path).opens ps ≡ true))
unfolding best_from are_below
best_from_lem [] j best opens = inl (refl, refl)
best_from_lem (p ∷ ps) j best opens = elim (Bool-cases (ltb opens p.opens)) [
  | inl more ↦
      let lt : opens < p.opens = ground arith in
      elim (best_from_lem ps (j + 1) j p.opens) [
        | inl (e, below) ↦ inr (0, ground arith, omega arith, omega arith, ground arith)
        | inr (i, e, il, o, below) ↦
            inr (suc i, ground arith, omega arith, omega arith, ground arith)
      ]
  | inr less ↦ elim (best_from_lem ps (j + 1) best opens) [
    | inl (e, below) ↦ inl (ground arith, ground arith)
    | inr (i, e, il, o, below) ↦ inr (suc i, ground arith, omega arith, omega arith, ground arith)
  ]
]

-- The list after the swap, whose first path is the best one.
swapped_at :
    (p v : AssetPathStats) (ps : List AssetPathStats) (i : ℕ)
    → set (set (p ∷ ps) i p) 0 v ≡ v ∷ drop 1 (set (p ∷ ps) i p)
swapped_at p v ps zero = refl
swapped_at p v ps (suc i) = refl

first_at :
    (p : AssetPathStats) (ps : List AssetPathStats) (i : ℕ)
    → get_or (set (p ∷ ps) i p) 0 no_path ≡ p
first_at p ps zero = refl
first_at p ps (suc i) = refl

are_below-set :
    (n : ℕ) (ps : List AssetPathStats) (i : ℕ) (p : AssetPathStats)
    → p.opens ≤ n
    → are_below n ps ≡ true
    → are_below n (set ps i p) ≡ true
unfolding are_below
are_below-set n [] i p le h = refl
are_below-set n (q ∷ qs) zero p le h = ground arith
are_below-set n (q ∷ qs) (suc i) p le h = ground (arith, are_below-set n qs i p le)

drop-below :
    (n : ℕ) (ps : List AssetPathStats) → are_below n ps ≡ true → are_below n (drop 1 ps) ≡ true
unfolding are_below
drop-below n [] h = refl
drop-below n (p ∷ ps) h = ground arith

module _ (p : AssetPathStats) (ps : List AssetPathStats) where
  abbrev pub best_of : ℕ
  best_of = best_from ps 1 0 p.opens

  abbrev pub best_path : AssetPathStats
  best_path = get_or (p ∷ ps) best_of no_path

  pub best_of_lem : (best_of < length (p ∷ ps)) × (are_below best_path.opens (p ∷ ps) ≡ true)
  unfolding are_below
  best_of_lem = elim (best_from_lem ps 1 0 p.opens) [
    | inl (e, below) ↦
        let at : best_path ≡ p = ap (λ (i : ℕ). get_or (p ∷ ps) i no_path) e in
        (
          omega arith,
          subst (λ (q : AssetPathStats). are_below q.opens (p ∷ ps) ≡ true) (sym at) (ground arith),
        )
    | inr (i, e, il, o, below) ↦
        let k : best_of ≡ suc i = omega arith in
        let at : best_path ≡ get_or ps i no_path = ap (λ (j : ℕ). get_or (p ∷ ps) j no_path) k in
        (
          omega arith,
          subst (λ (q : AssetPathStats). are_below q.opens (p ∷ ps) ≡ true) (sym at) (ground arith),
        )
  ]

  pub swap_best_lem : swap_best p ps ≡ best_path ∷ drop 1 (set (p ∷ ps) best_of p)
  unfolding swap_best
  swap_best_lem = swapped_at p best_path ps best_of

  pub swap_best-are_below :
      (n : ℕ) → are_below n (p ∷ ps) ≡ true → are_below n (drop 1 (set (p ∷ ps) best_of p)) ≡ true
  unfolding are_below
  swap_best-are_below n h =
      drop-below n (set (p ∷ ps) best_of p) (are_below-set n (p ∷ ps) best_of p (ground arith) h)

  pub swap_best-sum_of : (f : AssetPathStats → ℕ) → sum_of f (swap_best p ps) ≡ sum_of f (p ∷ ps)
  unfolding swap_best
  swap_best-sum_of f =
      let first = ap f (first_at p ps best_of) in
      omega (
        arith,
        sum_of-set f (p ∷ ps) best_of p best_of_lem.0,
        sum_of-set f (set (p ∷ ps) best_of p) 0 best_path
            (let e = length-set (p ∷ ps) best_of p in omega arith),
        first,
      )
