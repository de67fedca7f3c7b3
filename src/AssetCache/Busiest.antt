-- ===== src/AssetCache/Busiest.antt =====
-- asset_cache_paths of utils/asset_cache.c reports the paths that were opened most.
use zombie_shooter_ps_vita_p.Prelude.{
  ℕ, zero, suc, ◌+◌, ◌-◌, ◌≤◌, ◌<◌, ◌≡◌, refl, sym, ap, subst, ◌∙◌, true, List, [], ◌∷◌,
  if◌then◌else◌, leb, drop, arith, length, length-set, get_or, set,
}
use zombie_shooter_ps_vita_p.AssetCache.{AssetPathStats, AssetCache}
use zombie_shooter_ps_vita_p.AssetCache.Paths.{no_path, put_first, busiest, asset_cache_paths}
use zombie_shooter_ps_vita_p.AssetCache.Selection.{
  best_of_lem, swap_best_lem, swap_best-are_below, swap_best-sum_of, best_of, best_path, are_below,
  are_descending, are_above, sum_of,
}

-- What is left for the later rounds.
abbrev after_best : AssetPathStats → List AssetPathStats → List AssetPathStats
after_best p ps = drop 1 (set (p ∷ ps) (best_of p ps) p)

busiest_next :
    (n : ℕ) (p : AssetPathStats) (ps : List AssetPathStats)
    → busiest (suc n) (p ∷ ps) ≡ put_first (best_path p ps) (busiest n (after_best p ps))
unfolding busiest
busiest_next n p ps =
    ap (λ (q : List AssetPathStats). put_first (get_or q 0 no_path) (busiest n (drop 1 q)))
      (swap_best_lem p ps)

are_below_at :
    (m : ℕ) (ps : List AssetPathStats) (i : ℕ)
    → i < length ps
    → are_below m ps ≡ true
    → (get_or ps i no_path).opens ≤ m
unfolding are_below
are_below_at m [] i lt h = absurd (omega arith)
are_below_at m (p ∷ ps) zero lt h = ground arith
are_below_at m (p ∷ ps) (suc i) lt h = are_below_at m ps i (omega arith) (ground arith)

abbrev AreBelow : ℕ → List AssetPathStats × List AssetPathStats → Type 0
AreBelow m (out, rest) = (are_below m out ≡ true) × (are_below m rest ≡ true)

put_first-AreBelow :
    (m : ℕ) (p : AssetPathStats) (r : List AssetPathStats × List AssetPathStats)
    → p.opens ≤ m
    → AreBelow m r
    → AreBelow m (put_first p r)
unfolding are_below
put_first-AreBelow m p (out, rest) le (a, b) = (ground arith, b)

busiest-AreBelow :
    (m n : ℕ) (ps : List AssetPathStats) → are_below m ps ≡ true → AreBelow m (busiest n ps)
unfolding are_below busiest
busiest-AreBelow m zero ps h = (refl, h)
busiest-AreBelow m (suc n) [] h = (refl, refl)
busiest-AreBelow m (suc n) (p ∷ ps) h = subst (AreBelow m) (sym (busiest_next n p ps)) (
    put_first-AreBelow m (best_path p ps) (busiest n (after_best p ps))
      (are_below_at m (p ∷ ps) (best_of p ps) (best_of_lem p ps).0 h)
      (busiest-AreBelow m n (after_best p ps) (swap_best-are_below p ps m h)))

-- The first list is in descending order and above the second, and together they sum up to `total`.
abbrev Reports : (AssetPathStats → ℕ) → ℕ → List AssetPathStats × List AssetPathStats → Type 0
Reports f total (out, rest) =
    (are_descending out ≡ true)
    × (are_above out rest ≡ true)
    × (sum_of f out + sum_of f rest ≡ total)

put_first-Reports :
    (f : AssetPathStats → ℕ) (total : ℕ) (p : AssetPathStats)
    (r : List AssetPathStats × List AssetPathStats)
    → AreBelow p.opens r
    → Reports f total r
    → Reports f (f p + total) (put_first p r)
unfolding are_descending are_above sum_of
put_first-Reports f total p (out, rest) (a, b) (d, u, s) = (ground arith, ground arith, omega arith)

are_above_none : (ps : List AssetPathStats) → are_above [] ps ≡ true
unfolding are_above
are_above_none ps = refl

busiest-Reports :
    (f : AssetPathStats → ℕ) (n : ℕ) (ps : List AssetPathStats)
    → Reports f (sum_of f ps) (busiest n ps)
unfolding busiest are_descending are_above sum_of
busiest-Reports f zero ps = (refl, refl, omega arith)
busiest-Reports f (suc n) [] = (refl, refl, omega arith)
busiest-Reports f (suc n) (p ∷ ps) =
    let best = best_path p ps in
    let below =
      busiest-AreBelow best.opens n (after_best p ps)
        (swap_best-are_below p ps best.opens (best_of_lem p ps).1) in
    let same : f best + sum_of f (after_best p ps) ≡ sum_of f (p ∷ ps) =
      ap (sum_of f) (sym (swap_best_lem p ps)) ∙ swap_best-sum_of p ps f in
    subst (λ (k : ℕ). Reports f k (busiest (suc n) (p ∷ ps))) same
      (subst (Reports f (f best + sum_of f (after_best p ps))) (sym (busiest_next n p ps)) (
        put_first-Reports f (sum_of f (after_best p ps)) best (busiest n (after_best p ps)) below
          (busiest-Reports f n (after_best p ps))))

length-drop_one : (ps : List AssetPathStats) → length (drop 1 ps) ≡ length ps - 1
length-drop_one [] = omega arith
length-drop_one (p ∷ ps) = omega arith

length-put_first :
    (p : AssetPathStats) (r : List AssetPathStats × List AssetPathStats)
    → length (put_first p r).0 ≡ suc (length r.0)
length-put_first p (out, rest) = refl

busiest-length :
    (n : ℕ) (ps : List AssetPathStats)
    → length (busiest n ps).0 ≡ (if leb n (length ps) then n else length ps)
unfolding busiest
busiest-length zero ps = ground arith
busiest-length (suc n) [] = ground arith
busiest-length (suc n) (p ∷ ps) =
    let next = after_best p ps in
    ap (λ (r : List AssetPathStats × List AssetPathStats). length r.0) (busiest_next n p ps)
    ∙ length-put_first (best_path p ps) (busiest n next)
    ∙ ground (
      arith,
      busiest-length n next,
      length-drop_one (set (p ∷ ps) (best_of p ps) p),
      length-set (p ∷ ps) (best_of p ps) p,
    )

-- asset_cache_paths reports five paths, or all where there are fewer, in descending order of their
-- opens, each opened at least as often as each path that it does not report; and the reported and
-- the other paths are those of the cache, in that any weights f of them have the same sum.
pub asset_cache_paths-busiest :
    (c : AssetCache) (f : AssetPathStats → ℕ)
    → let out = (asset_cache_paths c).1 in
      let rest = (busiest 5 c.paths).1 in
      (length out ≡ (if leb 5 (length c.paths) then 5 else length c.paths))
      × (are_descending out ≡ true)
      × (are_above out rest ≡ true)
      × (sum_of f out + sum_of f rest ≡ sum_of f c.paths)
unfolding asset_cache_paths
asset_cache_paths-busiest c f =
    let r = busiest-Reports f 5 c.paths in (busiest-length 5 c.paths, r.0, r.1, r.2)
