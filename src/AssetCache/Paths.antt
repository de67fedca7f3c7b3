-- ===== src/AssetCache/Paths.antt =====
-- asset_cache_paths of utils/asset_cache.c: the paths opened most, for a report, after which all
-- paths are forgotten.
use zombie_shooter_ps_vita_p.Prelude.{
  ℕ, zero, suc, ◌+◌, List, [], ◌∷◌, if◌then◌else◌, ltb, drop, get_or, set,
}
use zombie_shooter_ps_vita_p.AssetCache.{AssetPathStats, AssetCache, new_path}

abbrev pub no_path : AssetPathStats
no_path = new_path []

-- The inner loop: from index j on, `best` is the index of a path with `opens` opens.
unfoldable pub best_from : List AssetPathStats → ℕ → ℕ → ℕ → ℕ
best_from [] j best opens = best
best_from (p ∷ ps) j best opens =
    best_from ps (j + 1) (if ltb opens p.opens then j else best)
      (if ltb opens p.opens then p.opens else opens)

-- The first path of a part of the array changes places with the one opened most.
unfoldable pub swap_best : AssetPathStats → List AssetPathStats → List AssetPathStats
swap_best p ps =
    let best = best_from ps 1 0 p.opens in
    set (set (p ∷ ps) best p) 0 (get_or (p ∷ ps) best no_path)

abbrev pub put_first :
    AssetPathStats
    → List AssetPathStats × List AssetPathStats
    → List AssetPathStats × List AssetPathStats
put_first p (out, rest) = (p ∷ out, rest)

-- The outer loop, n more rounds: what is reported, and the rest of the array.
unfoldable pub busiest : ℕ → List AssetPathStats → List AssetPathStats × List AssetPathStats
busiest zero ps = ([], ps)
busiest (suc n) [] = ([], [])
busiest (suc n) (p ∷ ps) =
    let swapped = swap_best p ps in
    put_first (get_or swapped 0 no_path) (busiest n (drop 1 swapped))

-- Five rounds are made, or as many as there are paths.
unfoldable pub asset_cache_paths : AssetCache → AssetCache × List AssetPathStats × ℕ
asset_cache_paths c =
    (record c { paths = []; path_overflow = 0 }, (busiest 5 c.paths).0, c.path_overflow)
