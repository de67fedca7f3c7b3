-- ===== src/AssetCache/Slots.antt =====
-- Sums over the slots, for the counters of the cache.
use zombie_shooter_ps_vita_p.Prelude.{
  ℕ, zero, suc, ◌+◌, ◌≤◌, ◌<◌, ◌≡◌, List, [], ◌∷◌, arith, length, get_or, set,
}
use zombie_shooter_ps_vita_p.AssetCache.{SharedAssetData, free_slot}

module _ (f : SharedAssetData → ℕ) where
  unfoldable pub total : List SharedAssetData → ℕ
  total [] = 0
  total (e ∷ es) = f e + total es

  pub total-set :
      (es : List SharedAssetData) (x : ℕ) (e : SharedAssetData)
      → x < length es
      → total (set es x e) + f (get_or es x free_slot) ≡ total es + f e
  unfolding total
  total-set [] x e h = elim h [ ]
  total-set (d ∷ es) zero e h = omega arith
  total-set (d ∷ es) (suc x) e h = omega (arith, total-set es x e (omega arith))

  pub total_get :
      (es : List SharedAssetData) (x : ℕ) → x < length es → f (get_or es x free_slot) ≤ total es
  unfolding total
  total_get [] x h = elim h [ ]
  total_get (d ∷ es) zero h = omega arith
  total_get (d ∷ es) (suc x) h = omega (arith, total_get es x (omega arith))

  pub total-bound :
      (es : List SharedAssetData) → ((x : ℕ) → f (get_or es x free_slot) ≤ 1) → total es ≤ length es
  unfolding total
  total-bound [] h = omega arith
  total-bound (e ∷ es) h = omega (arith, h 0, total-bound es (λ x. h (suc x)))
