-- ===== src/AssetCache/Release.antt =====
-- asset_cache_release: which handles are left, and when the entry goes.
use mathlib.Core.Bool.{false≢true}
use zombie_shooter_ps_vita_p.Prelude.{
  ℕ, zero, suc, ◌+◌, ◌-◌, ◌<◌, ◌≡◌, ◌≢◌, refl, sym, ap, ◌∙◌, subst, true, false, some, List, [],
  ◌∷◌, arith, length, get_or, set, get_or-set_self, get_or-set_ne, if◌then◌else◌, ◌==◌, ltb, u64,
  if_cases, Bool-cases, inl, inr,
}
use zombie_shooter_ps_vita_p.AssetCache.{
  SharedAssetData, AssetCache, free_slot, is_live, is_evictable, entry, evict, give_back, unpin,
  asset_cache_release,
}
use zombie_shooter_ps_vita_p.AssetCache.Counts.{
  IsConsistent, evict-IsConsistent, dropped-IsConsistent,
}
use zombie_shooter_ps_vita_p.AssetCache.Adoption.{SameData}

live_used :
    (x : ℕ) (c : AssetCache) → IsConsistent c → (entry c x).refs ≢ 0 → is_live (entry c x) ≡ true
live_used x c h used = elim (Bool-cases (is_live (entry c x))) [
  | inl live ↦ live
  | inr dead ↦ absurd (used ((h.0).unused x dead))
]

-- One handle of the entry `x` less; the data of every entry that is still in use stay.
abbrev pub IsReleased : ℕ → AssetCache → AssetCache → Type 0
IsReleased x c c' =
    (y : ℕ)
    → ((entry c' y).refs ≡ (if x == y then (entry c y).refs - 1 else (entry c y).refs))
      × ((entry c' y).refs ≢ 0 → SameData (entry c' y) (entry c y))

set-IsReleased :
    (x : ℕ) (c c' : AssetCache) (e : SharedAssetData)
    → x < length c.slots
    → c'.slots ≡ set c.slots x e
    → e.refs ≡ (entry c x).refs - 1
    → (e.refs ≢ 0 → SameData e (entry c x))
    → IsReleased x c c'
set-IsReleased x c c' e hx slots one kept y = elim (Bool-cases (x == y)) [
  | inl same ↦
      let this : x ≡ y = ground arith in
      let now : entry c' y ≡ e =
        ap (λ (es : List SharedAssetData). get_or es y free_slot) slots
        ∙ subst (λ (t : ℕ). get_or (set c.slots x e) t free_slot ≡ e) this
            (get_or-set_self c.slots x e free_slot hx) in
      rw (now, same, ← this) (one, kept)
  | inr other ↦
      let now : entry c' y ≡ entry c y =
        ap (λ (es : List SharedAssetData). get_or es y free_slot) slots
        ∙ get_or-set_ne c.slots x y e free_slot (λ k. ground arith) in
      rw (now, other) (refl, λ _. (refl, refl, refl))
]

set-set :
    (es : List SharedAssetData) (x : ℕ) (d e : SharedAssetData) → set (set es x d) x e ≡ set es x e
set-set [] x d e = refl
set-set (c ∷ es) zero d e = refl
set-set (c ∷ es) (suc x) d e = ap (◌∷◌ c) (set-set es x d e)

module _ (x : ℕ) (c : AssetCache) (h : IsConsistent c) (hx : x < 512) where
  below : x < length c.slots
  below = omega (arith, (h.0).slot_count)

  module _ (last : (entry c x).refs ≡ 1) where
    give_back-IsConsistent : IsConsistent (give_back x c)
    unfolding give_back
    give_back-IsConsistent =
        (dropped-IsConsistent x 0 (u64 (c.sequence + 1)) c h hx (omega (arith, last)), h.1)

    given_back : is_evictable (entry (give_back x c) x) ≡ true
    unfolding give_back
    given_back =
        let live = live_used x c h (λ k. omega (arith, last, k)) in
        rw
          (get_or-set_self c.slots x
            (record (entry c x) { refs = 0; use_time = u64 (c.sequence + 1) }) free_slot below)
          (ground arith)

    give_back-IsReleased : IsReleased x c (give_back x c)
    unfolding give_back
    give_back-IsReleased =
        set-IsReleased x c (give_back x c)
          (record (entry c x) { refs = 0; use_time = u64 (c.sequence + 1) }) below refl
          (omega (arith, last)) (λ k. (refl, refl, refl))

    evicted_slots : (evict x (give_back x c)).slots ≡ set c.slots x free_slot
    unfolding give_back evict
    evicted_slots =
        set-set c.slots x (record (entry c x) { refs = 0; use_time = u64 (c.sequence + 1) })
          free_slot

    evicted-IsReleased : IsReleased x c (evict x (give_back x c))
    evicted-IsReleased =
        set-IsReleased x c (evict x (give_back x c)) free_slot below evicted_slots
          (omega (arith, last)) (λ k. absurd (k refl))

    evicted_free : is_live (entry (evict x (give_back x c)) x) ≡ false
    evicted_free =
        ap (λ (es : List SharedAssetData). is_live (get_or es x free_slot)) evicted_slots
        ∙ ap is_live (get_or-set_self c.slots x free_slot free_slot below)

    unpin-IsReleased :
        IsConsistent (unpin x c)
        × IsReleased x c (unpin x c)
        × (c.stats.limit < c.stats.bytes → is_live (entry (unpin x c) x) ≡ false)
    unfolding unpin
    unpin-IsReleased =
        if_cases
          (λ (r : AssetCache).
            IsConsistent r
            × IsReleased x c r
            × (c.stats.limit < c.stats.bytes → is_live (entry r x) ≡ false))
          (ltb (give_back x c).stats.limit (give_back x c).stats.bytes)
          (λ over. (
            (evict-IsConsistent x (give_back x c) give_back-IsConsistent hx given_back).0,
            evicted-IsReleased,
            λ k. evicted_free,
          ))
          (λ within. (
            give_back-IsConsistent,
            give_back-IsReleased,
            λ k. absurd (false≢true (sym within ∙ (unfold give_back in ground arith))),
          ))

  -- Giving back a handle of an entry in use lowers its count by one and no other, and keeps the
  -- counters right and the data of every entry that is still in use; with the last handle of a
  -- cache over its limit the entry goes.
  pub asset_cache_release-IsReleased :
      (entry c x).refs ≢ 0
      → IsConsistent (asset_cache_release (some x) c)
        × IsReleased x c (asset_cache_release (some x) c)
        × ((entry c x).refs ≡ 1
            → c.stats.limit < c.stats.bytes
            → is_live (entry (asset_cache_release (some x) c) x) ≡ false)
  unfolding asset_cache_release
  asset_cache_release-IsReleased used = elim (Bool-cases ((entry c x).refs == 1)) [
    | inl last ↦
        let one : (entry c x).refs ≡ 1 = ground arith in
        let some_left : ((entry c x).refs == 0) ≡ false = ground arith in
        let (ok, released, gone) = unpin-IsReleased one in
        rw (some_left, last) (ok, released, λ _. gone)
    | inr more ↦
        let some_left : ((entry c x).refs == 0) ≡ false = ground arith in
        let many : ((entry c x).refs - 1 == 0) ≡ false = ground arith in
        let e = record (entry c x) { refs = (entry c x).refs - 1 } in
        let counts =
          dropped-IsConsistent x ((entry c x).refs - 1) (entry c x).use_time c h hx
            (ground arith) in
        rw (some_left, more)
          (
            (rw many at counts, h.1),
            set-IsReleased x c (record c { slots = set c.slots x e }) e below refl refl
                (λ k. (refl, refl, refl)),
            λ k. absurd (false≢true (sym more ∙ ground arith)),
          )
  ]
