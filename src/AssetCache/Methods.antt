-- ===== src/AssetCache/Methods.antt =====
-- The operations of the cache: its counters, the bound on its bytes, and the handles it gave out.
use mathlib.Core.Bool.{false≢true}
use zombie_shooter_ps_vita_p.Prelude.{
  ℕ, ◌+◌, ◌^◌, ◌<◌, ◌≡◌, refl, sym, ap, ◌∙◌, subst, true, Option, none, some, List, arith, length,
  get_or, leb, u32, if_cases, inl, inr,
}
use zombie_shooter_ps_vita_p.AssetCache.{
  Bytes, SharedAssetData, AssetCache, free_slot, is_live, entry, path_record, find, cached_slot,
  count_hit, finish_acquire, pin, place, adopt_key, count_fallback, asset_cache_configure,
  asset_cache_acquire, asset_cache_adopt,
}
use zombie_shooter_ps_vita_p.AssetCache.Counts.{IsConsistent, pin-IsConsistent, place-IsConsistent}
use zombie_shooter_ps_vita_p.AssetCache.Eviction.{IsEvicted, IsStopped, evict_down-IsStopped}
use zombie_shooter_ps_vita_p.AssetCache.Adoption.{
  in_use, SameRest, path_record-SameRest, SameData, KeepsHandles, IsEvicted-KeepsHandles,
  pin-KeepsHandles, place-KeepsHandles, Adoption, shared, placed, refused, adopt_key-Adoption,
  found_slot,
}

-- A new limit below 2 ^ 32 is kept unless the entries in use alone exceed it; entries are evicted
-- as `IsEvicted` says, in the order of their last use.
pub asset_cache_configure-IsEvicted :
    (limit : ℕ) (c : AssetCache)
    → IsConsistent c
    → limit < 2 ^ 32
    → IsEvicted
        (record c { stats = record c.stats { limit = limit } })
        (asset_cache_configure limit c)
      × ((asset_cache_configure limit c).stats.limit ≡ limit)
      × IsStopped limit (asset_cache_configure limit c)
unfolding asset_cache_configure
asset_cache_configure-IsEvicted limit c h hl =
    let (ev, st) =
      evict_down-IsStopped limit (record c { stats = record c.stats { limit = limit } })
        (h.0, hl) in
    (ev, ev.limit, st)

-- Each entry has fewer handles than `unsigned` can count.
abbrev pub HasFewHandles : AssetCache → Type 0
HasFewHandles c = (y : ℕ) → (entry c y).refs + 1 < 2 ^ 32

live_found :
    (k : Bytes) (c : AssetCache) (x : ℕ)
    → IsConsistent c
    → find k c.slots ≡ some x
    → (x < 512) × (is_live (entry c x) ≡ true)
unfolding find
live_found k c x h f =
    let (y, at_y, below, ok) = found_slot 0 k c.slots x f in
    let same : y ≡ x = omega arith in
    (
      omega (arith, (h.0).slot_count),
      subst (λ (t : ℕ). is_live (entry c t) ≡ true) same (ground arith),
    )

count_fallback-rest :
    (r : AssetCache × Option ℕ)
    → ((count_fallback r).0.slots ≡ r.0.slots)
      × (IsConsistent r.0 → IsConsistent (count_fallback r).0)
      × ((count_fallback r).1 ≡ r.1)
unfolding count_fallback
count_fallback-rest (c, some x) = (refl, λ h. h, refl)
count_fallback-rest (c, none) = (refl, λ h. h, refl)

after_evictions :
    {c c' : AssetCache} (d : AssetCache) → IsEvicted c c' → KeepsHandles c' d → KeepsHandles c d
after_evictions {c} {c'} d ev keeps y used = elim (ev.slots y) [
  | inl kept ↦
      subst (λ (t : SharedAssetData). SameData (entry d y) t) kept
        (keeps y (λ unused. used (sym (ap (λ (t : SharedAssetData). t.refs) kept) ∙ unused)))
  | inr (gone, can) ↦ absurd (false≢true (sym (in_use (entry c y) used) ∙ can))
]

Adoption-result :
    {k bytes : Bytes} {size : ℕ} {c : AssetCache} (r : AssetCache × Option ℕ)
    → IsConsistent c
    → HasFewHandles c
    → Adoption k bytes size c r
    → IsConsistent r.0 × KeepsHandles c r.0
Adoption-result {k} {bytes} {size} {c} r h few (shared x f e) =
    let (hx, live) = live_found k c x h f in
    rw e (pin-IsConsistent x c h hx live (few x), pin-KeepsHandles x c)
Adoption-result {k} {bytes} {size} {c} r h few (placed x c' new ev hx dead room e) =
    let ok = place-IsConsistent x k bytes size c' ev.consistent hx dead (omega (arith, h.1)) in
    let keeps = place-KeepsHandles x k bytes size c' ev.consistent hx dead in
    rw e (ok, after_evictions (place x k bytes size c') ev keeps)
Adoption-result r h few (refused c' ev e) = rw e (ev.consistent, IsEvicted-KeepsHandles ev)

-- An adoption keeps the counters right and leaves every entry in use with its data.
pub asset_cache_adopt-IsConsistent :
    (key bytes : Option Bytes) (size : ℕ) (c : AssetCache)
    → IsConsistent c
    → HasFewHandles c
    → IsConsistent (asset_cache_adopt key bytes size c).0
      × KeepsHandles c (asset_cache_adopt key bytes size c).0
unfolding asset_cache_adopt
asset_cache_adopt-IsConsistent none bytes size c h few = (h, λ y used. (refl, refl, refl))
asset_cache_adopt-IsConsistent (some k) none size c h few = (h, λ y used. (refl, refl, refl))
asset_cache_adopt-IsConsistent (some k) (some bytes) size c h few =
    if_cases (λ (r : AssetCache × Option ℕ). IsConsistent r.0 × KeepsHandles c r.0)
      (leb 256 (length k)) (λ long. (h, λ y used. (refl, refl, refl)))
      (λ short.
        let r = adopt_key (find k c.slots) k bytes size c in
        let (ok, keeps) =
          Adoption-result r h few (adopt_key-Adoption k bytes size c (find k c.slots) h refl) in
        let (slots, counts, handle) = count_fallback-rest r in
        (
          counts ok,
          λ y used.
              subst (λ (es : List SharedAssetData). SameData (get_or es y free_slot) (entry c y))
                (sym slots) (keeps y used),
        ))

same_rest :
    (c c' : AssetCache) → SameRest c c' → IsConsistent c → IsConsistent c' × KeepsHandles c c'
same_rest c c' (slots, stats, time) h = (rw (slots, stats) h, λ y used. rw slots (refl, refl, refl))

hit_result :
    (x : ℕ) (c c' : AssetCache)
    → SameRest c c'
    → IsConsistent c
    → HasFewHandles c
    → x < 512
    → is_live (entry c x) ≡ true
    → IsConsistent (count_hit x (pin x c')) × KeepsHandles c (count_hit x (pin x c'))
unfolding count_hit
hit_result x c c' same h few hx live =
    let (ok, keeps) = same_rest c c' same h in
    (
      pin-IsConsistent x c' ok hx (rw same.0 live) (rw same.0 (few x)),
      λ y used.
          let after = pin-KeepsHandles x c' y (rw same.0 used) in
          subst
            (λ (es : List SharedAssetData). SameData (entry (pin x c') y) (get_or es y free_slot))
            same.0 after,
    )

finish_acquire_result :
    (key : Option Bytes) (o : Option ℕ) (c : AssetCache)
    → IsConsistent c
    → HasFewHandles c
    → ((x : ℕ) → o ≡ some x → (x < 512) × (is_live (entry c x) ≡ true))
    → IsConsistent (finish_acquire key o c).0 × KeepsHandles c (finish_acquire key o c).0
unfolding finish_acquire
finish_acquire_result key none c h few ok =
    same_rest c (path_record key (λ p. record p { opens = u32 (p.opens + 1) }) c)
      (path_record-SameRest key (λ p. record p { opens = u32 (p.opens + 1) }) c) h
finish_acquire_result key (some x) c h few ok =
    let (hx, live) = ok x refl in hit_result x c _ (path_record-SameRest key _ c) h few hx live

cached_live :
    (key : Option Bytes) (c : AssetCache) (x : ℕ)
    → IsConsistent c
    → cached_slot key c ≡ some x
    → (x < 512) × (is_live (entry c x) ≡ true)
unfolding cached_slot
cached_live none c x h f = cc
cached_live (some k) c x h f = live_found k c x h (ground arith)

-- An acquisition keeps the counters right and leaves every entry in use with its data.
pub asset_cache_acquire-IsConsistent :
    (key : Option Bytes) (c : AssetCache)
    → IsConsistent c
    → HasFewHandles c
    → IsConsistent (asset_cache_acquire key c).0 × KeepsHandles c (asset_cache_acquire key c).0
unfolding asset_cache_acquire
asset_cache_acquire-IsConsistent key c h few =
    finish_acquire_result key (cached_slot key c) c h few (λ x f. cached_live key c x h f)
