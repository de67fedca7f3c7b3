-- ===== src/AssetCache/Lookup.antt =====
-- What was adopted is found again.
use mathlib.Core.Option
use zombie_shooter_ps_vita_p.Prelude.{
  ℕ, zero, suc, ◌+◌, ◌^◌, ◌≤◌, ◌<◌, ◌≡◌, ◌≢◌, refl, sym, ap, ◌∙◌, Bool, true, false, ◌&&◌, Option,
  none, some, List, [], ◌∷◌, arith, length, get_or, set, get_or-set_self, ◌==◌, leb, u64,
  Bool-cases, inl, inr, str_eq, str_eq_refl,
}
use zombie_shooter_ps_vita_p.AssetCache.{
  Bytes, SharedAssetData, AssetCache, free_slot, is_live, find, find_slot_from, cached_slot,
  finish_acquire, pin, place, adopt_key, count_fallback, asset_cache_acquire, asset_cache_adopt,
  asset_cache_data, asset_cache_size,
}
use zombie_shooter_ps_vita_p.AssetCache.Counts.{IsConsistent}
use zombie_shooter_ps_vita_p.AssetCache.Eviction.{IsEvicted}
use zombie_shooter_ps_vita_p.AssetCache.Adoption.{
  Adoption, shared, placed, refused, adopt_key-Adoption,
}

abbrev has_key : Bytes → SharedAssetData → Bool
has_key k e = is_live e && str_eq e.key k

find_unchanged :
    (i : ℕ) (k : Bytes) (es : List SharedAssetData) (x : ℕ) (e : SharedAssetData)
    → has_key k e ≡ has_key k (get_or es x free_slot)
    → find_slot_from i k (set es x e) ≡ find_slot_from i k es
unfolding find_slot_from
find_unchanged i k [] x e h = refl
find_unchanged i k (d ∷ es) zero e h = rw h refl
find_unchanged i k (d ∷ es) (suc x) e h = rw (find_unchanged (suc i) k es x e h) refl

find_placed :
    (i : ℕ) (k : Bytes) (es : List SharedAssetData) (x : ℕ) (e : SharedAssetData)
    → x < length es
    → has_key k e ≡ true
    → find_slot_from i k es ≡ none
    → find_slot_from i k (set es x e) ≡ some (i + x)
unfolding find_slot_from
find_placed i k [] x e h m f = elim h [ ]
find_placed i k (d ∷ es) zero e h m f = rw m (ground arith)
find_placed i k (d ∷ es) (suc x) e h m f = elim (Bool-cases (has_key k d)) [
  | inl there ↦ cc (rw there at f)
  | inr other ↦
      rw other (find_placed (suc i) k es x e (omega arith) m (rw other at f) ∙ ground arith)
]

find_none_parts :
    (i : ℕ) (k : Bytes) (es : List SharedAssetData)
    → find_slot_from i k es ≡ none
    → (y : ℕ) → has_key k (get_or es y free_slot) ≡ false
unfolding find_slot_from
find_none_parts i k [] f y = refl
find_none_parts i k (d ∷ es) f zero = ground arith
find_none_parts i k (d ∷ es) f (suc y) = elim (Bool-cases (has_key k d)) [
  | inl there ↦ cc (rw there at f)
  | inr other ↦ find_none_parts (suc i) k es (rw other at f) y
]

find_none :
    (i : ℕ) (k : Bytes) (es : List SharedAssetData)
    → ((y : ℕ) → has_key k (get_or es y free_slot) ≡ false)
    → find_slot_from i k es ≡ none
unfolding find_slot_from
find_none i k [] h = refl
find_none i k (d ∷ es) h = rw (h 0) (find_none (suc i) k es (λ y. h (suc y)))

-- Evictions make no key appear.
evicted_absent :
    (k : Bytes) {c c' : AssetCache}
    → IsEvicted c c'
    → find k c.slots ≡ none
    → find k c'.slots ≡ none
unfolding find
evicted_absent k {c} {c'} ev f = find_none 0 k c'.slots (λ y. elim (ev.slots y) [
  | inl kept ↦ ap (has_key k) kept ∙ find_none_parts 0 k c.slots f y
  | inr (gone, can) ↦ ap (has_key k) gone
])

adopted_found :
    {k bytes : Bytes} {size : ℕ} {c : AssetCache} (r : AssetCache × Option ℕ) (x : ℕ)
    → r.1 ≡ some x
    → Adoption k bytes size c r
    → find k r.0.slots ≡ some x
unfolding find pin place
adopted_found {k} {bytes} {size} {c} r x e (shared y f o) =
    let same : y ≡ x =
      ap (λ (t : Option ℕ). Option.get_or t y)
        (ap (λ (t : AssetCache × Option ℕ). t.1) (sym o) ∙ e) in
    rw o (find_unchanged 0 k c.slots y _ refl ∙ f ∙ ap some same)
adopted_found {k} {bytes} {size} {c} r x e (placed y c' new ev hy dead room o) =
    let same : y ≡ x =
      ap (λ (t : Option ℕ). Option.get_or t y)
        (ap (λ (t : AssetCache × Option ℕ). t.1) (sym o) ∙ e) in
    rw o (
      find_placed 0 k c'.slots y
        (record {
          key = k;
          bytes = some bytes;
          size = size;
          refs = 1;
          use_time = u64 (c'.sequence + 1);
        })
        (omega (arith, (ev.consistent.0).slot_count)) (ground (arith, str_eq_refl k))
        (evicted_absent k ev new)
      ∙ ap some (ground (arith, same)))
adopted_found r x e (refused c' ev o) = cc (ap (λ (t : AssetCache × Option ℕ). t.1) (sym o) ∙ e)

-- A new entry holds what was handed over, within the limit.
HoldsNew : Bytes → Bytes → ℕ → AssetCache → AssetCache → ℕ → Type 0
HoldsNew k bytes size c c' x =
    find k c.slots ≡ none
    → (c'.stats.bytes ≤ c.stats.limit)
      × (asset_cache_data (some x) c' ≡ some bytes)
      × (asset_cache_size (some x) c' ≡ size)

adopted_limit :
    {k bytes : Bytes} {size : ℕ} {c : AssetCache} (r : AssetCache × Option ℕ)
    → Adoption k bytes size c r
    → r.0.stats.limit ≡ c.stats.limit
unfolding pin place
adopted_limit r (shared y f o) = rw o refl
adopted_limit r (placed y c' new ev hy dead room o) = rw o ev.limit
adopted_limit r (refused c' ev o) = rw o ev.limit

placed_data :
    (k bytes : Bytes) (size x : ℕ) (c : AssetCache)
    → x < length c.slots
    → (asset_cache_data (some x) (place x k bytes size c) ≡ some bytes)
      × (asset_cache_size (some x) (place x k bytes size c) ≡ size)
unfolding place asset_cache_data asset_cache_size
placed_data k bytes size x c h =
    let at_x =
      get_or-set_self c.slots x
        (record {
          key = k;
          bytes = some bytes;
          size = size;
          refs = 1;
          use_time = u64 (c.sequence + 1);
        })
        free_slot h in
    (ap (λ (t : SharedAssetData). t.bytes) at_x, ap (λ (t : SharedAssetData). t.size) at_x)

placed_bytes :
    (k bytes : Bytes) (size x limit : ℕ) (c : AssetCache)
    → c.stats.bytes + size ≤ limit
    → limit < 2 ^ 32
    → (place x k bytes size c).stats.bytes ≤ limit
unfolding place
placed_bytes k bytes size x limit c room range = omega arith

adopted_new :
    {k bytes : Bytes} {size : ℕ} {c : AssetCache} (r : AssetCache × Option ℕ) (x : ℕ)
    → IsConsistent c
    → r.1 ≡ some x
    → Adoption k bytes size c r
    → HoldsNew k bytes size c r.0 x
unfolding HoldsNew
adopted_new r x h e (shared y f o) new = cc
adopted_new {k} {bytes} {size} {c} r x h e (placed y c' _ ev hy dead room o) new =
    let same : y ≡ x =
      ap (λ (t : Option ℕ). Option.get_or t y)
        (ap (λ (t : AssetCache × Option ℕ). t.1) (sym o) ∙ e) in
    let (data_at, size_at) =
      placed_data k bytes size y c' (omega (arith, (ev.consistent.0).slot_count)) in
    rw (o, ← same) (placed_bytes k bytes size y c.stats.limit c' room h.1, data_at, size_at)
adopted_new r x h e (refused c' ev o) new = cc (ap (λ (t : AssetCache × Option ℕ). t.1) (sym o) ∙ e)

fallback_fields :
    (r : AssetCache × Option ℕ)
    → ((count_fallback r).0.slots ≡ r.0.slots)
      × ((count_fallback r).0.stats.limit ≡ r.0.stats.limit)
      × ((count_fallback r).0.stats.bytes ≡ r.0.stats.bytes)
      × ((count_fallback r).1 ≡ r.1)
unfolding count_fallback
fallback_fields (c, some x) = (refl, refl, refl, refl)
fallback_fields (c, none) = (refl, refl, refl, refl)

fallback_new :
    (k bytes : Bytes) (size x : ℕ) (c : AssetCache) (r : AssetCache × Option ℕ)
    → HoldsNew k bytes size c r.0 x
    → HoldsNew k bytes size c (count_fallback r).0 x
unfolding count_fallback HoldsNew asset_cache_data asset_cache_size
fallback_new k bytes size x c (d, some y) h = h
fallback_new k bytes size x c (d, none) h = h

acquired_handle :
    (key : Option Bytes) (o : Option ℕ) (c : AssetCache) → (finish_acquire key o c).1 ≡ o
unfolding finish_acquire
acquired_handle key none c = refl
acquired_handle key (some x) c = refl

-- Where the cache is on, an adoption that returns a handle makes the next acquisition of the key
-- return the same handle. If the key was not cached before, the entry holds the bytes and the size
-- that were handed over, and the cache is within its limit.
pub asset_cache_acquire-asset_cache_adopt :
    (k bytes : Bytes) (size : ℕ) (c : AssetCache) (x : ℕ)
    → IsConsistent c
    → c.stats.limit ≢ 0
    → (asset_cache_adopt (some k) (some bytes) size c).1 ≡ some x
    → ((asset_cache_acquire (some k) (asset_cache_adopt (some k) (some bytes) size c).0).1 ≡ some x)
      × (find k c.slots ≡ none
          → ((asset_cache_adopt (some k) (some bytes) size c).0.stats.bytes ≤ c.stats.limit)
            × (asset_cache_data (some x) (asset_cache_adopt (some k) (some bytes) size c).0
                ≡ some bytes)
            × (asset_cache_size (some x) (asset_cache_adopt (some k) (some bytes) size c).0 ≡ size))
unfolding asset_cache_adopt asset_cache_acquire cached_slot HoldsNew asset_cache_data
    asset_cache_size
asset_cache_acquire-asset_cache_adopt k bytes size c x h on e =
    elim (Bool-cases (leb 256 (length k))) [
      | inl long ↦ cc (rw long at e)
      | inr short ↦
          let r = adopt_key (find k c.slots) k bytes size c in
          let (slots, limit, count, handle) = fallback_fields r in
          let e' : r.1 ≡ some x = sym handle ∙ (rw short at e) in
          let end = adopt_key-Adoption k bytes size c (find k c.slots) h refl in
          let found = adopted_found r x e' end in
          let lim = limit ∙ adopted_limit r end in
          let nonzero : (c.stats.limit == 0) ≡ false = ground arith in
          (
            rw (short, acquired_handle, lim, nonzero, slots) found,
            rw short (fallback_new k bytes size x c r (adopted_new r x h e' end)),
          )
    ]
