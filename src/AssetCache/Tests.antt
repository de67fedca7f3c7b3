-- ===== src/AssetCache/Tests.antt =====
-- Runs of the cache on one entry.
use zombie_shooter_ps_vita_p.Prelude.{
  ℕ, zero, suc, ◌+◌, true, length, ◌≤◌, ◌<◌, ◌≡◌, refl, ap, false, none, some, [], ◌∷◌, arith,
  get_or, replicate, str_eq,
}
use zombie_shooter_ps_vita_p.AssetCache.{
  AssetPathStats, Bytes, SharedAssetData, AssetCache, AssetCacheStats, free_slot, is_live, entry,
  find, find_slot_from, asset_cache_configure, asset_cache_acquire, asset_cache_adopt,
  asset_cache_release, asset_cache_data, asset_cache_size, adopt_key, count_fallback,
}
use zombie_shooter_ps_vita_p.AssetCache.Slots.{total}
use zombie_shooter_ps_vita_p.AssetCache.Counts.{IsConsistent, size_of, live_of, pin_of}
use zombie_shooter_ps_vita_p.AssetCache.Eviction.{IsEvicted, IsStopped}
use zombie_shooter_ps_vita_p.AssetCache.Adoption.{KeepsHandles}
use zombie_shooter_ps_vita_p.AssetCache.Methods.{
  HasFewHandles, asset_cache_configure-IsEvicted, asset_cache_adopt-IsConsistent,
}
use zombie_shooter_ps_vita_p.AssetCache.Release.{IsReleased, asset_cache_release-IsReleased}
use zombie_shooter_ps_vita_p.AssetCache.Paths.{busiest, asset_cache_paths, swap_best, best_from}
use zombie_shooter_ps_vita_p.AssetCache.Busiest.{asset_cache_paths-busiest}
use zombie_shooter_ps_vita_p.AssetCache.Selection.{sum_of, are_above, are_descending}
use zombie_shooter_ps_vita_p.AssetCache.Lookup.{asset_cache_acquire-asset_cache_adopt}

abbrev music : Bytes
music = b'm' ∷ []

abbrev menu : Bytes
menu = b'n' ∷ []

abbrev held : SharedAssetData
held = record { key = music; bytes = some (b'x' ∷ []); size = 1; refs = 1; use_time = 1 }

abbrev some_stats : AssetCacheStats
some_stats = record {
  hits = 0;
  misses = 0;
  evictions = 0;
  avoided_opens = 0;
  fallback = 0;
  entries = 1;
  pinned = 1;
  saved_read_bytes = 0;
  bytes = 1;
  peak_bytes = 1;
  limit = 8;
}

-- One entry in use.
abbrev cache : AssetCache
cache = record {
  slots = held ∷ replicate 511 free_slot;
  stats = some_stats;
  sequence = 1;
  paths = [];
  path_overflow = 0;
}

total_free :
    (f : SharedAssetData → ℕ) (n : ℕ) → f free_slot ≡ 0 → total f (replicate n free_slot) ≡ 0
unfolding total
total_free f zero h = refl
total_free f (suc n) h = omega (arith, h, total_free f n h)

free_entry : (n y : ℕ) → get_or (replicate n free_slot) y free_slot ≡ free_slot
free_entry zero y = refl
free_entry (suc n) zero = refl
free_entry (suc n) (suc y) = free_entry n y

unused_slot : (y : ℕ) → is_live (entry cache y) ≡ false → (entry cache y).refs ≡ 0
unused_slot zero h = cc
unused_slot (suc y) h = ap (λ (e : SharedAssetData). e.refs) (free_entry 511 y)

few : HasFewHandles cache
few zero = omega arith
few (suc y) = omega (arith, ap (λ (e : SharedAssetData). e.refs) (free_entry 511 y))

cache-IsConsistent : IsConsistent cache
unfolding total
cache-IsConsistent = (
  record {
    slot_count = refl;
    bytes_sum = omega (arith, total_free size_of 511 refl);
    bytes_range = omega arith;
    entries_sum = omega (arith, total_free live_of 511 refl);
    pinned_sum = omega (arith, total_free pin_of 511 refl);
    unused = unused_slot;
  },
  omega arith,
)

asset_cache_configure-IsEvicted_example :
    IsEvicted
      (record cache { stats = record some_stats { limit = 0 } })
      (asset_cache_configure 0 cache)
    × ((asset_cache_configure 0 cache).stats.limit ≡ 0)
    × IsStopped 0 (asset_cache_configure 0 cache)
asset_cache_configure-IsEvicted_example =
    asset_cache_configure-IsEvicted 0 cache cache-IsConsistent (omega arith)

asset_cache_adopt-IsConsistent_example :
    IsConsistent (asset_cache_adopt (some menu) (some music) 1 cache).0
    × KeepsHandles cache (asset_cache_adopt (some menu) (some music) 1 cache).0
asset_cache_adopt-IsConsistent_example =
    asset_cache_adopt-IsConsistent (some menu) (some music) 1 cache cache-IsConsistent few

asset_cache_release-IsReleased_example :
    IsConsistent (asset_cache_release (some 0) cache)
    × IsReleased 0 cache (asset_cache_release (some 0) cache)
    × (held.refs ≡ 1
        → some_stats.limit < some_stats.bytes
        → is_live (entry (asset_cache_release (some 0) cache) 0) ≡ false)
asset_cache_release-IsReleased_example =
    asset_cache_release-IsReleased 0 cache cache-IsConsistent (omega arith) (λ e. omega (arith, e))

shared_again : (asset_cache_adopt (some music) (some menu) 1 cache).1 ≡ some 0
unfolding asset_cache_adopt adopt_key find find_slot_from count_fallback str_eq
shared_again = refl

asset_cache_acquire-asset_cache_adopt_example :
    ((asset_cache_acquire (some music) (asset_cache_adopt (some music) (some menu) 1 cache).0).1
      ≡ some 0)
    × (find music cache.slots ≡ none
        → ((asset_cache_adopt (some music) (some menu) 1 cache).0.stats.bytes ≤ 8)
          × (asset_cache_data (some 0) (asset_cache_adopt (some music) (some menu) 1 cache).0
              ≡ some menu)
          × (asset_cache_size (some 0) (asset_cache_adopt (some music) (some menu) 1 cache).0 ≡ 1))
asset_cache_acquire-asset_cache_adopt_example =
    asset_cache_acquire-asset_cache_adopt music menu 1 cache 0 cache-IsConsistent
      (λ e. omega (arith, e)) shared_again

abbrev opened : Bytes → ℕ → AssetPathStats
opened k n = record { key = k; opens = n; hits = 0; closes = 0; read_bytes = 0; size = 0 }

abbrev played : AssetCache
played = record cache { paths = opened music 1 ∷ opened menu 4 ∷ opened [] 2 ∷ [] }

most_opened : (asset_cache_paths played).1 ≡ opened menu 4 ∷ opened [] 2 ∷ opened music 1 ∷ []
unfolding asset_cache_paths busiest swap_best best_from
most_opened = refl

asset_cache_paths-busiest_example :
    (length (asset_cache_paths played).1 ≡ 3)
    × (are_descending (asset_cache_paths played).1 ≡ true)
    × (are_above (asset_cache_paths played).1 (busiest 5 played.paths).1 ≡ true)
    × (sum_of (λ p. p.opens) (asset_cache_paths played).1
          + sum_of (λ p. p.opens) (busiest 5 played.paths).1
        ≡ sum_of (λ p. p.opens) played.paths)
asset_cache_paths-busiest_example = asset_cache_paths-busiest played (λ p. p.opens)
