-- ===== src/AssetCache.antt =====
-- utils/asset_cache.c: the cache of whole asset files, bounded by bytes and by slots, with least
-- recently used eviction. Each function runs under cache_lock, so it is one step. A pointer to an
-- entry is its index; `unsigned` and `size_t` have 32 bits.
pub mod Slots
pub mod Oldest
pub mod Counts
pub mod Eviction
pub mod Adoption
pub mod Methods
pub mod Release
pub mod Lookup
pub mod Paths
pub mod Selection
pub mod Busiest
mod Tests
use zombie_shooter_ps_vita_p.Prelude.{
  ℕ, zero, suc, ◌+◌, ◌-◌, ◌*◌, ◌^◌, ◌%◌, Bool, true, false, not, ◌&&◌, ◌||◌, Option, none, some,
  List, [], ◌∷◌, ◌++◌, length, get_or, set, ltb, leb, ◌==◌, if◌then◌else◌, str_eq, u32, u64, sub32,
}

abbrev pub Bytes : Type 0
Bytes = List ℕ

-- `bytes` is `none` for a null pointer, which marks a free slot.
pub record SharedAssetData : Type 0 where
  pub key : Bytes
  pub bytes : Option Bytes
  pub size : ℕ
  pub refs : ℕ
  pub use_time : ℕ

abbrev pub free_slot : SharedAssetData
free_slot = record { key = []; bytes = none; size = 0; refs = 0; use_time = 0 }

pub record AssetCacheStats : Type 0 where
  pub hits : ℕ
  pub misses : ℕ
  pub evictions : ℕ
  pub avoided_opens : ℕ
  pub fallback : ℕ
  pub entries : ℕ
  pub pinned : ℕ
  pub saved_read_bytes : ℕ
  pub bytes : ℕ
  pub peak_bytes : ℕ
  pub limit : ℕ

pub record AssetPathStats : Type 0 where
  pub key : Bytes
  pub opens : ℕ
  pub hits : ℕ
  pub closes : ℕ
  pub read_bytes : ℕ
  pub size : ℕ

pub record AssetCache : Type 0 where
  pub slots : List SharedAssetData
  pub stats : AssetCacheStats
  pub sequence : ℕ
  pub paths : List AssetPathStats
  pub path_overflow : ℕ

-- The loop of path_record over the paths, and the change that its caller makes to the record.
unfoldable pub update_path :
    Bytes → (AssetPathStats → AssetPathStats) → List AssetPathStats → Option (List AssetPathStats)
update_path k f [] = none
update_path k f (p ∷ ps) =
    if str_eq p.key k
    then some (f p ∷ ps)
    else (elim (update_path k f ps) [ none ↦ none | some qs ↦ some (p ∷ qs) ])

abbrev pub new_path : Bytes → AssetPathStats
new_path k = record { key = k; opens = 0; hits = 0; closes = 0; read_bytes = 0; size = 0 }

unfoldable pub overflowed : AssetCache → AssetCache
overflowed c = record c { path_overflow = u32 (c.path_overflow + 1) }

unfoldable pub add_path :
    Bytes
    → (AssetPathStats → AssetPathStats)
    → Option (List AssetPathStats)
    → AssetCache
    → AssetCache
add_path k f (some ps) c = record c { paths = ps }
add_path k f none c =
    if length c.paths == 128
    then overflowed c
    else record c { paths = c.paths ++ f (new_path k) ∷ [] }

unfoldable pub path_record :
    Option Bytes → (AssetPathStats → AssetPathStats) → AssetCache → AssetCache
path_record none f c = overflowed c
path_record (some k) f c =
    if leb 256 (length k) then overflowed c else add_path k f (update_path k f c.paths) c

unfoldable pub asset_cache_note_close : Option Bytes → ℕ → ℕ → AssetCache → AssetCache
asset_cache_note_close key bytes size c =
    path_record key
      (λ p. record p {
        closes = u32 (p.closes + 1);
        read_bytes = u64 (p.read_bytes + bytes);
        size = size;
      })
      c

abbrev pub is_live : SharedAssetData → Bool
is_live e = elim e.bytes [ none ↦ false | some _ ↦ true ]

-- The loop of find from slot `i` on.
unfoldable pub find_slot_from : ℕ → Bytes → List SharedAssetData → Option ℕ
find_slot_from i k [] = none
find_slot_from i k (e ∷ es) =
    if is_live e && str_eq e.key k then some i else find_slot_from (suc i) k es

unfoldable pub find : Bytes → List SharedAssetData → Option ℕ
find k es = find_slot_from 0 k es

abbrev pub entry : AssetCache → ℕ → SharedAssetData
entry c x = get_or c.slots x free_slot

unfoldable pub evict : ℕ → AssetCache → AssetCache
evict x c = record c {
  stats = record c.stats {
    bytes = sub32 c.stats.bytes (entry c x).size;
    entries = sub32 c.stats.entries 1;
    evictions = u32 (c.stats.evictions + 1);
  };
  slots = set c.slots x free_slot;
}

abbrev pub is_evictable : SharedAssetData → Bool
is_evictable e = is_live e && e.refs == 0

unfoldable pub is_older : SharedAssetData → Option (ℕ × SharedAssetData) → Bool
is_older e none = true
is_older e (some (x, b)) = ltb e.use_time b.use_time

-- The loop of oldest from slot `i` on, with the best entry so far.
unfoldable pub oldest_from :
    ℕ → Option (ℕ × SharedAssetData) → List SharedAssetData → Option (ℕ × SharedAssetData)
oldest_from i best [] = best
oldest_from i best (e ∷ es) =
    oldest_from (suc i) (if is_evictable e && is_older e best then some (i, e) else best) es

unfoldable pub oldest : List SharedAssetData → Option (ℕ × SharedAssetData)
oldest es = oldest_from 0 none es

-- `while(stats.bytes>target) { e=oldest(); if(!e) break; evict(e); }`, on fuel.
unfoldable pub evict_down : ℕ → ℕ → AssetCache → AssetCache
evict_down zero target c = c
evict_down (suc fuel) target c = elim (leb c.stats.bytes target) [
  | true ↦ c
  | false ↦ elim (oldest c.slots) [ none ↦ c | some (x, e) ↦ evict_down fuel target (evict x c) ]
]

-- Every round frees a slot.
abbrev pub enough_fuel : AssetCache → ℕ
enough_fuel c = suc (length c.slots)

unfoldable pub asset_cache_configure : ℕ → AssetCache → AssetCache
asset_cache_configure limit c =
    let c' = record c { stats = record c.stats { limit = limit } } in
    evict_down (enough_fuel c') limit c'

-- `if(!e->refs) stats.pinned++; e->refs++; e->use=++sequence;`
unfoldable pub pin : ℕ → AssetCache → AssetCache
pin x c =
    let e = entry c x in
    let time = u64 (c.sequence + 1) in
    record c {
      slots = set c.slots x (record e { refs = u32 (e.refs + 1); use_time = time });
      sequence = time;
      stats = record c.stats {
        pinned = (if e.refs == 0 then u32 (c.stats.pinned + 1) else c.stats.pinned);
      };
    }

unfoldable pub count_hit : ℕ → AssetCache → AssetCache
count_hit x c = record c {
  stats = record c.stats {
    hits = u32 (c.stats.hits + 1);
    avoided_opens = u32 (c.stats.avoided_opens + 1);
    saved_read_bytes = u64 (c.stats.saved_read_bytes + (entry c x).size);
  };
}

unfoldable pub cached_slot : Option Bytes → AssetCache → Option ℕ
cached_slot none c = none
cached_slot (some k) c = if c.stats.limit == 0 then none else find k c.slots

unfoldable pub finish_acquire : Option Bytes → Option ℕ → AssetCache → AssetCache × Option ℕ
finish_acquire key none c =
    let c' = path_record key (λ p. record p { opens = u32 (p.opens + 1) }) c in
    (record c' { stats = record c'.stats { misses = u32 (c'.stats.misses + 1) } }, none)
finish_acquire key (some x) c =
    let c' =
      path_record key
        (λ p. record p {
          opens = u32 (p.opens + 1);
          hits = u32 (p.hits + 1);
          size = (entry c x).size;
        })
        c in
    (count_hit x (pin x c'), some x)

unfoldable pub asset_cache_acquire : Option Bytes → AssetCache → AssetCache × Option ℕ
asset_cache_acquire key c = finish_acquire key (cached_slot key c) c

-- The loop that looks for a free slot.
unfoldable pub free_from : ℕ → List SharedAssetData → Option ℕ
free_from i [] = none
free_from i (e ∷ es) = if is_live e then free_from (suc i) es else some i

-- The new entry in slot `x`.
unfoldable pub place : ℕ → Bytes → Bytes → ℕ → AssetCache → AssetCache
place x k bytes size c =
    let time = u64 (c.sequence + 1) in
    let total = u32 (c.stats.bytes + size) in
    record c {
      slots =
          set c.slots x
            (record { key = k; bytes = some bytes; size = size; refs = 1; use_time = time });
      sequence = time;
      stats = record c.stats {
        bytes = total;
        entries = u32 (c.stats.entries + 1);
        pinned = u32 (c.stats.pinned + 1);
        peak_bytes = (if ltb c.stats.peak_bytes total then total else c.stats.peak_bytes);
      };
    }

unfoldable pub place_evicting :
    Option (ℕ × SharedAssetData) → Bytes → Bytes → ℕ → AssetCache → AssetCache × Option ℕ
place_evicting none k bytes size c = (c, none)
place_evicting (some (x, e)) k bytes size c = (place x k bytes size (evict x c), some x)

unfoldable pub place_somewhere : Option ℕ → Bytes → Bytes → ℕ → AssetCache → AssetCache × Option ℕ
place_somewhere (some x) k bytes size c = (place x k bytes size c, some x)
place_somewhere none k bytes size c = place_evicting (oldest c.slots) k bytes size c

unfoldable pub admit : Bytes → Bytes → ℕ → AssetCache → AssetCache × Option ℕ
admit k bytes size c =
    if leb size c.stats.limit && not (c.stats.limit == 0)
    then (let room = c.stats.limit - size in
        let c' = evict_down (enough_fuel c) room c in
        if leb c'.stats.bytes room
        then place_somewhere (free_from 0 c'.slots) k bytes size c'
        else (c', none))
    else (c, none)

unfoldable pub adopt_key : Option ℕ → Bytes → Bytes → ℕ → AssetCache → AssetCache × Option ℕ
adopt_key (some x) k bytes size c = (pin x c, some x)
adopt_key none k bytes size c = admit k bytes size c

-- `if(!e) stats.fallback++;`
unfoldable pub count_fallback : AssetCache × Option ℕ → AssetCache × Option ℕ
count_fallback (c, some x) = (c, some x)
count_fallback (c, none) =
    (record c { stats = record c.stats { fallback = u32 (c.stats.fallback + 1) } }, none)

-- `*bytes` afterwards is `bytes` of the entry that is returned.
unfoldable pub asset_cache_adopt :
    Option Bytes → Option Bytes → ℕ → AssetCache → AssetCache × Option ℕ
asset_cache_adopt none bytes size c = (c, none)
asset_cache_adopt (some k) none size c = (c, none)
asset_cache_adopt (some k) (some bytes) size c =
    if leb 256 (length k)
    then (c, none)
    else count_fallback (adopt_key (find k c.slots) k bytes size c)

-- The last handle is given back: `stats.pinned--; e->use=++sequence;`.
unfoldable pub give_back : ℕ → AssetCache → AssetCache
give_back x c =
    let time = u64 (c.sequence + 1) in
    record c {
      slots = set c.slots x (record (entry c x) { refs = 0; use_time = time });
      sequence = time;
      stats = record c.stats { pinned = sub32 c.stats.pinned 1 };
    }

unfoldable pub unpin : ℕ → AssetCache → AssetCache
unpin x c = let c' = give_back x c in if ltb c'.stats.limit c'.stats.bytes then evict x c' else c'

unfoldable pub asset_cache_release : Option ℕ → AssetCache → AssetCache
asset_cache_release none c = c
asset_cache_release (some x) c =
    let e = entry c x in
    if e.refs == 0
    then c
    else if e.refs == 1
    then unpin x c
    else record c { slots = set c.slots x (record e { refs = e.refs - 1 }) }

unfoldable pub asset_cache_data : Option ℕ → AssetCache → Option Bytes
asset_cache_data none c = none
asset_cache_data (some x) c = (entry c x).bytes

unfoldable pub asset_cache_size : Option ℕ → AssetCache → ℕ
asset_cache_size none c = 0
asset_cache_size (some x) c = (entry c x).size
