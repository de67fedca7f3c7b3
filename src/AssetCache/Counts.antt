-- ===== src/AssetCache/Counts.antt =====
-- The counters of the cache are sums over its slots.
use zombie_shooter_ps_vita_p.Prelude.{
  ℕ, suc, ◌+◌, ◌^◌, ◌≤◌, ◌<◌, ◌≡◌, refl, true, false, some, List, arith, length, length-set, get_or,
  set, get_or-set, if◌then◌else◌, ◌==◌, u32, u64, sub32, if_both,
}
use zombie_shooter_ps_vita_p.AssetCache.{
  SharedAssetData, AssetCache, Bytes, free_slot, is_live, is_evictable, entry, evict, pin, place,
}
use zombie_shooter_ps_vita_p.AssetCache.Slots.{total, total-set, total_get, total-bound}

abbrev pub size_of : SharedAssetData → ℕ
size_of e = if is_live e then e.size else 0

abbrev pub live_of : SharedAssetData → ℕ
live_of e = if is_live e then 1 else 0

abbrev pub pin_of : SharedAssetData → ℕ
pin_of e = if e.refs == 0 then 0 else 1

pub record HasCounts (slots : List SharedAssetData) (bytes entries pinned : ℕ) : Type 0 where
  pub slot_count : length slots ≡ 512
  pub bytes_sum : bytes ≡ total size_of slots
  pub bytes_range : bytes < 2 ^ 32
  pub entries_sum : entries ≡ total live_of slots
  pub pinned_sum : pinned ≡ total pin_of slots
  pub unused :
      (x : ℕ) → is_live (get_or slots x free_slot) ≡ false → (get_or slots x free_slot).refs ≡ 0

-- The counters say how many bytes and entries the slots hold and how many entries are in use; a
-- free slot is not in use.
abbrev pub IsConsistent : AssetCache → Type 0
IsConsistent c =
    HasCounts c.slots c.stats.bytes c.stats.entries c.stats.pinned × (c.stats.limit < 2 ^ 32)

module _ {slots : List SharedAssetData} {b n p : ℕ} (h : HasCounts slots b n p) where
  pub live_range : n ≤ 512
  live_range =
      omega (arith, h.entries_sum, h.slot_count, total-bound live_of slots (λ x. ground arith))

  pub pinned_range : p ≤ 512
  pinned_range =
      omega (arith, h.pinned_sum, h.slot_count, total-bound pin_of slots (λ x. ground arith))

  -- One slot changes, and the counters with it.
  pub change_slot :
      (x : ℕ) (e : SharedAssetData) (b' n' p' : ℕ)
      → x < 512
      → (is_live e ≡ false → e.refs ≡ 0)
      → b' + size_of (get_or slots x free_slot) ≡ b + size_of e
      → n' + live_of (get_or slots x free_slot) ≡ n + live_of e
      → p' + pin_of (get_or slots x free_slot) ≡ p + pin_of e
      → b' < 2 ^ 32
      → HasCounts (set slots x e) b' n' p'
  change_slot x e b' n' p' hx he eb en ep range =
      let below : x < length slots = omega (arith, h.slot_count) in
      record {
        slot_count = omega (arith, length-set slots x e, h.slot_count);
        bytes_sum = omega (arith, h.bytes_sum, total-set size_of slots x e below);
        bytes_range = range;
        entries_sum = omega (arith, h.entries_sum, total-set live_of slots x e below);
        pinned_sum = omega (arith, h.pinned_sum, total-set pin_of slots x e below);
        unused = λ y. rw (get_or-set slots x y e free_slot below) (
            if_both (λ (d : SharedAssetData). is_live d ≡ false → d.refs ≡ 0) (x == y) he
              (h.unused y));
      }

  pub slot_parts :
      (x : ℕ)
      → x < 512
      → (size_of (get_or slots x free_slot) ≤ b)
        × (live_of (get_or slots x free_slot) ≤ n)
        × (pin_of (get_or slots x free_slot) ≤ p)
  slot_parts x hx =
      let below : x < length slots = omega (arith, h.slot_count) in
      (
        omega (arith, h.bytes_sum, total_get size_of slots x below),
        omega (arith, h.entries_sum, total_get live_of slots x below),
        omega (arith, h.pinned_sum, total_get pin_of slots x below),
      )

pub evict-IsConsistent :
    (x : ℕ) (c : AssetCache)
    → IsConsistent c
    → x < 512
    → is_evictable (entry c x) ≡ true
    → IsConsistent (evict x c) × (suc (evict x c).stats.entries ≡ c.stats.entries)
unfolding evict
evict-IsConsistent x c h hx ev =
    let (sz, lv, pn) = slot_parts h.0 x hx in
    let few = live_range h.0 in
    (
      (
        change_slot h.0 x free_slot (sub32 c.stats.bytes (entry c x).size) (sub32 c.stats.entries 1)
            c.stats.pinned hx (λ _. refl) (ground arith) (ground arith) (ground arith)
            (omega arith),
        h.1,
      ),
      ground arith,
    )

pub pin-IsConsistent :
    (x : ℕ) (c : AssetCache)
    → IsConsistent c
    → x < 512
    → is_live (entry c x) ≡ true
    → (entry c x).refs + 1 < 2 ^ 32
    → IsConsistent (pin x c)
unfolding pin
pin-IsConsistent x c h hx live few =
    let range = pinned_range h.0 in
    (
      change_slot h.0 x
          (record (entry c x) {
            refs = u32 ((entry c x).refs + 1);
            use_time = u64 (c.sequence + 1);
          })
          c.stats.bytes c.stats.entries
          (if (entry c x).refs == 0 then u32 (c.stats.pinned + 1) else c.stats.pinned) hx
          (λ dead. cc) refl refl (ground arith) (h.0).bytes_range,
      h.1,
    )

pub place-IsConsistent :
    (x : ℕ) (k bytes : Bytes) (size : ℕ) (c : AssetCache)
    → IsConsistent c
    → x < 512
    → is_live (entry c x) ≡ false
    → c.stats.bytes + size < 2 ^ 32
    → IsConsistent (place x k bytes size c)
unfolding place
place-IsConsistent x k bytes size c h hx dead fits =
    let few = live_range h.0 in
    let range = pinned_range h.0 in
    let idle = (h.0).unused x dead in
    (
      change_slot h.0 x
          (record {
            key = k;
            bytes = some bytes;
            size = size;
            refs = 1;
            use_time = u64 (c.sequence + 1);
          })
          (u32 (c.stats.bytes + size)) (u32 (c.stats.entries + 1)) (u32 (c.stats.pinned + 1)) hx
          (λ l. cc) (ground arith) (ground arith) (ground arith) (omega arith),
      h.1,
    )

-- A reference is given back.
pub dropped-IsConsistent :
    (x refs time : ℕ) (c : AssetCache)
    → IsConsistent c
    → x < 512
    → refs + 1 ≡ (entry c x).refs
    → HasCounts
        (set c.slots x (record (entry c x) { refs = refs; use_time = time }))
        c.stats.bytes
        c.stats.entries
        (if refs == 0 then sub32 c.stats.pinned 1 else c.stats.pinned)
dropped-IsConsistent x refs time c h hx one_more =
    let range = pinned_range h.0 in
    let (sz, lv, pn) = slot_parts h.0 x hx in
    change_slot h.0 x (record (entry c x) { refs = refs; use_time = time }) c.stats.bytes
      c.stats.entries (if refs == 0 then sub32 c.stats.pinned 1 else c.stats.pinned) hx
      (λ dead. ground (arith, (h.0).unused x dead)) refl refl (ground arith) (h.0).bytes_range
