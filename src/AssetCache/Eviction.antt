-- ===== src/AssetCache/Eviction.antt =====
-- The eviction loop: it stops with room or with every entry in use, and touches no entry in use.
use mathlib.Core.Bool.{false≢true}
use zombie_shooter_ps_vita_p.Prelude.{
  ℕ, zero, suc, ◌^◌, ◌≤◌, ◌<◌, ◌≡◌, ◌⊎◌, refl, sym, ap, ◌∙◌, sub32, subst, true, false, some, arith,
  length, get_or-set, ◌==◌, leb, Bool-cases, Option-cases, inl, inr,
}
use zombie_shooter_ps_vita_p.AssetCache.{
  SharedAssetData, AssetCache, free_slot, is_evictable, entry, evict, oldest, evict_down,
  enough_fuel,
}
use zombie_shooter_ps_vita_p.AssetCache.Oldest.{IsOldest, oldest-IsOldest, oldest-none}
use zombie_shooter_ps_vita_p.AssetCache.Counts.{
  IsConsistent, live_range, slot_parts, evict-IsConsistent,
}

-- What evictions may do: they free slots that are not in use, those first that were used longest
-- ago, keep every other slot as it is, and keep the limit.
pub record IsEvicted (c c' : AssetCache) : Type 0 where
  pub consistent : IsConsistent c'
  pub limit : c'.stats.limit ≡ c.stats.limit
  pub fewer : c'.stats.bytes ≤ c.stats.bytes
  pub slots :
      (y : ℕ)
      → (entry c' y ≡ entry c y) ⊎ ((entry c' y ≡ free_slot) × (is_evictable (entry c y) ≡ true))
  pub order :
      (y z : ℕ)
      → entry c' y ≡ free_slot
      → is_evictable (entry c y) ≡ true
      → is_evictable (entry c' z) ≡ true
      → (entry c y).use_time ≤ (entry c z).use_time

pub none-IsEvicted : (c : AssetCache) → IsConsistent c → IsEvicted c c
none-IsEvicted c h = record {
  consistent = h;
  limit = refl;
  fewer = omega arith;
  slots = λ y. inl refl;
  order = λ y z fr ev ez. absurd (false≢true (ap is_evictable (sym fr) ∙ ev));
}

evicted_slot :
    (x y : ℕ) (c : AssetCache)
    → x < length c.slots
    → ((x ≡ y) × (entry (evict x c) y ≡ free_slot)) ⊎ (entry (evict x c) y ≡ entry c y)
unfolding evict
evicted_slot x y c hx = elim (Bool-cases (x == y)) [
  | inl same ↦ inl (ground arith, get_or-set c.slots x y free_slot free_slot hx ∙ rw same refl)
  | inr other ↦ inr (get_or-set c.slots x y free_slot free_slot hx ∙ rw other refl)
]

smaller : (b s : ℕ) → s ≤ b → b < 2 ^ 32 → sub32 b s ≤ b
smaller b s h k = omega arith

evict_bytes :
    (x : ℕ) (c : AssetCache)
    → IsConsistent c
    → x < 512
    → is_evictable (entry c x) ≡ true
    → (evict x c).stats.bytes ≤ c.stats.bytes
unfolding evict
evict_bytes x c h hx ev =
    smaller c.stats.bytes (entry c x).size (ground (arith, (slot_parts h.0 x hx).0))
      (h.0).bytes_range

not_free : (d e : SharedAssetData) → d ≡ free_slot → is_evictable d ≡ true → ⊥
not_free d e h k = false≢true (ap is_evictable (sym h) ∙ k)

pub evict-IsEvicted :
    (x : ℕ) (e : SharedAssetData) (c : AssetCache)
    → IsConsistent c
    → IsOldest c.slots x e
    → IsEvicted c (evict x c) × (suc (evict x c).stats.entries ≡ c.stats.entries)
evict-IsEvicted x e c h old =
    let hx : x < 512 = omega (arith, old.there, (h.0).slot_count) in
    let ev : is_evictable (entry c x) ≡ true = ap is_evictable old.slot ∙ old.evictable in
    let (good, count) = evict-IsConsistent x c h hx ev in
    (
      record {
        consistent = good;
        limit = unfold evict in refl;
        fewer = evict_bytes x c h hx ev;
        slots = λ y. elim (evicted_slot x y c old.there) [
          | inl (same, gone) ↦
              inr (gone, subst (λ (i : ℕ). is_evictable (entry c i) ≡ true) same ev)
          | inr kept ↦ inl kept
        ];
        order = λ y z gone evy evz. elim (evicted_slot x y c old.there) [
          | inl (same, _) ↦ elim (evicted_slot x z c old.there) [
            | inl (_, free) ↦ absurd (not_free (entry (evict x c) z) e free evz)
            | inr kept ↦
                let least = old.least z (ap is_evictable (sym kept) ∙ evz) in
                let first : (entry c y).use_time ≡ e.use_time =
                  ap (λ (i : ℕ). (entry c i).use_time) (sym same)
                  ∙ ap (λ (d : SharedAssetData). d.use_time) old.slot in
                omega arith
          ]
          | inr kept ↦ absurd (not_free (entry c y) e (sym kept ∙ gone) evy)
        ];
      },
      count,
    )

-- Evictions after evictions.
pub evictions-IsEvicted : {a b c : AssetCache} → IsEvicted a b → IsEvicted b c → IsEvicted a c
evictions-IsEvicted {a} {b} {c} p q = record {
  consistent = q.consistent;
  limit = q.limit ∙ p.limit;
  fewer = omega (arith, p.fewer, q.fewer);
  slots = λ y. elim (q.slots y) [
    | inl kept ↦ elim (p.slots y) [
      | inl kept' ↦ inl (kept ∙ kept')
      | inr (gone, ev) ↦ inr (kept ∙ gone, ev)
    ]
    | inr (gone, ev) ↦ elim (p.slots y) [
      | inl kept' ↦ inr (gone, ap is_evictable (sym kept') ∙ ev)
      | inr (gone', ev') ↦ inr (gone, ev')
    ]
  ];
  order = λ y z gone evy evz. elim (q.slots z) [
    | inr (free, _) ↦ absurd (not_free (entry c z) (entry c z) free evz)
    | inl kept ↦
        let evz' : is_evictable (entry b z) ≡ true = ap is_evictable (sym kept) ∙ evz in
        elim (p.slots y) [
          | inr (gone', ev') ↦ p.order y z gone' evy evz'
          | inl kept' ↦ elim (p.slots z) [
            | inr (free', _) ↦ absurd (not_free (entry b z) (entry b z) free' evz')
            | inl kept'' ↦
                let later = q.order y z gone (ap is_evictable kept' ∙ evy) evz in
                let one = ap (λ (d : SharedAssetData). d.use_time) kept' in
                let two = ap (λ (d : SharedAssetData). d.use_time) kept'' in omega arith
          ]
        ]
  ];
}

-- The loop is done: there is room, or no entry can be evicted.
abbrev pub IsStopped : ℕ → AssetCache → Type 0
IsStopped target c = (c.stats.bytes ≤ target) ⊎ ((y : ℕ) → is_evictable (entry c y) ≡ false)

evict_down-step :
    (fuel target : ℕ) (c : AssetCache)
    → ((evict_down (suc fuel) target c ≡ c) × IsStopped target c)
      ⊎ ((x : ℕ) × (e : SharedAssetData) × (oldest c.slots ≡ some (x, e))
          × (evict_down (suc fuel) target c ≡ evict_down fuel target (evict x c)))
unfolding evict_down
evict_down-step fuel target c = elim (Bool-cases (leb c.stats.bytes target)) [
  | inl room ↦ inl (rw (evict_down, room) refl, inl (ground arith))
  | inr full ↦ elim (Option-cases (oldest c.slots)) [
    | inl nothing ↦ inl (rw (evict_down, full, nothing) refl, inr (oldest-none c.slots nothing))
    | inr ((x, e), found) ↦ inr (x, e, found, rw (evict_down, full, found) refl)
  ]
]

-- With more fuel than entries the loop ends by its own condition.
evict_down_stops :
    (fuel target : ℕ) (c : AssetCache)
    → IsConsistent c
    → c.stats.entries < fuel
    → IsEvicted c (evict_down fuel target c) × IsStopped target (evict_down fuel target c)
evict_down_stops zero target c h few = absurd (omega arith)
evict_down_stops (suc fuel) target c h few = elim (evict_down-step fuel target c) [
  | inl (done, stopped) ↦ rw done (none-IsEvicted c h, stopped)
  | inr (x, e, found, next) ↦
      let (first, count) = evict-IsEvicted x e c h (oldest-IsOldest c.slots x e found) in
      let (rest, stopped) =
        evict_down_stops fuel target (evict x c) first.consistent (omega arith) in
      rw next (evictions-IsEvicted first rest, stopped)
]

pub evict_down-IsStopped :
    (target : ℕ) (c : AssetCache)
    → IsConsistent c
    → IsEvicted c (evict_down (enough_fuel c) target c)
      × IsStopped target (evict_down (enough_fuel c) target c)
evict_down-IsStopped target c h =
    evict_down_stops (enough_fuel c) target c h (omega (arith, live_range h.0, (h.0).slot_count))
