-- ===== src/AssetCache/Adoption.antt =====
-- How an adoption ends, and which entries it leaves alone.
use mathlib.Core.Bool.{false≢true}
use zombie_shooter_ps_vita_p.Prelude.{
  ℕ, zero, suc, ◌+◌, ◌-◌, ◌≤◌, ◌<◌, ◌≡◌, ◌≢◌, refl, sym, ap, ◌∙◌, subst, true, false, not, ◌&&◌,
  Option, none, some, List, [], ◌∷◌, arith, length, get_or, set, get_or-set_self, get_or-set_ne,
  ◌==◌, leb, if_both, if_cases, Bool-cases, inl, inr, str_eq,
}
use zombie_shooter_ps_vita_p.AssetCache.{
  Bytes, SharedAssetData, AssetCache, AssetPathStats, free_slot, is_live, is_evictable, entry,
  evict, oldest, evict_down, enough_fuel, overflowed, add_path, update_path, path_record, find,
  find_slot_from, pin, place, place_evicting, place_somewhere, free_from, admit, adopt_key,
}
use zombie_shooter_ps_vita_p.AssetCache.Oldest.{oldest-IsOldest}
use zombie_shooter_ps_vita_p.AssetCache.Counts.{IsConsistent}
use zombie_shooter_ps_vita_p.AssetCache.Eviction.{
  IsEvicted, none-IsEvicted, evict-IsEvicted, evictions-IsEvicted, evict_down-IsStopped,
}

-- What find and the search for a free slot return.
pub found_slot :
    (i : ℕ) (k : Bytes) (es : List SharedAssetData) (x : ℕ)
    → find_slot_from i k es ≡ some x
    → (y : ℕ) × (x ≡ i + y)
      × (y < length es)
      × ((is_live (get_or es y free_slot) && str_eq (get_or es y free_slot).key k) ≡ true)
unfolding find_slot_from
found_slot i k [] x h = cc
found_slot i k (e ∷ es) x h = elim (Bool-cases (is_live e && str_eq e.key k)) [
  | inl here ↦ (0, ground arith, omega arith, here)
  | inr later ↦
      let (y, at_y, below, ok) = found_slot (suc i) k es x (rw later at h) in
      (suc y, omega arith, omega arith, ok)
]

free_slot_at :
    (i : ℕ) (es : List SharedAssetData) (x : ℕ)
    → free_from i es ≡ some x
    → (y : ℕ) × (x ≡ i + y) × (y < length es) × (is_live (get_or es y free_slot) ≡ false)
unfolding free_from
free_slot_at i [] x h = cc
free_slot_at i (e ∷ es) x h = elim (Bool-cases (is_live e)) [
  | inr here ↦ (0, ground arith, omega arith, here)
  | inl later ↦
      let (y, at_y, below, ok) = free_slot_at (suc i) es x (rw later at h) in
      (suc y, omega arith, omega arith, ok)
]

-- The paths do not touch the slots and the counters of the cache.
abbrev pub SameRest : AssetCache → AssetCache → Type 0
SameRest c c' = (c'.slots ≡ c.slots) × (c'.stats ≡ c.stats) × (c'.sequence ≡ c.sequence)

add_path-SameRest :
    (k : Bytes) (f : AssetPathStats → AssetPathStats) (o : Option (List AssetPathStats))
    (c : AssetCache)
    → SameRest c (add_path k f o c)
unfolding add_path overflowed
add_path-SameRest k f (some ps) c = (refl, refl, refl)
add_path-SameRest k f none c =
    if_both (SameRest c) (length c.paths == 128) (refl, refl, refl) (refl, refl, refl)

pub path_record-SameRest :
    (key : Option Bytes) (f : AssetPathStats → AssetPathStats) (c : AssetCache)
    → SameRest c (path_record key f c)
unfolding path_record overflowed
path_record-SameRest none f c = (refl, refl, refl)
path_record-SameRest (some k) f c =
    if_both (SameRest c) (leb 256 (length k)) (refl, refl, refl)
      (add_path-SameRest k f (update_path k f c.paths) c)

-- An entry whose handles are valid is left with its key, its bytes and its size.
abbrev pub SameData : SharedAssetData → SharedAssetData → Type 0
SameData d e = (d.key ≡ e.key) × (d.bytes ≡ e.bytes) × (d.size ≡ e.size)

abbrev pub KeepsHandles : AssetCache → AssetCache → Type 0
KeepsHandles c c' = (y : ℕ) → (entry c y).refs ≢ 0 → SameData (entry c' y) (entry c y)

pub in_use : (e : SharedAssetData) → e.refs ≢ 0 → is_evictable e ≡ false
in_use e h = ground arith

pub same_entry : {d e : SharedAssetData} → d ≡ e → SameData d e
same_entry h = (
  ap (λ (t : SharedAssetData). t.key) h,
  ap (λ (t : SharedAssetData). t.bytes) h,
  ap (λ (t : SharedAssetData). t.size) h,
)

pub IsEvicted-KeepsHandles : {c c' : AssetCache} → IsEvicted c c' → KeepsHandles c c'
IsEvicted-KeepsHandles {c} {c'} ev y used = elim (ev.slots y) [
  | inl kept ↦ same_entry kept
  | inr (gone, can) ↦ absurd (false≢true (sym (in_use (entry c y) used) ∙ can))
]

pub set-SameData :
    (es : List SharedAssetData) (x : ℕ) (e : SharedAssetData)
    → SameData e (get_or es x free_slot)
    → (y : ℕ) → SameData (get_or (set es x e) y free_slot) (get_or es y free_slot)
set-SameData [] x e h y = (refl, refl, refl)
set-SameData (d ∷ es) zero e h zero = h
set-SameData (d ∷ es) zero e h (suc y) = (refl, refl, refl)
set-SameData (d ∷ es) (suc x) e h zero = (refl, refl, refl)
set-SameData (d ∷ es) (suc x) e h (suc y) = set-SameData es x e h y

pub pin-KeepsHandles : (x : ℕ) (c : AssetCache) → KeepsHandles c (pin x c)
unfolding pin
pin-KeepsHandles x c y used = set-SameData c.slots x _ (refl, refl, refl) y

pub place-KeepsHandles :
    (x : ℕ) (k bytes : Bytes) (size : ℕ) (c : AssetCache)
    → IsConsistent c
    → x < 512
    → is_live (entry c x) ≡ false
    → KeepsHandles c (place x k bytes size c)
unfolding place
place-KeepsHandles x k bytes size c h hx dead y used = elim (Bool-cases (x == y)) [
  | inl same ↦
      let e : x ≡ y = ground arith in
      absurd (used (subst (λ (t : ℕ). (entry c t).refs ≡ 0) e ((h.0).unused x dead)))
  | inr other ↦ same_entry (get_or-set_ne c.slots x y _ free_slot (λ e. ground arith))
]

-- How an adoption ends: it shares an entry, places a new one after evictions, or refuses.
pub data Adoption (k bytes : Bytes) (size : ℕ) (c : AssetCache) (r : AssetCache × Option ℕ)
    : Type 0 where
  shared : (x : ℕ) → find k c.slots ≡ some x → r ≡ (pin x c, some x) → Adoption k bytes size c r
  placed :
      (x : ℕ) (c' : AssetCache)
      → find k c.slots ≡ none
      → IsEvicted c c'
      → x < 512
      → is_live (entry c' x) ≡ false
      → c'.stats.bytes + size ≤ c.stats.limit
      → r ≡ (place x k bytes size c', some x)
      → Adoption k bytes size c r
  refused : (c' : AssetCache) → IsEvicted c c' → r ≡ (c', none) → Adoption k bytes size c r

free_after_evict :
    (x : ℕ) (c : AssetCache) → x < length c.slots → is_live (entry (evict x c) x) ≡ false
unfolding evict
free_after_evict x c h = ap is_live (get_or-set_self c.slots x free_slot free_slot h)

admitted :
    (k bytes : Bytes) (size : ℕ) (c c' : AssetCache)
    → find k c.slots ≡ none
    → IsEvicted c c'
    → c'.stats.bytes + size ≤ c.stats.limit
    → (o : Option ℕ) → free_from 0 c'.slots ≡ o
    → (v : Option (ℕ × SharedAssetData)) → oldest c'.slots ≡ v
    → Adoption k bytes size c (place_somewhere o k bytes size c')
unfolding place_somewhere place_evicting
admitted k bytes size c c' new ev room (some x) f v hv =
    let (y, at_y, below, dead) = free_slot_at 0 c'.slots x f in
    let same : y ≡ x = omega arith in
    placed x c' new ev (omega (arith, ev.consistent.0.slot_count))
      (subst (λ (t : ℕ). is_live (entry c' t) ≡ false) same dead) room refl
admitted k bytes size c c' new ev room none f none hv = rw (hv, place_evicting) (refused c' ev refl)
admitted k bytes size c c' new ev room none f (some (x, e)) hv =
    let old = oldest-IsOldest c'.slots x e hv in
    let (one, count) = evict-IsEvicted x e c' ev.consistent old in
    rw (hv, place_evicting)
      (placed x (evict x c') new (evictions-IsEvicted ev one)
        (omega (arith, old.there, ev.consistent.0.slot_count)) (free_after_evict x c' old.there)
        (omega (arith, one.fewer)) refl)

admit-Adoption :
    (k bytes : Bytes) (size : ℕ) (c : AssetCache)
    → IsConsistent c
    → find k c.slots ≡ none
    → Adoption k bytes size c (admit k bytes size c)
unfolding admit
admit-Adoption k bytes size c h new =
    if_cases (Adoption k bytes size c) (leb size c.stats.limit && not (c.stats.limit == 0))
      (λ fits.
        let room = c.stats.limit - size in
        let c' = evict_down (enough_fuel c) room c in
        let (ev, st) = evict_down-IsStopped room c h in
        if_cases (Adoption k bytes size c) (leb c'.stats.bytes room)
          (λ ok.
            admitted k bytes size c c' new ev (ground arith) (free_from 0 c'.slots) refl
              (oldest c'.slots) refl)
          (λ full. refused c' ev refl))
      (λ too_big. refused c (none-IsEvicted c h) refl)

pub adopt_key-Adoption :
    (k bytes : Bytes) (size : ℕ) (c : AssetCache) (o : Option ℕ)
    → IsConsistent c
    → find k c.slots ≡ o
    → Adoption k bytes size c (adopt_key o k bytes size c)
unfolding adopt_key
adopt_key-Adoption k bytes size c none h f = admit-Adoption k bytes size c h f
adopt_key-Adoption k bytes size c (some x) h f = shared x f refl
