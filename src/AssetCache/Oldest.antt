-- ===== src/AssetCache/Oldest.antt =====
-- What the search for a victim finds.
use mathlib.Core.Bool.{false≢true}
use zombie_shooter_ps_vita_p.Prelude.{
  ℕ, zero, suc, ◌+◌, ◌≤◌, ◌<◌, ◌≡◌, ◌⊎◌, refl, ap, subst, sym, ◌∙◌, Bool, true, false, ◌&&◌, Option,
  none, some, List, [], ◌∷◌, arith, length, get_or, Bool-cases, inl, inr,
}
use zombie_shooter_ps_vita_p.AssetCache.{
  SharedAssetData, free_slot, is_evictable, is_older, oldest_from, oldest,
}

-- The slot at `x` is evictable and no evictable slot was used longer ago.
pub record IsOldest (es : List SharedAssetData) (x : ℕ) (e : SharedAssetData) : Type 0 where
  pub there : x < length es
  pub slot : get_or es x free_slot ≡ e
  pub evictable : is_evictable e ≡ true
  pub least :
      (y : ℕ)
      → is_evictable (get_or es y free_slot) ≡ true
      → e.use_time ≤ (get_or es y free_slot).use_time

-- A result of the loop is the best entry so far, or an entry of the rest of the table.
pub record IsBest (i : ℕ) (best : Option (ℕ × SharedAssetData)) (es : List SharedAssetData) (x : ℕ)
    (e : SharedAssetData) : Type 0 where
  pub origin :
      (best ≡ some (x, e))
      ⊎ ((y : ℕ) × (x ≡ i + y)
          × (y < length es)
          × (get_or es y free_slot ≡ e)
          × (is_evictable e ≡ true))
  pub before : (y : ℕ) (b : SharedAssetData) → best ≡ some (y, b) → e.use_time ≤ b.use_time
  pub after :
      (y : ℕ)
      → is_evictable (get_or es y free_slot) ≡ true
      → e.use_time ≤ (get_or es y free_slot).use_time

abbrev index_of : Option (ℕ × SharedAssetData) → ℕ
index_of none = 0
index_of (some (x, e)) = x

abbrev entry_of : Option (ℕ × SharedAssetData) → SharedAssetData
entry_of none = free_slot
entry_of (some (x, e)) = e

at_least :
    (d b : SharedAssetData) (y : ℕ) → is_older d (some (y, b)) ≡ false → b.use_time ≤ d.use_time
unfolding is_older
at_least d b y h = ground arith

older : (d b : SharedAssetData) (y : ℕ) → is_older d (some (y, b)) ≡ true → d.use_time ≤ b.use_time
unfolding is_older
older d b y h = ground arith

both_true : (a b : Bool) → (a && b) ≡ true → (a ≡ true) × (b ≡ true)
both_true a b h = ground arith

module _ (i : ℕ) (best : Option (ℕ × SharedAssetData)) (d : SharedAssetData)
    (es : List SharedAssetData) (x : ℕ) (e : SharedAssetData) where
  taken-IsBest :
      (is_evictable d && is_older d best) ≡ true
      → IsBest (suc i) (some (i, d)) es x e
      → IsBest i best (d ∷ es) x e
  taken-IsBest c h =
      let (ev, old) = both_true (is_evictable d) (is_older d best) c in
      record {
        origin = elim h.origin [
          | inl k ↦
              let same : i ≡ x = ap index_of k in
              let one : d ≡ e = ap entry_of k in
              inr (
                0,
                omega arith,
                omega arith,
                one,
                subst (λ (t : SharedAssetData). is_evictable t ≡ true) one ev,
              )
          | inr (y, at_y, below, slot, k) ↦ inr (suc y, omega arith, omega arith, slot, k)
        ];
        before = λ y b k. omega (arith, h.before i d refl, older d b y (rw k at old));
        after = λ y k. elim_after h y k;
      }
    where
      elim_after :
          IsBest (suc i) (some (i, d)) es x e
          → (y : ℕ) → is_evictable (get_or (d ∷ es) y free_slot) ≡ true
          → e.use_time ≤ (get_or (d ∷ es) y free_slot).use_time
      elim_after h zero k = h.before i d refl
      elim_after h (suc y) k = h.after y k

  skipped-IsBest :
      (is_evictable d && is_older d best) ≡ false
      → IsBest (suc i) best es x e
      → IsBest i best (d ∷ es) x e
  skipped-IsBest c h = record {
    origin = elim h.origin [
      | inl k ↦ inl k
      | inr (y, at_y, below, slot, k) ↦ inr (suc y, omega arith, omega arith, slot, k)
    ];
    before = h.before;
    after = go best refl;
  }
    where
      go :
          (o : Option (ℕ × SharedAssetData))
          → best ≡ o
          → (y : ℕ) → is_evictable (get_or (d ∷ es) y free_slot) ≡ true
          → e.use_time ≤ (get_or (d ∷ es) y free_slot).use_time
      go o same (suc y) k = h.after y k
      go none same zero k =
          let skipped : (is_evictable d && is_older d none) ≡ false = rw same at c in
          absurd (false≢true (sym skipped ∙ (unfold is_older in ground (arith, k))))
      go (some (y, b)) same zero k =
          let skipped : (is_evictable d && is_older d (some (y, b))) ≡ false = rw same at c in
          omega (arith, h.before y b same, at_least d b y (ground (arith, k)))

oldest_from-IsBest :
    (i : ℕ) (best : Option (ℕ × SharedAssetData)) (es : List SharedAssetData) (x : ℕ)
    (e : SharedAssetData)
    → oldest_from i best es ≡ some (x, e)
    → IsBest i best es x e
unfolding oldest_from
oldest_from-IsBest i best [] x e h = record {
  origin = inl h;
  before = λ y b k.
      let same : b ≡ e = ap entry_of (sym k ∙ h) in
      omega (arith, ap (λ (t : SharedAssetData). t.use_time) same);
  after = λ y k. cc;
}
oldest_from-IsBest i best (d ∷ es) x e h = elim (Bool-cases (is_evictable d && is_older d best)) [
  | inl c ↦
      taken-IsBest i best d es x e c (oldest_from-IsBest (suc i) (some (i, d)) es x e (rw c at h))
  | inr c ↦ skipped-IsBest i best d es x e c (oldest_from-IsBest (suc i) best es x e (rw c at h))
]

pub oldest-IsOldest :
    (es : List SharedAssetData) (x : ℕ) (e : SharedAssetData)
    → oldest es ≡ some (x, e)
    → IsOldest es x e
unfolding oldest
oldest-IsOldest es x e h = go (oldest_from-IsBest 0 none es x e h)
  where
    go : IsBest 0 none es x e → IsOldest es x e
    go b = elim b.origin [
      | inl k ↦ cc
      | inr (y, at_y, below, slot, ev) ↦
          let same : y ≡ x = omega arith in
          record {
            there = omega arith;
            slot = subst (λ (t : ℕ). get_or es t free_slot ≡ e) same slot;
            evictable = ev;
            least = b.after;
          }
    ]

no_better :
    (d : SharedAssetData) → (is_evictable d && is_older d none) ≡ false → is_evictable d ≡ false
unfolding is_older
no_better d h = ground arith

first_or :
    (d : SharedAssetData) (es : List SharedAssetData)
    → is_evictable d ≡ false
    → ((y : ℕ) → is_evictable (get_or es y free_slot) ≡ false)
    → (y : ℕ) → is_evictable (get_or (d ∷ es) y free_slot) ≡ false
first_or d es first rest zero = first
first_or d es first rest (suc y) = rest y

no_candidate :
    (i : ℕ) (best : Option (ℕ × SharedAssetData)) (es : List SharedAssetData)
    → oldest_from i best es ≡ none
    → (best ≡ none) × ((y : ℕ) → is_evictable (get_or es y free_slot) ≡ false)
unfolding oldest_from
no_candidate i best [] h = (h, λ y. refl)
no_candidate i best (d ∷ es) h = elim (Bool-cases (is_evictable d && is_older d best)) [
  | inl c ↦ let (k, rest) = no_candidate (suc i) (some (i, d)) es (rw c at h) in cc
  | inr c ↦
      let (k, rest) = no_candidate (suc i) best es (rw c at h) in
      let first : is_evictable d ≡ false = no_better d (rw k at c) in (k, first_or d es first rest)
]

-- Without a victim, every entry is in use.
pub oldest-none :
    (es : List SharedAssetData)
    → oldest es ≡ none
    → (y : ℕ) → is_evictable (get_or es y free_slot) ≡ false
unfolding oldest
oldest-none es h = (no_candidate 0 none es h).1
