-- ===== src/Division/Signed.antt =====
-- light_div_try against C's signed division, for every state of the cache that the calls reach.
use zombie_shooter_ps_vita_p.Prelude.{
  ℕ, zero, suc, ◌-◌, ◌/◌, ◌^◌, ◌≤◌, ◌<◌, ◌≡◌, ◌≢◌, ◌∙◌, refl, arith, ◌⊎◌, none, some, length,
  get_or, set, length-set, get_or-set, get_or-set_ne, if_both, ltb, ◌==◌, ◌↔◌, ◌>>>◌, sub32,
  bit_xor, Bool-cases, inl, inr,
}
use zombie_shooter_ps_vita_p.Prelude.Bits.{bit_and_low, bit_xor_top}
use zombie_shooter_ps_vita_p.Prelude.Int.{pos, negsuc, neg_ℕ, signed32, word32, div_trunc}
use zombie_shooter_ps_vita_p.Division.{
  LightDivCache, LightDivEntry, empty_entry, light_abs_bits, light_div_slot, light_div_reciprocal,
  light_div_floor, light_div_sign, light_div_try,
}
use zombie_shooter_ps_vita_p.Division.Exact.{light_div_floor-reciprocal}

-- A published entry holds the reciprocal of its own denominator; a denominator of 1 marks an entry
-- that is being initialised, and 0 a free one.
abbrev pub IsPublished : LightDivEntry → Type 0
IsPublished e = 2 ≤ e.denominator → e.reciprocal ≡ light_div_reciprocal e.denominator

pub record IsCoherent (cache : LightDivCache) : Type 0 where
  pub size : length cache ≡ 64
  pub published : (i : ℕ) → IsPublished (get_or cache i empty_entry)

slot_in_range : (d : ℕ) → light_div_slot d < 64
unfolding light_div_slot
slot_in_range d = omega (arith, bit_and_low 6 (bit_xor (bit_xor d (d >>> 8)) (d >>> 16)))

in_cache : {cache : LightDivCache} (d : ℕ) → IsCoherent cache → light_div_slot d < length cache
in_cache d ok = omega (arith, slot_in_range d, ok.size)

abs_range : (w : ℕ) → w < 2 ^ 32 → light_abs_bits w ≤ 2 ^ 31
unfolding light_abs_bits
abs_range w h = ground arith

bit_pairs : (x y : ℕ) → x < 2 → y < 2 → (bit_xor x y == 0) ≡ (x == y)
bit_pairs zero zero h k = refl
bit_pairs zero (suc zero) h k = refl
bit_pairs (suc zero) zero h k = refl
bit_pairs (suc zero) (suc zero) h k = refl
bit_pairs x y h k = absurd (omega arith)

signs_differ :
    (n d : ℕ) → n < 2 ^ 32 → d < 2 ^ 32 → (bit_xor n d >>> 31 == 0) ≡ (n >>> 31 == d >>> 31)
signs_differ n d h k =
    rw (bit_xor_top n d) (bit_pairs (n >>> 31) (d >>> 31) (omega arith) (omega arith))

word_cases :
    (w : ℕ)
    → w < 2 ^ 32
    → ((light_abs_bits w ≡ w) × (w >>> 31 ≡ 0) × (signed32 w ≡ pos w))
      ⊎ ((m : ℕ) × (light_abs_bits w ≡ suc m) × (w >>> 31 ≡ 1) × (signed32 w ≡ negsuc m))
unfolding light_abs_bits
word_cases w h = elim (Bool-cases (ltb w (2 ^ 31))) [
  | inl p ↦ inl (ground arith, ground arith, rw p refl)
  | inr p ↦ inr (2 ^ 32 - w - 1, ground arith, ground arith, rw p refl)
]

div_le : (a b : ℕ) → a / b ≤ a
div_le a zero = omega arith
div_le a (suc b) = grind arith

div-one : (a : ℕ) → a / 1 ≡ a
div-one a = omega arith

negate : (q : ℕ) → q ≤ 2 ^ 31 → sub32 0 q ≡ word32 (neg_ℕ q)
negate q h = ground arith

negative : (a b : ℕ) → a ≤ 2 ^ 31 → sub32 0 (a / b) ≡ word32 (neg_ℕ (a / b))
negative a b h = negate (a / b) (omega (arith, div_le a b))

-- The quotient of the magnitudes with the sign put back is C's quotient.
signed_quotient :
    (n d : ℕ)
    → n < 2 ^ 32
    → d < 2 ^ 32
    → light_div_sign n d (light_abs_bits n / light_abs_bits d)
      ≡ word32 (div_trunc (signed32 n) (signed32 d))
unfolding light_div_sign light_abs_bits
signed_quotient n d h k = elim (word_cases n h) [
  | inl (an, tn, sn) ↦ elim (word_cases d k) [
    | inl (ad, td, sd) ↦ rw (an, ad, sn, sd, signs_differ n d h k, tn, td, light_div_sign) refl
    | inr (b, ad, td, sd) ↦
        rw (an, ad, sn, sd, signs_differ n d h k, tn, td, light_div_sign)
          (negative n (suc b) (omega arith))
  ]
  | inr (a, an, tn, sn) ↦ elim (word_cases d k) [
    | inl (ad, td, sd) ↦
        rw (an, ad, sn, sd, signs_differ n d h k, tn, td, light_div_sign)
          (negative (suc a) d (ground (arith, abs_range n h)))
    | inr (b, ad, td, sd) ↦ rw (an, ad, sn, sd, signs_differ n d h k, tn, td, light_div_sign) refl
  ]
]

entry_quotient :
    {cache : LightDivCache} (n d : ℕ)
    → IsCoherent cache
    → n < 2 ^ 32
    → 2 ≤ d
    → (get_or cache (light_div_slot d) empty_entry).denominator ≡ d
    → light_div_floor n d (get_or cache (light_div_slot d) empty_entry).reciprocal ≡ n / d
entry_quotient {cache} n d ok hn hd e =
    let slot = light_div_slot d in
    rw (ok.published slot (omega arith), e) (light_div_floor-reciprocal n d hn hd)

-- Whatever entry is used, the answer is the quotient of the magnitudes with the sign put back.
answer_magnitude :
    {cache : LightDivCache} (n d : ℕ) {q : ℕ}
    → IsCoherent cache
    → n < 2 ^ 32
    → (light_div_try cache n d).quotient ≡ some q
    → q ≡ light_div_sign n d (light_abs_bits n / light_abs_bits d)
unfolding light_div_try
answer_magnitude {cache} n d ok hn e = ground (
  arith,
  abs_range n hn,
  div-one (light_abs_bits n),
  entry_quotient (light_abs_bits n) (light_abs_bits d) ok,
  light_div_floor-reciprocal (light_abs_bits n) (light_abs_bits d),
)

-- On a coherent cache, whatever it holds, a call that answers stores in `out` the bit pattern of
-- C's signed quotient, rounded towards zero, also for the least integer divided by minus one.
pub light_div_try-exact :
    {cache : LightDivCache} (n d : ℕ) {q : ℕ}
    → IsCoherent cache
    → n < 2 ^ 32
    → d < 2 ^ 32
    → (light_div_try cache n d).quotient ≡ some q
    → q ≡ word32 (div_trunc (signed32 n) (signed32 d))
light_div_try-exact n d ok hn hd e = answer_magnitude n d ok hn e ∙ signed_quotient n d hn hd

abbrev published_entry : ℕ → LightDivEntry
published_entry d = record { denominator = d; reciprocal = light_div_reciprocal d }

publish-IsCoherent :
    {cache : LightDivCache} (d : ℕ)
    → IsCoherent cache
    → IsCoherent (set cache (light_div_slot d) (published_entry d))
publish-IsCoherent {cache} d ok = record {
  size = omega (arith, length-set cache (light_div_slot d) (published_entry d), ok.size);
  published = λ i.
      rw (get_or-set cache (light_div_slot d) i (published_entry d) empty_entry (in_cache d ok))
        (if_both IsPublished (light_div_slot d == i) (λ _. refl) (ok.published i));
}

-- A call leaves the cache alone, or publishes into a free slot.
cache_cases :
    (cache : LightDivCache) (n d : ℕ)
    → ((light_div_try cache n d).cache ≡ cache)
      ⊎ (((light_div_try cache n d).cache
            ≡ set cache (light_div_slot (light_abs_bits d)) (published_entry (light_abs_bits d)))
          × ((get_or cache (light_div_slot (light_abs_bits d)) empty_entry).denominator ≡ 0))
unfolding light_div_try
cache_cases cache n d = ground arith

kept_entry :
    {cache : LightDivCache} (d i : ℕ)
    → IsCoherent cache
    → (get_or cache (light_div_slot d) empty_entry).denominator ≡ 0
    → (get_or cache i empty_entry).denominator ≢ 0
    → get_or (set cache (light_div_slot d) (published_entry d)) i empty_entry
      ≡ get_or cache i empty_entry
kept_entry {cache} d i ok free taken =
    get_or-set_ne cache (light_div_slot d) i (published_entry d) empty_entry
      (λ e. taken (rw (← e) free))

-- A call keeps the cache coherent, and an entry that is taken keeps its denominator and its
-- reciprocal.
pub light_div_try-IsCoherent :
    {cache : LightDivCache} (n d : ℕ)
    → IsCoherent cache
    → IsCoherent (light_div_try cache n d).cache
      × ((i : ℕ)
          → (get_or cache i empty_entry).denominator ≢ 0
          → get_or (light_div_try cache n d).cache i empty_entry ≡ get_or cache i empty_entry)
light_div_try-IsCoherent {cache} n d ok = elim (cache_cases cache n d) [
  | inl same ↦ rw same (ok, λ i _. refl)
  | inr (published, free) ↦
      rw published
        (publish-IsCoherent (light_abs_bits d) ok, λ i. kept_entry (light_abs_bits d) i ok free)
]

-- A call gives up exactly when the denominator is zero, or has a magnitude of at least two whose
-- slot is taken by another denominator.
pub light_div_try-answers :
    (cache : LightDivCache) (n d : ℕ)
    → ((light_div_try cache n d).quotient ≡ none) ↔ (
        (light_abs_bits d ≡ 0)
        ⊎ ((2 ≤ light_abs_bits d)
            × ((get_or cache (light_div_slot (light_abs_bits d)) empty_entry).denominator ≢ 0)
            × ((get_or cache (light_div_slot (light_abs_bits d)) empty_entry).denominator
                ≢ light_abs_bits d)))
unfolding light_div_try
light_div_try-answers cache n d = ground arith
