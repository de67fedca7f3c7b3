-- ===== src/Division/Exact.antt =====
-- The reciprocal of utils/light_division.h with its remainder check is the exact quotient.
use zombie_shooter_ps_vita_p.Prelude.{
  ℕ, suc, ◌+◌, ◌-◌, ◌*◌, ◌/◌, ◌%◌, ◌^◌, ◌≤◌, ◌<◌, ◌≡◌, ap, arith,
}
use zombie_shooter_ps_vita_p.Division.{light_div_floor, light_div_reciprocal}

mul_mono : (a b c d : ℕ) → a ≤ b → c ≤ d → a * c ≤ b * d
mul_mono a b c d h k = grind arith

-- With the floor `m` of `2 ^ 32 / d`, the floor of `n * m / 2 ^ 32` is the quotient or one less.
module _ (n d m r p s : ℕ) (recip : 2 ^ 32 ≡ m * d + r) (prod : n * m ≡ p * 2 ^ 32 + s) where
  estimate_le : p * d ≤ n
  estimate_le = omega (arith, ap (λ (t : ℕ). n * t) recip, ap (λ (t : ℕ). t * d) prod)

  estimate_close : n < 2 ^ 32 → r < d → s < 2 ^ 32 → n < p * d + 2 * d
  estimate_close hn hr hs = omega (
    arith,
    ap (λ (t : ℕ). n * t) recip,
    ap (λ (t : ℕ). t * d) prod,
    mul_mono s (2 ^ 32) d d (omega arith) (omega arith),
    mul_mono n (2 ^ 32 - 1) r d (omega arith) (omega arith),
  )

quotient_unique : (n d q : ℕ) → q * d ≤ n → n < q * d + d → q ≡ n / d
quotient_unique n d q lo hi =
    grind (arith, mul_mono (suc q) (n / d) d d, mul_mono (suc (n / d)) q d d)

half_range : (m d : ℕ) → m * d ≤ 2 ^ 32 → 2 ≤ d → m ≤ 2 ^ 31
half_range m d h k = omega (arith, mul_mono m m 2 d (omega arith) k)

product_fits : (n m : ℕ) → n < 2 ^ 32 → m ≤ 2 ^ 31 → n * m < 2 ^ 63
product_fits n m h k = omega (arith, mul_mono n (2 ^ 32 - 1) m (2 ^ 31) (omega arith) k)

-- No step of the correction wraps, once the estimate is within one of the quotient.
floor_corrects :
    (n d m : ℕ)
    → n < 2 ^ 32
    → n * m < 2 ^ 63
    → n * m / 2 ^ 32 * d ≤ n
    → n < n * m / 2 ^ 32 * d + 2 * d
    → light_div_floor n d m ≡ n / d
unfolding light_div_floor
floor_corrects n d m hn fits lo hi =
    let p = n * m / 2 ^ 32 in
    let product : n * m % 2 ^ 64 ≡ n * m = omega arith in
    let quotient : p % 2 ^ 32 ≡ p = omega arith in
    let multiple : p * d % 2 ^ 32 ≡ p * d = omega arith in
    let remainder : (n + 2 ^ 32 - p * d) % 2 ^ 32 ≡ n - p * d = omega arith in
    rw (product, quotient, multiple, remainder, light_div_floor)
      (ground (arith, quotient_unique n d (p + 1), quotient_unique n d p))

pub light_div_floor-reciprocal :
    (n d : ℕ) → n < 2 ^ 32 → 2 ≤ d → light_div_floor n d (light_div_reciprocal d) ≡ n / d
unfolding light_div_reciprocal
light_div_floor-reciprocal n d hn hd =
    let m = 2 ^ 32 / d in
    let p = n * m / 2 ^ 32 in
    let recip : 2 ^ 32 ≡ m * d + 2 ^ 32 % d = omega arith in
    let prod : n * m ≡ p * 2 ^ 32 + n * m % 2 ^ 32 = omega arith in
    let range = half_range m d (omega arith) hd in
    let whole : m % 2 ^ 32 ≡ m = omega arith in
    rw (light_div_reciprocal, whole)
      (floor_corrects n d m hn (product_fits n m hn range)
        (estimate_le n d m (2 ^ 32 % d) p (n * m % 2 ^ 32) recip prod)
        (estimate_close n d m (2 ^ 32 % d) p (n * m % 2 ^ 32) recip prod hn (omega arith)
          (omega arith)))
