-- ===== src/Prelude/Bits/Step.antt =====
-- One equation for the lowest binary digit of `&`, `|` and `^`, and the laws that hold of any
-- operation with such an equation.
use Prim.Native.Nat.{min, max, differ, digits, bitwise}
use Prim.Native.Nat.{bit_and-bitwise, bit_or-bitwise, bit_xor-bitwise}
use Prim.Native.Nat.{ℕ, zero, suc, ◌+◌, ◌-◌, ◌*◌, ◌/◌, ◌%◌, ◌^◌, ◌≤◌, ◌<◌, bit_and, bit_or, bit_xor}
use native.Mathlib.Nat.{le_refl, pow-suc, mul-one, add-zero, add-suc}
use mathlib.Core.Path.{◌≡◌, refl, ap, sym, ◌∙◌}
use native.Mathlib.Omega.{arith}

-- `z` is what the operation makes of 0 and a number, and `f` what it makes of two digits.
module _ (z : ℕ → ℕ) (f : ℕ → ℕ → ℕ) where
  zero_digits : (rounds b : ℕ) → digits z f rounds 0 b ≡ z b
  zero_digits zero b = refl
  zero_digits (suc rounds) b = refl

  -- Rounds beyond those that the first number needs do nothing.
  extra_rounds :
      (rounds more x y : ℕ) → x ≤ rounds → digits z f (more + rounds) x y ≡ digits z f rounds x y
  extra_rounds rounds more zero y small = zero_digits (more + rounds) y ∙ sym (zero_digits rounds y)
  extra_rounds zero more (suc x) y small = absurd (omega arith)
  extra_rounds (suc rounds) more (suc x) y small = rw (add-suc more rounds) (
      ap (λ (t : ℕ). t * 2 + f (suc x % 2) (y % 2))
        (extra_rounds rounds more (suc x / 2) (y / 2) (omega arith)))

  -- The lowest digit is split off.
  lowest_digit :
      ((y : ℕ) → z y ≡ z (y / 2) * 2 + f 0 (y % 2))
      → (x y : ℕ) → bitwise z f x y ≡ bitwise z f (x / 2) (y / 2) * 2 + f (x % 2) (y % 2)
  lowest_digit law zero y = law y
  lowest_digit law (suc x) y =
      let rounds = x - suc x / 2 in
      let enough : rounds + suc x / 2 ≡ x = omega arith in
      ap (λ (t : ℕ). t * 2 + f (suc x % 2) (y % 2))
        (ap (λ (n : ℕ). digits z f n (suc x / 2) (y / 2)) (sym enough)
          ∙ extra_rounds (suc x / 2) rounds (suc x / 2) (y / 2) (le_refl (suc x / 2)))

pub bit_xor_step : (a b : ℕ) → bit_xor a b ≡ bit_xor (a / 2) (b / 2) * 2 + differ (a % 2) (b % 2)
bit_xor_step a b = simp bit_xor-bitwise (lowest_digit (λ y. y) differ (λ y. omega arith) a b)

pub bit_and_step : (a b : ℕ) → bit_and a b ≡ bit_and (a / 2) (b / 2) * 2 + min (a % 2) (b % 2)
bit_and_step a b = simp bit_and-bitwise (lowest_digit (λ y. 0) min (λ y. omega arith) a b)

pub bit_or_step : (a b : ℕ) → bit_or a b ≡ bit_or (a / 2) (b / 2) * 2 + max (a % 2) (b % 2)
bit_or_step a b = simp bit_or-bitwise (lowest_digit (λ y. y) max (λ y. omega arith) a b)

mul-pow-suc : (q k : ℕ) → q * 2 ^ suc k ≡ 2 * (q * 2 ^ k)
mul-pow-suc q k = omega (arith, ap (λ (t : ℕ). q * t) (pow-suc 2 k))

half_word : (k q r : ℕ) → (q * 2 ^ suc k + r) / 2 ≡ q * 2 ^ k + r / 2
half_word k q r = omega (arith, mul-pow-suc q k)

low_bit : (k q r : ℕ) → (q * 2 ^ suc k + r) % 2 ≡ r % 2
low_bit k q r = omega (arith, mul-pow-suc q k)

pub half_fits : (k r : ℕ) → r < 2 ^ suc k → r / 2 < 2 ^ k
half_fits k r p = omega (arith, pow-suc 2 k)

module _ (op f : ℕ → ℕ → ℕ) (step : (a b : ℕ) → op a b ≡ op (a / 2) (b / 2) * 2 + f (a % 2) (b % 2))
    (op-zero : op 0 0 ≡ 0) where
  -- The two halves of a word are combined apart.
  pub op_split :
      (k q r q' r' : ℕ)
      → r < 2 ^ k
      → r' < 2 ^ k
      → op (q * 2 ^ k + r) (q' * 2 ^ k + r') ≡ op q q' * 2 ^ k + op r r'
  op_split zero q r q' r' p p' =
      let e : r ≡ 0 = omega arith in
      let e' : r' ≡ 0 = omega arith in rw (e, e') (simp (mul-one, add-zero, op-zero))
  op_split (suc k) q r q' r' p p' =
      rw (step (q * 2 ^ suc k + r) (q' * 2 ^ suc k + r'), half_word k q r, half_word k q' r')
        (rw (low_bit k q r, low_bit k q' r')
          (omega (
            arith,
            step r r',
            mul-pow-suc (op q q') k,
            op_split k q (r / 2) q' (r' / 2) (half_fits k r p) (half_fits k r' p'),
          )))

  -- Words of `k` bits give a word of `k` bits.
  pub op_lt :
      ((x y : ℕ) → x < 2 → y < 2 → f x y < 2) → (k a b : ℕ) → a < 2 ^ k → b < 2 ^ k → op a b < 2 ^ k
  op_lt bit zero a b p p' =
      let e : a ≡ 0 = omega arith in
      let e' : b ≡ 0 = omega arith in rw (e, e', op-zero) (omega arith)
  op_lt bit (suc k) a b p p' = omega (
    arith,
    pow-suc 2 k,
    step a b,
    bit (a % 2) (b % 2) (omega arith) (omega arith),
    op_lt bit k (a / 2) (b / 2) (half_fits k a p) (half_fits k b p'),
  )
