-- ===== src/Prelude/Bits/Single.antt =====
-- Single bits of a word.
use Prim.Native.Nat.{ℕ, zero, suc, ◌+◌, ◌*◌, ◌/◌, ◌%◌, ◌^◌, ◌<◌, bit_and, bit_or}
use native.Mathlib.Nat.{pow-suc, one-le-pow, div-div-eq-div-mul}
use mathlib.Core.Path.{◌≡◌, refl, ap, ◌∙◌, sym}
use mathlib.Core.Logic.{◌≢◌, ◌⊎◌, ◌↔◌, inl, inr}
use native.Mathlib.Omega.{arith}
use zombie_shooter_ps_vita_p.Prelude.Bits.{
  bit_and_split, bit_or_split, bit_and-one, bit_and-zero, bit_or-lt,
}

abbrev pub bit : ℕ → ℕ → ℕ
bit k n = n / 2 ^ k % 2

pub bit_and-pow : (k a : ℕ) → bit_and a (2 ^ k) ≡ bit k a * 2 ^ k
bit_and-pow k a = ground (
  arith,
  one-le-pow k 2,
  bit_and_split k (a / 2 ^ k) (a % 2 ^ k) 1 0,
  bit_and-one (a / 2 ^ k),
  bit_and-zero (a % 2 ^ k),
)

parts : (k a : ℕ) → a / 2 ^ k * 2 ^ k + a % 2 ^ k ≡ a
parts k a = ground (arith, one-le-pow k 2)

quotient : (q r m : ℕ) → r < m → (q * m + r) / m ≡ q
quotient q r m h = grind arith

or_div : (k a b : ℕ) → bit_or a b / 2 ^ k ≡ bit_or (a / 2 ^ k) (b / 2 ^ k)
or_div k a b =
    let small : (n : ℕ) → n % 2 ^ k < 2 ^ k = λ n. ground (arith, one-le-pow k 2) in
    ap (λ (n : ℕ). n / 2 ^ k)
      (sym (
          ap (bit_or (a / 2 ^ k * 2 ^ k + a % 2 ^ k)) (parts k b)
          ∙ ap (λ (n : ℕ). bit_or n b) (parts k a))
        ∙ bit_or_split k (a / 2 ^ k) (a % 2 ^ k) (b / 2 ^ k) (b % 2 ^ k) (small a) (small b))
    ∙ quotient (bit_or (a / 2 ^ k) (b / 2 ^ k)) (bit_or (a % 2 ^ k) (b % 2 ^ k)) (2 ^ k)
        (bit_or-lt k (a % 2 ^ k) (b % 2 ^ k) (small a) (small b))

or_two : (x y : ℕ) → x < 2 → y < 2 → (bit_or x y ≡ 1) ↔ ((x ≡ 1) ⊎ (y ≡ 1))
or_two zero zero p q = (λ e. absurd (omega arith), λ s. ground arith)
or_two zero (suc zero) p q = (λ e. inr refl, λ s. refl)
or_two (suc zero) zero p q = (λ e. inl refl, λ s. refl)
or_two (suc zero) (suc zero) p q = (λ e. inl refl, λ s. refl)
or_two (suc (suc x)) y p q = absurd (omega arith)
or_two x (suc (suc y)) p q = absurd (omega arith)

pub bit_or-bit : (k a b : ℕ) → (bit k (bit_or a b) ≡ 1) ↔ ((bit k a ≡ 1) ⊎ (bit k b ≡ 1))
bit_or-bit k a b = ground (
  arith,
  or_div k a b,
  or_two (bit k a) (bit k b),
  bit_or_split 1 (a / 2 ^ k / 2) (bit k a) (b / 2 ^ k / 2) (bit k b),
  bit_or-lt 1 (bit k a) (bit k b),
)

half_power : (k j : ℕ) → 2 ^ suc j / 2 ^ suc k ≡ 2 ^ j / 2 ^ k
half_power k j =
    let whole : 2 ^ suc k ≡ 2 * 2 ^ k = omega (arith, pow-suc 2 k) in
    let half : 2 ^ suc j / 2 ≡ 2 ^ j = omega (arith, pow-suc 2 j) in
    ap (λ (m : ℕ). 2 ^ suc j / m) whole
    ∙ sym (div-div-eq-div-mul (2 ^ suc j) 2 (2 ^ k))
    ∙ ap (λ (m : ℕ). m / 2 ^ k) half

pub bit_pow_other : (k j : ℕ) → k ≢ j → bit k (2 ^ j) ≡ 0
bit_pow_other zero zero ne = absurd (ne refl)
bit_pow_other zero (suc j) ne = omega (arith, pow-suc 2 j)
bit_pow_other (suc k) zero ne = ground (arith, pow-suc 2 k, one-le-pow k 2)
bit_pow_other (suc k) (suc j) ne =
    ap (λ (m : ℕ). m % 2) (half_power k j) ∙ bit_pow_other k j (λ e. ne (ap suc e))

pub bit_pow_self : (k : ℕ) → bit k (2 ^ k) ≡ 1
bit_pow_self zero = refl
bit_pow_self (suc k) = ap (λ (m : ℕ). m % 2) (half_power k k) ∙ bit_pow_self k

pub bit-zero : (k : ℕ) → bit k 0 ≡ 0
bit-zero k = ground (arith, one-le-pow k 2)
