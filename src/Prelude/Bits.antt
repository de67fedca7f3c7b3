-- ===== src/Prelude/Bits.antt =====
-- Masks, disjoint fields and the top bit of a word as arithmetic.
mod Step
pub mod Single
use Step.{bit_and_step, bit_or_step, bit_xor_step, half_fits, op_split, op_lt}
use Prim.Native.Nat.{max, min, differ, bit_and-bitwise, bit_or-bitwise}
use Prim.Native.Nat.{ℕ, zero, suc, ◌+◌, ◌-◌, ◌*◌, ◌/◌, ◌%◌, ◌^◌, ◌≤◌, ◌<◌, bit_and, bit_or, bit_xor}
use native.Mathlib.Nat.{le_refl, pow-suc, add-zero, zero-add, zero-mul, one-le-pow}
use mathlib.Core.Path.{◌≡◌, refl, ap}
use native.Mathlib.Omega.{arith}

pub bit_and_split :
    (k q r q' r' : ℕ)
    → r < 2 ^ k
    → r' < 2 ^ k
    → bit_and (q * 2 ^ k + r) (q' * 2 ^ k + r') ≡ bit_and q q' * 2 ^ k + bit_and r r'
bit_and_split = op_split bit_and min bit_and_step refl

pub bit_or_split :
    (k q r q' r' : ℕ)
    → r < 2 ^ k
    → r' < 2 ^ k
    → bit_or (q * 2 ^ k + r) (q' * 2 ^ k + r') ≡ bit_or q q' * 2 ^ k + bit_or r r'
bit_or_split = op_split bit_or max bit_or_step refl

pub bit_or-lt : (k a b : ℕ) → a < 2 ^ k → b < 2 ^ k → bit_or a b < 2 ^ k
bit_or-lt = op_lt bit_or max bit_or_step refl (λ x y p q. omega arith)

pub bit_and-lt : (k a b : ℕ) → a < 2 ^ k → b < 2 ^ k → bit_and a b < 2 ^ k
bit_and-lt = op_lt bit_and min bit_and_step refl (λ x y p q. omega arith)

differ_lt : (x y : ℕ) → x < 2 → y < 2 → differ x y < 2
differ_lt zero y p q = q
differ_lt (suc zero) zero p q = omega arith
differ_lt (suc zero) (suc y) p q = omega arith
differ_lt (suc (suc x)) y p q = absurd (omega arith)

bit_xor-lt : (k a b : ℕ) → a < 2 ^ k → b < 2 ^ k → bit_xor a b < 2 ^ k
bit_xor-lt = op_lt bit_xor differ bit_xor_step refl differ_lt

max_above : (a b : ℕ) → (a ≤ max a b) × (b ≤ max a b)
max_above a b = (omega arith, omega arith)

pub bit_and-zero : (a : ℕ) → bit_and a 0 ≡ 0
bit_and-zero a = go a a (le_refl _)
  where
    go : (n m : ℕ) → m ≤ n → bit_and m 0 ≡ 0
    go zero zero h = refl
    go zero (suc m) h = absurd (omega arith)
    go (suc n) zero h = refl
    go (suc n) (suc m) h = omega (arith, bit_and_step (suc m) 0, go n (suc m / 2) (omega arith))

pub bit_or-zero : (a : ℕ) → bit_or a 0 ≡ a
bit_or-zero a = go a a (le_refl _)
  where
    go : (n m : ℕ) → m ≤ n → bit_or m 0 ≡ m
    go zero zero h = refl
    go zero (suc m) h = absurd (omega arith)
    go (suc n) zero h = refl
    go (suc n) (suc m) h = omega (arith, bit_or_step (suc m) 0, go n (suc m / 2) (omega arith))

-- No bit of a disjunction is missing from it.
pub bit_or_above : (a b : ℕ) → (a ≤ bit_or a b) × (b ≤ bit_or a b)
bit_or_above a b = go (a + b) a b (omega arith)
  where
    go : (n x y : ℕ) → x + y ≤ n → (x ≤ bit_or x y) × (y ≤ bit_or x y)
    go n zero y h = (omega arith, omega (arith, bit_or-bitwise 0 y))
    go zero (suc x) y h = absurd (omega arith)
    go (suc n) (suc x) y h =
        let step = bit_or_step (suc x) y in
        let (one, two) = go n (suc x / 2) (y / 2) (omega arith) in
        let (left, right) = max_above (suc x % 2) (y % 2) in (omega arith, omega arith)

pub zero-bit_and : (a : ℕ) → bit_and 0 a ≡ 0
zero-bit_and a = bit_and-bitwise 0 a

pub zero-bit_or : (a : ℕ) → bit_or 0 a ≡ a
zero-bit_or a = bit_or-bitwise 0 a

half_ones : (k : ℕ) → (2 ^ suc k - 1) / 2 ≡ 2 ^ k - 1
half_ones k = omega (arith, pow-suc 2 k)

ones-bit_and : (k r : ℕ) → r < 2 ^ k → bit_and r (2 ^ k - 1) ≡ r
ones-bit_and zero r p = rw bit_and-zero (omega arith)
ones-bit_and (suc k) r p = omega (
  arith,
  pow-suc 2 k,
  bit_and_step r (2 ^ suc k - 1),
  ap (bit_and (r / 2)) (half_ones k),
  ones-bit_and k (r / 2) (half_fits k r p),
)

low_of_split : (k q r : ℕ) → r < 2 ^ k → bit_and (q * 2 ^ k + r) (2 ^ k - 1) ≡ r
low_of_split k q r p =
    let e = bit_and_split k q r 0 (2 ^ k - 1) p (omega (arith, one-le-pow k 2)) in
    simp (zero-mul, zero-add, bit_and-zero, ones-bit_and k r p) at e

-- A mask of `k` low bits takes the remainder by `2 ^ k`.
pub bit_and_low : (k a : ℕ) → bit_and a (2 ^ k - 1) ≡ a % 2 ^ k
bit_and_low k a = ground (arith, one-le-pow k 2, low_of_split k (a / 2 ^ k) (a % 2 ^ k))

-- Disjoint fields are joined by a sum.
pub bit_or_disjoint : (k q r : ℕ) → r < 2 ^ k → bit_or (q * 2 ^ k) r ≡ q * 2 ^ k + r
bit_or_disjoint k q r p =
    let e = bit_or_split k q 0 0 r (omega arith) p in
    simp (zero-mul, zero-add, add-zero, bit_or-zero, zero-bit_or) at e

-- The mask of two byte lanes, bits 0 to 7 and 16 to 23.
pub bit_and_lanes : (a : ℕ) → bit_and a 0xff00ff ≡ a / 65536 % 256 * 65536 + a % 256
bit_and_lanes a = ground (
  arith,
  bit_and_split 16 (a / 65536) (a % 65536) 255 255 (omega arith) (omega arith),
  bit_and_low 8 (a / 65536),
  bit_and_low 8 (a % 65536),
)

-- A single bit.
pub bit_and-one : (a : ℕ) → bit_and a 1 ≡ a % 2
bit_and-one a = bit_and_low 1 a

-- The top bit of an exclusive or of two words.
pub bit_xor_top : (a b : ℕ) → bit_xor a b / 2 ^ 31 ≡ bit_xor (a / 2 ^ 31) (b / 2 ^ 31)
bit_xor_top a b = ground (
  arith,
  op_split bit_xor differ bit_xor_step refl 31 (a / 2 ^ 31) (a % 2 ^ 31) (b / 2 ^ 31) (b % 2 ^ 31),
  bit_xor-lt 31 (a % 2 ^ 31) (b % 2 ^ 31),
)
