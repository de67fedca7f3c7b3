-- ===== src/Division.antt =====
-- utils/light_division.h: exact signed division by a reciprocal that is computed once for each
-- denominator. Numerators, denominators and quotients are the bit patterns of `int32_t`.
mod Exact
pub mod Signed
mod Tests
use zombie_shooter_ps_vita_p.Prelude.{
  ℕ, ◌+◌, ◌*◌, ◌/◌, ◌^◌, Bool, true, false, Option, none, some, List, get_or, set, leb, ◌==◌,
  if◌then◌else◌, u32, u64, sub32, ◌>>>◌, bit_and, bit_xor,
}

pub record LightDivEntry : Type 0 where
  pub denominator : ℕ
  pub reciprocal : ℕ

-- `entry[64]`
abbrev pub LightDivCache : Type 0
LightDivCache = List LightDivEntry

abbrev pub empty_entry : LightDivEntry
empty_entry = record { denominator = 0; reciprocal = 0 }

-- `quotient` is `none` where the function returns 0 and leaves `*out` alone.
pub record LightDivResult : Type 0 where
  pub quotient : Option ℕ
  pub hit : Bool
  pub cache : LightDivCache

unfoldable pub light_abs_bits : ℕ → ℕ
light_abs_bits value = if value >>> 31 == 0 then value else sub32 0 value

unfoldable pub light_div_slot : ℕ → ℕ
light_div_slot d = bit_and (bit_xor (bit_xor d (d >>> 8)) (d >>> 16)) 63

unfoldable pub light_div_reciprocal : ℕ → ℕ
light_div_reciprocal d = u32 (2 ^ 32 / d)

-- The floor of `n * m / 2 ^ 32`, put right by the remainder check.
unfoldable pub light_div_floor : ℕ → ℕ → ℕ → ℕ
light_div_floor n d m =
    let q = u32 (u64 (n * m) >>> 32) in if leb d (sub32 n (u32 (q * d))) then u32 (q + 1) else q

unfoldable pub light_div_sign : ℕ → ℕ → ℕ → ℕ
light_div_sign numerator denominator q =
    if bit_xor numerator denominator >>> 31 == 0 then q else sub32 0 q

-- One call with no other thread between its accesses of the entry.
unfoldable pub light_div_try : LightDivCache → ℕ → ℕ → LightDivResult
light_div_try cache numerator denominator =
    let n = light_abs_bits numerator in
    let d = light_abs_bits denominator in
    let slot = light_div_slot d in
    let key = (get_or cache slot empty_entry).denominator in
    let known = (get_or cache slot empty_entry).reciprocal in
    let fresh = light_div_reciprocal d in
    if d == 0
    then record { quotient = none; hit = false; cache = cache }
    else if d == 1
    then record {
      quotient = some (light_div_sign numerator denominator n);
      hit = false;
      cache = cache;
    }
    else if key == d
    then record {
      quotient = some (light_div_sign numerator denominator (light_div_floor n d known));
      hit = true;
      cache = cache;
    }
    else if key == 0
    then record {
      quotient = some (light_div_sign numerator denominator (light_div_floor n d fresh));
      hit = false;
      cache = set cache slot (record { denominator = d; reciprocal = fresh });
    }
    else record { quotient = none; hit = false; cache = cache }
