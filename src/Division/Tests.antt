-- ===== src/Division/Tests.antt =====
-- Runs of light_div_try on concrete caches.
use zombie_shooter_ps_vita_p.Prelude.{
  ℕ, zero, suc, ◌^◌, ◌≡◌, ◌≢◌, refl, ap, ◌-◌, replicate, get_or, arith,
}
use zombie_shooter_ps_vita_p.Prelude.Int.{signed32, word32, div_trunc}
use zombie_shooter_ps_vita_p.Division.{
  LightDivCache, LightDivEntry, empty_entry, light_abs_bits, light_div_slot, light_div_reciprocal,
  light_div_floor, light_div_sign, light_div_try,
}
use zombie_shooter_ps_vita_p.Division.Signed.{
  IsCoherent, light_div_try-exact, light_div_try-IsCoherent,
}

abbrev empty_cache : LightDivCache
empty_cache = replicate 64 empty_entry

empty_entries : (n i : ℕ) → get_or (replicate n empty_entry) i empty_entry ≡ empty_entry
empty_entries zero i = refl
empty_entries (suc n) zero = refl
empty_entries (suc n) (suc i) = empty_entries n i

empty_IsCoherent : IsCoherent empty_cache
empty_IsCoherent = record {
  size = refl;
  published =
      λ i h. absurd (omega (arith, ap (λ (e : LightDivEntry). e.denominator) (empty_entries 64 i)));
}

-- The bit pattern of -7.
abbrev minus_seven : ℕ
minus_seven = 2 ^ 32 - 7

light_div_try-exact_example : 2 ^ 32 - 3 ≡ word32 (div_trunc (signed32 minus_seven) (signed32 2))
unfolding light_div_try light_abs_bits light_div_slot light_div_reciprocal light_div_floor
    light_div_sign
light_div_try-exact_example =
    light_div_try-exact minus_seven 2 empty_IsCoherent (omega arith) (omega arith) refl

light_div_try-IsCoherent_example :
    IsCoherent (light_div_try empty_cache minus_seven 2).cache
    × ((i : ℕ)
        → (get_or empty_cache i empty_entry).denominator ≢ 0
        → get_or (light_div_try empty_cache minus_seven 2).cache i empty_entry
          ≡ get_or empty_cache i empty_entry)
light_div_try-IsCoherent_example = light_div_try-IsCoherent minus_seven 2 empty_IsCoherent
