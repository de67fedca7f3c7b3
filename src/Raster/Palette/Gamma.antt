-- ===== src/Raster/Palette/Gamma.antt =====
-- The gamma tables: eight lanes at a time, and the identity left out.
use zombie_shooter_ps_vita_p.Prelude.{
  ℕ, ◌+◌, ◌*◌, ◌-◌, ◌^◌, ◌≤◌, ◌<◌, ◌≡◌, refl, sym, ◌∙◌, List, [], ◌∷◌, map, ltb, ◌==◌,
  if◌then◌else◌, if_cases, ◌>>>◌, ◌<<<◌, bit_or, u8, u16, u32, arith,
}
use zombie_shooter_ps_vita_p.Prelude.Bits.{bit_or_above}
use native.Mathlib.Nat.{mul-le-mul_left, mul-le-mul_right}
use zombie_shooter_ps_vita_p.Raster.Lanes.{lane}
use zombie_shooter_ps_vita_p.Raster.Palette.{
  gamma_channel, gamma_alpha, zombie_gamma_palette_color, gamma_rgb8, gamma_alpha8, gamma_lanes,
  gamma_palette_fast,
}
use zombie_shooter_ps_vita_p.Raster.Palette.Exact.{or_up, byte, low_byte, top_lane}

scaled : (c n : ℕ) → c < 256 → n < 256 → (256 - n) * c ≤ 256 * 255
scaled c n hc hn =
    let one : 256 - n ≤ 256 = omega arith in
    let two : c ≤ 255 = omega arith in
    omega (arith, mul-le-mul_right c one, mul-le-mul_left 256 two)

swap : (c n : ℕ) → c * (256 - n) ≡ (256 - n) * c
swap c n = omega arith

channel_value : (c n p : ℕ) → c < 256 → n < 256 → p < 256 → gamma_rgb8 c n p ≡ gamma_channel c n p
unfolding gamma_rgb8 gamma_channel
channel_value c n p hc hn hp =
    let bound = scaled c n hc hn in
    let small : u16 (256 - n) ≡ 256 - n = omega arith in
    rw (small, swap c n) (clamped ((256 - n) * c) p bound hp)
  where
    clamped :
        (v p : ℕ)
        → v ≤ 256 * 255
        → p < 256
        → u8 (if ltb 255 (u16 (u16 v >>> 8 + p)) then 255 else u16 (u16 v >>> 8 + p))
          ≡ (if ltb 255 (u32 v >>> 8 + p) then 255 else u32 v >>> 8 + p)
    clamped v p hv hp = ground arith

channel_range : (c n p : ℕ) → gamma_channel c n p < 256
unfolding gamma_channel
channel_range c n p = ground arith

alpha_value : (a n p : ℕ) → a < 256 → gamma_alpha8 a n p ≡ gamma_alpha a n p
unfolding gamma_alpha8 gamma_alpha
alpha_value a n p ha = ground arith

alpha_range : (a n p : ℕ) → a < 256 → gamma_alpha a n p < 256
unfolding gamma_alpha
alpha_range a n p ha = ground arith

shifted : (a : ℕ) → a < 256 → u32 (a <<< 24) ≡ a * 2 ^ 24
shifted a h = omega arith

-- One colour of the table.
lanes_color :
    (c n p : ℕ)
    → c < 2 ^ 32
    → n < 2 ^ 32
    → p < 2 ^ 32
    → gamma_lanes c n p ≡ zombie_gamma_palette_color c n p
unfolding gamma_lanes zombie_gamma_palette_color
lanes_color c n p hc hn hp =
    let a = gamma_alpha (c >>> 24) (n >>> 24) (p >>> 24) in
    let ha : gamma_alpha (c >>> 24) (n >>> 24) (p >>> 24) < 256 =
      alpha_range (c >>> 24) (n >>> 24) (p >>> 24) (omega arith) in
    rw
      (
        low_byte c,
        low_byte n,
        low_byte p,
        byte c 8,
        byte n 8,
        byte p 8,
        byte c 16,
        byte n 16,
        byte p 16,
        top_lane c hc,
        top_lane n hn,
        top_lane p hp,
        shifted (gamma_alpha (c >>> 24) (n >>> 24) (p >>> 24)) ha,
        channel_value (lane 0 c) (lane 0 n) (lane 0 p) (omega arith) (omega arith) (omega arith),
        channel_value (lane 1 c) (lane 1 n) (lane 1 p) (omega arith) (omega arith) (omega arith),
        channel_value (lane 2 c) (lane 2 n) (lane 2 p) (omega arith) (omega arith) (omega arith),
        alpha_value (c >>> 24) (n >>> 24) (p >>> 24) (omega arith),
      )
      (sym (
        or_up (gamma_channel (lane 0 c) (lane 0 n) (lane 0 p))
          (gamma_channel (lane 1 c) (lane 1 n) (lane 1 p))
          (gamma_channel (lane 2 c) (lane 2 n) (lane 2 p))
          (gamma_alpha (c >>> 24) (n >>> 24) (p >>> 24))
          (channel_range (lane 0 c) (lane 0 n) (lane 0 p))
          (channel_range (lane 1 c) (lane 1 n) (lane 1 p))
          (channel_range (lane 2 c) (lane 2 n) (lane 2 p))))

identity_channel : (c : ℕ) → c < 256 → gamma_channel c 0 0 ≡ c
unfolding gamma_channel
identity_channel c h = ground arith

identity_alpha : (a : ℕ) → a < 256 → gamma_alpha a 0 0 ≡ a
unfolding gamma_alpha
identity_alpha a h = ground arith

identity_lanes : (c : ℕ) → c < 2 ^ 32 → gamma_lanes c 0 0 ≡ c
unfolding gamma_lanes
identity_lanes c h =
    rw
      (
        channel_value (lane 0 c) 0 0 (omega arith) (omega arith) (omega arith),
        channel_value (lane 1 c) 0 0 (omega arith) (omega arith) (omega arith),
        channel_value (lane 2 c) 0 0 (omega arith) (omega arith) (omega arith),
        alpha_value (lane 3 c) 0 0 (omega arith),
        identity_channel (lane 0 c) (omega arith),
        identity_channel (lane 1 c) (omega arith),
        identity_channel (lane 2 c) (omega arith),
        identity_alpha (lane 3 c) (omega arith),
      )
      (omega arith)

-- The entries of a palette have 32 bits.
abbrev pub HasWords : List ℕ → Type 0
HasWords [] = Unit {0}
HasWords (c ∷ cs) = (c < 2 ^ 32) × HasWords cs

map_lanes :
    (n p : ℕ) (cs : List ℕ)
    → n < 2 ^ 32
    → p < 2 ^ 32
    → HasWords cs
    → map (λ c. gamma_lanes c n p) cs ≡ map (λ c. zombie_gamma_palette_color c n p) cs
map_lanes n p [] hn hp h = refl
map_lanes n p (c ∷ cs) hn hp h = rw (lanes_color c n p h.0 hn hp, map_lanes n p cs hn hp h.1) refl

map_identity :
    (n p : ℕ) (cs : List ℕ)
    → n ≡ 0
    → p ≡ 0
    → HasWords cs
    → cs ≡ map (λ c. zombie_gamma_palette_color c n p) cs
map_identity n p [] en ep h = refl
map_identity n p (c ∷ cs) en ep h =
    let same : zombie_gamma_palette_color c n p ≡ c =
      rw (en, ep)
        (sym (lanes_color c 0 0 h.0 (omega arith) (omega arith)) ∙ identity_lanes c h.0) in
    rw (same, ← map_identity n p cs en ep h.1) refl

-- The fast gamma, with its lanes of 16 bits and its short cut for the identity, gives every colour
-- of a palette that zombie_gamma_palette_color gives.
pub gamma_palette_fast-map :
    (negative positive : ℕ) (palette : List ℕ)
    → negative < 2 ^ 32
    → positive < 2 ^ 32
    → HasWords palette
    → gamma_palette_fast negative positive palette
      ≡ map (λ c. zombie_gamma_palette_color c negative positive) palette
unfolding gamma_palette_fast
gamma_palette_fast-map n p cs hn hp h =
    if_cases (λ (r : List ℕ). r ≡ map (λ c. zombie_gamma_palette_color c n p) cs) (bit_or n p == 0)
      (λ neutral.
        let (left, right) = bit_or_above n p in
        let zero_word : bit_or n p ≡ 0 = ground arith in
        map_identity n p cs (omega arith) (omega arith) h)
      (λ other. map_lanes n p cs hn hp h)
