-- ===== src/Raster/Alpha/Exact.antt =====
-- The two colours in one word give what the eight lanes give, and a row in blocks gives what the
-- pixels give one by one.
use zombie_shooter_ps_vita_p.Prelude.{
  ℕ, zero, suc, ◌+◌, ◌*◌, ◌-◌, ◌/◌, ◌^◌, ◌≤◌, ◌<◌, ◌≡◌, refl, ap, ◌∙◌, true, false, not, List, [],
  ◌∷◌, map, length, take, drop, ◌==◌, if◌then◌else◌, if_cases, ◌>>>◌, ◌<<<◌, bit_and, bit_or, u32,
  arith,
}
use zombie_shooter_ps_vita_p.Prelude.Bits.{bit_and_lanes, bit_and_low}
use native.Mathlib.Nat.{mul-le-mul_left}
use zombie_shooter_ps_vita_p.Raster.Lanes.{lane, pack, blocks_of_eight-map, mean_bound, or_lanes}
use zombie_shooter_ps_vita_p.Raster.Alpha.{
  alpha_blend, alpha_mean, alpha_over, alpha_vector, AlphaPixel, alpha_pixel, any_visible,
  all_visible, alpha_block, alpha_row, alpha_overlap, AlphaRow, alpha_accepts, uintptr_max,
}

distribute : (x y w : ℕ) → (y * 65536 + x) * w ≡ y * w * 65536 + x * w
distribute x y w = omega arith

shifted_lanes :
    (p q : ℕ)
    → p < 65536
    → q < 65536
    → bit_and (u32 (q * 65536 + p) >>> 8) 0xff00ff ≡ p / 256 + q / 256 * 2 ^ 16
shifted_lanes p q hp hq = bit_and_lanes (u32 (q * 65536 + p) >>> 8) ∙ omega arith

-- The weighted sum of two lanes in one word.
two_lanes :
    (x y x' y' a : ℕ)
    → x < 256
    → y < 256
    → x' < 256
    → y' < 256
    → a < 256
    → bit_and (u32 (u32 ((y * 65536 + x) * a) + u32 ((y' * 65536 + x') * (255 - a))) >>> 8) 0xff00ff
      ≡ (x * a + x' * (255 - a)) / 256 + (y * a + y' * (255 - a)) / 256 * 2 ^ 16
two_lanes x y x' y' a hx hy hx' hy' ha =
    let lo = mean_bound x x' a 255 hx hx' (omega arith) in
    let hi = mean_bound y y' a 255 hy hy' (omega arith) in
    let sum : u32 ((y * 65536 + x) * a) + u32 ((y' * 65536 + x') * (255 - a))
        ≡ (y * a + y' * (255 - a)) * 65536 + (x * a + x' * (255 - a)) =
      omega (arith, distribute x y a, distribute x' y' (255 - a)) in
    ap (λ (t : ℕ). bit_and (u32 t >>> 8) 0xff00ff) sum
    ∙ shifted_lanes (x * a + x' * (255 - a)) (y * a + y' * (255 - a)) (omega arith) (omega arith)

lane_mean :
    (x y a : ℕ) → x < 256 → y < 256 → a < 256 → alpha_mean x y a ≡ (x * a + y * (255 - a)) / 256
unfolding alpha_mean
lane_mean x y a hx hy ha = let bound = mean_bound x y a 255 hx hy (omega arith) in omega arith

green : (c : ℕ) → bit_and (c >>> 8) 255 ≡ lane 1 c
green c = bit_and_low 8 (c >>> 8)

red_blue : (c : ℕ) → bit_and c 0xff00ff ≡ lane 2 c * 65536 + lane 0 c
red_blue c = bit_and_lanes c ∙ omega arith

top_lane : (c : ℕ) → c < 2 ^ 32 → lane 3 c ≡ c >>> 24
top_lane c h = omega arith

over_bound : (d a : ℕ) → d < 256 → a < 256 → (255 - d) * a ≤ (255 - d) * 255
over_bound d a hd ha = let h : a ≤ 255 = omega arith in mul-le-mul_left (255 - d) h

over_value : (d a : ℕ) → d < 256 → a < 256 → alpha_over d a ≡ d + u32 ((255 - d) * a) >>> 8
unfolding alpha_over
over_value d a hd ha = let h = over_bound d a hd ha in omega arith

over_range : (d a : ℕ) → d < 256 → a < 256 → d + u32 ((255 - d) * a) >>> 8 < 256
over_range d a hd ha = let h = over_bound d a hd ha in omega arith

green_mean :
    (x y a : ℕ)
    → x < 256
    → y < 256
    → a < 256
    → u32 (u32 (x * a) + u32 (y * (255 - a))) >>> 8 ≡ (x * a + y * (255 - a)) / 256
green_mean x y a hx hy ha = let bound = mean_bound x y a 255 hx hy (omega arith) in omega arith

mean_range : (x y a : ℕ) → x < 256 → y < 256 → a < 256 → (x * a + y * (255 - a)) / 256 < 256
mean_range x y a hx hy ha = let bound = mean_bound x y a 255 hx hy (omega arith) in omega arith

assembled :
    (x y z x' y' z' d a : ℕ)
    → x < 256
    → y < 256
    → z < 256
    → x' < 256
    → y' < 256
    → z' < 256
    → d < 256
    → a < 256
    → bit_or
        (bit_or
          (u32 ((d + u32 ((255 - d) * a) >>> 8) <<< 24))
          (u32 (u32 (y * a) + u32 (y' * (255 - a))) >>> 8 <<< 8))
        (bit_and
          (u32 (u32 ((z * 65536 + x) * a) + u32 ((z' * 65536 + x') * (255 - a))) >>> 8)
          0xff00ff)
      ≡ pack (alpha_mean x x' a) (alpha_mean y y' a) (alpha_mean z z' a) (alpha_over d a)
assembled x y z x' y' z' d a hx hy hz hx' hy' hz' hd ha =
    let top = over_range d a hd ha in
    let fits : u32 ((d + u32 ((255 - d) * a) >>> 8) <<< 24)
        ≡ (d + u32 ((255 - d) * a) >>> 8) * 2 ^ 24 =
      omega arith in
    rw
      (
        fits,
        green_mean y y' a hy hy' ha,
        two_lanes x z x' z' a hx hz hx' hz' ha,
        or_lanes ((x * a + x' * (255 - a)) / 256) ((y * a + y' * (255 - a)) / 256)
            ((z * a + z' * (255 - a)) / 256) (d + u32 ((255 - d) * a) >>> 8)
            (mean_range x x' a hx hx' ha) (mean_range y y' a hy hy' ha)
            (mean_range z z' a hz hz' ha),
        lane_mean x x' a hx hx' ha,
        lane_mean y y' a hy hy' ha,
        lane_mean z z' a hz hz' ha,
        over_value d a hd ha,
      )
      refl

-- For colours of 32 bits, the blend that keeps red and blue in one word is the lane by lane blend
-- of the vector code: each of the three colours is the weighted mean, and no lane carries into
-- another.
pub alpha_blend-alpha_vector :
    (s d : ℕ) → s < 2 ^ 32 → d < 2 ^ 32 → alpha_blend s d ≡ alpha_vector s d
unfolding alpha_blend alpha_vector
alpha_blend-alpha_vector s d hs hd =
    rw (green s, green d, red_blue s, red_blue d, top_lane s hs, top_lane d hd)
      (assembled (lane 0 s) (lane 1 s) (lane 2 s) (lane 0 d) (lane 1 d) (lane 2 d) (d >>> 24)
        (s >>> 24) (omega arith) (omega arith) (omega arith) (omega arith) (omega arith)
        (omega arith) (omega arith) (omega arith))

-- Every colour of the row has 32 bits.
abbrev pub HasColors : List AlphaPixel → Type 0
HasColors [] = Unit {0}
HasColors (p ∷ ps) = (p.color < 2 ^ 32) × (p.dst < 2 ^ 32) × HasColors ps

skipped_block :
    (depth : ℕ) (ps : List AlphaPixel)
    → any_visible depth ps ≡ false
    → map (λ p. p.dst) ps ≡ map (alpha_pixel depth) ps
unfolding any_visible alpha_pixel
skipped_block depth [] h = refl
skipped_block depth (p ∷ ps) h = ground (arith, skipped_block depth ps)

vector_block :
    (depth : ℕ) (ps : List AlphaPixel)
    → HasColors ps
    → all_visible depth ps ≡ true
    → map (λ p. alpha_vector p.color p.dst) ps ≡ map (alpha_pixel depth) ps
unfolding all_visible alpha_pixel
vector_block depth [] c h = refl
vector_block depth (p ∷ ps) c h =
    ground (arith, vector_block depth ps c.2, alpha_blend-alpha_vector p.color p.dst c.0 c.1)

alpha_block-map :
    (depth : ℕ) (ps : List AlphaPixel)
    → HasColors ps
    → alpha_block depth ps ≡ map (alpha_pixel depth) ps
unfolding alpha_block
alpha_block-map depth ps c =
    if_cases (λ (r : List ℕ). r ≡ map (alpha_pixel depth) ps) (not (any_visible depth ps))
      (λ none_seen. skipped_block depth ps (ground arith))
      (λ seen.
        if_cases (λ (r : List ℕ). r ≡ map (alpha_pixel depth) ps) (all_visible depth ps)
          (vector_block depth ps c) (λ mixed. refl))

HasColors-take : (n : ℕ) (ps : List AlphaPixel) → HasColors ps → HasColors (take n ps)
HasColors-take zero ps c = tt
HasColors-take (suc n) [] c = tt
HasColors-take (suc n) (p ∷ ps) c = (c.0, c.1, HasColors-take n ps c.2)

HasColors-drop : (n : ℕ) (ps : List AlphaPixel) → HasColors ps → HasColors (drop n ps)
HasColors-drop zero ps c = c
HasColors-drop (suc n) [] c = tt
HasColors-drop (suc n) (p ∷ ps) c = HasColors-drop n ps c.2

-- For colours of 32 bits, the row in blocks of eight, skipped, blended in vectors or done one by
-- one, has the colours of the row done pixel by pixel.
pub alpha_row-map :
    (depth : ℕ) (ps : List AlphaPixel)
    → HasColors ps
    → alpha_row depth ps ≡ map (alpha_pixel depth) ps
unfolding alpha_row
alpha_row-map depth ps c =
    blocks_of_eight-map HasColors (λ qs d. (HasColors-take 8 qs d, HasColors-drop 8 qs d))
      (alpha_block depth) (alpha_pixel depth) (alpha_block-map depth) (length ps) ps c

-- Two ranges of addresses share no address and stay within the address space.
abbrev pub AreApart : ℕ → ℕ → ℕ → ℕ → Type 0
AreApart a n b m =
    (a + n ≤ uintptr_max)
    × (b + m ≤ uintptr_max)
    × ((x : ℕ) → a ≤ x → x < a + n → b ≤ x → x < b + m → ⊥)

alpha_overlap-AreApart :
    (a n b m : ℕ)
    → a < 2 ^ 32
    → b < 2 ^ 32
    → 0 < n
    → 0 < m
    → alpha_overlap a n b m ≡ false
    → AreApart a n b m
unfolding alpha_overlap
alpha_overlap-AreApart a n b m ha hb hn hm h =
    (ground arith, ground arith, λ x p q r s. ground arith)

-- A row that is done here has 32 to 16384 pixels, and what it writes shares no address with the
-- source, the depths or the palette that it reads.
pub alpha_accepts-AreApart :
    (r : AlphaRow)
    → r.dst < 2 ^ 32
    → r.source < 2 ^ 32
    → r.z < 2 ^ 32
    → r.palette < 2 ^ 32
    → alpha_accepts r ≡ true
    → (32 ≤ r.count)
      × (r.count ≤ 16384)
      × AreApart r.dst (r.count * 4) r.source (if r.indexed == 0 then r.count * 4 else r.count)
      × AreApart r.dst (r.count * 4) r.z (r.count * 2)
      × (r.indexed ≡ 1 → AreApart r.dst (r.count * 4) r.palette 1024)
unfolding alpha_accepts
alpha_accepts-AreApart r hd hs hz hp h = (
  ground arith,
  ground arith,
  alpha_overlap-AreApart r.dst (r.count * 4) r.source
      (if r.indexed == 0 then r.count * 4 else r.count) hd hs (ground arith) (ground arith)
      (ground arith),
  alpha_overlap-AreApart r.dst (r.count * 4) r.z (r.count * 2) hd hz (ground arith) (ground arith)
      (ground arith),
  λ e.
      alpha_overlap-AreApart r.dst (r.count * 4) r.palette 1024 hd hp (ground arith) (ground arith)
        (ground arith),
)
