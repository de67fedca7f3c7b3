-- ===== src/Raster/Palette/Exact.antt =====
-- The vector code of the palette rows and of the gamma tables against the code for one pixel.
use zombie_shooter_ps_vita_p.Prelude.{
  ℕ, zero, suc, ◌+◌, ◌*◌, ◌-◌, ◌%◌, ◌^◌, ◌<◌, ◌≡◌, refl, ap, ◌∙◌, true, false, not, List, [], ◌∷◌,
  map, length, take, drop, if_cases, ◌>>>◌, ◌<<<◌, bit_and, bit_or, u32, arith,
}
use zombie_shooter_ps_vita_p.Prelude.Bits.{
  bit_and_low, bit_or_disjoint, bit_or_split, bit_or-zero, zero-bit_or,
}
use native.Mathlib.Nat.{one-le-pow}
use zombie_shooter_ps_vita_p.Raster.Lanes.{lane, pack, blocks_of_eight-map, mean_bound}
use zombie_shooter_ps_vita_p.Raster.Palette.{
  palette_blend, palette_mean, palette_vector, PaletteMode, PalettePixel, palette_pixel,
  palette_lane, any_seen, all_seen, palette_block, palette_row,
}

-- Four bytes joined from the highest down.
or_down :
    (r g b a : ℕ)
    → r < 256
    → g < 256
    → b < 256
    → bit_or (bit_or (bit_or (a * 2 ^ 24) (b * 2 ^ 16)) (g * 2 ^ 8)) r ≡ pack r g b a
or_down r g b a hr hg hb =
    let one : bit_or (a * 2 ^ 24) (b * 2 ^ 16) ≡ (a * 2 ^ 8 + b) * 2 ^ 16 =
      bit_or_disjoint 24 a (b * 2 ^ 16) (omega arith) ∙ omega arith in
    let two : bit_or ((a * 2 ^ 8 + b) * 2 ^ 16) (g * 2 ^ 8)
        ≡ ((a * 2 ^ 8 + b) * 2 ^ 8 + g) * 2 ^ 8 =
      bit_or_disjoint 16 (a * 2 ^ 8 + b) (g * 2 ^ 8) (omega arith) ∙ omega arith in
    rw (one, two, bit_or_disjoint 8 ((a * 2 ^ 8 + b) * 2 ^ 8 + g) r hr) (omega arith)

or_above : (k q r : ℕ) → r < 2 ^ k → bit_or r (q * 2 ^ k) ≡ q * 2 ^ k + r
or_above k q r h =
    let one : r ≡ 0 * 2 ^ k + r = omega arith in
    let two : q * 2 ^ k ≡ q * 2 ^ k + 0 = omega arith in
    ap (λ (t : ℕ). bit_or t (q * 2 ^ k)) one
    ∙ ap (bit_or (0 * 2 ^ k + r)) two
    ∙ bit_or_split k 0 r q 0 h (omega (arith, one-le-pow k 2))
    ∙ ap (λ (t : ℕ). t * 2 ^ k + bit_or r 0) (zero-bit_or q)
    ∙ ap (λ (t : ℕ). q * 2 ^ k + t) (bit_or-zero r)

-- And from the lowest up.
pub or_up :
    (r g b a : ℕ)
    → r < 256
    → g < 256
    → b < 256
    → bit_or (bit_or (bit_or r (g * 2 ^ 8)) (b * 2 ^ 16)) (a * 2 ^ 24) ≡ pack r g b a
or_up r g b a hr hg hb =
    let two : bit_or (g * 2 ^ 8 + r) (b * 2 ^ 16) ≡ b * 2 ^ 16 + (g * 2 ^ 8 + r) =
      or_above 16 b (g * 2 ^ 8 + r) (omega arith) in
    let three : bit_or (b * 2 ^ 16 + (g * 2 ^ 8 + r)) (a * 2 ^ 24)
        ≡ a * 2 ^ 24 + (b * 2 ^ 16 + (g * 2 ^ 8 + r)) =
      or_above 24 a (b * 2 ^ 16 + (g * 2 ^ 8 + r)) (omega arith) in
    rw (or_above 8 g r hr, two, three) (omega arith)

pub byte : (c k : ℕ) → bit_and (c >>> k) 255 ≡ (c >>> k) % 256
byte c k = bit_and_low 8 (c >>> k)

mean_value :
    (x y a : ℕ)
    → x < 256
    → y < 256
    → a < 256
    → palette_mean x y a ≡ u32 (u32 (x * a) + u32 (y * (256 - a))) >>> 8
unfolding palette_mean
mean_value x y a hx hy ha = let bound = mean_bound x y a 256 hx hy (omega arith) in omega arith

mean_range :
    (x y a : ℕ) → x < 256 → y < 256 → a < 256 → u32 (u32 (x * a) + u32 (y * (256 - a))) >>> 8 < 256
mean_range x y a hx hy ha = let bound = mean_bound x y a 256 hx hy (omega arith) in omega arith

blended :
    (x y z x' y' z' a : ℕ)
    → x < 256
    → y < 256
    → z < 256
    → x' < 256
    → y' < 256
    → z' < 256
    → a < 256
    → bit_or
        (bit_or
          (bit_or 0xff000000 (u32 (u32 (z * a) + u32 (z' * (256 - a))) >>> 8 <<< 16))
          (u32 (u32 (y * a) + u32 (y' * (256 - a))) >>> 8 <<< 8))
        (u32 (u32 (x * a) + u32 (x' * (256 - a))) >>> 8)
      ≡ pack (palette_mean x x' a) (palette_mean y y' a) (palette_mean z z' a) 255
blended x y z x' y' z' a hx hy hz hx' hy' hz' ha =
    rw (mean_value x x' a hx hx' ha, mean_value y y' a hy hy' ha, mean_value z z' a hz hz' ha)
      (or_down (u32 (u32 (x * a) + u32 (x' * (256 - a))) >>> 8)
        (u32 (u32 (y * a) + u32 (y' * (256 - a))) >>> 8)
        (u32 (u32 (z * a) + u32 (z' * (256 - a))) >>> 8) 255 (mean_range x x' a hx hx' ha)
        (mean_range y y' a hy hy' ha) (mean_range z z' a hz hz' ha))

pub top_lane : (c : ℕ) → c < 2 ^ 32 → lane 3 c ≡ c >>> 24
top_lane c h = omega arith

pub low_byte : (c : ℕ) → bit_and c 255 ≡ lane 0 c
low_byte c = bit_and_low 8 c ∙ omega arith

palette_blend-palette_vector :
    (s d : ℕ) → s < 2 ^ 32 → d < 2 ^ 32 → palette_blend s d ≡ palette_vector s d
unfolding palette_blend palette_vector
palette_blend-palette_vector s d hs hd =
    rw (low_byte s, low_byte d, byte s 8, byte d 8, byte s 16, byte d 16, top_lane s hs)
      (blended (lane 0 s) (lane 1 s) (lane 2 s) (lane 0 d) (lane 1 d) (lane 2 d) (s >>> 24)
        (omega arith) (omega arith) (omega arith) (omega arith) (omega arith) (omega arith)
        (omega arith))

-- The colours of a row have 32 bits and its depths 16.
abbrev pub HasColors : List PalettePixel → Type 0
HasColors [] = Unit {0}
HasColors (p ∷ ps) = (p.color < 2 ^ 32) × (p.dst < 2 ^ 32) × HasColors ps

HasColors-take : (n : ℕ) (ps : List PalettePixel) → HasColors ps → HasColors (take n ps)
HasColors-take zero ps c = tt
HasColors-take (suc n) [] c = tt
HasColors-take (suc n) (p ∷ ps) c = (c.0, c.1, HasColors-take n ps c.2)

HasColors-drop : (n : ℕ) (ps : List PalettePixel) → HasColors ps → HasColors (drop n ps)
HasColors-drop zero ps c = c
HasColors-drop (suc n) [] c = tt
HasColors-drop (suc n) (p ∷ ps) c = HasColors-drop n ps c.2

hidden_block :
    (mode : PaletteMode) (ps : List PalettePixel)
    → any_seen ps ≡ false
    → map (λ p. (p.dst, p.z)) ps ≡ map (palette_pixel mode) ps
unfolding any_seen palette_pixel
hidden_block mode [] h = refl
hidden_block mode (p ∷ ps) h = ground (arith, hidden_block mode ps)

seen_block :
    (mode : PaletteMode) (ps : List PalettePixel)
    → HasColors ps
    → all_seen ps ≡ true
    → map (palette_lane mode) ps ≡ map (palette_pixel mode) ps
unfolding all_seen palette_pixel palette_lane
seen_block mode [] c h = refl
seen_block mode (p ∷ ps) c h =
    ground (arith, seen_block mode ps c.2, palette_blend-palette_vector p.color p.dst c.0 c.1)

palette_block-map :
    (mode : PaletteMode) (ps : List PalettePixel)
    → HasColors ps
    → palette_block mode ps ≡ map (palette_pixel mode) ps
unfolding palette_block
palette_block-map mode ps c =
    if_cases (λ (r : List (ℕ × ℕ)). r ≡ map (palette_pixel mode) ps) (not (any_seen ps))
      (λ none_seen. hidden_block mode ps (ground arith))
      (λ some_seen.
        if_cases (λ (r : List (ℕ × ℕ)). r ≡ map (palette_pixel mode) ps) (all_seen ps)
          (seen_block mode ps c) (λ mixed. refl))

-- For colours of 32 bits, the row in blocks of eight leaves the colours and the depths that the
-- pixels leave one by one, in every mode.
pub palette_row-map :
    (mode : PaletteMode) (ps : List PalettePixel)
    → HasColors ps
    → palette_row mode ps ≡ map (palette_pixel mode) ps
unfolding palette_row
palette_row-map mode ps c =
    blocks_of_eight-map HasColors (λ qs d. (HasColors-take 8 qs d, HasColors-drop 8 qs d))
      (palette_block mode) (palette_pixel mode) (palette_block-map mode) (length ps) ps c
