-- ===== src/Raster/Palette.antt =====
-- utils/raster_palette.h, the rows of indexed sprites with their depths, and the gamma tables of
-- raster_palette.c.
pub mod Exact
pub mod Gamma
use zombie_shooter_ps_vita_p.Prelude.{
  ℕ, zero, suc, ◌+◌, ◌*◌, ◌-◌, ◌/◌, ◌%◌, ◌^◌, Bool, true, false, not, ◌&&◌, ◌||◌, List, [], ◌∷◌,
  ◌++◌, map, length, leb, ltb, ◌==◌, if◌then◌else◌, ◌>>>◌, ◌<<<◌, bit_and, bit_or, u8, u16, u32,
}
use zombie_shooter_ps_vita_p.Raster.Lanes.{lane, pack, blocks_of_eight}

unfoldable pub palette_blend : ℕ → ℕ → ℕ
palette_blend s d =
    let a = s >>> 24 in
    let inv = 256 - a in
    let rb = u32 (u32 (bit_and s 255 * a) + u32 (bit_and d 255 * inv)) >>> 8 in
    let g = u32 (u32 (bit_and (s >>> 8) 255 * a) + u32 (bit_and (d >>> 8) 255 * inv)) >>> 8 in
    let b = u32 (u32 (bit_and (s >>> 16) 255 * a) + u32 (bit_and (d >>> 16) 255 * inv)) >>> 8 in
    bit_or (bit_or (bit_or 0xff000000 (b <<< 16)) (g <<< 8)) rb

unfoldable pub palette_mean : ℕ → ℕ → ℕ → ℕ
palette_mean x y a = u8 (u16 (u16 (x * a) + u16 (y * (256 - a))) >>> 8)

-- The vector code for one of its eight pixels.
unfoldable pub palette_vector : ℕ → ℕ → ℕ
palette_vector s d =
    let a = lane 3 s in
    pack (palette_mean (lane 0 s) (lane 0 d) a) (palette_mean (lane 1 s) (lane 1 d) a)
      (palette_mean (lane 2 s) (lane 2 d) a) 255

-- PALETTE_NO_Z_WRITE and PALETTE_OPAQUE; PALETTE_FLAT only chooses the depth of the pixels.
pub record PaletteMode : Type 0 where
  pub no_z_write : Bool
  pub opaque : Bool

-- A pixel: its colour in the palette, its depth (of the row, or its own), and what is there.
pub record PalettePixel : Type 0 where
  pub color : ℕ
  pub depth : ℕ
  pub z : ℕ
  pub dst : ℕ

-- The colour and the depth that a pixel is left with.
unfoldable pub palette_visible : PalettePixel → Bool
palette_visible p = leb p.z p.depth

unfoldable pub palette_pixel : PaletteMode → PalettePixel → ℕ × ℕ
palette_pixel mode p =
    if palette_visible p
    then (
      (if mode.opaque then p.color else palette_blend p.color p.dst),
      (if mode.no_z_write then p.z else u16 p.depth),
    )
    else (p.dst, p.z)

unfoldable pub palette_lane : PaletteMode → PalettePixel → ℕ × ℕ
palette_lane mode p = (
  (if mode.opaque then p.color else palette_vector p.color p.dst),
  (if mode.no_z_write then p.z else u16 p.depth),
)

unfoldable pub any_seen : List PalettePixel → Bool
any_seen [] = false
any_seen (p ∷ ps) = palette_visible p || any_seen ps

unfoldable pub all_seen : List PalettePixel → Bool
all_seen [] = true
all_seen (p ∷ ps) = palette_visible p && all_seen ps

unfoldable pub palette_block : PaletteMode → List PalettePixel → List (ℕ × ℕ)
palette_block mode ps =
    if not (any_seen ps)
    then map (λ p. (p.dst, p.z)) ps
    else if all_seen ps
    then map (palette_lane mode) ps
    else map (palette_pixel mode) ps

unfoldable pub palette_row : PaletteMode → List PalettePixel → List (ℕ × ℕ)
palette_row mode ps = blocks_of_eight (palette_block mode) (palette_pixel mode) (length ps) ps

-- One colour of zombie_gamma_palette_color.
unfoldable pub gamma_channel : ℕ → ℕ → ℕ → ℕ
gamma_channel c n p = let v = u32 ((256 - n) * c) >>> 8 + p in if ltb 255 v then 255 else v

-- `a - n` or `a + p`, clamped to a byte.
unfoldable pub gamma_alpha : ℕ → ℕ → ℕ → ℕ
gamma_alpha a n p =
    if n == 0 then (if ltb 255 (a + p) then 255 else a + p) else if ltb a n then 0 else a - n

unfoldable pub zombie_gamma_palette_color : ℕ → ℕ → ℕ → ℕ
zombie_gamma_palette_color color negative positive =
    let b = gamma_channel (bit_and color 255) (bit_and negative 255) (bit_and positive 255) in
    let g =
      gamma_channel (bit_and (color >>> 8) 255) (bit_and (negative >>> 8) 255)
        (bit_and (positive >>> 8) 255) in
    let r =
      gamma_channel (bit_and (color >>> 16) 255) (bit_and (negative >>> 16) 255)
        (bit_and (positive >>> 16) 255) in
    let a = gamma_alpha (color >>> 24) (negative >>> 24) (positive >>> 24) in
    bit_or (bit_or (bit_or b (g <<< 8)) (r <<< 16)) (u32 (a <<< 24))

-- gamma_rgb8: one lane of 16 bits.
unfoldable pub gamma_rgb8 : ℕ → ℕ → ℕ → ℕ
gamma_rgb8 source negative positive =
    let v = u16 (u16 (source * u16 (256 - negative)) >>> 8 + positive) in
    u8 (if ltb 255 v then 255 else v)

-- gamma_alpha8: a signed lane of 16 bits. The difference of a byte and a byte fits it.
unfoldable pub gamma_alpha8 : ℕ → ℕ → ℕ → ℕ
gamma_alpha8 source negative positive =
    if negative == 0
    then u8 (if ltb 255 (source + positive) then 255 else source + positive)
    else u8 (if ltb source negative then 0 else source - negative)

-- The vector code of gamma_palette_fast for one colour.
unfoldable pub gamma_lanes : ℕ → ℕ → ℕ → ℕ
gamma_lanes color negative positive =
    pack (gamma_rgb8 (lane 0 color) (lane 0 negative) (lane 0 positive))
      (gamma_rgb8 (lane 1 color) (lane 1 negative) (lane 1 positive))
      (gamma_rgb8 (lane 2 color) (lane 2 negative) (lane 2 positive))
      (gamma_alpha8 (lane 3 color) (lane 3 negative) (lane 3 positive))

-- gamma_palette_fast on a palette: the identity leaves it alone.
unfoldable pub gamma_palette_fast : ℕ → ℕ → List ℕ → List ℕ
gamma_palette_fast negative positive palette =
    if bit_or negative positive == 0
    then palette
    else map (λ c. gamma_lanes c negative positive) palette
