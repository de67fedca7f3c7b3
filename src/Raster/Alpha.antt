-- ===== src/Raster/Alpha.antt =====
-- utils/raster_alpha.h: rows blended at a fixed depth.
pub mod Exact
use zombie_shooter_ps_vita_p.Prelude.{
  ℕ, zero, suc, ◌+◌, ◌*◌, ◌-◌, ◌/◌, ◌%◌, ◌^◌, Bool, true, false, not, ◌&&◌, ◌||◌, Option, none,
  some, List, [], ◌∷◌, ◌++◌, map, length, leb, ltb, ◌==◌, if◌then◌else◌, ◌>>>◌, ◌<<<◌, bit_and,
  bit_or, u8, u16, u32,
}
use zombie_shooter_ps_vita_p.Raster.Lanes.{lane, pack, blocks_of_eight}

unfoldable pub alpha_blend : ℕ → ℕ → ℕ
alpha_blend s d =
    let a = s >>> 24 in
    let inv = 255 - a in
    let da = d >>> 24 in
    let rb =
      bit_and (u32 (u32 (bit_and s 0xff00ff * a) + u32 (bit_and d 0xff00ff * inv)) >>> 8)
        0xff00ff in
    let g = u32 (u32 (bit_and (s >>> 8) 255 * a) + u32 (bit_and (d >>> 8) 255 * inv)) >>> 8 in
    let out_a = da + (u32 ((255 - da) * a) >>> 8) in
    bit_or (bit_or (u32 (out_a <<< 24)) (g <<< 8)) rb

-- One lane of the vector code: vmulq, vmlaq and vshrn in 16 bits.
unfoldable pub alpha_mean : ℕ → ℕ → ℕ → ℕ
alpha_mean x y a = u8 (u16 (u16 (x * a) + u16 (y * (255 - a))) >>> 8)

unfoldable pub alpha_over : ℕ → ℕ → ℕ
alpha_over d a = u8 (d + u8 (u16 ((255 - d) * a) >>> 8))

-- The vector code for one of its eight pixels.
unfoldable pub alpha_vector : ℕ → ℕ → ℕ
alpha_vector s d =
    let a = lane 3 s in
    pack (alpha_mean (lane 0 s) (lane 0 d) a) (alpha_mean (lane 1 s) (lane 1 d) a)
      (alpha_mean (lane 2 s) (lane 2 d) a) (alpha_over (lane 3 d) a)

-- A pixel of the row: the source colour, looked up in the palette if the row is indexed, the depth
-- of the scene, and the colour that is there.
pub record AlphaPixel : Type 0 where
  pub color : ℕ
  pub z : ℕ
  pub dst : ℕ

unfoldable pub is_visible : ℕ → AlphaPixel → Bool
is_visible depth p = leb p.z depth

unfoldable pub alpha_pixel : ℕ → AlphaPixel → ℕ
alpha_pixel depth p = if is_visible depth p then alpha_blend p.color p.dst else p.dst

unfoldable pub any_visible : ℕ → List AlphaPixel → Bool
any_visible depth [] = false
any_visible depth (p ∷ ps) = is_visible depth p || any_visible depth ps

unfoldable pub all_visible : ℕ → List AlphaPixel → Bool
all_visible depth [] = true
all_visible depth (p ∷ ps) = is_visible depth p && all_visible depth ps

-- A block: skipped, blended by the vector code, or pixel by pixel.
unfoldable pub alpha_block : ℕ → List AlphaPixel → List ℕ
alpha_block depth ps =
    if not (any_visible depth ps)
    then map (λ p. p.dst) ps
    else if all_visible depth ps
    then map (λ p. alpha_vector p.color p.dst) ps
    else map (alpha_pixel depth) ps

-- The colours of the row after alpha_try.
unfoldable pub alpha_row : ℕ → List AlphaPixel → List ℕ
alpha_row depth ps = blocks_of_eight (alpha_block depth) (alpha_pixel depth) (length ps) ps

abbrev pub uintptr_max : ℕ
uintptr_max = 2 ^ 32 - 1

unfoldable pub alpha_overlap : ℕ → ℕ → ℕ → ℕ → Bool
alpha_overlap a n b m =
    if ltb (uintptr_max - a) n || ltb (uintptr_max - b) m
    then true
    else ltb a (b + m) && ltb b (a + n)

-- The addresses that a call is given.
pub record AlphaRow : Type 0 where
  pub source : ℕ
  pub z : ℕ
  pub dst : ℕ
  pub count : ℕ
  pub palette : ℕ
  pub indexed : ℕ

-- The tests before the loop; `true` where the row is done here and not by the original code. A
-- negative count is less than 32 and stands for 0.
unfoldable pub alpha_accepts : AlphaRow → Bool
alpha_accepts r =
    let colors = r.count * 4 in
    let depths = r.count * 2 in
    let src_size = (if r.indexed == 0 then colors else r.count) in
    not (
      ltb r.count 32
      || ltb 16384 r.count
      || ltb 1 r.indexed
      || r.source == 0
      || r.z == 0
      || r.dst == 0
      || not (r.z % 2 == 0)
      || not (r.dst % 4 == 0)
      || (if r.indexed == 0
          then not (r.source % 4 == 0)
          else r.palette == 0 || not (r.palette % 4 == 0)))
    && not (
        alpha_overlap r.dst colors r.source src_size
        || alpha_overlap r.dst colors r.z depths
        || (not (r.indexed == 0) && alpha_overlap r.dst colors r.palette 1024))
