-- ===== src/Raster/Tests.antt =====
-- Rows and tables on concrete pixels.
use zombie_shooter_ps_vita_p.Prelude.{◌≡◌, false, List, [], ◌∷◌, map, arith}
use zombie_shooter_ps_vita_p.Raster.Alpha.{AlphaPixel, alpha_pixel, alpha_row, AlphaRow}
use zombie_shooter_ps_vita_p.Raster.Alpha.Exact.{alpha_row-map}
use zombie_shooter_ps_vita_p.Raster.Palette.{
  PaletteMode, PalettePixel, palette_pixel, palette_row, zombie_gamma_palette_color,
  gamma_palette_fast,
}
use zombie_shooter_ps_vita_p.Raster.Palette.Exact.{palette_row-map}
use zombie_shooter_ps_vita_p.Raster.Palette.Gamma.{gamma_palette_fast-map}

abbrev near : AlphaPixel
near = record { color = 0x80ff4020; z = 3; dst = 0xff102030 }

abbrev far : AlphaPixel
far = record { color = 0x80ff4020; z = 9; dst = 0xff102030 }

-- A block of mixed pixels and a rest.
abbrev mixed : List AlphaPixel
mixed = near ∷ far ∷ near ∷ near ∷ near ∷ near ∷ near ∷ near ∷ far ∷ []

alpha_row-map_example : alpha_row 5 mixed ≡ map (alpha_pixel 5) mixed
alpha_row-map_example = alpha_row-map 5 mixed (
  omega arith,
  omega arith,
  (
    omega arith,
    omega arith,
    (
      omega arith,
      omega arith,
      (
        omega arith,
        omega arith,
        (
          omega arith,
          omega arith,
          (
            omega arith,
            omega arith,
            (omega arith, omega arith, (omega arith, omega arith, (omega arith, omega arith, tt))),
          ),
        ),
      ),
    ),
  ),
)

abbrev row : AlphaRow
row = record { source = 0x1000; z = 0x2000; dst = 0x3000; count = 64; palette = 0; indexed = 0 }

abbrev sprite_pixel : PalettePixel
sprite_pixel = record { color = 0x80ff4020; depth = 5; z = 3; dst = 0xff102030 }

abbrev write_z : PaletteMode
write_z = record { no_z_write = false; opaque = false }

palette_row-map_example :
    palette_row write_z (sprite_pixel ∷ []) ≡ map (palette_pixel write_z) (sprite_pixel ∷ [])
palette_row-map_example = palette_row-map write_z (sprite_pixel ∷ []) (omega arith, omega arith, tt)

gamma_palette_fast-map_example :
    gamma_palette_fast 0x10203040 0x01020304 (0xff102030 ∷ [])
    ≡ map (λ c. zombie_gamma_palette_color c 0x10203040 0x01020304) (0xff102030 ∷ [])
gamma_palette_fast-map_example =
    gamma_palette_fast-map 0x10203040 0x01020304 (0xff102030 ∷ []) (omega arith) (omega arith)
      (omega arith, tt)
