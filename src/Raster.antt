-- ===== src/Raster.antt =====
-- utils/raster_alpha.h, raster_palette.h and raster_palette.c: the accelerated rows of the software
-- renderer, against the pixel by pixel definitions that they stand for.
pub mod Lanes
pub mod Alpha
pub mod Palette
mod Tests
