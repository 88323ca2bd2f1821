-- ===== src/Pwg.antt =====
-- tocnpwg/src/main.c: the filter that turns a CUPS raster into a PWG raster.
pub mod PackBits
pub mod Device
pub mod Raster
pub mod Extend
pub mod Mirror
pub mod Scale
pub mod Header
pub mod Page
pub mod Rotate
pub mod Create
pub mod Output
pub mod Samples
mod Tests
