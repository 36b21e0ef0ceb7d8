-- ===== src/Emit.antt =====
-- peony-emit: the work items that copy input sections into the output file.
pub mod Errors
pub mod Footprints
pub mod Ranges
