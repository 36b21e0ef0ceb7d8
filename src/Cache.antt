-- ===== src/Cache.antt =====
-- peony-cache/src/lib.rs: the relocation reverse index, the plan of a partial relink, and the red-green pass.
pub mod Index
pub mod Plan
pub mod RedGreen
