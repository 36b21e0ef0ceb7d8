-- ===== src/Icf.antt =====
-- peony-layout/src/icf.rs: identical code folding.
pub mod Key
pub mod Taint
pub mod Table
pub mod Folds
pub mod Significant
