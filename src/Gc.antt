-- ===== src/Gc.antt =====
-- peony-layout/src/gc.rs and the files of gc/: which input sections the output needs.
pub mod Bits
pub mod Live
pub mod Targets
pub mod Traversal
