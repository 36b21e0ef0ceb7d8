-- ===== src/Layout.antt =====
-- peony-layout/src/lib.rs: parts of the output that the layout fills in.
pub mod Align
pub mod Script
pub mod Group
pub mod Place
pub mod Segments
pub mod Image
pub mod Finalize
pub mod RelaDyn
