-- ===== src/Reloc.antt =====
-- peony-reloc: relocation types, the scan for synthetic slots, and the patching of section bytes.
pub mod Types
pub mod Write
pub mod Patch
pub mod Touches
pub mod Slots
pub mod Scan
pub mod Value
pub mod Formula
pub mod Tls
pub mod Copy
pub mod Dynamic
