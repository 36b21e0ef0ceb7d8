-- ===== src/Link.antt =====
-- peony/src/main.rs: the driver, as far as it threads state through the other parts.
pub mod Resolver
pub mod Comdat
pub mod Rounds
pub mod Strong
pub mod Unique
