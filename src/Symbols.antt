-- ===== src/Symbols.antt =====
-- peony-symbols: the global symbol table and its resolution rules.
pub mod Resolution
pub mod Table
pub mod Updates
pub mod Ids
pub mod Merged
pub mod Indexed
pub mod History
pub mod IdIndex
pub mod Rule
pub mod Bound
pub mod Strong
pub mod Resolve
