-- ===== src/Lib.antt =====
-- Verification of peony, a linker for x86-64 ELF written in Rust.
--
-- A link runs through these parts. peony-object parses each input file into an `InputObject` with
-- sections, relocations and symbols. The `Resolver` of peony/src/main.rs takes the objects one by one,
-- discards repeated COMDAT groups and merges the symbols of each object into the `SymbolTable` of
-- peony-symbols. The scan of peony-reloc collects the GOT, PLT and TLS slots that the relocations ask
-- for. peony-layout marks the sections that the roots reach, groups the ones that are kept into output
-- sections, places these in segments and gives every symbol its address. After layout, peony-emit
-- makes a work item for every input section, validates that the items' byte ranges and the footprints
-- of their relocations are in bounds and apart, and then copies and patches the sections in parallel
-- with `patch_buf` of peony-reloc.
--
-- Which file models which part:
--   Object           peony-object/src/model.rs: the records of a parsed object
--   Object/Index     the same file, IndexLookup; its method `insert` is `put` here
--   Symbols/Resolution, Symbols/Table, Symbols/Updates
--                    peony-symbols/src/lib.rs: resolutions and conflict rules; merging; the
--                    operations on imports, forced, absolute and copied symbols and on ids
--   Link/Resolver    peony/src/main.rs, Resolver
--   Reloc/Types, Reloc/Slots, Reloc/Scan
--                    peony-reloc/src/types.rs and scan.rs
--   Reloc/Copy       peony-reloc/src/copy.rs
--   Reloc/Tls        peony-reloc/src/tls.rs, with TlsGotInfo of peony-layout/src/lib.rs
--   Reloc/Dynamic, Reloc/Dynamic/Counts
--                    peony-reloc/src/dynamic.rs, with the counts of tls.rs
--   Layout/Align, Layout/Place, Layout/Segments
--                    peony-layout/src/lib.rs: align_up; `place` of compute_layout_icf, and its
--                    pass 8, which places the lists of output sections in segments
--   Layout/Script    peony-layout/src/script.rs: the patterns of a linker script
--   Layout/Script/Glob
--                    globs as a relation, as the specification of the patterns
--   Layout/Group     peony-layout/src/lib.rs: pass 5 of compute_layout_icf, the grouping of input
--                    sections into output sections
--   Layout/Image     the passes composed, from the objects to the addresses of their sections
--   Layout/Finalize  peony-layout/src/lib.rs: finalize_symbols, resolve_entry, check_undefined
--   Layout/RelaDyn   the same file: the assembly of .rela.dyn after layout
--   Reloc/Write, Reloc/Patch
--                    peony-reloc/src/apply.rs: the writers with their width checks, patch_buf
--   Reloc/Formula    the psABI's formulas, as the specification of patch_buf
--   Gc/Live, Gc/Targets, Gc/Traversal
--                    peony-layout/src/gc.rs and gc/live.rs, gc/targets.rs, gc/graph.rs: the live
--                    set, the target maps, the roots and the mark phase
--   Gc/Traversal/Spec
--                    reachability over the relocations, as the specification of the mark phase
--   Icf/Key, Icf/Taint, Icf/Folds
--                    peony-layout/src/icf.rs: the fold keys, the address-significant symbols and the
--                    fold map
--   Cache/Index, Cache/Plan, Cache/RedGreen
--                    peony-cache/src/lib.rs: the relocation reverse index, the planner of a partial
--                    relink, and the red-green pass
--   Emit/Errors, Emit/Footprints, Emit/Ranges
--                    peony-emit/src/input_work.rs and the files of input_work/
-- The other modules hold proofs; Examples holds runs on small inputs.
--
-- How state is modelled: a method that takes `&mut self` is a function from the old state to the new
-- one. Bytes are natural numbers in lists; a fixed-width integer is a natural number whose wrap-around
-- is written out, and a signed one is its bit pattern. A hash map is a list of entries with `get` and
-- `insert` (Base/Map). An error is a value of Result, Outcome or Patched, and an index out of bounds,
-- which panics, is a value of its own. `patch_buf` changes its buffer in place, so that its result
-- holds the buffer after an error as well. Loops run over lists, so that no fuel is needed, with three
-- exceptions. The mark phase has the fuel `todo`, the number of bits of the live set that are not set
-- and of the items that wait, which every visit of an item makes smaller. The reading of a table of
-- address-significant symbols has the table's length as fuel. The iteration over a chain of the
-- reverse index has the number of relocations. The insertions into the reverse index, which threads
-- may make at once, are taken one after the other. The order in which the threads of a parallel level
-- reach the items is a parameter of the traversal. The alignment of addresses uses `&` on 64 bits,
-- where a power of two is found in at most 64 steps. The address width is 64 bits: `usize_max` is 2 ^
-- 64 - 1, and object and symbol ids wrap at 2 ^ 32 as the casts of the code do.
--
-- Not modelled: parsing and output of files, memory maps, the command line, the daemon and LTO, which
-- talk to the operating system or to other tools; traces and warnings; of the layout the program and
-- section headers, the dynamic tables and the symbol table of the output (the sections that the layout
-- makes itself and the size of the headers are parameters of `lay_out`), and the graph of live
-- sections that is exported; the files, the hashes and the epoch key of the cache. The parallel scan
-- of many objects is modelled by the serial one, which gives the same vector.
pub mod Base
pub mod Cache
pub mod Emit
pub mod Examples
pub mod Gc
pub mod Icf
pub mod Layout
pub mod Link
pub mod Object
pub mod Reloc
pub mod Symbols
