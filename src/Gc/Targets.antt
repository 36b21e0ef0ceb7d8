-- ===== src/Gc/Targets.antt =====
-- peony-layout/src/gc/targets.rs: which section each symbol of an object stands for, as a dense
-- vector or a map. The parallel and the serial construction give the same vector.
pub mod Lookup
pub mod Meaning
use peony.Base.{
  ℕ, ◌+◌, ◌-◌, ◌*◌, ◌/◌, ◌%◌, ◌^◌, Bool, true, false, ◌&&◌, List, [], ◌∷◌, Option, none, some,
  ◌>>=◌, max, min, ltb, leb, ◌==◌, if◌then◌else◌, length, get_elem?, set, replicate,
}
use peony.Base.Map.{get, insert, nat_eq}
use peony.Base.Word.{usize_max}
use peony.Object.{Binding, local, InputSymbol, InputObject}
use peony.Symbols.Table.{SymbolTable, lookup}
use peony.Reloc.Scan.{is_local}

-- `u64::MAX`.
abbrev pub no_target : ℕ
no_target = 2 ^ 64 - 1

pub data GcObjectTargets : Type 0 where
  dense : List ℕ → GcObjectTargets
  sparse : List (ℕ × ℕ) → GcObjectTargets
  empty : GcObjectTargets

pub record GcTargetStats : Type 0 where
  pub entries : ℕ
  pub dense_objects : ℕ
  pub sparse_objects : ℕ

unfoldable pub pack : ℕ × ℕ → Option ℕ
pack (object_id, section_index) =
    if ltb object_id (2 ^ 32) && ltb section_index (2 ^ 32)
    then some (object_id * 2 ^ 32 + section_index)
    else none

unfoldable pub unpack : ℕ → Option (ℕ × ℕ)
unpack value = if value == no_target then none else some (value / 2 ^ 32, value % 2 ^ 32)

-- The key of the section that a symbol is defined in.
unfoldable pub target_key : ℕ → InputSymbol → SymbolTable → Option (ℕ × ℕ)
target_key object_id sym symbols =
    if is_local sym.binding
    then (sym.section >>= λ section. some (object_id, section))
    else (lookup symbols sym.name >>= λ res.
        res.defined_in >>= λ def. res.section_index >>= λ section. some (def, section))

unfoldable pub resolve_symbol_target : ℕ → InputSymbol → SymbolTable → Option ℕ
resolve_symbol_target object_id sym symbols = target_key object_id sym symbols >>= pack

-- `max()` of the symbol indices.
unfoldable pub max_symbol_index : List InputSymbol → Option ℕ
max_symbol_index [] = none
max_symbol_index (sym ∷ syms) = elim (max_symbol_index syms) [
  | none ↦ some sym.index
  | some m ↦ some (max sym.index m)
]

module _ (object_id : ℕ) (symbols : SymbolTable) where
  -- The loop that fills the vector.
  unfoldable pub fill_dense : List ℕ → List InputSymbol → List ℕ
  fill_dense targets [] = targets
  fill_dense targets (sym ∷ syms) =
      fill_dense
        (elim (resolve_symbol_target object_id sym symbols) [
          | none ↦ targets
          | some target ↦ set targets sym.index target
        ])
        syms

  -- The loop that fills the map.
  unfoldable pub fill_sparse : List (ℕ × ℕ) → List InputSymbol → List (ℕ × ℕ)
  fill_sparse targets [] = targets
  fill_sparse targets (sym ∷ syms) =
      fill_sparse
        (elim (resolve_symbol_target object_id sym symbols) [
          | none ↦ targets
          | some target ↦ insert sym.index target targets
        ])
        syms

  -- How often the loops count an entry.
  unfoldable pub count_entries : List InputSymbol → ℕ
  count_entries [] = 0
  count_entries (sym ∷ syms) =
      (elim (resolve_symbol_target object_id sym symbols) [ none ↦ 0 | some _ ↦ 1 ])
      + count_entries syms

-- `len().saturating_mul(4).max(64)`.
abbrev pub dense_limit : List InputSymbol → ℕ
dense_limit syms = max (min (length syms * 4) usize_max) 64

unfoldable pub build_object_targets : ℕ → InputObject → SymbolTable → GcObjectTargets
build_object_targets object_id obj symbols = elim (max_symbol_index obj.symbols) [
  | none ↦ empty
  | some max_index ↦
      if leb max_index (dense_limit obj.symbols)
      then dense (fill_dense object_id symbols (replicate (max_index + 1) no_target) obj.symbols)
      else sparse (fill_sparse object_id symbols [] obj.symbols)
]

-- What one object adds to the statistics.
unfoldable pub object_stats : ℕ → InputObject → SymbolTable → GcTargetStats
object_stats object_id obj symbols = elim (max_symbol_index obj.symbols) [
  | none ↦ record { entries = 0; dense_objects = 0; sparse_objects = 0 }
  | some max_index ↦
      let found = count_entries object_id symbols obj.symbols in
      if leb max_index (dense_limit obj.symbols)
      then record { entries = found; dense_objects = 1; sparse_objects = 0 }
      else record { entries = found; dense_objects = 0; sparse_objects = 1 }
]

-- The maps and the statistics of the objects from the id `object_id` on.
unfoldable pub build_maps : ℕ → List InputObject → SymbolTable → List GcObjectTargets
build_maps object_id [] symbols = []
build_maps object_id (obj ∷ objs) symbols =
    build_object_targets object_id obj symbols ∷ build_maps (object_id + 1) objs symbols

abbrev pub no_stats : GcTargetStats
no_stats = record { entries = 0; dense_objects = 0; sparse_objects = 0 }

abbrev pub add_stats : GcTargetStats → GcTargetStats → GcTargetStats
add_stats a b = record {
  entries = a.entries + b.entries;
  dense_objects = a.dense_objects + b.dense_objects;
  sparse_objects = a.sparse_objects + b.sparse_objects;
}

unfoldable pub sum_stats : ℕ → List InputObject → SymbolTable → GcTargetStats → GcTargetStats
sum_stats object_id [] symbols stats = stats
sum_stats object_id (obj ∷ objs) symbols stats =
    sum_stats (object_id + 1) objs symbols (add_stats stats (object_stats object_id obj symbols))

pub record GcTargetMaps : Type 0 where
  pub symbols : SymbolTable
  pub objects : List GcObjectTargets
  pub stats : GcTargetStats

unfoldable pub new : List InputObject → SymbolTable → GcTargetMaps
new objects symbols = record {
  symbols = symbols;
  objects = build_maps 0 objects symbols;
  stats = sum_stats 0 objects symbols no_stats;
}

unfoldable pub target_of : GcObjectTargets → ℕ → Option (ℕ × ℕ)
target_of (dense targets) symbol_index = get_elem? targets symbol_index >>= unpack
target_of (sparse targets) symbol_index = get symbol_index targets >>= unpack
target_of empty symbol_index = none

-- The method `get`.
unfoldable pub target : GcTargetMaps → ℕ → ℕ → Option (ℕ × ℕ)
target maps object_id symbol_index =
    get_elem? maps.objects object_id >>= λ targets. target_of targets symbol_index
