-- ===== src/Gc/Traversal.antt =====
-- peony-layout/src/gc.rs and gc/graph.rs: the roots, and the mark phase over the relocations. The
-- order in which the threads of a parallel level reach the items is a parameter.
pub mod Spec
pub mod Kept
pub mod Marks
pub mod Ends
pub mod Marked
use peony.Base.{
  ℕ, zero, suc, ◌+◌, ◌-◌, ◌/◌, Bool, true, false, ◌&&◌, ◌||◌, not, List, [], ◌∷◌, ◌++◌, Option,
  none, some, ◌>>=◌, min, max, ◌==◌, if◌then◌else◌, length, get_elem?,
}
use peony.Base.Bytes.{Bytes, codes, starts_with}
use peony.Gc.Bits.{bit}
use peony.Gc.Live.{LiveSections, insert}
use peony.Gc.Live.Free.{free}
use peony.Gc.Targets.{GcTargetMaps, target}
use peony.Object.{InputObject, InputSection, InputReloc, section_pos}
use peony.Symbols.Resolution.{SymbolResolution, is_export}
use peony.Symbols.Table.{SymbolTable, lookup}

pub data GcRootReason : Type 0 where
  entry export init_fini eh_frame gcc_except_table retain_flag : GcRootReason

-- `key` is the field `section`.
pub record GcRoot : Type 0 where
  pub key : ℕ × ℕ
  pub reason : GcRootReason

-- `SHF_ALLOC` is bit 1 of the flags, `SHF_GNU_RETAIN` bit 21.
abbrev pub shf_alloc_bit : ℕ
shf_alloc_bit = 1

abbrev pub shf_gnu_retain_bit : ℕ
shf_gnu_retain_bit = 21

-- The reason, if the test holds.
abbrev pub reason_if : Bool → GcRootReason → List GcRootReason
reason_if test reason = if test then reason ∷ [] else []

unfoldable pub implicit_root_reasons : InputSection → List GcRootReason
implicit_root_reasons sec =
    reason_if
      (starts_with sec.name (codes ".init")
        || starts_with sec.name (codes ".fini")
        || starts_with sec.name (codes ".preinit_array"))
      init_fini
    ++ reason_if (starts_with sec.name (codes ".eh_frame")) eh_frame
    ++ reason_if (starts_with sec.name (codes ".gcc_except_table")) gcc_except_table
    ++ reason_if (bit sec.flags shf_gnu_retain_bit) retain_flag

-- The key of the section that a resolution is defined in.
unfoldable pub defining_key : SymbolResolution → Option (ℕ × ℕ)
defining_key res = res.defined_in >>= λ def. res.section_index >>= λ si. some (def, si)

unfoldable pub root_of : GcRootReason → Option (ℕ × ℕ) → List GcRoot
root_of why none = []
root_of why (some k) = record { key = k; reason = why } ∷ []

unfoldable pub export_roots_of : List (Bytes × SymbolResolution) → List GcRoot
export_roots_of [] = []
export_roots_of ((name, res) ∷ rest) =
    (if is_export res then root_of export (defining_key res) else []) ++ export_roots_of rest

unfoldable pub with_reasons : ℕ × ℕ → List GcRootReason → List GcRoot
with_reasons k [] = []
with_reasons k (why ∷ whys) = record { key = k; reason = why } ∷ with_reasons k whys

unfoldable pub section_roots : ℕ → List InputSection → List GcRoot
section_roots object_id [] = []
section_roots object_id (sec ∷ secs) =
    (if bit sec.flags shf_alloc_bit
      then with_reasons (object_id, sec.index) (implicit_root_reasons sec)
      else [])
    ++ section_roots object_id secs

unfoldable pub object_roots : ℕ → List InputObject → List GcRoot
object_roots object_id [] = []
object_roots object_id (obj ∷ objs) =
    section_roots object_id obj.sections ++ object_roots (object_id + 1) objs

unfoldable pub collect_roots : List InputObject → SymbolTable → Bytes → Bool → List GcRoot
collect_roots objects symbols entry_symbol export_roots =
    root_of entry (lookup symbols entry_symbol >>= defining_key)
    ++ (if export_roots then export_roots_of symbols.resolutions else [])
    ++ object_roots 0 objects

pub record GcWorkItem : Type 0 where
  pub object_id : ℕ
  pub section_index : ℕ
  pub section_pos : ℕ

abbrev pub key_of : GcWorkItem → ℕ × ℕ
key_of item = (item.object_id, item.section_index)

unfoldable pub item_for_key : List InputObject → ℕ × ℕ → Option GcWorkItem
item_for_key objects (o, s) = get_elem? objects o >>= λ obj. section_pos obj s >>= λ pos.
    some (record { object_id = o; section_index = s; section_pos = pos })

unfoldable pub section : List InputObject → GcWorkItem → Option InputSection
section objects item =
    get_elem? objects item.object_id >>= λ obj. get_elem? obj.sections item.section_pos

unfoldable pub reloc_targets : GcTargetMaps → ℕ → List InputReloc → List (ℕ × ℕ)
reloc_targets targets object_id [] = []
reloc_targets targets object_id (reloc ∷ relocs) = elim (target targets object_id reloc.symbol) [
  | none ↦ reloc_targets targets object_id relocs
  | some k ↦ k ∷ reloc_targets targets object_id relocs
]

-- The keys that the call pushes, and the count that it returns.
unfoldable pub collect_targets : List InputObject → GcTargetMaps → GcWorkItem → List (ℕ × ℕ) × ℕ
collect_targets objects targets item = elim (section objects item) [
  | none ↦ ([], 0)
  | some sec ↦ (reloc_targets targets item.object_id sec.relocs, length sec.relocs)
]

pub record GcStats : Type 0 where
  pub roots : ℕ
  pub traversed_sections : ℕ
  pub scanned_relocs : ℕ
  pub live_sections : ℕ
  pub target_symbols : ℕ
  pub dense_target_objects : ℕ
  pub sparse_target_objects : ℕ

-- `frontier` has the last item of the vector first.
pub record GcTraversal : Type 0 where
  pub objects : List InputObject
  pub targets : GcTargetMaps
  pub live : LiveSections
  pub frontier : List GcWorkItem
  pub stats : GcStats

unfoldable pub with_targets : GcTargetMaps → GcStats
with_targets targets = record {
  roots = 0;
  traversed_sections = 0;
  scanned_relocs = 0;
  live_sections = 0;
  target_symbols = targets.stats.entries;
  dense_target_objects = targets.stats.dense_objects;
  sparse_target_objects = targets.stats.sparse_objects;
}

unfoldable pub new : List InputObject → SymbolTable → GcTraversal
new objects symbols =
    let targets = peony.Gc.Targets.new objects symbols in
    record {
      objects = objects;
      targets = targets;
      live = peony.Gc.Live.new objects;
      frontier = [];
      stats = with_targets targets;
    }

-- `frontier.push`, of the item that there is.
abbrev pub push_item : Option GcWorkItem → List GcWorkItem → List GcWorkItem
push_item none frontier = frontier
push_item (some item) frontier = item ∷ frontier

unfoldable pub insert_key : GcTraversal → ℕ × ℕ → GcTraversal
insert_key t k =
    let (fresh, live) = insert t.live k in
    record t {
      live = live;
      frontier = if fresh then push_item (item_for_key t.objects k) t.frontier else t.frontier;
    }

unfoldable pub insert_keys : GcTraversal → List (ℕ × ℕ) → GcTraversal
insert_keys t [] = t
insert_keys t (k ∷ ks) = insert_keys (insert_key t k) ks

unfoldable pub insert_known_root : GcTraversal → GcWorkItem → GcTraversal
insert_known_root t item =
    let (fresh, live) = insert t.live (key_of item) in
    record t {
      live = live;
      frontier = if fresh then item ∷ t.frontier else t.frontier;
      stats = if fresh then record t.stats { roots = t.stats.roots + 1 } else t.stats;
    }

unfoldable pub seed : GcTraversal → List GcRoot → GcTraversal
seed t [] = t
seed t (root ∷ roots) =
    seed
      (elim (item_for_key t.objects root.key) [ none ↦ t | some item ↦ insert_known_root t item ])
      roots

unfoldable pub seed_roots : GcTraversal → Bytes → Bool → GcTraversal
seed_roots t entry_symbol export_roots =
    seed t (collect_roots t.objects t.targets.symbols entry_symbol export_roots)

-- `traversed` sections and `scanned` relocations are added to the counts.
abbrev pub counted : GcStats → ℕ → ℕ → GcStats
counted stats traversed scanned = record stats {
  traversed_sections = stats.traversed_sections + traversed;
  scanned_relocs = stats.scanned_relocs + scanned;
}

-- The body of the loop of `drain_serial_stack`, after the pop.
unfoldable pub visit : GcTraversal → GcWorkItem → List GcWorkItem → GcTraversal
visit t item rest =
    let (next, scanned) = collect_targets t.objects t.targets item in
    insert_keys (record t { frontier = rest; stats = counted t.stats 1 scanned }) next

-- What the bits and the frontier leave to do; the fuel of the loops.
unfoldable pub todo : GcTraversal → ℕ
todo t = free t.live + length t.frontier

unfoldable pub drain_serial_stack : ℕ → GcTraversal → GcTraversal
drain_serial_stack zero t = t
drain_serial_stack (suc fuel) t = elim t.frontier [
  | [] ↦ t
  | item ∷ rest ↦ drain_serial_stack fuel (visit t item rest)
]

-- What the threads of a level find when they reach the items in this order.
unfoldable pub collect_all : List InputObject → GcTargetMaps → List GcWorkItem → List (ℕ × ℕ) × ℕ
collect_all objects targets [] = ([], 0)
collect_all objects targets (item ∷ items) =
    let (next, scanned) = collect_targets objects targets item in
    let (more, rest) = collect_all objects targets items in (next ++ more, scanned + rest)

unfoldable pub drain_parallel_level :
    (List GcWorkItem → List GcWorkItem) → GcTraversal → GcTraversal
drain_parallel_level reached t =
    let order = reached t.frontier in
    let (candidates, scanned) = collect_all t.objects t.targets order in
    insert_keys (record t { frontier = []; stats = counted t.stats (length order) scanned })
      candidates

abbrev pub s3gc_grain_size : ℕ
s3gc_grain_size = 8192

-- `pl` of the loop of `run`.
unfoldable pub parallelism : ℕ → ℕ → ℕ
parallelism max_threads waiting =
    max (min (min max_threads waiting) ((waiting + (s3gc_grain_size - 1)) / s3gc_grain_size)) 1

module _ (max_threads : ℕ) (reached : List GcWorkItem → List GcWorkItem) where
  -- The loop of `run`; a round has at most the fuel `todo t`.
  unfoldable pub rounds : ℕ → GcTraversal → GcTraversal
  rounds zero t = t
  rounds (suc fuel) t = elim t.frontier [
    | [] ↦ t
    | _ ∷ _ ↦ rounds fuel (
        if parallelism max_threads (length t.frontier) == 1
        then drain_serial_stack (todo t) t
        else drain_parallel_level reached t)
  ]

  -- The fields of `GcOutput`.
  unfoldable pub run : GcTraversal → LiveSections × GcStats
  run t =
      let last = rounds (todo t) t in
      (last.live, record last.stats { live_sections = last.live.len })

  unfoldable pub gc_sections_rooted_with_stats :
      List InputObject → SymbolTable → Bytes → Bool → LiveSections × GcStats
  gc_sections_rooted_with_stats objects symbols entry_symbol export_roots =
      run (seed_roots (new objects symbols) entry_symbol export_roots)
