-- ===== src/Layout/Segments.antt =====
-- The segments of the output: their addresses and file offsets (peony-layout/src/lib.rs,
-- compute_layout_icf, pass 8). The headers' size and the lists of builders are what the passes before give.
pub mod Sorted
pub mod Raised
pub mod Addressed
pub mod Apart
pub mod Mapped
pub mod Reached
use peony.Base.{
  ℕ, ◌+◌, ◌-◌, Bool, true, false, not, ◌&&◌, ◌||◌, List, [], ◌∷◌, ◌++◌, Option, none, some,
  if◌then◌else◌, leb, ltb, ◌==◌, max,
}
use peony.Base.Bytes.{Bytes, bytes_eq, codes}
use peony.Base.Map.{get, insert, pair_eq}
use peony.Base.Sort.{sort_unstable_by}
use peony.Base.Word.{wrapping_add, wrapping_sub}
use peony.Layout.Align.{align_up}
use peony.Layout.Group.{Builder}
use peony.Layout.Place.{Addresses, Placement, place}
use peony.Layout.Script.{ScriptLayout, order_of}
use peony.Object.{SectionKind, tdata, tbss}

-- `a <= b` of texts, by their bytes.
unfoldable pub bytes_le : Bytes → Bytes → Bool
bytes_le [] b = true
bytes_le (x ∷ a) [] = false
bytes_le (x ∷ a) (y ∷ b) = ltb x y || (x == y && bytes_le a b)

-- `sort_builders_by_script`: the sections that the script lists, in its order, before the others, by name.
unfoldable pub script_le : Option ScriptLayout → Builder → Builder → Bool
script_le none a b = bytes_le a.name b.name
script_le (some script) a b = elim (order_of script a.name) [
  | some i ↦ elim (order_of script b.name) [
    | some j ↦ ltb i j || (i == j && bytes_le a.name b.name)
    | none ↦ true
  ]
  | none ↦ elim (order_of script b.name) [ some j ↦ false | none ↦ bytes_le a.name b.name ]
]

unfoldable pub sort_builders_by_script : Option ScriptLayout → List Builder → List Builder
sort_builders_by_script script builders = sort_unstable_by (script_le script) builders

unfoldable pub is_relro : Bytes → Bool
is_relro name =
    bytes_eq name (codes ".data.rel.ro")
    || bytes_eq name (codes ".dynamic")
    || bytes_eq name (codes ".fini_array")
    || bytes_eq name (codes ".got")
    || bytes_eq name (codes ".got.plt")
    || bytes_eq name (codes ".init_array")

unfoldable pub is_tdata : SectionKind → Bool
is_tdata tdata = true
is_tdata _ = false

unfoldable pub is_tbss : SectionKind → Bool
is_tbss tbss = true
is_tbss _ = false

-- `false` before `true`.
abbrev pub bool_le : Bool → Bool → Bool
bool_le a b = not a || b

-- The order of the sections with bytes in the segment for data: RELRO, the name, `.tdata`.
unfoldable pub rw_le : Builder → Builder → Bool
rw_le a b =
    let later_a = not (is_relro a.name) in
    let later_b = not (is_relro b.name) in
    not (bool_le later_b later_a)
    || (bool_le later_a later_b
        && (not (bytes_le b.name a.name)
            || (bytes_le a.name b.name && bool_le (is_tdata a.kind) (is_tdata b.kind))))

unfoldable pub tbss_le : Builder → Builder → Bool
tbss_le a b = bool_le (not (is_tbss a.kind)) (not (is_tbss b.kind))

unfoldable pub max_tls_align : List Builder → ℕ
max_tls_align [] = 1
max_tls_align (b ∷ builders) =
    if is_tdata b.kind || is_tbss b.kind
    then max b.align (max_tls_align builders)
    else max_tls_align builders

abbrev pub raised : ℕ → Builder → Builder
raised align b = record b { align = max b.align align }

-- The alignment of the last section of the kind `.tdata` is raised, if there is one.
unfoldable pub raise_tdata : ℕ → List Builder → Option (List Builder)
raise_tdata align [] = none
raise_tdata align (b ∷ builders) = elim (raise_tdata align builders) [
  | some later ↦ some (b ∷ later)
  | none ↦ if is_tdata b.kind then some (raised align b ∷ builders) else none
]

-- The alignment of the first section of the kind `.tbss` is raised.
unfoldable pub raise_tbss : ℕ → List Builder → List Builder
raise_tbss align [] = []
raise_tbss align (b ∷ builders) =
    if is_tbss b.kind then raised align b ∷ builders else b ∷ raise_tbss align builders

-- The lists of the segment for data once its base is aligned for the TLS block.
unfoldable pub align_tls : List Builder → List Builder → List Builder × List Builder
align_tls rw_pb rw_bss =
    let align = max_tls_align (rw_pb ++ rw_bss) in
    if ltb 1 align
    then (elim (raise_tdata align rw_pb) [
      | some raised_pb ↦ (raised_pb, rw_bss)
      | none ↦ (rw_pb, raise_tbss align rw_bss)
    ])
    else (rw_pb, rw_bss)

-- `split_at` the first section that is not RELRO.
unfoldable pub split_relro : List Builder → List Builder × List Builder
split_relro [] = ([], [])
split_relro (b ∷ builders) =
    let (relro, rest) = split_relro builders in
    if is_relro b.name then (b ∷ relro, rest) else ([], b ∷ builders)

abbrev pub is_nil {ℓ} : {A : Type ℓ} → List A → Bool
is_nil [] = true
is_nil (x ∷ xs) = false

-- The address after a gap to the next page, if the test holds.
abbrev pub page_up : Bool → ℕ → Placement → Placement
page_up true page p = record p { va = align_up p.va page }
page_up false page p = p

-- `--icf`: a folded section gets the address, or the output section, of its canonical one.
unfoldable pub alias : List ((ℕ × ℕ) × (ℕ × ℕ)) → Addresses → Addresses
alias [] addresses = addresses
alias ((dup, canon) ∷ folds) addresses = alias folds (elim (get canon addresses) [
  | none ↦ addresses
  | some canon_va ↦ insert dup canon_va addresses
])

pub record Segments : Type 0 where
  pub placed : Placement
  pub ro_seg_end : ℕ
  pub rx_seg : Option (ℕ × ℕ)
  pub rw_seg : Option (ℕ × ℕ × ℕ)
  pub file_content_end : ℕ

module _ (base page : ℕ) where
  unfoldable pub place_rx : List Builder → Placement → Placement
  place_rx [] p = p
  place_rx (b ∷ rx) p = place base (b ∷ rx) (page_up true page p)

  -- The parts of the segment for data: RELRO, the other sections with bytes, and those without.
  unfoldable pub place_relro : List Builder → Placement → Placement
  place_relro relro p = place base relro (page_up true page p)

  unfoldable pub place_data : List Builder → List Builder → Placement → Placement
  place_data rest rw_bss p =
      place base rest (page_up (not (is_nil rest) || not (is_nil rw_bss)) page p)

  unfoldable pub assign_addresses :
      ℕ
      → List Builder
      → List Builder
      → List Builder
      → List Builder
      → Option (List ((ℕ × ℕ) × (ℕ × ℕ)))
      → Segments
  assign_addresses header_size ro rx rw_pb rw_bss fold_map =
      let start : Placement = record {
        va = wrapping_add base header_size;
        sections = [];
        addresses = [];
        sec_to_out = [];
      } in
      let after_ro = place base ro start in
      let after_rx = place_rx rx after_ro in
      let (pb, nobits) =
        align_tls (sort_unstable_by rw_le rw_pb) (sort_unstable_by tbss_le rw_bss) in
      let (relro, rest) = split_relro pb in
      let after_relro = place_relro relro after_rx in
      let after_data = place_data rest nobits after_relro in
      let after_bss = place base nobits after_data in
      let has_rw = not (is_nil rw_pb) || not (is_nil rw_bss) in
      let last = if has_rw then after_bss else after_rx in
      record {
        placed = elim fold_map [
          | none ↦ last
          | some fm ↦ record last {
            addresses = alias fm last.addresses;
            sec_to_out = alias fm last.sec_to_out;
          }
        ];
        ro_seg_end = after_ro.va;
        rx_seg = if is_nil rx then none else some (align_up after_ro.va page, after_rx.va);
        rw_seg =
            if has_rw then some (align_up after_rx.va page, after_data.va, after_bss.va) else none;
        file_content_end =
            wrapping_sub
              (if has_rw then after_data.va else if is_nil rx then after_ro.va else after_rx.va)
              base;
      }
