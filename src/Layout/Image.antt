-- ===== src/Layout/Image.antt =====
-- From the input sections to the image in memory (peony-layout/src/lib.rs, compute_layout_icf): the grouping, the
-- lists by permission, and the segments. The sections that the layout makes itself, and the size of the headers,
-- are what the code between these passes computes.
pub mod Accepted
pub mod Addresses
pub mod Complete
pub mod Positions
pub mod Refused
pub mod Sections
use peony.Base.{ℕ, Bool, true, false, ◌⊎◌, inl, inr, List, [], ◌∷◌, ◌++◌, Option, none, some}
use peony.Base.Bytes.{Bytes}
use peony.Base.Map.{get, bytes_key}
use peony.Base.Sort.{sort_unstable_by}
use peony.Layout.Group.{
  LayoutError, Perm, ro, rx, rw, Builder, SectionFilter, Grouping, group_input_sections,
}
use peony.Layout.Script.{ScriptLayout}
use peony.Layout.Segments.{bytes_le, sort_builders_by_script, Segments, assign_addresses}
use peony.Object.{InputObject}

pub record Buckets : Type 0 where
  pub ro_list : List Builder
  pub rx_list : List Builder
  pub rw_pb : List Builder
  pub rw_bss : List Builder

unfoldable pub add_builder : Perm → Bool → Builder → Buckets → Buckets
add_builder ro is_nobits b s = record s { ro_list = b ∷ s.ro_list }
add_builder rx is_nobits b s = record s { rx_list = b ∷ s.rx_list }
add_builder rw false b s = record s { rw_pb = b ∷ s.rw_pb }
add_builder rw true b s = record s { rw_bss = b ∷ s.rw_bss }

-- The loop over the names, each of which stands once in the order.
unfoldable pub bucket : List Bytes → List (Bytes × Builder) → Buckets
bucket [] builders = record { ro_list = []; rx_list = []; rw_pb = []; rw_bss = [] }
bucket (name ∷ order) builders = elim (get name builders) [
  | none ↦ bucket order builders
  | some b ↦ add_builder b.perm b.is_nobits b (bucket order builders)
]

unfoldable pub name_le : Builder → Builder → Bool
name_le a b = bytes_le a.name b.name

-- A list sorted by name, with the made sections behind it, sorted by the script.
unfoldable pub arrange_list : Option ScriptLayout → List Builder → List Builder → List Builder
arrange_list script grouped synthetic =
    sort_builders_by_script script (sort_unstable_by name_le grouped ++ synthetic)

abbrev pub arrange : Option ScriptLayout → Buckets → Buckets → Buckets
arrange script grouped synthetic = record {
  ro_list = arrange_list script grouped.ro_list synthetic.ro_list;
  rx_list = arrange_list script grouped.rx_list synthetic.rx_list;
  rw_pb = arrange_list script grouped.rw_pb synthetic.rw_pb;
  rw_bss = arrange_list script grouped.rw_bss synthetic.rw_bss;
}

module _ (base page header_size : ℕ) (script : Option ScriptLayout)
    (fold_map : Option (List ((ℕ × ℕ) × (ℕ × ℕ)))) (synthetic : Buckets) where
  abbrev pub lists_of : Grouping → Buckets
  lists_of g = arrange script (bucket g.order g.builders) synthetic

  unfoldable pub place_grouped : Grouping → Segments
  place_grouped g =
      let lists = lists_of g in
      assign_addresses base page header_size lists.ro_list lists.rx_list lists.rw_pb lists.rw_bss
        fold_map

  unfoldable pub lay_out : List InputObject → SectionFilter → LayoutError ⊎ Segments
  lay_out objects live = elim (group_input_sections objects live script fold_map) [
    | inl e ↦ inl e
    | inr g ↦ inr (place_grouped g)
  ]
