-- ===== src/Layout/Image/Sections.antt =====
-- The addresses of two input sections of the image (peony-layout/src/lib.rs, compute_layout_icf).
use peony.Base.{
  ℕ, ◌+◌, ◌^◌, ◌≤◌, ◌<◌, ◌≡◌, ap, subst, ◌⊎◌, inl, inr, List, Option, none, some, arith, get_elem?,
  Mem,
}
use peony.Base.Map.{get, pair_eq}
use peony.Layout.Align.{IsPower}
use peony.Layout.Group.{SectionFilter, Grouping, group_input_sections}
use peony.Layout.Group.Packed.Grouped.{objects_room, Either-cases}
use peony.Layout.Group.Taken.{IsTaken, folds_of}
use peony.Layout.Image.{Buckets, lists_of, place_grouped, lay_out}
use peony.Layout.Image.Addresses.{ArePacked, lists_of-ArePacked, image_room}
use peony.Layout.Image.Complete.{lay_out-HasAddress}
use peony.Layout.Place.Laid.{IsLaid}
use peony.Layout.Script.{ScriptLayout}
use peony.Layout.Segments.{Segments}
use peony.Layout.Segments.Addressed.{assign_addresses-IsLaidOut}
use peony.Layout.Segments.Apart.{memory_ranges, memory_ranges-Ascends, Ascends-apart}
use peony.Layout.Segments.Mapped.{IsAddress, assign_addresses-IsAliased}
use peony.Object.{InputObject, InputSection}
use peony.Layout.Image.Positions.{
  memory_keys, HasIndices, FoldsTo-self, IsAddress-StandsAt, StandsAt-apart,
}

module _ (objects : List InputObject) (base page header_size : ℕ) (script : Option ScriptLayout)
    (fold_map : Option (List ((ℕ × ℕ) × (ℕ × ℕ)))) (synthetic : Buckets) (live : SectionFilter)
    (segments : Segments) where
  -- The end of the image is below 2^64, whatever the grouping gives.
  abbrev pub HasRoom : Type 0
  HasRoom =
      (g : Grouping)
      → group_input_sections objects live script fold_map ≡ inr g
      → image_room base page header_size
          (lists_of base page header_size script fold_map synthetic g)
        < 2 ^ 64

  lay_out-IsLaid :
      objects_room objects ≤ 2 ^ 64
      → IsPower page
      → ArePacked objects synthetic
      → HasRoom
      → lay_out base page header_size script fold_map synthetic objects live ≡ inr segments
      → IsLaid objects base (base + header_size) segments.placed.sections segments.placed.va
        × (segments.placed.va < 2 ^ 64)
        × ((key : ℕ × ℕ) (va : ℕ)
            → get key segments.placed.addresses ≡ some va
            → get key (folds_of fold_map) ≡ none
            → IsAddress segments.placed.sections key va)
  unfolding lay_out place_grouped
  lay_out-IsLaid room power synth fits e =
      elim (Either-cases (group_input_sections objects live script fold_map)) [
        | inl (err, bad) ↦ absurd (ground (arith, e, bad))
        | inr (g, grouped) ↦
            let same : place_grouped base page header_size script fold_map synthetic g ≡ segments =
              ground (arith, e, grouped) in
            let lists = lists_of base page header_size script fold_map synthetic g in
            let (h1, h2, h3, h4) =
              lists_of-ArePacked objects base page header_size script fold_map synthetic live g room
                grouped synth in
            let small = fits g grouped in
            let ((laid, above), most) =
              assign_addresses-IsLaidOut objects (2 ^ 64) base page header_size lists.ro_list
                lists.rx_list lists.rw_pb lists.rw_bss fold_map power h1 h2 h3 h4 (omega arith) in
            subst
              (λ t.
                IsLaid objects base (base + header_size) t.placed.sections t.placed.va
                × (t.placed.va < 2 ^ 64)
                × ((key : ℕ × ℕ) (va : ℕ)
                    → get key t.placed.addresses ≡ some va
                    → get key (folds_of fold_map) ≡ none
                    → IsAddress t.placed.sections key va))
              same
              (
                laid,
                omega arith,
                λ key va found plain.
                    let (last, address, chain) =
                      assign_addresses-IsAliased base page header_size lists.ro_list lists.rx_list
                        lists.rw_pb lists.rw_bss fold_map key va found in
                    subst
                      (λ k.
                        IsAddress
                          (place_grouped base page header_size script fold_map synthetic
                            g).placed.sections
                          k va)
                      (FoldsTo-self (folds_of fold_map) last key plain chain) address,
              )
      ]

  -- If the layout succeeds, with a fold map or without one, two input sections with different keys have addresses
  -- whose ranges of bytes are apart, if both are taken: to be loaded, no debug section and no note, with bytes or a
  -- symbol of their object in them, kept by the filter and not folded. No two sections of their objects may have one
  -- index, the sections that the layout makes itself must be packed, the page size a power of two, the sizes and
  -- alignments of the input sections at most 2^64 bytes together, and the image's sections and gaps must end below 2^64.
  pub lay_out-disjoint :
      (i j : ℕ) (obj other : InputObject) (sec next : InputSection)
      → objects_room objects ≤ 2 ^ 64
      → IsPower page
      → ArePacked objects synthetic
      → HasRoom
      → lay_out base page header_size script fold_map synthetic objects live ≡ inr segments
      → get_elem? objects i ≡ some obj
      → get_elem? objects j ≡ some other
      → HasIndices obj
      → HasIndices other
      → Mem sec obj.sections
      → Mem next other.sections
      → IsTaken live fold_map i obj sec
      → IsTaken live fold_map j other next
      → ¬ ((i ≡ j) × (sec.index ≡ next.index))
      → (va : ℕ) × ((vb : ℕ) × (get (i, sec.index) segments.placed.addresses ≡ some va)
          × (get (j, next.index) segments.placed.addresses ≡ some vb)
          × ((va + sec.size ≤ vb) ⊎ (vb + next.size ≤ va)))
  lay_out-disjoint i j obj other sec next room power synth fits e at at' indices indices' m m' taken
        taken' differ =
      let (laid, small, plain) = lay_out-IsLaid room power synth fits e in
      let sections = segments.placed.sections in
      let (va, found) =
        lay_out-HasAddress objects base page header_size script fold_map synthetic live segments i
          obj sec e at m taken in
      let (vb, found') =
        lay_out-HasAddress objects base page header_size script fold_map synthetic live segments j
          other next e at' m' taken' in
      let (_, _, _, _, _, unfolded) = taken in
      let (_, _, _, _, _, unfolded') = taken' in
      let first =
        IsAddress-StandsAt objects base (base + header_size) segments.placed.va sections i va obj
          sec laid small (plain (i, sec.index) va found unfolded) at m indices in
      let second =
        IsAddress-StandsAt objects base (base + header_size) segments.placed.va sections j vb other
          next laid small (plain (j, next.index) vb found' unfolded') at' m' indices' in
      let ascends =
        memory_ranges-Ascends objects base (base + header_size) segments.placed.va sections laid in
      (
        va,
        (
          vb,
          found,
          found',
          StandsAt-apart (memory_ranges sections) (memory_keys sections) va sec.size vb next.size
              (i, sec.index) (j, next.index)
              (λ p q a n b k e f less.
                Ascends-apart (base + header_size) segments.placed.va p q a n b k
                  (memory_ranges sections) ascends e f less)
              first second (λ same. differ (ap (λ k. k.0) same, ap (λ k. k.1) same)),
        ),
      )
