-- ===== src/Layout/Segments/Addressed.antt =====
-- The sections of all segments lie apart (peony-layout/src/lib.rs, compute_layout_icf, pass 8).
use peony.Base.{
  ℕ, ◌+◌, ◌*◌, ◌^◌, ◌≤◌, ◌≡◌, Bool, true, false, ◌||◌, not, List, [], ◌∷◌, Option, none, some,
  arith, inl, inr, Bool-cases,
}
use peony.Base.Sort.{sort_unstable_by}
use peony.Base.Word.{wrapping_add}
use peony.Layout.Align.{IsPower, align_up}
use peony.Layout.Align.Bounds.{align_up_bounds}
use peony.Layout.Group.{Builder}
use peony.Layout.Group.Packed.{All, IsPacked}
use peony.Layout.Place.{Placement, place}
use peony.Layout.Place.Laid.{IsLaid-up, IsLaidOut, builders_room, place-IsLaidOut}
use peony.Layout.Segments.{
  rw_le, tbss_le, align_tls, split_relro, is_nil, page_up, place_rx, place_relro, place_data,
  assign_addresses,
}
use peony.Layout.Segments.Raised.{align_tls-IsPacked}
use peony.Layout.Segments.Sorted.{All-sort, room-sort, All-split_relro, room-split_relro}
use peony.Object.{InputObject}

module _ (objects : List InputObject) (base lo spent page : ℕ) where
  -- The placement goes on from the other one, within so many bytes.
  abbrev Advances : Placement → ℕ → Placement → Type 0
  Advances p room q = IsLaidOut objects base lo q × (p.va ≤ q.va) × (q.va ≤ p.va + room)

  page_up-Advances :
      (test : Bool) (p : Placement)
      → IsPower page
      → IsLaidOut objects base lo p
      → p.va + page ≤ 2 ^ 64
      → Advances p page (page_up test page p)
  page_up-Advances false p power (laid, above) room = ((laid, above), omega arith, omega arith)
  page_up-Advances true p power (laid, above) room =
      let (low, high, multiple) = align_up_bounds p.va page power room in
      (
        (IsLaid-up objects base lo p.va (align_up p.va page) p.sections laid low, omega arith),
        low,
        omega arith,
      )

  -- A gap to the next page, if the test holds, and sections.
  page_up-place-Advances :
      (test : Bool) (builders : List Builder) (p : Placement)
      → IsPower page
      → IsLaidOut objects base lo p
      → All (IsPacked objects spent) builders
      → p.va + (page + builders_room builders) ≤ 2 ^ 64
      → Advances p (page + builders_room builders) (place base builders (page_up test page p))
  page_up-place-Advances test builders p power laid packed room =
      let (l1, up1, most1) = page_up-Advances test p power laid (omega arith) in
      let (l2, up2, most2) =
        place-IsLaidOut objects base lo spent builders (page_up test page p) l1 packed
          (omega arith) in
      (l2, omega arith, omega arith)

  place_rx-Advances :
      (rx : List Builder) (p : Placement)
      → IsPower page
      → IsLaidOut objects base lo p
      → All (IsPacked objects spent) rx
      → p.va + (page + builders_room rx) ≤ 2 ^ 64
      → Advances p (page + builders_room rx) (place_rx base page rx p)
  unfolding place_rx
  place_rx-Advances [] p power laid packed room = (laid, omega arith, omega arith)
  place_rx-Advances (b ∷ rx) p power laid packed room =
      page_up-place-Advances true (b ∷ rx) p power laid packed room

  place_rw-Advances :
      (relro rest nobits : List Builder) (p : Placement)
      → IsPower page
      → IsLaidOut objects base lo p
      → All (IsPacked objects spent) relro
      → All (IsPacked objects spent) rest
      → All (IsPacked objects spent) nobits
      → p.va + (page + page + (builders_room relro + builders_room rest + builders_room nobits))
        ≤ 2 ^ 64
      → Advances p
          (page + page + (builders_room relro + builders_room rest + builders_room nobits))
          (place base nobits (place_data base page rest nobits (place_relro base page relro p)))
  unfolding place_relro place_data
  place_rw-Advances relro rest nobits p power laid h1 h2 h3 room =
      let (l1, up1, most1) = page_up-place-Advances true relro p power laid h1 (omega arith) in
      let (l2, up2, most2) =
        page_up-place-Advances (not (is_nil rest) || not (is_nil nobits)) rest
          (place base relro (page_up true page p)) power l1 h2 (omega arith) in
      let (l3, up3, most3) =
        place-IsLaidOut objects base lo spent nobits
          (place base rest (
            page_up (not (is_nil rest) || not (is_nil nobits)) page
              (place base relro (page_up true page p))))
          l2 h3 (omega arith) in
      (l3, omega arith, omega arith)

-- The bytes that all segments can take: twice those for data, whose TLS block is aligned again, and the gaps to
-- the pages.
abbrev pub segments_room : ℕ → List Builder → List Builder → List Builder → List Builder → ℕ
segments_room page ro rx rw_pb rw_bss =
    builders_room ro
    + builders_room rx
    + 2 * (builders_room rw_pb + builders_room rw_bss)
    + 1
    + 3 * page

module _ (objects : List InputObject) (spent base page header_size : ℕ)
    (ro rx rw_pb rw_bss : List Builder) where
  -- Laid out, behind the headers and within the room.
  abbrev pub IsLaidWithin : Placement → Type 0
  IsLaidWithin p =
      IsLaidOut objects base (base + header_size) p
      × (p.va ≤ base + header_size + segments_room page ro rx rw_pb rw_bss)

  pub assign_addresses-IsLaidOut :
      (fold_map : Option (List ((ℕ × ℕ) × (ℕ × ℕ))))
      → IsPower page
      → All (IsPacked objects spent) ro
      → All (IsPacked objects spent) rx
      → All (IsPacked objects spent) rw_pb
      → All (IsPacked objects spent) rw_bss
      → base + header_size + segments_room page ro rx rw_pb rw_bss ≤ 2 ^ 64
      → IsLaidWithin (assign_addresses base page header_size ro rx rw_pb rw_bss fold_map).placed
  unfolding assign_addresses
  assign_addresses-IsLaidOut fold_map power h_ro h_rx h_pb h_bss room =
      let lo = base + header_size in
      let exact : wrapping_add base header_size ≡ base + header_size = omega arith in
      let start : Placement = record {
        va = wrapping_add base header_size;
        sections = [];
        addresses = [];
        sec_to_out = [];
      } in
      let (l1, up1, most1) =
        place-IsLaidOut objects base lo spent ro start (omega arith, omega arith) h_ro
          (omega arith) in
      let after_ro = place base ro start in
      let (l2, up2, most2) =
        place_rx-Advances objects base lo spent page rx after_ro power l1 h_rx (omega arith) in
      let after_rx = place_rx base page rx after_ro in
      let sorted_pb = sort_unstable_by rw_le rw_pb in
      let sorted_bss = sort_unstable_by tbss_le rw_bss in
      let (t_pb, t_bss, t_room) =
        align_tls-IsPacked objects spent sorted_pb sorted_bss
          (All-sort (IsPacked objects spent) rw_le rw_pb h_pb)
          (All-sort (IsPacked objects spent) tbss_le rw_bss h_bss) in
      let r1 = room-sort rw_le rw_pb in
      let r2 = room-sort tbss_le rw_bss in
      let pb = (align_tls sorted_pb sorted_bss).0 in
      let nobits = (align_tls sorted_pb sorted_bss).1 in
      let (h_relro, h_rest) = All-split_relro (IsPacked objects spent) pb t_pb in
      let r3 = room-split_relro pb in
      let (l3, up3, most3) =
        place_rw-Advances objects base lo spent page (split_relro pb).0 (split_relro pb).1 nobits
          after_rx power l2 h_relro h_rest t_bss (omega arith) in
      elim fold_map
        as (λ f.
          IsLaidWithin (assign_addresses base page header_size ro rx rw_pb rw_bss f).placed) [
            | none ↦ (elim (Bool-cases (not (is_nil rw_pb) || not (is_nil rw_bss))) [
              | inl rw_there ↦ rw rw_there (l3, omega arith)
              | inr no_rw ↦ rw no_rw (l2, omega arith)
            ])
            | some fm ↦ (elim (Bool-cases (not (is_nil rw_pb) || not (is_nil rw_bss))) [
              | inl rw_there ↦ rw rw_there (l3, omega arith)
              | inr no_rw ↦ rw no_rw (l2, omega arith)
            ])
          ]
