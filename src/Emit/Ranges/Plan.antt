-- ===== src/Emit/Ranges/Plan.antt =====
-- What the emitter may rely on after `validate_work_item_ranges` (peony-emit/src/input_work) has
-- accepted its work items: each item owns its bytes.
use peony.Base.{
  ℕ, ◌+◌, ◌-◌, ◌≤◌, ◌<◌, ◌≡◌, refl, ◌∙◌, ap, ◌≢◌, List, [], Option, none, some, arith, length,
  get_elem?, replicate, length-replicate, subst,
}
use native.Mathlib.Nat.{zero-add}
use peony.Object.{InputSection}
use peony.Emit.Errors.{Result, ok, err}
use peony.Emit.Ranges.Sort.{WorkRange, Disjoint, Apart}
use peony.Emit.Ranges.Disjoint.{validate_work_ranges-Apart}
use peony.Emit.Ranges.Items.{
  range_of, IsTaken, Apart-In, collect-IsTaken, collect-IsFull, Footprints, check_relocs-Footprints,
}
use peony.Emit.Ranges.{
  WorkItem, AcceptedWorkItemRange, AcceptedWorkRanges, flatten, Collected, accepted, range_for_item,
  check_relocs, validate_item_containment, collect, validate_work_ranges, validate_work_item_ranges,
}

abbrev start_state : List WorkItem → Collected
start_state items = record { slots = replicate (length items) none; ranges = [] }

-- The two halves of a successful validation.
record Validated (items : List WorkItem) (n : ℕ) (a : AcceptedWorkRanges) : Type 0 where
  c : Collected
  collected : collect n 0 items (start_state items) ≡ ok c
  slots : a.item_ranges ≡ c.slots
  apart : Apart c.ranges

validated :
    (items : List WorkItem) (n : ℕ) (a : AcceptedWorkRanges)
    → validate_work_item_ranges items n ≡ ok a
    → Validated items n a
unfolding validate_work_item_ranges
validated items n a e = go (collect n 0 items (start_state items)) refl
  where
    go : (r : Result Collected) → collect n 0 items (start_state items) ≡ r → Validated items n a
    go (err x) k = absurd (ground arith)
    go (ok c) k = go' (validate_work_ranges c.ranges) refl
      where
        go' :
            (v : Result AcceptedWorkRanges)
            → validate_work_ranges c.ranges ≡ v
            → Validated items n a
        go' (err x) l = absurd (ground arith)
        go' (ok v) l = record {
          c = c;
          collected = k;
          slots = ground arith;
          apart =
              (validate_work_ranges-Apart c.ranges
                  (collect-IsFull n 0 items (start_state items) c k tt)).0
                (v, l);
        }

containment_lem :
    (k : ℕ) (isec : InputSection) (r : WorkRange)
    → validate_item_containment k isec r ≡ ok tt
    → (length isec.bytes ≤ r.end - r.start)
      × (check_relocs k (length isec.bytes) 0 isec.relocs ≡ ok tt)
unfolding validate_item_containment
containment_lem k isec r e = ground arith

module _ (items : List WorkItem) (n : ℕ) (a : AcceptedWorkRanges)
    (accepted_all : validate_work_item_ranges items n ≡ ok a) where
  valid : Validated items n a
  valid = validated items n a accepted_all

  item-IsTaken :
      (j : ℕ) (item : WorkItem)
      → get_elem? items j ≡ some item
      → 0 < item.file_len
      → IsTaken n j item valid.c
  item-IsTaken j item at full =
      subst (λ k. IsTaken n k item valid.c) (zero-add j)
        (collect-IsTaken n 0 items (start_state items) valid.c j item valid.collected
          (omega (arith, length-replicate {A = Option AcceptedWorkItemRange} (length items) none))
          at full)

  -- After a successful validation the range kept for a non-empty item is the item's own range of the
  -- file, it lies in the buffer, the section's bytes fit into it, and every relocation footprint of
  -- the section lies in the section's bytes.
  pub range_for_item_lem :
      (j : ℕ) (item : WorkItem)
      → get_elem? items j ≡ some item
      → 0 < item.file_len
      → (range_for_item a j ≡ some (accepted (range_of j item)))
        × (item.file_off + item.file_len ≤ n)
        × (length item.isec.bytes ≤ item.file_len)
        × Footprints j (length item.isec.bytes) 0 item.isec.relocs
  unfolding range_for_item
  range_for_item_lem j item at full =
      let t = item-IsTaken j item at full in
      let (short, checked) = containment_lem j item.isec (range_of j item) t.contained in
      (
        ap flatten (ap (λ s. get_elem? s j) valid.slots ∙ t.slot),
        t.within,
        omega arith,
        check_relocs-Footprints j (length item.isec.bytes) 0 item.isec.relocs checked,
      )

  -- After a successful validation two different non-empty items share no byte of the file.
  pub items-Disjoint :
      (i j : ℕ) (item other : WorkItem)
      → get_elem? items i ≡ some item
      → get_elem? items j ≡ some other
      → 0 < item.file_len
      → 0 < other.file_len
      → i ≢ j
      → Disjoint (range_of i item) (range_of j other)
  items-Disjoint i j item other at there full more ne =
      Apart-In valid.c.ranges (range_of i item) (range_of j other) valid.apart
        (item-IsTaken i item at full).listed (item-IsTaken j other there more).listed ne
