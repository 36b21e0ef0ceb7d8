-- ===== src/Layout/Image/Complete.antt =====
-- Every input section that is not skipped has an address (peony-layout/src/lib.rs, compute_layout_icf).
use peony.Base.{
  ℕ, ◌≡◌, refl, subst, Bool, true, false, ◌||◌, not, List, [], ◌∷◌, ◌++◌, Option, some, inl, inr,
  ◌⊎◌, Bool-cases, Option-cases, Mem, get_elem?, arith, if◌then◌else◌,
}
use peony.Base.Bytes.{Bytes}
use peony.Base.Map.{get, bytes_key, pair_eq}
use peony.Base.Sort.{sort_unstable_by}
use peony.Base.Word.{wrapping_add}
use peony.Layout.Group.{Perm, Builder, SectionFilter, group_input_sections}
use peony.Layout.Group.Added.{HasKey}
use peony.Layout.Group.Contributed.{group_input_sections-IsContributed}
use peony.Layout.Group.Packed.Grouped.{Either-cases}
use peony.Layout.Group.Taken.{IsTaken, folds_of, is_left_out-IsTaken}
use peony.Layout.Image.{
  Buckets, add_builder, bucket, name_le, arrange_list, lists_of, place_grouped, lay_out,
}
use peony.Layout.Place.{Placement, place}
use peony.Layout.Script.{ScriptLayout}
use peony.Layout.Segments.{
  script_le, sort_builders_by_script, rw_le, tbss_le, align_tls, split_relro, is_nil, page_up,
  place_rx, place_relro, place_data, Segments, assign_addresses,
}
use peony.Layout.Segments.Mapped.{assign_addresses-folds_of}
use peony.Layout.Segments.Reached.{
  AnyHas, HasAddress, sort-AnyHas, append-AnyHas, align_tls-AnyHas, split_relro-AnyHas,
  place-HasAddress, page_up-place-HasAddress, place_rx-HasAddress, alias-HasAddress,
}
use peony.Object.{InputSection, InputObject}

-- One of the lists has a builder with the key.
abbrev BucketsHave : ℕ × ℕ → Buckets → Type 0
BucketsHave key s =
    AnyHas key s.ro_list ⊎ (AnyHas key s.rx_list ⊎ (AnyHas key s.rw_pb ⊎ AnyHas key s.rw_bss))

has_rw :
    (key : ℕ × ℕ) (pb nobits : List Builder)
    → AnyHas key pb ⊎ AnyHas key nobits
    → (not (is_nil pb) || not (is_nil nobits)) ≡ true
has_rw key [] [] (inl h) = elim h [ ]
has_rw key [] [] (inr h) = elim h [ ]
has_rw key [] (b ∷ nobits) h = refl
has_rw key (b ∷ pb) nobits h = refl

module _ (key : ℕ × ℕ) where
  add_builder-BucketsHave :
      (perm : Perm) (is_nobits : Bool) (b : Builder) (s : Buckets)
      → HasKey key b ⊎ BucketsHave key s
      → BucketsHave key (add_builder perm is_nobits b s)
  unfolding add_builder
  add_builder-BucketsHave Perm.ro n b s (inl h) = inl (inl h)
  add_builder-BucketsHave Perm.rx n b s (inl h) = inr (inl (inl h))
  add_builder-BucketsHave Perm.rw false b s (inl h) = inr (inr (inl (inl h)))
  add_builder-BucketsHave Perm.rw true b s (inl h) = inr (inr (inr (inl h)))
  add_builder-BucketsHave Perm.ro n b s (inr (inl h)) = inl (inr h)
  add_builder-BucketsHave Perm.ro n b s (inr (inr h)) = inr h
  add_builder-BucketsHave Perm.rx n b s (inr (inl h)) = inl h
  add_builder-BucketsHave Perm.rx n b s (inr (inr (inl h))) = inr (inl (inr h))
  add_builder-BucketsHave Perm.rx n b s (inr (inr (inr h))) = inr (inr h)
  add_builder-BucketsHave Perm.rw false b s (inr (inr (inr (inl h)))) = inr (inr (inl (inr h)))
  add_builder-BucketsHave Perm.rw false b s (inr (inr (inr (inr h)))) = inr (inr (inr h))
  add_builder-BucketsHave Perm.rw false b s (inr (inr (inl h))) = inr (inl h)
  add_builder-BucketsHave Perm.rw false b s (inr (inl h)) = inl h
  add_builder-BucketsHave Perm.rw true b s (inr (inr (inr (inr h)))) = inr (inr (inr (inr h)))
  add_builder-BucketsHave Perm.rw true b s (inr (inr (inr (inl h)))) = inr (inr (inl h))
  add_builder-BucketsHave Perm.rw true b s (inr (inr (inl h))) = inr (inl h)
  add_builder-BucketsHave Perm.rw true b s (inr (inl h)) = inl h

  bucket-BucketsHave :
      (order : List Bytes) (builders : List (Bytes × Builder)) (name : Bytes) (b : Builder)
      → get name builders ≡ some b
      → Mem name order
      → HasKey key b
      → BucketsHave key (bucket order builders)
  unfolding bucket
  bucket-BucketsHave [] builders name b e m h = elim m [ ]
  bucket-BucketsHave (other ∷ order) builders name b e (inl same) h =
      let found : get other builders ≡ some b = subst (λ n. get n builders ≡ some b) same e in
      rw (found, bucket)
        (add_builder-BucketsHave b.perm b.is_nobits b (bucket order builders) (inl h))
  bucket-BucketsHave (other ∷ order) builders name b e (inr m) h =
      let rest = bucket-BucketsHave order builders name b e m h in
      elim (Option-cases (get other builders)) [
        | inl missing ↦ rw (missing, bucket) rest
        | inr (c, found) ↦
            rw (found, bucket)
              (add_builder-BucketsHave c.perm c.is_nobits c (bucket order builders) (inr rest))
      ]

  arrange_list-AnyHas :
      (script : Option ScriptLayout) (grouped synthetic : List Builder)
      → AnyHas key grouped
      → AnyHas key (arrange_list script grouped synthetic)
  unfolding arrange_list sort_builders_by_script
  arrange_list-AnyHas script grouped synthetic h =
      sort-AnyHas key (script_le script) (sort_unstable_by name_le grouped ++ synthetic) (
        append-AnyHas key (sort_unstable_by name_le grouped) synthetic
          (sort-AnyHas key name_le grouped h))

  module _ (base page header_size : ℕ) (s : Buckets)
      (fold_map : Option (List ((ℕ × ℕ) × (ℕ × ℕ)))) where
    assign_addresses-HasAddress-some :
        BucketsHave key s
        → HasAddress key
            (assign_addresses base page header_size s.ro_list s.rx_list s.rw_pb s.rw_bss
              (some (folds_of fold_map))).placed.addresses
    unfolding assign_addresses place_relro place_data
    assign_addresses-HasAddress-some h =
        let start : Placement = record {
          va = wrapping_add base header_size;
          sections = [];
          addresses = [];
          sec_to_out = [];
        } in
        let after_ro = place base s.ro_list start in
        let after_rx = place_rx base page s.rx_list after_ro in
        let lists =
          align_tls (sort_unstable_by rw_le s.rw_pb) (sort_unstable_by tbss_le s.rw_bss) in
        let relro = (split_relro lists.0).0 in
        let rest = (split_relro lists.0).1 in
        let gap = not (is_nil rest) || not (is_nil lists.1) in
        let after_relro = place base relro (page_up true page after_rx) in
        let after_data = place base rest (page_up gap page after_relro) in
        let after_bss = place base lists.1 after_data in
        let from_relro = λ (k : HasAddress key after_rx.addresses ⊎ AnyHas key relro).
          page_up-place-HasAddress key true base page relro after_rx k in
        let from_data = λ (k : HasAddress key after_relro.addresses ⊎ AnyHas key rest).
          page_up-place-HasAddress key gap base page rest after_relro k in
        let from_bss = λ (k : HasAddress key after_data.addresses ⊎ AnyHas key lists.1).
          place-HasAddress key base lists.1 after_data k in
        let rx_has = λ (k : HasAddress key after_ro.addresses ⊎ AnyHas key s.rx_list).
          place_rx-HasAddress key base page s.rx_list after_ro k in
        let last = if not (is_nil s.rw_pb) || not (is_nil s.rw_bss) then after_bss else after_rx in
        let early : HasAddress key after_rx.addresses → HasAddress key last.addresses = λ k.
          elim (Bool-cases (not (is_nil s.rw_pb) || not (is_nil s.rw_bss))) [
            | inl rw_there ↦ rw rw_there (from_bss (inl (from_data (inl (from_relro (inl k))))))
            | inr no_rw ↦ rw no_rw k
          ] in
        let late_tls : AnyHas key lists.0 ⊎ AnyHas key lists.1
            → HasAddress key after_bss.addresses =
          λ k. elim k [
            | inr bss ↦ from_bss (inr bss)
            | inl pb ↦ (elim (split_relro-AnyHas key lists.0 pb) [
              | inl front ↦ from_bss (inl (from_data (inl (from_relro (inr front)))))
              | inr back ↦ from_bss (inl (from_data (inr back)))
            ])
          ] in
        let sorted : AnyHas key s.rw_pb ⊎ AnyHas key s.rw_bss
            → AnyHas key (sort_unstable_by rw_le s.rw_pb)
              ⊎ AnyHas key (sort_unstable_by tbss_le s.rw_bss) =
          λ k. elim k [
            | inl pb ↦ inl (sort-AnyHas key rw_le s.rw_pb pb)
            | inr bss ↦ inr (sort-AnyHas key tbss_le s.rw_bss bss)
          ] in
        let late : AnyHas key s.rw_pb ⊎ AnyHas key s.rw_bss → HasAddress key last.addresses = λ k.
          rw (has_rw key s.rw_pb s.rw_bss k) (
            late_tls (
              align_tls-AnyHas key (sort_unstable_by rw_le s.rw_pb)
                (sort_unstable_by tbss_le s.rw_bss) (sorted k))) in
        alias-HasAddress key (folds_of fold_map) last.addresses (elim h [
          | inl in_ro ↦ early (rx_has (inl (place-HasAddress key base s.ro_list start (inr in_ro))))
          | inr (inl in_rx) ↦ early (rx_has (inr in_rx))
          | inr (inr in_rw) ↦ late in_rw
        ])

    assign_addresses-HasAddress :
        BucketsHave key s
        → HasAddress key
            (assign_addresses base page header_size s.ro_list s.rx_list s.rw_pb s.rw_bss
              fold_map).placed.addresses
    assign_addresses-HasAddress h =
        subst (λ t. HasAddress key t.placed.addresses)
          (assign_addresses-folds_of base page header_size s.ro_list s.rx_list s.rw_pb s.rw_bss
            fold_map)
          (assign_addresses-HasAddress-some h)

-- If the layout succeeds, with folding or without it, an input section has an address in the image if it is to be
-- loaded, is no debug section and no note, has bytes or a symbol of its object in it, is kept by the filter and is
-- not folded.
pub lay_out-HasAddress :
    (objects : List InputObject) (base page header_size : ℕ) (script : Option ScriptLayout)
    (fold_map : Option (List ((ℕ × ℕ) × (ℕ × ℕ)))) (synthetic : Buckets) (live : SectionFilter)
    (segments : Segments) (i : ℕ) (obj : InputObject) (sec : InputSection)
    → lay_out base page header_size script fold_map synthetic objects live ≡ inr segments
    → get_elem? objects i ≡ some obj
    → Mem sec obj.sections
    → IsTaken live fold_map i obj sec
    → (va : ℕ) × (get (i, sec.index) segments.placed.addresses ≡ some va)
unfolding lay_out place_grouped
lay_out-HasAddress objects base page header_size script fold_map synthetic live segments i obj sec e
      found m taken =
    elim (Either-cases (group_input_sections objects live script fold_map)) [
      | inl (err, bad) ↦ absurd (ground (arith, e, bad))
      | inr (g, grouped) ↦
          let same : place_grouped base page header_size script fold_map synthetic g ≡ segments =
            ground (arith, e, grouped) in
          let (name, (b, there, in_order, has)) =
            group_input_sections-IsContributed objects live script fold_map g i obj sec grouped
              found m (is_left_out-IsTaken objects live script fold_map i obj sec found taken) in
          let key : ℕ × ℕ = (i, sec.index) in
          let buckets = bucket g.order g.builders in
          let arranged : BucketsHave key
              (lists_of base page header_size script fold_map synthetic g) =
            elim (bucket-BucketsHave key g.order g.builders name b there in_order has) [
              | inl h ↦ inl (arrange_list-AnyHas key script buckets.ro_list synthetic.ro_list h)
              | inr (inl h) ↦
                  inr (inl (arrange_list-AnyHas key script buckets.rx_list synthetic.rx_list h))
              | inr (inr (inl h)) ↦
                  inr (inr (inl (arrange_list-AnyHas key script buckets.rw_pb synthetic.rw_pb h)))
              | inr (inr (inr h)) ↦
                  inr (inr (inr (arrange_list-AnyHas key script buckets.rw_bss synthetic.rw_bss h)))
            ] in
          subst (λ t. HasAddress key t.placed.addresses) same
            (assign_addresses-HasAddress key base page header_size
              (lists_of base page header_size script fold_map synthetic g) fold_map arranged)
    ]
