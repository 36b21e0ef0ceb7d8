-- ===== src/Layout/Segments/Mapped.antt =====
-- The map of addresses holds the addresses of placed input sections (peony-layout/src/lib.rs, place and the
-- aliases of pass 8).
use peony.Base.{
  ℕ, ◌≡◌, refl, ap, sym, ◌∙◌, subst, Bool, true, false, ◌||◌, not, List, [], ◌∷◌, Option, none,
  some, if◌then◌else◌, inl, inr, ◌⊎◌, Bool-cases, Option-cases, Mem, Mem-append_left,
  Mem-append_right, some-injective, none-ne-some,
}
use peony.Base.Map.{get, insert, pair_eq, pair_beq, pair_beq_iff, get-insert}
use peony.Base.Sort.{sort_unstable_by}
use peony.Base.Word.{wrapping_add}
use peony.Layout.Align.{align_up}
use peony.Layout.Group.{SectionContribution, Builder}
use peony.Layout.Group.Taken.{folds_of}
use peony.Layout.Place.{
  OutputSection, Addresses, Placement, put_addresses, output_section, place_one, place,
}
use peony.Layout.Segments.{
  rw_le, tbss_le, align_tls, split_relro, is_nil, page_up, alias, place_rx, place_relro, place_data,
  assign_addresses,
}

-- What a key is mapped to after an insertion: the value inserted, or what it was mapped to before.
get-insert_cases :
    (k j : ℕ × ℕ) (v w : ℕ) (m : Addresses)
    → get j (insert k v m) ≡ some w
    → ((k ≡ j) × (v ≡ w)) ⊎ (get j m ≡ some w)
get-insert_cases k j v w m e =
    let at = sym (get-insert k j v m) ∙ e in
    elim (Bool-cases (pair_beq k j)) [
      | inl same ↦ inl (
        (pair_beq_iff k j).0 same,
        some-injective v w (sym (ap (λ t. if t then some v else get j m) same) ∙ at),
      )
      | inr apart ↦ inr (sym (ap (λ t. if t then some v else get j m) apart) ∙ at)
    ]

-- The address is that of a contribution with the key to one of the sections.
abbrev pub IsAddress : List OutputSection → ℕ × ℕ → ℕ → Type 0
IsAddress sections key va =
    (s : OutputSection) × ((c : SectionContribution) × Mem s sections
      × Mem c s.contributions
      × ((c.object_id, c.section_index) ≡ key)
      × (wrapping_add s.sh_addr c.offset ≡ va))

put_addresses-get :
    (sh_addr : ℕ) (cs : List SectionContribution) (addresses : Addresses) (key : ℕ × ℕ) (va : ℕ)
    → get key (put_addresses sh_addr cs addresses) ≡ some va
    → ((c : SectionContribution) × Mem c cs
        × ((c.object_id, c.section_index) ≡ key)
        × (wrapping_add sh_addr c.offset ≡ va))
      ⊎ (get key addresses ≡ some va)
unfolding put_addresses
put_addresses-get sh_addr [] addresses key va e = inr e
put_addresses-get sh_addr (c ∷ cs) addresses key va e =
    elim (put_addresses-get sh_addr cs
      (insert (c.object_id, c.section_index) (wrapping_add sh_addr c.offset) addresses) key va e) [
        | inl (d, m, same, at) ↦ inl (d, inr m, same, at)
        | inr now ↦
            elim (get-insert_cases (c.object_id, c.section_index) key
              (wrapping_add sh_addr c.offset) va addresses now) [
                | inl (same, at) ↦ inl (c, inl refl, same, at)
                | inr before ↦ inr before
              ]
      ]

abbrev pub IsMapped : Placement → Type 0
IsMapped p = (key : ℕ × ℕ) (va : ℕ) → get key p.addresses ≡ some va → IsAddress p.sections key va

place_one-IsMapped :
    (base : ℕ) (b : Builder) (p : Placement) → IsMapped p → IsMapped (place_one base b p)
unfolding place_one output_section
place_one-IsMapped base b p mapped key va e =
    let s = output_section base (align_up p.va b.align) b in
    elim (put_addresses-get (align_up p.va b.align) b.contributions p.addresses key va e) [
      | inl (c, m, same, at) ↦
          (s, (c, Mem-append_right s p.sections (s ∷ []) (inl refl), m, same, at))
      | inr before ↦
          let (t, (c, there, m, same, at)) = mapped key va before in
          (t, (c, Mem-append_left t p.sections (s ∷ []) there, m, same, at))
    ]

place-IsMapped :
    (base : ℕ) (builders : List Builder) (p : Placement)
    → IsMapped p
    → IsMapped (place base builders p)
unfolding place
place-IsMapped base [] p mapped = mapped
place-IsMapped base (b ∷ builders) p mapped =
    place-IsMapped base builders (place_one base b p) (place_one-IsMapped base b p mapped)

page_up-IsMapped :
    (test : Bool) (page : ℕ) (p : Placement) → IsMapped p → IsMapped (page_up test page p)
page_up-IsMapped true page p mapped = mapped
page_up-IsMapped false page p mapped = mapped

place_rx-IsMapped :
    (base page : ℕ) (rx : List Builder) (p : Placement)
    → IsMapped p
    → IsMapped (place_rx base page rx p)
unfolding place_rx
place_rx-IsMapped base page [] p mapped = mapped
place_rx-IsMapped base page (b ∷ rx) p mapped =
    place-IsMapped base (b ∷ rx) (page_up true page p) (page_up-IsMapped true page p mapped)

-- The key is folded, in some steps, onto the other one.
pub data FoldsTo (fm : List ((ℕ × ℕ) × (ℕ × ℕ))) (last : ℕ × ℕ) : ℕ × ℕ → Type 0 where
  here : FoldsTo fm last last
  step : {key next : ℕ × ℕ} → Mem (key, next) fm → FoldsTo fm last next → FoldsTo fm last key

-- The address is that of a section onto which the key is folded, itself if it is not.
abbrev pub IsAliased : List ((ℕ × ℕ) × (ℕ × ℕ)) → List OutputSection → ℕ × ℕ → ℕ → Type 0
IsAliased fm sections key va = (last : ℕ × ℕ) × IsAddress sections last va × FoldsTo fm last key

module _ (fm : List ((ℕ × ℕ) × (ℕ × ℕ))) (sections : List OutputSection) where
  alias-IsAliased :
      (folds : List ((ℕ × ℕ) × (ℕ × ℕ))) (addresses : Addresses)
      → ((fold : (ℕ × ℕ) × (ℕ × ℕ)) → Mem fold folds → Mem fold fm)
      → ((key : ℕ × ℕ) (va : ℕ) → get key addresses ≡ some va → IsAliased fm sections key va)
      → (key : ℕ × ℕ) (va : ℕ) → get key (alias folds addresses) ≡ some va
      → IsAliased fm sections key va
  unfolding alias
  alias-IsAliased [] addresses within sound key va e = sound key va e
  alias-IsAliased ((dup, canon) ∷ folds) addresses within sound key va e =
      elim (Option-cases (get canon addresses)) [
        | inl missing ↦
            alias-IsAliased folds addresses (λ fold m. within fold (inr m)) sound key va
              (subst
                (λ o.
                  get key (
                    alias folds (elim o as (λ _. Addresses) [
                      | none ↦ addresses
                      | some canon_va ↦ insert dup canon_va addresses
                    ]))
                  ≡ some va)
                missing e)
        | inr (canon_va, found) ↦
            alias-IsAliased folds (insert dup canon_va addresses) (λ fold m. within fold (inr m))
              (λ k v now. elim (get-insert_cases dup k canon_va v addresses now) [
                | inl (same, at) ↦
                    let (last, address, chain) = sound canon canon_va found in
                    let folded : FoldsTo fm last dup =
                      step (within (dup, canon) (inl refl)) chain in
                    (
                      last,
                      subst (IsAddress sections last) at address,
                      subst (FoldsTo fm last) same folded,
                    )
                | inr before ↦ sound k v before
              ])
              key va
              (subst
                (λ o.
                  get key (
                    alias folds (elim o as (λ _. Addresses) [
                      | none ↦ addresses
                      | some canon_va ↦ insert dup canon_va addresses
                    ]))
                  ≡ some va)
                found e)
      ]

assign_addresses-IsAliased-some :
    (base page header_size : ℕ) (ro rx rw_pb rw_bss : List Builder)
    (fold_map : List ((ℕ × ℕ) × (ℕ × ℕ))) (key : ℕ × ℕ) (va : ℕ)
    → get key
        (assign_addresses base page header_size ro rx rw_pb rw_bss (some fold_map)).placed.addresses
      ≡ some va
    → IsAliased fold_map
        (assign_addresses base page header_size ro rx rw_pb rw_bss (some fold_map)).placed.sections
        key
        va
unfolding assign_addresses place_relro place_data get
assign_addresses-IsAliased-some base page header_size ro rx rw_pb rw_bss fold_map key va e =
    let start : Placement = record {
      va = wrapping_add base header_size;
      sections = [];
      addresses = [];
      sec_to_out = [];
    } in
    let m1 = place-IsMapped base ro start (λ k v bad. absurd (none-ne-some v bad)) in
    let m2 = place_rx-IsMapped base page rx (place base ro start) m1 in
    let after_rx = place_rx base page rx (place base ro start) in
    let lists = align_tls (sort_unstable_by rw_le rw_pb) (sort_unstable_by tbss_le rw_bss) in
    let relro = (split_relro lists.0).0 in
    let rest = (split_relro lists.0).1 in
    let gap = not (is_nil rest) || not (is_nil lists.1) in
    let m3 =
      place-IsMapped base relro (page_up true page after_rx)
        (page_up-IsMapped true page after_rx m2) in
    let after_relro = place base relro (page_up true page after_rx) in
    let m4 =
      place-IsMapped base rest (page_up gap page after_relro)
        (page_up-IsMapped gap page after_relro m3) in
    let after_data = place base rest (page_up gap page after_relro) in
    let m5 = place-IsMapped base lists.1 after_data m4 in
    let last =
      if not (is_nil rw_pb) || not (is_nil rw_bss)
      then place base lists.1 after_data
      else after_rx in
    let mapped : IsMapped last = elim (Bool-cases (not (is_nil rw_pb) || not (is_nil rw_bss))) [
      | inl rw_there ↦ rw rw_there m5
      | inr no_rw ↦ rw no_rw m2
    ] in
    alias-IsAliased fold_map last.sections fold_map last.addresses (λ fold m. m)
      (λ k v now. (k, mapped k v now, here)) key va e

-- No map and a map without folds give the same segments.
pub assign_addresses-folds_of :
    (base page header_size : ℕ) (ro rx rw_pb rw_bss : List Builder)
    (fold_map : Option (List ((ℕ × ℕ) × (ℕ × ℕ))))
    → assign_addresses base page header_size ro rx rw_pb rw_bss (some (folds_of fold_map))
      ≡ assign_addresses base page header_size ro rx rw_pb rw_bss fold_map
unfolding assign_addresses alias
assign_addresses-folds_of base page header_size ro rx rw_pb rw_bss none = refl
assign_addresses-folds_of base page header_size ro rx rw_pb rw_bss (some fm) = refl

-- An address in the map, after all segments and the folding, is that of a contribution to a placed section, with
-- the key itself or with one that it is folded onto.
pub assign_addresses-IsAliased :
    (base page header_size : ℕ) (ro rx rw_pb rw_bss : List Builder)
    (fold_map : Option (List ((ℕ × ℕ) × (ℕ × ℕ)))) (key : ℕ × ℕ) (va : ℕ)
    → get key (assign_addresses base page header_size ro rx rw_pb rw_bss fold_map).placed.addresses
      ≡ some va
    → IsAliased
        (folds_of fold_map)
        (assign_addresses base page header_size ro rx rw_pb rw_bss fold_map).placed.sections
        key
        va
assign_addresses-IsAliased base page header_size ro rx rw_pb rw_bss fold_map key va =
    subst
      (λ t.
        get key t.placed.addresses ≡ some va
        → IsAliased (folds_of fold_map) t.placed.sections key va)
      (assign_addresses-folds_of base page header_size ro rx rw_pb rw_bss fold_map)
      (assign_addresses-IsAliased-some base page header_size ro rx rw_pb rw_bss (folds_of fold_map)
        key va)
