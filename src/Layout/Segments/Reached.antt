-- ===== src/Layout/Segments/Reached.antt =====
-- Every contribution gets an address (peony-layout/src/lib.rs, place and pass 8).
use peony.Base.{
  ℕ, ◌≡◌, sym, ap, ◌∙◌, subst, Bool, true, false, List, [], ◌∷◌, ◌++◌, none, some, inl, inr, ◌⊎◌,
  if◌then◌else◌, ltb, Bool-cases, Option-cases, Mem, arith,
}
use peony.Base.Map.{get, insert, pair_eq, pair_beq, pair_beq_iff, get-insert}
use peony.Base.Sort.{insert_by, sort_unstable_by}
use peony.Base.Word.{wrapping_add}
use peony.Layout.Align.{align_up}
use peony.Layout.Group.{SectionContribution, Builder}
use peony.Layout.Group.Added.{HasKey}
use peony.Layout.Place.{Addresses, Placement, put_addresses, place_one, place}
use peony.Layout.Segments.{
  is_relro, is_tdata, is_tbss, max_tls_align, raised, raise_tdata, raise_tbss, align_tls,
  split_relro, page_up, alias, place_rx,
}

abbrev pub AnyHas : ℕ × ℕ → List Builder → Type 0
AnyHas key [] = ⊥
AnyHas key (b ∷ builders) = HasKey key b ⊎ AnyHas key builders

module _ (key : ℕ × ℕ) where
  insert_by-AnyHas :
      (le : Builder → Builder → Bool) (b : Builder) (builders : List Builder)
      → HasKey key b ⊎ AnyHas key builders
      → AnyHas key (insert_by le b builders)
  unfolding insert_by
  insert_by-AnyHas le b [] h = h
  insert_by-AnyHas le b (c ∷ builders) h = elim (Bool-cases (le b c)) [
    | inl before ↦ rw before h
    | inr after ↦ rw after (elim h [
      | inl here ↦ inr (insert_by-AnyHas le b builders (inl here))
      | inr (inl first) ↦ inl first
      | inr (inr later) ↦ inr (insert_by-AnyHas le b builders (inr later))
    ])
  ]

  pub sort-AnyHas :
      (le : Builder → Builder → Bool) (builders : List Builder)
      → AnyHas key builders
      → AnyHas key (sort_unstable_by le builders)
  unfolding sort_unstable_by
  sort-AnyHas le [] h = h
  sort-AnyHas le (b ∷ builders) (inl here) =
      insert_by-AnyHas le b (sort_unstable_by le builders) (inl here)
  sort-AnyHas le (b ∷ builders) (inr later) =
      insert_by-AnyHas le b (sort_unstable_by le builders) (inr (sort-AnyHas le builders later))

  pub append-AnyHas : (xs ys : List Builder) → AnyHas key xs → AnyHas key (xs ++ ys)
  append-AnyHas (b ∷ xs) ys (inl here) = inl here
  append-AnyHas (b ∷ xs) ys (inr later) = inr (append-AnyHas xs ys later)
  append-AnyHas [] ys h = elim h [ ]

  raise_tdata-AnyHas :
      (align : ℕ) (builders after : List Builder)
      → raise_tdata align builders ≡ some after
      → AnyHas key builders
      → AnyHas key after
  unfolding raise_tdata
  raise_tdata-AnyHas align [] after e h = elim h [ ]
  raise_tdata-AnyHas align (b ∷ builders) after e h =
      elim (Option-cases (raise_tdata align builders)) [
        | inr (later, found) ↦
            let same : b ∷ later ≡ after = ground (arith, e, found) in
            subst (AnyHas key) same (elim h [
              | inl here ↦ inl here
              | inr there ↦ inr (raise_tdata-AnyHas align builders later found there)
            ])
        | inl missing ↦ elim (Bool-cases (is_tdata b.kind)) [
          | inl this ↦
              let same : raised align b ∷ builders ≡ after = ground (arith, e, missing, this) in
              subst (AnyHas key) same h
          | inr other ↦ absurd (ground (arith, e, missing, other))
        ]
      ]

  raise_tbss-AnyHas :
      (align : ℕ) (builders : List Builder)
      → AnyHas key builders
      → AnyHas key (raise_tbss align builders)
  unfolding raise_tbss
  raise_tbss-AnyHas align [] h = h
  raise_tbss-AnyHas align (b ∷ builders) h = elim (Bool-cases (is_tbss b.kind)) [
    | inl this ↦ rw this h
    | inr other ↦
        rw other (elim h [
          | inl here ↦ inl here
          | inr there ↦ inr (raise_tbss-AnyHas align builders there)
        ])
  ]

  pub align_tls-AnyHas :
      (pb nobits : List Builder)
      → AnyHas key pb ⊎ AnyHas key nobits
      → AnyHas key (align_tls pb nobits).0 ⊎ AnyHas key (align_tls pb nobits).1
  unfolding align_tls
  align_tls-AnyHas pb nobits h =
      let align = max_tls_align (pb ++ nobits) in
      elim (Bool-cases (ltb 1 align)) [
        | inr small ↦ rw small h
        | inl large ↦ elim (Option-cases (raise_tdata align pb)) [
          | inr (later, found) ↦
              rw (large, found)
                (elim h [
                  | inl here ↦ inl (raise_tdata-AnyHas align pb later found here)
                  | inr there ↦ inr there
                ])
          | inl missing ↦
              rw (large, missing)
                (elim h [
                  | inl here ↦ inl here
                  | inr there ↦ inr (raise_tbss-AnyHas align nobits there)
                ])
        ]
      ]

  pub split_relro-AnyHas :
      (builders : List Builder)
      → AnyHas key builders
      → AnyHas key (split_relro builders).0 ⊎ AnyHas key (split_relro builders).1
  unfolding split_relro
  split_relro-AnyHas [] h = inl h
  split_relro-AnyHas (b ∷ builders) h = elim (Bool-cases (is_relro b.name)) [
    | inr other ↦ rw other (inr h)
    | inl relro ↦ rw relro (elim h [
      | inl here ↦ inl (inl here)
      | inr there ↦ (elim (split_relro-AnyHas builders there) [
        | inl front ↦ inl (inr front)
        | inr back ↦ inr back
      ])
    ])
  ]

  -- The map has an address for the key.
  abbrev pub HasAddress : Addresses → Type 0
  HasAddress addresses = (va : ℕ) × (get key addresses ≡ some va)

  insert-HasAddress : (k : ℕ × ℕ) (v : ℕ) (m : Addresses) → HasAddress m → HasAddress (insert k v m)
  insert-HasAddress k v m (va, e) = elim (Bool-cases (pair_beq k key)) [
    | inl same ↦ (v, get-insert k key v m ∙ ap (λ t. if t then some v else get key m) same)
    | inr apart ↦ (va, get-insert k key v m ∙ ap (λ t. if t then some v else get key m) apart ∙ e)
  ]

  insert-HasAddress_own : (k : ℕ × ℕ) (v : ℕ) (m : Addresses) → k ≡ key → HasAddress (insert k v m)
  insert-HasAddress_own k v m e = (
    v,
    get-insert k key v m ∙ ap (λ t. if t then some v else get key m) ((pair_beq_iff k key).1 e),
  )

  put_addresses-HasAddress :
      (sh_addr : ℕ) (cs : List SectionContribution) (m : Addresses)
      → HasAddress m
        ⊎ ((c : SectionContribution) × Mem c cs × ((c.object_id, c.section_index) ≡ key))
      → HasAddress (put_addresses sh_addr cs m)
  unfolding put_addresses
  put_addresses-HasAddress sh_addr [] m (inl h) = h
  put_addresses-HasAddress sh_addr [] m (inr (c, there, e)) = elim there [ ]
  put_addresses-HasAddress sh_addr (d ∷ cs) m (inl h) =
      put_addresses-HasAddress sh_addr cs
        (insert (d.object_id, d.section_index) (wrapping_add sh_addr d.offset) m)
        (inl (insert-HasAddress (d.object_id, d.section_index) (wrapping_add sh_addr d.offset) m h))
  put_addresses-HasAddress sh_addr (d ∷ cs) m (inr (c, inl same, e)) =
      put_addresses-HasAddress sh_addr cs
        (insert (d.object_id, d.section_index) (wrapping_add sh_addr d.offset) m)
        (inl (
          insert-HasAddress_own (d.object_id, d.section_index) (wrapping_add sh_addr d.offset) m
            (ap (λ x. (x.object_id, x.section_index)) (sym same) ∙ e)))
  put_addresses-HasAddress sh_addr (d ∷ cs) m (inr (c, inr there, e)) =
      put_addresses-HasAddress sh_addr cs
        (insert (d.object_id, d.section_index) (wrapping_add sh_addr d.offset) m)
        (inr (c, there, e))

  pub place-HasAddress :
      (base : ℕ) (builders : List Builder) (p : Placement)
      → HasAddress p.addresses ⊎ AnyHas key builders
      → HasAddress (place base builders p).addresses
  unfolding place place_one
  place-HasAddress base [] p (inl h) = h
  place-HasAddress base [] p (inr h) = elim h [ ]
  place-HasAddress base (b ∷ builders) p (inl h) =
      place-HasAddress base builders (place_one base b p)
        (inl (put_addresses-HasAddress (align_up p.va b.align) b.contributions p.addresses (inl h)))
  place-HasAddress base (b ∷ builders) p (inr (inl here)) =
      place-HasAddress base builders (place_one base b p) (
        inl
          (put_addresses-HasAddress (align_up p.va b.align) b.contributions p.addresses (inr here)))
  place-HasAddress base (b ∷ builders) p (inr (inr later)) =
      place-HasAddress base builders (place_one base b p) (inr later)

  pub page_up-place-HasAddress :
      (test : Bool) (base page : ℕ) (builders : List Builder) (p : Placement)
      → HasAddress p.addresses ⊎ AnyHas key builders
      → HasAddress (place base builders (page_up test page p)).addresses
  page_up-place-HasAddress true base page builders p h =
      place-HasAddress base builders (page_up true page p) h
  page_up-place-HasAddress false base page builders p h = place-HasAddress base builders p h

  pub place_rx-HasAddress :
      (base page : ℕ) (rx : List Builder) (p : Placement)
      → HasAddress p.addresses ⊎ AnyHas key rx
      → HasAddress (place_rx base page rx p).addresses
  unfolding place_rx
  place_rx-HasAddress base page [] p (inl h) = h
  place_rx-HasAddress base page [] p (inr h) = elim h [ ]
  place_rx-HasAddress base page (b ∷ rx) p h = page_up-place-HasAddress true base page (b ∷ rx) p h

  pub alias-HasAddress :
      (folds : List ((ℕ × ℕ) × (ℕ × ℕ))) (m : Addresses) → HasAddress m → HasAddress (alias folds m)
  unfolding alias
  alias-HasAddress [] m h = h
  alias-HasAddress ((dup, canon) ∷ folds) m h = elim (Option-cases (get canon m)) [
    | inl missing ↦
        subst
          (λ o.
            HasAddress
              (alias folds (elim o as (λ _. Addresses) [ none ↦ m | some v ↦ insert dup v m ])))
          (sym missing) (alias-HasAddress folds m h)
    | inr (va, found) ↦
        subst
          (λ o.
            HasAddress
              (alias folds (elim o as (λ _. Addresses) [ none ↦ m | some v ↦ insert dup v m ])))
          (sym found) (alias-HasAddress folds (insert dup va m) (insert-HasAddress dup va m h))
  ]
