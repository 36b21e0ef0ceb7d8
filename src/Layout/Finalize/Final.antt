-- ===== src/Layout/Finalize/Final.antt =====
-- What the symbols hold after finalize_symbols (peony-layout/src/lib.rs).
use peony.Base.{
  ℕ, ◌≡◌, ◌≢◌, refl, sym, ap, ◌∙◌, subst, true, false, ◌⊎◌, inl, inr, List, [], ◌∷◌, none, some,
  if◌then◌else◌, arith, Bool-cases, Option-cases, Mem, some-injective, none-ne-some,
}
use peony.Base.Bytes.{Bytes, bytes_eq, bytes_eq_iff, codes}
use peony.Base.Map.{get, bytes_key, pair_eq, get-insert}
use peony.Base.Word.{wrapping_add}
use peony.Layout.Finalize.{
  SymbolLayout, locate, located, locate_all, updates_of, slots_from, apply_updates, set_virtual,
  set_got, set_plt, finalize_symbols, is_weak, check_undefined,
}
use peony.Layout.Place.{Addresses}
use peony.Symbols.Resolution.{SymbolResolution, is_defined}
use peony.Symbols.Table.{SymbolTable, lookup, store}

-- The writes that name the symbol, one after the other.
pub writes :
    (ℕ → SymbolResolution → SymbolResolution)
    → List (Bytes × ℕ)
    → Bytes
    → SymbolResolution
    → SymbolResolution
writes write [] name r = r
writes write ((other, addr) ∷ updates) name r =
    writes write updates name (if bytes_eq other name then write addr r else r)

get-locate_all :
    (addresses : Addresses) (name : Bytes) (entries : List (Bytes × SymbolResolution))
    (r : SymbolResolution)
    → get name entries ≡ some r
    → get name (locate_all addresses entries) ≡ some (located addresses r)
unfolding get locate_all
get-locate_all addresses name [] r e = absurd (none-ne-some r e)
get-locate_all addresses name ((other, res) ∷ entries) r e =
    elim (Bool-cases (bytes_eq other name)) [
      | inl same ↦
          let here : res ≡ r = ground (arith, e, same) in
          rw same (ap (λ x. some (located addresses x)) here)
      | inr apart ↦
          let later : get name entries ≡ some r = ground (arith, e, apart) in
          rw apart (get-locate_all addresses name entries r later)
    ]

abbrev update : (ℕ → SymbolResolution → SymbolResolution) → Bytes → ℕ → SymbolTable → SymbolTable
update write other addr t = elim (lookup t other) [
  | none ↦ t
  | some r ↦ store t other (write addr r)
]

update-lookup :
    (write : ℕ → SymbolResolution → SymbolResolution) (other : Bytes) (addr : ℕ) (t : SymbolTable)
    (name : Bytes) (r : SymbolResolution)
    → lookup t name ≡ some r
    → lookup (update write other addr t) name
      ≡ some (if bytes_eq other name then write addr r else r)
unfolding lookup store
update-lookup write other addr t name r e = elim (Option-cases (get other t.resolutions)) [
  | inl missing ↦
      let apart : bytes_eq other name ≡ false =
        ground (arith, e, missing, bytes_eq_iff other name) in
      ap
        (λ o.
          lookup (elim o as (λ _. SymbolTable) [ none ↦ t | some q ↦ store t other (write addr q) ])
            name)
        missing
      ∙ e
      ∙ rw apart refl
  | inr (q, found) ↦
      ap
        (λ o.
          lookup (elim o as (λ _. SymbolTable) [ none ↦ t | some x ↦ store t other (write addr x) ])
            name)
        found
      ∙ get-insert other name (write addr q) t.resolutions
      ∙ (elim (Bool-cases (bytes_eq other name)) [
        | inl same ↦
            let equal : other ≡ name = (bytes_eq_iff other name).0 same in
            let one : q ≡ r =
              some-injective q r (sym found ∙ ap (λ n. get n t.resolutions) equal ∙ e) in
            rw same (ap (λ x. some (write addr x)) one)
        | inr apart ↦ rw apart e
      ])
]

apply_updates-lookup :
    (write : ℕ → SymbolResolution → SymbolResolution) (updates : List (Bytes × ℕ)) (t : SymbolTable)
    (name : Bytes) (r : SymbolResolution)
    → lookup t name ≡ some r
    → lookup (apply_updates write updates t) name ≡ some (writes write updates name r)
unfolding apply_updates writes
apply_updates-lookup write [] t name r e = e
apply_updates-lookup write ((other, addr) ∷ updates) t name r e =
    apply_updates-lookup write updates (update write other addr t) name
      (if bytes_eq other name then write addr r else r) (update-lookup write other addr t name r e)

-- The symbol after all the writes.
abbrev finalized : SymbolTable → SymbolLayout → Bytes → SymbolResolution → SymbolResolution
finalized symbols layout name r =
    writes set_plt (updates_of symbols (slots_from layout.plt_base 16 0 layout.plt_slots)) name (
      writes set_got (updates_of symbols (slots_from layout.got_base 8 0 layout.got_slots)) name (
        writes set_virtual (updates_of symbols layout.copy_relocs) name (
          writes set_virtual (updates_of symbols layout.common) name (located layout.addresses r))))

finalize_symbols-lookup :
    (symbols : SymbolTable) (layout : SymbolLayout) (name : Bytes) (r : SymbolResolution)
    → lookup symbols name ≡ some r
    → lookup (finalize_symbols symbols layout) name ≡ some (finalized symbols layout name r)
unfolding finalize_symbols lookup
finalize_symbols-lookup symbols layout name r e =
    let r1 = located layout.addresses r in
    let t1 : SymbolTable = record symbols {
      resolutions = locate_all layout.addresses symbols.resolutions;
    } in
    let u2 = updates_of symbols layout.common in
    let u3 = updates_of symbols layout.copy_relocs in
    let u4 = updates_of symbols (slots_from layout.got_base 8 0 layout.got_slots) in
    let u5 = updates_of symbols (slots_from layout.plt_base 16 0 layout.plt_slots) in
    let e1 = get-locate_all layout.addresses name symbols.resolutions r e in
    let e2 = apply_updates-lookup set_virtual u2 t1 name r1 e1 in
    let r2 = writes set_virtual u2 name r1 in
    let t2 = apply_updates set_virtual u2 t1 in
    let e3 = apply_updates-lookup set_virtual u3 t2 name r2 e2 in
    let r3 = writes set_virtual u3 name r2 in
    let t3 = apply_updates set_virtual u3 t2 in
    let e4 = apply_updates-lookup set_got u4 t3 name r3 e3 in
    apply_updates-lookup set_plt u5 (apply_updates set_got u4 t3) name (writes set_got u4 name r3)
      e4

-- No update names the symbol.
abbrev pub IsUnnamed : Bytes → List (Bytes × ℕ) → Type 0
IsUnnamed name [] = Unit
IsUnnamed name ((other, addr) ∷ updates) = (other ≢ name) × IsUnnamed name updates

writes-IsUnnamed :
    (write : ℕ → SymbolResolution → SymbolResolution) (updates : List (Bytes × ℕ)) (name : Bytes)
    (r : SymbolResolution)
    → IsUnnamed name updates
    → writes write updates name r ≡ r
unfolding writes
writes-IsUnnamed write [] name r h = refl
writes-IsUnnamed write ((other, addr) ∷ updates) name r (apart, h) =
    let differs : bytes_eq other name ≡ false = ground (arith, apart, bytes_eq_iff other name) in
    rw differs (writes-IsUnnamed write updates name r h)

module _ {A : Type 0} (field : SymbolResolution → A)
    (write : ℕ → SymbolResolution → SymbolResolution)
    (kept : (addr : ℕ) (r : SymbolResolution) → field (write addr r) ≡ field r) where
  writes-field :
      (updates : List (Bytes × ℕ)) (name : Bytes) (r : SymbolResolution)
      → field (writes write updates name r) ≡ field r
  unfolding writes
  writes-field [] name r = refl
  writes-field ((other, addr) ∷ updates) name r =
      writes-field updates name (if bytes_eq other name then write addr r else r)
      ∙ (elim (Bool-cases (bytes_eq other name)) [
        | inl same ↦ rw same (kept addr r)
        | inr apart ↦ rw apart refl
      ])

-- After finalize_symbols a symbol that an object defines in a section, and that is neither a common nor a copied
-- one, has the address that the layout gave to the section, plus the symbol's value.
pub finalize_symbols-located :
    (symbols : SymbolTable) (layout : SymbolLayout) (name : Bytes) (r : SymbolResolution)
    (def si va : ℕ)
    → lookup symbols name ≡ some r
    → r.defined_in ≡ some def
    → r.section_index ≡ some si
    → r.common ≡ none
    → get (def, si) layout.addresses ≡ some va
    → IsUnnamed name (updates_of symbols layout.common)
    → IsUnnamed name (updates_of symbols layout.copy_relocs)
    → (out : SymbolResolution) × (lookup (finalize_symbols symbols layout) name ≡ some out)
      × (out.virtual_address ≡ wrapping_add va r.value)
unfolding located locate
finalize_symbols-located symbols layout name r def si va e defined section plain found no_common
      no_copy =
    let r1 = located layout.addresses r in
    let u2 = updates_of symbols layout.common in
    let u3 = updates_of symbols layout.copy_relocs in
    let u4 = updates_of symbols (slots_from layout.got_base 8 0 layout.got_slots) in
    let u5 = updates_of symbols (slots_from layout.plt_base 16 0 layout.plt_slots) in
    let r3 = writes set_virtual u3 name (writes set_virtual u2 name r1) in
    let same : r3 ≡ r1 =
      writes-IsUnnamed set_virtual u3 name (writes set_virtual u2 name r1) no_copy
      ∙ writes-IsUnnamed set_virtual u2 name r1 no_common in
    let at : r1.virtual_address ≡ wrapping_add va r.value =
      ground (arith, defined, section, plain, found) in
    (
      finalized symbols layout name r,
      finalize_symbols-lookup symbols layout name r e,
      writes-field (λ x. x.virtual_address) set_plt (λ _ _. refl) u5 name
            (writes set_got u4 name r3)
          ∙ writes-field (λ x. x.virtual_address) set_got (λ _ _. refl) u4 name r3
          ∙ ap (λ x. x.virtual_address) same
          ∙ at,
    )

-- If check_undefined finds nothing, every symbol of the table but `__tls_get_addr` is defined or weak.
pub check_undefined-weak :
    (entries : List (Bytes × SymbolResolution)) (name : Bytes) (r : SymbolResolution)
    → check_undefined entries ≡ none
    → Mem (name, r) entries
    → name ≢ codes "__tls_get_addr"
    → (is_defined r ≡ true) ⊎ (is_weak r.binding ≡ true)
unfolding check_undefined
check_undefined-weak [] name r h m other = elim m [ ]
check_undefined-weak ((n, res) ∷ entries) name r h m other =
    let checked : check_undefined entries ≡ none = ground (arith, h) in
    elim m [
      | inr later ↦ check_undefined-weak entries name r checked later other
      | inl same ↦
          let e : res ≡ r = ap (λ x. x.1) (sym same) in
          let named : n ≡ name = ap (λ x. x.0) (sym same) in
          let apart : bytes_eq n (codes "__tls_get_addr") ≡ false =
            ground (arith, other, named, bytes_eq_iff n (codes "__tls_get_addr")) in
          subst (λ x. (is_defined x ≡ true) ⊎ (is_weak x.binding ≡ true)) e
            (elim (Bool-cases (is_defined res)) [
              | inl defined ↦ inl defined
              | inr missing ↦ inr (ground (arith, h, apart, missing))
            ])
    ]
