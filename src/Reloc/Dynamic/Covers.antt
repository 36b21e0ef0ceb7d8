-- ===== src/Reloc/Dynamic/Covers.antt =====
-- When a count of dynamic relocations has room for an entry (peony-reloc/src/dynamic.rs).
use peony.Base.{
  ℕ, ◌+◌, ◌≤◌, ◌≡◌, refl, inl, inr, Bool, true, false, ◌&&◌, ◌||◌, not, List, [], ◌++◌, Option,
  none, some, ◌==◌, if◌then◌else◌, arith, Bool-cases, length, length-append,
}
use peony.Base.Bytes.{Bytes}
use peony.Reloc.Dynamic.{
  DynamicRelocCounts, no_counts, add_counts, relative_counts, symbolic_counts, count_global,
  DataReloc, symbolic, as_relative, as_irelative, as_symbolic, based, global_reloc, entry_of,
}
use peony.Reloc.Slots.{filter_map}
use peony.Reloc.Slots.FilterMap.{cons_if, filter_map-append}
use peony.Symbols.Resolution.{SymbolResolution, is_defined}
use peony.Symbols.Table.{SymbolTable, lookup}

-- The counts have room for the entries: for the IFUNC ones, for the other relative ones in the
-- rest of the total, and for the symbolic ones.
pub record Covers (c : DynamicRelocCounts) (es : List DataReloc) : Type 0 where
  pub plain : length (filter_map as_relative es) + c.irelative ≤ c.relative_total
  pub ifuncs : length (filter_map as_irelative es) ≤ c.irelative
  pub symbols : length (filter_map as_symbolic es) ≤ c.symbolic_data

pub Covers-add :
    (a b : DynamicRelocCounts) (xs ys : List DataReloc)
    → Covers a xs
    → Covers b ys
    → Covers (add_counts a b) (xs ++ ys)
Covers-add a b xs ys h k = record {
  plain =
      rw
        (
          filter_map-append as_relative xs ys,
          length-append (filter_map as_relative xs) (filter_map as_relative ys),
        )
        (omega (arith, h.plain, k.plain));
  ifuncs =
      rw
        (
          filter_map-append as_irelative xs ys,
          length-append (filter_map as_irelative xs) (filter_map as_irelative ys),
        )
        (omega (arith, h.ifuncs, k.ifuncs));
  symbols =
      rw
        (
          filter_map-append as_symbolic xs ys,
          length-append (filter_map as_symbolic xs) (filter_map as_symbolic ys),
        )
        (omega (arith, h.symbols, k.symbols));
}

pub nothing-Covers : Covers no_counts []
nothing-Covers = record { plain = omega arith; ifuncs = omega arith; symbols = omega arith }

pub dropped-Covers : (ifunc : Bool) → Covers (relative_counts ifunc) []
dropped-Covers true = record { plain = omega arith; ifuncs = omega arith; symbols = omega arith }
dropped-Covers false = record { plain = omega arith; ifuncs = omega arith; symbols = omega arith }

pub based-Covers :
    (ifunc : Bool) (site target addend : ℕ)
    → Covers (relative_counts ifunc) (entry_of (some (based ifunc site target addend)))
based-Covers true x t y = record {
  plain = omega arith;
  ifuncs = omega arith;
  symbols = omega arith;
}
based-Covers false x t y = record {
  plain = omega arith;
  ifuncs = omega arith;
  symbols = omega arith;
}

pub symbolic-Covers :
    (dropped : Bool) (x i y : ℕ)
    → Covers symbolic_counts (entry_of (if dropped then none else some (symbolic x i y)))
symbolic-Covers true x i y = record {
  plain = omega arith;
  ifuncs = omega arith;
  symbols = omega arith;
}
symbolic-Covers false x i y = record {
  plain = omega arith;
  ifuncs = omega arith;
  symbols = omega arith;
}

pub cons_if-entry_of :
    (o : Option DataReloc) (es : List DataReloc) → entry_of o ++ es ≡ cons_if o es
cons_if-entry_of none es = refl
cons_if-entry_of (some e) es = refl

-- No imported symbol is marked as an IFUNC.
abbrev pub HasPlainImports : SymbolTable → Type 0
HasPlainImports symbols =
    (name : Bytes) (r : SymbolResolution)
    → lookup symbols name ≡ some r
    → r.import ≡ true
    → r.is_ifunc ≡ false

module _ (res : SymbolResolution) (fair : res.import ≡ true → res.is_ifunc ≡ false)
    (site addend : ℕ) where
  pub in_image-Covers :
      (res.import && not res.copy_reloc) ≡ false
      → is_defined res ≡ true
      → Covers
          (relative_counts (not res.import && res.is_ifunc))
          (entry_of (some (based res.is_ifunc site res.virtual_address addend)))
  in_image-Covers c d = elim (Bool-cases res.import) [
    | inl i ↦ rw (i, fair i) (based-Covers false site res.virtual_address addend)
    | inr i ↦ rw i (based-Covers res.is_ifunc site res.virtual_address addend)
  ]

  kept_out : (res.import && not res.copy_reloc) ≡ false → (not res.import || res.copy_reloc) ≡ true
  kept_out c = ground (arith, c)

  pub global-Covers : Covers (count_global res) (entry_of (global_reloc site res addend))
  unfolding count_global global_reloc
  global-Covers = elim (Bool-cases (res.import && not res.copy_reloc)) [
    | inl c ↦
        let out : (is_defined res && (not res.import || res.copy_reloc)) ≡ false =
          ground (arith, c) in
        elim (Bool-cases (res.dynsym_index == 0)) [
          | inl z ↦ rw (c, out, z) (symbolic-Covers true site res.dynsym_index addend)
          | inr z ↦ rw (c, out, z) (symbolic-Covers false site res.dynsym_index addend)
        ]
    | inr c ↦ elim (Bool-cases (is_defined res)) [
      | inl d ↦ rw (c, d, kept_out c) (in_image-Covers c d)
      | inr d ↦ rw (c, d) nothing-Covers
    ]
  ]
