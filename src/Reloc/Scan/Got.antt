-- ===== src/Reloc/Scan/Got.antt =====
-- The symbols of the GOT, `got_symbols` (peony-reloc/src/types.rs), after `scan_relocations`.
use peony.Base.{
  ℕ, ◌+◌, ◌≡◌, refl, sym, ◌∙◌, ap, subst, ◌↔◌, inl, inr, Bool, true, false, ◌||◌, List, [], ◌∷◌,
  Option, none, some, some-injective, get_elem?, Mem, ◌==◌,
}
use peony.Object.{InputReloc, InputSection, InputSymbol, InputObject, symbol_pos}
use peony.Symbols.Resolution.{SymbolResolution, is_defined}
use peony.Symbols.Table.{SymbolTable, lookup}
use peony.Reloc.Types.{
  RelocType, reloc_type, needs_got, code_of, code_of-reloc_type, got32, gotpcrel, gotpcrelx,
  rex_gotpcrelx,
}
use peony.Reloc.Slots.{
  SyntheticSlot, got, plt, tls_gd, tls_ie, tls_ldm, tls_desc, filter_map, as_got, got_symbols,
}
use peony.Reloc.Scan.{is_weak, symbol_slot, slot_for, scan_reloc, scan_relocations}
use peony.Reloc.Scan.Wanted.{scan_relocations-Asked}

pub Mem-filter_map :
    {A B : Type 0} (f : A → Option B) (y : B) (xs : List A)
    → Mem y (filter_map f xs) ↔ ((x : A) × Mem x xs × (f x ≡ some y))
Mem-filter_map f y [] = ((λ m. absurd m), (λ (x, m, e). absurd m))
Mem-filter_map {A} {B} f y (x ∷ xs) = go (f x) refl (Mem-filter_map f y xs)
  where
    go :
        (o : Option B)
        → f x ≡ o
        → (Mem y (filter_map f xs) ↔ ((x : A) × Mem x xs × (f x ≡ some y)))
        → Mem y (filter_map f (x ∷ xs)) ↔ ((z : A) × Mem z (x ∷ xs) × (f z ≡ some y))
    go none e more =
        rw (e, filter_map)
          (
            (λ m. let (z, k, q) = more.0 m in (z, inr k, q)),
            (λ (z, k, q). elim k [ inl h ↦ absurd cc | inr k ↦ more.1 (z, k, q) ]),
          )
    go (some b) e more =
        rw (e, filter_map)
          (
            (λ m. elim m [
              | inl h ↦ (x, inl refl, e ∙ ap some (sym h))
              | inr k ↦ let (z, k, q) = more.0 k in (z, inr k, q)
            ]),
            (λ (z, k, q). elim k [
              | inl h ↦ inl (some-injective y b (sym q ∙ ap f h ∙ e))
              | inr k ↦ inr (more.1 (z, k, q))
            ]),
          )

as_got_lem : (s : SyntheticSlot) (id : ℕ) → as_got s ≡ some id → s ≡ got id
as_got_lem (got i) id e = ap got (some-injective i id e)
as_got_lem (plt i) id e = absurd cc
as_got_lem (tls_gd r) id e = absurd cc
as_got_lem (tls_ie r) id e = absurd cc
as_got_lem tls_ldm id e = absurd cc
as_got_lem (tls_desc r) id e = absurd cc

-- The codes of the thread-local types are none of the codes that need a slot of the GOT.
needs_got_code :
    (t : RelocType)
    → needs_got t ≡ true
    → ((code_of t == 22) ≡ false)
      × ((code_of t == 19) ≡ false)
      × ((code_of t == 20) ≡ false)
      × ((code_of t == 34) ≡ false)
unfolding needs_got code_of
needs_got_code got32 h = (refl, refl, refl, refl)
needs_got_code gotpcrel h = (refl, refl, refl, refl)
needs_got_code gotpcrelx h = (refl, refl, refl, refl)
needs_got_code rex_gotpcrelx h = (refl, refl, refl, refl)
needs_got_code _ h = absurd cc

needs_got_slot :
    (obj_id sym_pos n : ℕ) (symbols : SymbolTable) (shared : Bool) (sy : InputSymbol)
    (res : SymbolResolution)
    → lookup symbols sy.name ≡ some res
    → needs_got (reloc_type n) ≡ true
    → (is_defined res || res.import || is_weak res.binding) ≡ true
    → slot_for obj_id sym_pos symbols shared sy n ≡ some (got res.id)
unfolding slot_for symbol_slot code_of
needs_got_slot obj_id sym_pos n symbols shared sy res found needs ok = go shared (
    subst
      (λ k. ((k == 22) ≡ false) × ((k == 19) ≡ false) × ((k == 20) ≡ false) × ((k == 34) ≡ false))
      (code_of-reloc_type n) (needs_got_code (reloc_type n) needs))
  where
    go :
        (b : Bool)
        → ((n == 22) ≡ false) × ((n == 19) ≡ false) × ((n == 20) ≡ false) × ((n == 34) ≡ false)
        → slot_for obj_id sym_pos symbols b sy n ≡ some (got res.id)
    go true (a, b, c, d) = rw (a, b, c, d, found, needs, ok, slot_for, symbol_slot, code_of) refl
    go false (a, b, c, d) = rw (a, b, d, found, needs, ok, slot_for, symbol_slot, code_of) refl

-- A relocation whose type needs the GOT, and whose symbol resolves to an entry that is defined,
-- imported or weak, has the id of that entry among the symbols of the GOT.
pub got_symbols-scan_relocations :
    (objects : List InputObject) (symbols : SymbolTable) (shared : Bool) (i sym_pos : ℕ)
    (obj : InputObject) (sec : InputSection) (reloc : InputReloc) (sy : InputSymbol)
    (res : SymbolResolution)
    → get_elem? objects i ≡ some obj
    → Mem sec obj.sections
    → Mem reloc sec.relocs
    → symbol_pos obj reloc.symbol ≡ some sym_pos
    → get_elem? obj.symbols sym_pos ≡ some sy
    → lookup symbols sy.name ≡ some res
    → needs_got (reloc_type reloc.r_type) ≡ true
    → (is_defined res || res.import || is_weak res.binding) ≡ true
    → Mem res.id (got_symbols (scan_relocations objects symbols shared))
unfolding got_symbols scan_reloc
got_symbols-scan_relocations objects symbols shared i sym_pos obj sec reloc sy res at s r p q found
      needs ok =
    let asked : scan_reloc obj (0 + i) symbols shared reloc ≡ some (got res.id) =
      rw (p, q, scan_reloc)
        (needs_got_slot (0 + i) sym_pos reloc.r_type symbols shared sy res found needs ok) in
    let listed =
      (scan_relocations-Asked symbols shared (got res.id) objects).1.1
        (i, obj, at, (sec, s, (reloc, r, asked))) in
    (Mem-filter_map as_got res.id (scan_relocations objects symbols shared).slots).1
      (got res.id, listed, refl)
