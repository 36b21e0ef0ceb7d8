-- ===== src/Gc/Targets/Meaning.antt =====
-- What the target maps (peony-layout/src/gc/targets.rs) hold, by the symbols and the symbol table alone.
use peony.Base.{
  ℕ, ◌+◌, ◌-◌, ◌*◌, ◌^◌, ◌<◌, ◌≡◌, ◌≢◌, ◌↔◌, refl, sym, ◌∙◌, ap, subst, true, ◌⊎◌, inl, inr, List,
  [], ◌∷◌, none, some, ◌>>=◌, arith, ◌==◌, ==_iff, ◌/◌, ◌%◌, get_elem?, Mem, Bool-cases,
  Option-cases, none-ne-some, some-injective,
}
use peony.Object.{Binding, local, global, weak, InputSymbol, InputObject}
use peony.Reloc.Scan.{is_local}
use peony.Symbols.Resolution.{SymbolResolution}
use peony.Symbols.Table.{SymbolTable, lookup}
use peony.Gc.Targets.{no_target, pack, unpack, target_key, resolve_symbol_target, new, target}
use peony.Gc.Targets.Lookup.{last_target, target-new}

-- The halves are below 2^32.
abbrev pub Fits : ℕ × ℕ → Type 0
Fits k = (k.0 < 2 ^ 32) × (k.1 < 2 ^ 32)

pack-Fits : (k : ℕ × ℕ) → Fits k → pack k ≡ some (k.0 * 2 ^ 32 + k.1)
unfolding pack
pack-Fits (o, s) (a, b) = ground (arith, a, b)

Fits-pack : (k : ℕ × ℕ) (p : ℕ) → pack k ≡ some p → Fits k × (k.0 * 2 ^ 32 + k.1 ≡ p)
unfolding pack
Fits-pack (o, s) p h = ((ground (arith, h), ground (arith, h)), ground (arith, h))

is_local_iff : (b : Binding) → (is_local b ≡ true) ↔ (b ≡ local)
is_local_iff local = (λ h. refl, λ h. refl)
is_local_iff global = (λ h. absurd (ground (arith, h)), λ h. absurd (ground (arith, h)))
is_local_iff weak = (λ h. absurd (ground (arith, h)), λ h. absurd (ground (arith, h)))

module _ (symbols : SymbolTable) (o : ℕ) where
  -- A local symbol stands for its own section, and another one for the section that the table gives to its name.
  abbrev pub StandsFor : InputSymbol → ℕ × ℕ → Type 0
  StandsFor sy k =
      ((sy.binding ≡ local) × (o ≡ k.0) × (sy.section ≡ some k.1))
      ⊎ ((sy.binding ≢ local)
          × ((res : SymbolResolution) × (lookup symbols sy.name ≡ some res)
              × (res.defined_in ≡ some k.0)
              × (res.section_index ≡ some k.1)))

  target_key-StandsFor :
      (sy : InputSymbol) (k : ℕ × ℕ) → target_key o sy symbols ≡ some k → StandsFor sy k
  unfolding target_key
  target_key-StandsFor sy k h = elim (Bool-cases (is_local sy.binding)) [
    | inl own ↦ elim (Option-cases sy.section) [
      | inl missing ↦ absurd (ground (arith, h, own, missing))
      | inr (s, there) ↦
          let same : (o, s) ≡ k = ground (arith, h, own, there) in
          inl ((is_local_iff sy.binding).0 own, ap (λ j. j.0) same, there ∙ ap (λ j. some j.1) same)
    ]
    | inr other ↦
        let named : sy.binding ≢ local =
          λ e. absurd (ground (arith, other, (is_local_iff sy.binding).1 e)) in
        elim (Option-cases (lookup symbols sy.name)) [
          | inl missing ↦ absurd (ground (arith, h, other, missing))
          | inr (res, found) ↦ elim (Option-cases res.defined_in) [
            | inl missing ↦ absurd (ground (arith, h, other, found, missing))
            | inr (def, at) ↦ elim (Option-cases res.section_index) [
              | inl missing ↦ absurd (ground (arith, h, other, found, at, missing))
              | inr (s, there) ↦
                  let same : (def, s) ≡ k = ground (arith, h, other, found, at, there) in
                  inr (
                    named,
                    (res, found, at ∙ ap (λ j. some j.0) same, there ∙ ap (λ j. some j.1) same),
                  )
            ]
          ]
        ]
  ]

  StandsFor-target_key :
      (sy : InputSymbol) (k : ℕ × ℕ) → StandsFor sy k → target_key o sy symbols ≡ some k
  unfolding target_key
  StandsFor-target_key sy k (inl (here, own, there)) =
      let own_binding = (is_local_iff sy.binding).1 here in
      rw (target_key, own_binding, there) (ap (λ n. some (n, k.1)) own)
  StandsFor-target_key sy k (inr (other, (res, found, at, there))) =
      elim (Bool-cases (is_local sy.binding)) [
        | inl bad ↦ absurd (other ((is_local_iff sy.binding).0 bad))
        | inr plain ↦ rw (target_key, plain, found, at, there) refl
      ]

  resolve-StandsFor :
      (sy : InputSymbol) (p : ℕ)
      → resolve_symbol_target o sy symbols ≡ some p
      → (k : ℕ × ℕ) × StandsFor sy k × Fits k × (k.0 * 2 ^ 32 + k.1 ≡ p)
  unfolding resolve_symbol_target
  resolve-StandsFor sy p h = elim (Option-cases (target_key o sy symbols)) [
    | inl missing ↦ absurd (ground (arith, h, missing))
    | inr (k, found) ↦
        let packed : pack k ≡ some p = ground (arith, h, found) in
        let (fits, same) = Fits-pack k p packed in (k, target_key-StandsFor sy k found, fits, same)
  ]

  StandsFor-resolve :
      (sy : InputSymbol) (k : ℕ × ℕ)
      → StandsFor sy k
      → Fits k
      → resolve_symbol_target o sy symbols ≡ some (k.0 * 2 ^ 32 + k.1)
  unfolding resolve_symbol_target
  StandsFor-resolve sy k h fits =
      ap (λ r. r >>= pack) (StandsFor-target_key sy k h) ∙ pack-Fits k fits

  module _ (i : ℕ) where
    -- No symbol with the index stands for a key that fits.
    abbrev pub NoneFits : List InputSymbol → Type 0
    NoneFits syms =
        (sy : InputSymbol) → Mem sy syms → sy.index ≡ i → (k : ℕ × ℕ) → StandsFor sy k → ¬ Fits k

    -- The last symbol with the index that stands for a key that fits stands for this one.
    abbrev pub LastStandsFor : List InputSymbol → ℕ × ℕ → Type 0
    LastStandsFor [] k = ⊥
    LastStandsFor (sy ∷ syms) k =
        LastStandsFor syms k ⊎ ((sy.index ≡ i) × StandsFor sy k × Fits k × NoneFits syms)

    not_both : (syms : List InputSymbol) (k : ℕ × ℕ) → LastStandsFor syms k → ¬ NoneFits syms
    not_both [] k h n = absurd h
    not_both (sy ∷ syms) k (inl later) n = not_both syms k later (λ x m. n x (inr m))
    not_both (sy ∷ syms) k (inr (at, stands, fits, others)) n = n sy (inl refl) at k stands fits

    LastStandsFor-Fits : (syms : List InputSymbol) (k : ℕ × ℕ) → LastStandsFor syms k → Fits k
    LastStandsFor-Fits [] k h = absurd h
    LastStandsFor-Fits (sy ∷ syms) k (inl later) = LastStandsFor-Fits syms k later
    LastStandsFor-Fits (sy ∷ syms) k (inr (at, stands, fits, others)) = fits

    last_target-none :
        (syms : List InputSymbol) → last_target o symbols syms i ≡ none → NoneFits syms
    unfolding last_target
    last_target-none [] h x m at k stands fits = absurd m
    last_target-none (sy ∷ syms) h x (inl same) at k stands fits =
        let here = subst (λ y. y.index ≡ i) same at in
        let found = StandsFor-resolve sy k (subst (λ y. StandsFor y k) same stands) fits in
        elim (Option-cases (last_target o symbols syms i)) [
          | inl missing ↦ absurd (ground (arith, h, here, found, missing))
          | inr (p, there) ↦ absurd (ground (arith, h, there))
        ]
    last_target-none (sy ∷ syms) h x (inr m) at k stands fits =
        elim (Option-cases (last_target o symbols syms i)) [
          | inl missing ↦ last_target-none syms missing x m at k stands fits
          | inr (p, there) ↦ absurd (ground (arith, h, there))
        ]

    last_target-LastStandsFor :
        (syms : List InputSymbol) (p : ℕ)
        → last_target o symbols syms i ≡ some p
        → (k : ℕ × ℕ) × LastStandsFor syms k × (k.0 * 2 ^ 32 + k.1 ≡ p)
    unfolding last_target
    last_target-LastStandsFor [] p h = absurd (ground (arith, h))
    last_target-LastStandsFor (sy ∷ syms) p h = elim (Option-cases (last_target o symbols syms i)) [
      | inr (q, there) ↦
          let same : q ≡ p = ground (arith, h, there) in
          let (k, later, packed) = last_target-LastStandsFor syms q there in
          (k, inl later, packed ∙ same)
      | inl missing ↦
          let at : (sy.index == i) ≡ true = ground (arith, h, missing) in
          let found : resolve_symbol_target o sy symbols ≡ some p =
            ground (arith, h, missing, at) in
          let (k, stands, fits, packed) = resolve-StandsFor sy p found in
          (k, inr (ground (arith, at), stands, fits, last_target-none syms missing), packed)
    ]

    LastStandsFor-last_target :
        (syms : List InputSymbol) (k : ℕ × ℕ)
        → LastStandsFor syms k
        → last_target o symbols syms i ≡ some (k.0 * 2 ^ 32 + k.1)
    unfolding last_target
    LastStandsFor-last_target [] k h = absurd h
    LastStandsFor-last_target (sy ∷ syms) k (inl later) =
        ground (arith, LastStandsFor-last_target syms k later)
    LastStandsFor-last_target (sy ∷ syms) k (inr (at, stands, fits, others)) =
        elim (Option-cases (last_target o symbols syms i)) [
          | inl missing ↦ ground (arith, missing, at, StandsFor-resolve sy k stands fits)
          | inr (p, there) ↦
              let (j, last, packed) = last_target-LastStandsFor syms p there in
              absurd (not_both syms j last others)
        ]

    unpack-packed :
        (k j : ℕ × ℕ)
        → Fits k
        → (unpack (k.0 * 2 ^ 32 + k.1) ≡ some j) ↔ ((k ≡ j) × (k ≢ (2 ^ 32 - 1, 2 ^ 32 - 1)))
    unfolding unpack
    unpack-packed k j (a, b) = elim (Bool-cases (k.0 * 2 ^ 32 + k.1 == no_target)) [
      | inl marked ↦
          let value : k.0 * 2 ^ 32 + k.1 ≡ no_target =
            (==_iff (k.0 * 2 ^ 32 + k.1) no_target).0 marked in
          let high : k.0 ≡ 2 ^ 32 - 1 = omega arith in
          let low : k.1 ≡ 2 ^ 32 - 1 = omega arith in
          let both : k ≡ (2 ^ 32 - 1, 2 ^ 32 - 1) =
            ap (λ n. (n, k.1)) high ∙ ap (λ n. (2 ^ 32 - 1, n)) low in
          (
            λ h. absurd (none-ne-some j (sym (rw marked refl) ∙ h)),
            λ (same, apart). absurd (apart both),
          )
      | inr plain ↦
          let high : (k.0 * 2 ^ 32 + k.1) / 2 ^ 32 ≡ k.0 = omega arith in
          let low : (k.0 * 2 ^ 32 + k.1) % 2 ^ 32 ≡ k.1 = omega arith in
          let read : unpack (k.0 * 2 ^ 32 + k.1) ≡ some k = rw (unpack, plain, high, low) refl in
          let apart : k ≢ (2 ^ 32 - 1, 2 ^ 32 - 1) =
            λ e. absurd (ground (arith, plain, ap (λ n. n.0 * 2 ^ 32 + n.1) e)) in
          (
            λ h. (some-injective k j (sym read ∙ h), apart),
            λ (same, other). read ∙ ap (λ n. some n) same,
          )
    ]

    -- A relocation's symbol, by its index in the object of its id, is read as a section's key exactly if the key's
    -- halves are below 2^32 and not both 2^32 - 1, and it is what the last symbol of the object stands for that has
    -- the index and stands for a key with such halves: for a local symbol its own section, for another one the section
    -- that the symbol table gives to its name.
    pub target-new_iff :
        (objects : List InputObject) (k : ℕ × ℕ)
        → (target (new objects symbols) o i ≡ some k) ↔ (
            (obj : InputObject) × (get_elem? objects o ≡ some obj)
            × LastStandsFor obj.symbols k
            × (k ≢ (2 ^ 32 - 1, 2 ^ 32 - 1)))
    target-new_iff objects k =
        let read = target-new symbols i objects o in
        (
          λ h. elim (Option-cases (get_elem? objects o)) [
            | inl missing ↦ absurd (ground (arith, h, read, missing))
            | inr (obj, there) ↦ elim (Option-cases (last_target o symbols obj.symbols i)) [
              | inl nothing ↦ absurd (ground (arith, h, read, there, nothing))
              | inr (p, last) ↦
                  let (j, stands, packed) = last_target-LastStandsFor obj.symbols p last in
                  let unpacked : unpack p ≡ some k = ground (arith, h, read, there, last) in
                  let (same, apart) =
                    (unpack-packed j k (LastStandsFor-Fits obj.symbols j stands)).0
                      (ap unpack packed ∙ unpacked) in
                  (
                    obj,
                    there,
                    subst (LastStandsFor obj.symbols) same stands,
                    subst (λ n. n ≢ (2 ^ 32 - 1, 2 ^ 32 - 1)) same apart,
                  )
            ]
          ],
          λ (obj, there, stands, apart).
              read
              ∙ ap (λ r. r >>= λ x. last_target o symbols x.symbols i >>= unpack) there
              ∙ ap (λ r. r >>= unpack) (LastStandsFor-last_target obj.symbols k stands)
              ∙ (unpack-packed k k (LastStandsFor-Fits obj.symbols k stands)).1 (refl, apart),
        )
