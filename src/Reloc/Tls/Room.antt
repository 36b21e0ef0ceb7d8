-- ===== src/Reloc/Tls/Room.antt =====
-- The count that sizes `.rela.dyn`, `count_tls_relocs`, against the relocations that
-- `collect_tls_got` (peony-reloc/src/tls.rs) makes after layout.
use peony.Base.{
  ℕ, ◌+◌, ◌≤◌, ◌≡◌, refl, ◌⊎◌, inl, inr, arith, Bool, true, false, List, [], ◌∷◌, Option, none,
  some, is_some, if◌then◌else◌, ◌++◌, length, length-append, All,
}
use peony.Base.Map.{get}
use peony.Object.{InputObject}
use peony.Symbols.Table.{SymbolTable}
use peony.Reloc.Slots.{TlsRef, ref_key_eq}
use peony.Reloc.Tls.{
  TlsGotInfo, TlsLayout, TlsGotContents, Round, push_gd, push_desc, push_ie, found, tls_ref_offset,
  tls_ref_dynidx, collect_refs, collect_ldm, no_contents, collect_shared, collect_tls_got,
  is_imported_ref, count_gd, count_tls_relocs,
}

push_desc-length :
    (c : TlsGotContents) (va i o : ℕ) (b : Bool)
    → length (push_desc c va i o b).relocs ≡ length c.relocs + 1
unfolding push_desc
push_desc-length c va i o b = length-append c.relocs _

push_ie-length :
    (n : ℕ) (shared : Bool) (c : TlsGotContents) (va i o : ℕ) (b : Bool)
    → length (push_ie n shared c va i o b).relocs ≤ length c.relocs + 1
unfolding push_ie
push_ie-length n shared c va i o true = omega (arith, length-append c.relocs _)
push_ie-length n true c va i o false = omega (arith, length-append c.relocs _)
push_ie-length n false c va i o false = omega arith

push_gd-length :
    (c : TlsGotContents) (va i o : ℕ) (b : Bool)
    → length (push_gd c va i o b).relocs ≡ length c.relocs + (if b then 2 else 1)
unfolding push_gd
push_gd-length c va i o true =
    omega (arith, length-append (c.relocs ++ _ ∷ []) (_ ∷ []), length-append c.relocs (_ ∷ []))
push_gd-length c va i o false = length-append c.relocs _

abbrev total : (TlsRef → ℕ) → List TlsRef → ℕ
total cost [] = 0
total cost (t ∷ ts) = cost t + total cost ts

total_one : (ts : List TlsRef) → total (λ _. 1) ts ≡ length ts
total_one [] = refl
total_one (t ∷ ts) = omega (arith, total_one ts)

abbrev gd_cost : SymbolTable → TlsRef → ℕ
gd_cost symbols t = if is_imported_ref symbols t then 2 else 1

total-count_gd :
    (symbols : SymbolTable) (ts : List TlsRef) → total (gd_cost symbols) ts ≡ count_gd symbols ts
unfolding count_gd
total-count_gd symbols [] = refl
total-count_gd symbols (t ∷ ts) = omega (arith, total-count_gd symbols ts)

module _ (objects : List InputObject) (symbols : SymbolTable) (layout : TlsLayout) where
  -- A reference that is counted as imported, or that has an offset in the module's TLS block.
  abbrev pub Settled : TlsRef → Type 0
  Settled t =
      (is_imported_ref symbols t ≡ true)
      ⊎ ((offset : ℕ) × (tls_ref_offset t objects symbols layout ≡ some (offset, false)))

  -- What a round adds.
  abbrev Adds : Round → (TlsRef → ℕ) → TlsRef → Type 0
  Adds push cost t =
      (c : TlsGotContents) (va i : ℕ)
      → length
          (push c va i (found objects symbols layout t).0 (found objects symbols layout t).1).relocs
        ≤ length c.relocs + cost t

  step_le :
      (push : Round) (cost : TlsRef → ℕ) (t : TlsRef) (c : TlsGotContents) (o : Option ℕ)
      → Adds push cost t
      → length
          (elim o as (λ _. TlsGotContents) [
            | none ↦ c
            | some va ↦
                push c va
                  (tls_ref_dynidx t symbols)
                  (found objects symbols layout t).0
                  (found objects symbols layout t).1
          ]).relocs
        ≤ length c.relocs + cost t
  step_le push cost t c none h = omega arith
  step_le push cost t c (some va) h = h c va (tls_ref_dynidx t symbols)

  collect_refs-length :
      (push : Round) (cost : TlsRef → ℕ) (addrs : List (TlsRef × ℕ)) (ts : List TlsRef)
      (c : TlsGotContents)
      → All (Adds push cost) ts
      → length (collect_refs objects symbols layout push addrs ts c).relocs
        ≤ length c.relocs + total cost ts
  unfolding collect_refs
  collect_refs-length push cost addrs [] c h = omega arith
  collect_refs-length push cost addrs (t ∷ ts) c h =
      let first = step_le push cost t c (get t addrs) h.0 in
      omega (arith, collect_refs-length push cost addrs ts _ h.1)

  if_le : (b : Bool) → (1 ≤ (if b then 2 else 1)) × ((if b then 2 else 1) ≤ 2)
  if_le true = (omega arith, omega arith)
  if_le false = (omega arith, omega arith)

  gd-Adds : (t : TlsRef) → Settled t → Adds push_gd (gd_cost symbols) t
  gd-Adds t (inl e) c va i =
      let (o, b) = found objects symbols layout t in
      rw e (omega (arith, push_gd-length c va i o b, (if_le b).1))
  gd-Adds t (inr (offset, e)) c va i =
      rw e
        (omega (arith, push_gd-length c va i offset false, (if_le (is_imported_ref symbols t)).0))

  All-imp :
      {P Q : TlsRef → Type 0} (ts : List TlsRef) → ((t : TlsRef) → P t → Q t) → All P ts → All Q ts
  All-imp [] f h = tt
  All-imp (t ∷ ts) f h = (f t h.0, All-imp ts f h.1)

  All-always : {P : TlsRef → Type 0} (ts : List TlsRef) → ((t : TlsRef) → P t) → All P ts
  All-always [] f = tt
  All-always (t ∷ ts) f = (f t, All-always ts f)

  ie_le :
      (shared : Bool) (ts : List TlsRef) (c : TlsGotContents)
      → length
          (collect_refs objects symbols layout
            (push_ie layout.tls_size shared)
            layout.tls_ie_addr
            ts
            c).relocs
        ≤ length c.relocs + length ts
  ie_le shared ts c = omega (
    arith,
    total_one ts,
    collect_refs-length (push_ie layout.tls_size shared) (λ _. 1) layout.tls_ie_addr ts c
        (All-always ts (λ t c va i. push_ie-length layout.tls_size shared c va i _ _)),
  )

  ldm_le :
      (o : Option ℕ) (b : Bool) (c : TlsGotContents)
      → (is_some o ≡ true → b ≡ true)
      → length (collect_ldm objects symbols layout o c).relocs
        ≤ length c.relocs + (if b then 1 else 0)
  unfolding collect_ldm
  ldm_le none b c h = omega arith
  ldm_le (some ldm) b c h = rw (h refl) (omega (arith, length-append c.relocs _))

  shared_le :
      (tls : TlsGotInfo)
      → All Settled tls.gd
      → (is_some layout.tls_ldm_addr ≡ true → tls.ldm ≡ true)
      → length (collect_shared objects symbols layout tls).relocs
        ≤ count_gd symbols tls.gd + length tls.desc + (if tls.ldm then 1 else 0)
  unfolding collect_shared no_contents
  shared_le tls settled ldm =
      let pairs =
        collect_refs objects symbols layout push_gd layout.tls_gd_addr tls.gd
          (no_contents objects symbols layout) in
      let both =
        collect_refs objects symbols layout push_desc layout.tls_desc_addr tls.desc pairs in
      omega (
        arith,
        ldm_le layout.tls_ldm_addr tls.ldm both ldm,
        total_one tls.desc,
        collect_refs-length push_desc (λ _. 1) layout.tls_desc_addr tls.desc pairs
            (All-always tls.desc (λ t c va i.
              let e =
                push_desc-length c va i (found objects symbols layout t).0
                  (found objects symbols layout t).1 in
              omega arith)),
        total-count_gd symbols tls.gd,
        collect_refs-length push_gd (gd_cost symbols) layout.tls_gd_addr tls.gd
            (no_contents objects symbols layout) (All-imp tls.gd gd-Adds settled),
      )

-- The relocations that `collect_tls_got` makes after layout are no more than `count_tls_relocs` counted
-- before it, so that `.rela.dyn` has room for them: in an executable always, and in a shared object
-- if the layout has a Local-Dynamic pair only where one was asked for, and every General-Dynamic
-- reference is counted as imported or has an offset in the TLS block.
pub collect_tls_got-count_tls_relocs :
    (objects : List InputObject) (symbols : SymbolTable) (layout : TlsLayout) (tls : TlsGotInfo)
    (shared : Bool)
    → (shared ≡ true → All (Settled objects symbols layout) tls.gd)
    → (shared ≡ true → is_some layout.tls_ldm_addr ≡ true → tls.ldm ≡ true)
    → length (collect_tls_got objects symbols layout tls shared).relocs
      ≤ count_tls_relocs symbols tls shared
unfolding collect_tls_got count_tls_relocs collect_refs no_contents
collect_tls_got-count_tls_relocs objects symbols layout tls true settled ldm = omega (
  arith,
  ie_le objects symbols layout true tls.ie (collect_shared objects symbols layout tls),
  shared_le objects symbols layout tls (settled refl) (ldm refl),
)
collect_tls_got-count_tls_relocs objects symbols layout tls false settled ldm =
    omega (arith, ie_le objects symbols layout false tls.ie (no_contents objects symbols layout))
