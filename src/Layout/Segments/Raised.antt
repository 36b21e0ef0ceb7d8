-- ===== src/Layout/Segments/Raised.antt =====
-- What the alignment of the TLS block keeps (peony-layout/src/lib.rs, compute_layout_icf, pass 8).
use peony.Base.{
  ℕ, ◌+◌, ◌*◌, ◌≤◌, ◌≡◌, refl, subst, ◌||◌, List, [], ◌∷◌, ◌++◌, some, arith, inl, inr, Bool-cases,
  Option-cases, max, ltb,
}
use peony.Layout.Align.{IsPower}
use peony.Layout.Group.{Builder}
use peony.Layout.Group.Packed.{
  All, All-map, All-append, IsInput, IsInput-mono, IsPacked, IsPower-max,
}
use peony.Layout.Place.Laid.{builders_room}
use peony.Layout.Segments.{
  is_tdata, is_tbss, max_tls_align, raised, raise_tdata, raise_tbss, align_tls,
}
use peony.Object.{InputObject}

max_tls_align-room : (builders : List Builder) → max_tls_align builders ≤ builders_room builders + 1
unfolding max_tls_align
max_tls_align-room [] = omega arith
max_tls_align-room (b ∷ builders) = ground (arith, max_tls_align-room builders)

room-append :
    (xs ys : List Builder) → builders_room (xs ++ ys) ≡ builders_room xs + builders_room ys
room-append [] ys = omega arith
room-append (b ∷ xs) ys = omega (arith, room-append xs ys)

module _ (objects : List InputObject) (spent : ℕ) where
  IsPower-max_tls_align :
      (builders : List Builder)
      → All (IsPacked objects spent) builders
      → IsPower (max_tls_align builders)
  unfolding max_tls_align
  IsPower-max_tls_align [] h = (0, 64, refl, refl)
  IsPower-max_tls_align (b ∷ builders) (here, h) =
      elim (Bool-cases (is_tdata b.kind || is_tbss b.kind)) [
        | inl tls ↦ rw tls (
            IsPower-max b.align (max_tls_align builders) here.power
              (IsPower-max_tls_align builders h))
        | inr other ↦ rw other (IsPower-max_tls_align builders h)
      ]

  raised-IsPacked :
      (align : ℕ) (b : Builder)
      → IsPower align
      → IsPacked objects spent b
      → IsPacked objects spent (raised align b)
  raised-IsPacked align b power p = record {
    power = IsPower-max b.align align p.power power;
    small = p.small;
    ordered = p.ordered;
    inputs =
        All-map (IsInput objects b.align) (IsInput objects (max b.align align)) b.contributions
          (λ c. IsInput-mono objects b.align (max b.align align) c (omega arith)) p.inputs;
  }

  module _ (align : ℕ) (power : IsPower align) where
    -- The lists with one alignment raised are packed, and need at most so much more room.
    abbrev IsRaised : List Builder → List Builder → Type 0
    IsRaised before after =
        All (IsPacked objects spent) after × (builders_room after ≤ builders_room before + align)

    raise_tdata-IsRaised :
        (builders after : List Builder)
        → All (IsPacked objects spent) builders
        → raise_tdata align builders ≡ some after
        → IsRaised builders after
    unfolding raise_tdata
    raise_tdata-IsRaised [] after h e = absurd (ground (arith, e))
    raise_tdata-IsRaised (b ∷ builders) after (here, h) e =
        elim (Option-cases (raise_tdata align builders)) [
          | inr (later, found) ↦
              let (packed, room) = raise_tdata-IsRaised builders later h found in
              let same : b ∷ later ≡ after = ground (arith, e, found) in
              subst (IsRaised (b ∷ builders)) same ((here, packed), omega arith)
          | inl missing ↦ elim (Bool-cases (is_tdata b.kind)) [
            | inl this ↦
                let same : raised align b ∷ builders ≡ after = ground (arith, e, missing, this) in
                subst (IsRaised (b ∷ builders)) same
                  ((raised-IsPacked align b power here, h), omega arith)
            | inr other ↦ absurd (ground (arith, e, missing, other))
          ]
        ]

    raise_tbss-IsRaised :
        (builders : List Builder)
        → All (IsPacked objects spent) builders
        → IsRaised builders (raise_tbss align builders)
    unfolding raise_tbss
    raise_tbss-IsRaised [] h = (h, omega arith)
    raise_tbss-IsRaised (b ∷ builders) (here, h) =
        let (packed, room) = raise_tbss-IsRaised builders h in
        elim (Bool-cases (is_tbss b.kind)) [
          | inl this ↦ rw this ((raised-IsPacked align b power here, h), omega arith)
          | inr other ↦ rw other ((here, packed), omega arith)
        ]

  pub align_tls-IsPacked :
      (pb nobits : List Builder)
      → All (IsPacked objects spent) pb
      → All (IsPacked objects spent) nobits
      → All (IsPacked objects spent) (align_tls pb nobits).0
        × All (IsPacked objects spent) (align_tls pb nobits).1
        × (builders_room (align_tls pb nobits).0 + builders_room (align_tls pb nobits).1
            ≤ 2 * (builders_room pb + builders_room nobits) + 1)
  unfolding align_tls
  align_tls-IsPacked pb nobits h k =
      let align = max_tls_align (pb ++ nobits) in
      let power =
        IsPower-max_tls_align (pb ++ nobits) (All-append (IsPacked objects spent) pb nobits h k) in
      let most = max_tls_align-room (pb ++ nobits) in
      let total = room-append pb nobits in
      elim (Bool-cases (ltb 1 align)) [
        | inr small ↦ rw small (h, k, omega arith)
        | inl large ↦ elim (Option-cases (raise_tdata align pb)) [
          | inr (later, found) ↦
              let (packed, room) = raise_tdata-IsRaised align power pb later h found in
              rw (large, found) (packed, k, omega arith)
          | inl missing ↦
              let (packed, room) = raise_tbss-IsRaised align power nobits k in
              rw (large, missing) (h, packed, omega arith)
        ]
      ]
