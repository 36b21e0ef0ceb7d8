-- ===== src/Layout/Group/Taken.antt =====
-- The input sections that pass 5 of the layout takes (peony-layout/src/lib.rs, compute_layout_icf).
use peony.Base.{
  ℕ, zero, suc, ◌+◌, ◌<◌, ◌≡◌, refl, subst, not, ◌&&◌, true, false, ◌⊎◌, inl, inr, List, [], ◌∷◌,
  Option, none, some, ◌==◌, arith, Mem, Mem-append_left, Mem-append_right, get_elem?, Option-cases,
}
use peony.Base.Bytes.{starts_with, codes}
use peony.Base.Map.{get, pair_eq}
use peony.Gc.Bits.{bit}
use peony.Layout.Group.{
  SectionFilter, emits, is_debug, is_allocatable, anchors_of, symbol_anchored, is_left_out,
}
use peony.Layout.Script.{ScriptLayout}
use peony.Link.Resolver.{contains_pair}
use peony.Object.{InputSection, InputSymbol, InputObject}

-- The folds, none without a map.
abbrev pub folds_of : Option (List ((ℕ × ℕ) × (ℕ × ℕ))) → List ((ℕ × ℕ) × (ℕ × ℕ))
folds_of none = []
folds_of (some fm) = fm

-- A section to load, no debug section and no note, with bytes or a symbol of its object in it, which the filter keeps
-- and which is not folded.
abbrev pub IsTaken :
    SectionFilter → Option (List ((ℕ × ℕ) × (ℕ × ℕ))) → ℕ → InputObject → InputSection → Type 0
IsTaken live fold_map i obj sec =
    (bit sec.flags 1 ≡ true)
    × (is_debug sec.kind ≡ false)
    × (starts_with sec.name (codes ".note") ≡ false)
    × ((0 < sec.size) ⊎ ((sy : InputSymbol) × Mem sy obj.symbols × (sy.section ≡ some sec.index)))
    × (emits live (i, sec.index) ≡ true)
    × (get (i, sec.index) (folds_of fold_map) ≡ none)

contains_pair-Mem :
    (pairs : List (ℕ × ℕ)) (o s : ℕ) → Mem (o, s) pairs → contains_pair pairs o s ≡ true
unfolding contains_pair
contains_pair-Mem [] o s m = absurd m
contains_pair-Mem ((p, q) ∷ pairs) o s (inl e) = ground (arith, e)
contains_pair-Mem ((p, q) ∷ pairs) o s (inr m) = ground (arith, contains_pair-Mem pairs o s m)

anchors_of-Mem :
    (obj_idx s : ℕ) (symbols : List InputSymbol) (sy : InputSymbol)
    → Mem sy symbols
    → sy.section ≡ some s
    → Mem (obj_idx, s) (anchors_of obj_idx symbols)
unfolding anchors_of
anchors_of-Mem obj_idx s [] sy m e = absurd m
anchors_of-Mem obj_idx s (x ∷ symbols) sy (inl same) e =
    let here : x.section ≡ some s = subst (λ y. y.section ≡ some s) same e in
    rw (here, anchors_of) (inl refl)
anchors_of-Mem obj_idx s (x ∷ symbols) sy (inr m) e =
    let later = anchors_of-Mem obj_idx s symbols sy m e in
    elim (Option-cases x.section) [
      | inl missing ↦ rw (missing, anchors_of) later
      | inr (t, there) ↦ rw (there, anchors_of) (inr later)
    ]

symbol_anchored-Mem :
    (n i s : ℕ) (objects : List InputObject) (obj : InputObject) (sy : InputSymbol)
    → get_elem? objects i ≡ some obj
    → Mem sy obj.symbols
    → sy.section ≡ some s
    → Mem (n + i, s) (symbol_anchored n objects)
unfolding symbol_anchored
symbol_anchored-Mem n i s [] obj sy at m e = absurd (ground (arith, at))
symbol_anchored-Mem n zero s (x ∷ objects) obj sy at m e =
    let same : obj ≡ x = ground (arith, at) in
    let here : n ≡ n + 0 = omega arith in
    Mem-append_left (n + 0, s) (anchors_of n x.symbols) (symbol_anchored (n + 1) objects)
      (subst (λ k. Mem (k, s) (anchors_of n x.symbols)) here
        (anchors_of-Mem n s x.symbols sy (subst (λ y. Mem sy y.symbols) same m) e))
symbol_anchored-Mem n (suc i) s (x ∷ objects) obj sy at m e =
    let there : n + 1 + i ≡ n + suc i = omega arith in
    Mem-append_right (n + suc i, s) (anchors_of n x.symbols) (symbol_anchored (n + 1) objects)
      (subst (λ k. Mem (k, s) (symbol_anchored (n + 1) objects)) there
        (symbol_anchored-Mem (n + 1) i s objects obj sy at m e))

pub is_left_out-IsTaken :
    (objects : List InputObject) (live : SectionFilter) (script : Option ScriptLayout)
    (fold_map : Option (List ((ℕ × ℕ) × (ℕ × ℕ)))) (i : ℕ) (obj : InputObject) (sec : InputSection)
    → get_elem? objects i ≡ some obj
    → IsTaken live fold_map i obj sec
    → is_left_out (symbol_anchored 0 objects) live script fold_map i sec ≡ false
unfolding is_left_out is_allocatable get
is_left_out-IsTaken objects live script fold_map i obj sec at (alloc, h1, h2, bytes, kept, plain) =
    let anchored = symbol_anchored 0 objects in
    let filled : (sec.size == 0 && not (contains_pair anchored i sec.index)) ≡ false = elim bytes [
      | inl some_bytes ↦ ground (arith, some_bytes)
      | inr (sy, m, here) ↦
          let there = contains_pair-Mem anchored i sec.index (
            subst (λ n. Mem (n, sec.index) anchored) (omega arith)
              (symbol_anchored-Mem 0 i sec.index objects obj sy at m here)) in
          ground (arith, there)
    ] in
    unfolded fold_map plain filled
  where
    unfolded :
        (folds : Option (List ((ℕ × ℕ) × (ℕ × ℕ))))
        → get (i, sec.index) (folds_of folds) ≡ none
        → (sec.size == 0 && not (contains_pair (symbol_anchored 0 objects) i sec.index)) ≡ false
        → is_left_out (symbol_anchored 0 objects) live script folds i sec ≡ false
    unfolded none p filled = rw (is_left_out, filled) (ground (arith, alloc, h1, h2, kept))
    unfolded (some fm) p filled = rw (is_left_out, filled) (ground (arith, alloc, h1, h2, kept, p))
