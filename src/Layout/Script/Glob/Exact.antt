-- ===== src/Layout/Script/Glob/Exact.antt =====
-- The patterns that match exactly what they stand for (peony-layout/src/script.rs, script_pattern_matches).
use peony.Base.{
  ℕ, zero, suc, ◌+◌, ◌≤◌, ◌≡◌, refl, ap, sym, ◌∙◌, subst, Bool, true, false, not, ◌&&◌, ◌||◌, ◌⊎◌,
  inl, inr, List, [], ◌∷◌, ◌++◌, some, ◌==◌, length, length-append, drop, arith, Bool-cases, ◌↔◌,
}
use peony.Base.Bytes.{Bytes, bytes_eq, starts_with}
use mathlib.Core.List.{append_assoc}
use peony.Layout.Script.{
  find, split, ends_with, match_parts, match_first, script_pattern_matches, star, is_empty,
}
use peony.Layout.Script.Glob.{
  Glob, nothing, byte, star_ends, star_takes, Glob-skip, stars, ends_empty, split_lem, split-starts,
  split-ends, split-at_star, split-at_byte, match_parts-found, script_pattern_matches-Glob,
}

-- No byte is a star.
abbrev IsPlain : Bytes → Type 0
IsPlain [] = Unit
IsPlain (b ∷ part) = ((b == 42) ≡ false) × IsPlain part

abbrev ArePlain : List Bytes → Type 0
ArePlain [] = Unit
ArePlain (part ∷ parts) = IsPlain part × ArePlain parts

split-ArePlain : (pat : Bytes) → IsPlain (split pat).0 × ArePlain (split pat).1
unfolding split
split-ArePlain [] = (tt, tt)
split-ArePlain (b ∷ pat) =
    let (h, k) = split-ArePlain pat in
    elim (Bool-cases (b == 42)) [
      | inl at_star ↦ rw (split-at_star b pat at_star) (tt, (h, k))
      | inr plain ↦ rw (split-at_byte b pat plain) ((plain, h), k)
    ]

-- What is left of the name after the text that a star takes.
abbrev LeavesStar : Bytes → Bytes → Type 0
LeavesStar pat name = (text : Bytes) × ((rest : Bytes) × (name ≡ text ++ rest) × Glob pat rest)

abbrev LeavesPart : Bytes → Bytes → Bytes → Type 0
LeavesPart part pat name = (rest : Bytes) × (name ≡ part ++ rest) × Glob pat rest

Glob-byte_part :
    (b : ℕ) (pat : Bytes) {whole name : Bytes}
    → Glob whole name
    → whole ≡ b ∷ pat
    → (b == 42) ≡ false
    → LeavesPart (b ∷ []) pat name
Glob-byte_part b pat nothing e h = absurd (ground (arith, e))
Glob-byte_part b pat (byte {pat = p} {name = n} c g) e h =
    let head : c ≡ b = ground (arith, e) in
    let tail : p ≡ pat = ground (arith, e) in
    (n, ap (λ d. d ∷ n) head, subst (λ q. Glob q n) tail g)
Glob-byte_part b pat (star_ends g) e h = absurd (ground (arith, e, h))
Glob-byte_part b pat (star_takes c g) e h = absurd (ground (arith, e, h))

Glob-part :
    (part pat : Bytes) {name : Bytes}
    → IsPlain part
    → Glob (part ++ pat) name
    → LeavesPart part pat name
Glob-part [] pat {name} h g = (name, refl, g)
Glob-part (b ∷ part) pat (plain, h) g =
    let (later, e, g') = Glob-byte_part b (part ++ pat) g refl plain in
    let (rest, e', g'') = Glob-part part pat h g' in (rest, e ∙ ap (λ t. b ∷ t) e', g'')

Glob-star :
    (pat : Bytes) {whole name : Bytes} → Glob whole name → whole ≡ 42 ∷ pat → LeavesStar pat name
Glob-star pat nothing e = absurd (ground (arith, e))
Glob-star pat (byte {pat = p} {name = n} c g) e =
    let tail : p ≡ pat = ground (arith, e) in (c ∷ [], (n, refl, subst (λ q. Glob q n) tail g))
Glob-star pat (star_ends {pat = p} {name = n} g) e =
    let tail : p ≡ pat = ground (arith, e) in ([], (n, refl, subst (λ q. Glob q n) tail g))
Glob-star pat (star_takes c g) e =
    let (text, (rest, e', g')) = Glob-star pat g e in (c ∷ text, (rest, ap (λ t. c ∷ t) e', g'))

starts_with-append : (part tail : Bytes) → starts_with (part ++ tail) part ≡ true
unfolding starts_with
starts_with-append [] tail = refl
starts_with-append (b ∷ part) tail = ground (arith, starts_with-append part tail)

drop-append : (part tail : Bytes) → drop (length part) (part ++ tail) ≡ tail
drop-append [] tail = refl
drop-append (b ∷ part) tail = drop-append part tail

-- A cut that does not reach the tail leaves the tail behind something.
drop_before :
    (n : ℕ) (text tail : Bytes)
    → n ≤ length text
    → (extra : Bytes) × (drop n (text ++ tail) ≡ extra ++ tail)
drop_before zero text tail h = (text, refl)
drop_before (suc n) [] tail h = absurd (omega arith)
drop_before (suc n) (b ∷ text) tail h = drop_before n text tail (omega arith)

module _ (b : ℕ) (part tail : Bytes) where
  -- The search finds the part no later than it stands, and leaves at least the tail.
  abbrev Finds : Bytes → Type 0
  Finds name =
      (pos : ℕ) × (find (b ∷ part) name ≡ some pos)
      × ((extra : Bytes) × (drop (pos + length (b ∷ part)) name ≡ extra ++ tail))

  find-Finds : (text : Bytes) → Finds (text ++ (b ∷ part ++ tail))
  unfolding find
  find-Finds [] =
      let n : 0 + length (b ∷ part) ≡ length (b ∷ part) = omega arith in
      (
        0,
        rw (starts_with-append (b ∷ part) tail) refl,
        ([], ap (λ k. drop k (b ∷ part ++ tail)) n ∙ drop-append (b ∷ part) tail),
      )
  find-Finds (c ∷ text) =
      elim (Bool-cases (starts_with (c ∷ text ++ (b ∷ part ++ tail)) (b ∷ part))) [
        | inl here ↦
            let front = c ∷ text ++ (b ∷ part) in
            let size = length-append (c ∷ text) (b ∷ part) in
            let (extra, e) = drop_before (0 + length (b ∷ part)) front tail (omega (arith, size)) in
            (
              0,
              rw here refl,
              (
                extra,
                ap (drop (0 + length (b ∷ part))) (sym (append_assoc (c ∷ text) (b ∷ part) tail))
                    ∙ e,
              ),
            )
        | inr later ↦
            let (pos, found, (extra, e)) = find-Finds text in
            let n : suc pos + length (b ∷ part) ≡ suc (pos + length (b ∷ part)) = omega arith in
            (
              suc pos,
              rw (later, found) refl,
              (extra, ap (λ k. drop k (c ∷ text ++ (b ∷ part ++ tail))) n ∙ e),
            )
      ]

-- The loop over the parts of a pattern that ends with a star.
match_parts-succeeds :
    (rest last : Bytes) (parts : List Bytes)
    → ArePlain parts
    → ends_empty parts ≡ true
    → Glob (stars parts) rest
    → (out : Bytes × Bytes) × (match_parts rest last parts ≡ some out)
unfolding match_parts
match_parts-succeeds rest last [] h k g = absurd (ground (arith, k))
match_parts-succeeds rest last ([] ∷ []) h k g = ((rest, last), refl)
match_parts-succeeds rest last ([] ∷ next ∷ parts) (h, hs) k g =
    let (text, (r, e, g')) = Glob-star (stars (next ∷ parts)) g refl in
    match_parts-succeeds rest last (next ∷ parts) hs k
      (subst (λ t. Glob (stars (next ∷ parts)) t) (sym e) (Glob-skip text g'))
match_parts-succeeds rest last ((b ∷ part) ∷ []) h k g = absurd (ground (arith, k))
match_parts-succeeds rest last ((b ∷ part) ∷ next ∷ parts) (h, hs) k g =
    let (text, (r, e, g')) = Glob-star (b ∷ part ++ stars (next ∷ parts)) g refl in
    let (tail, e', later) = Glob-part (b ∷ part) (stars (next ∷ parts)) h g' in
    let whole : text ++ (b ∷ part ++ tail) ≡ rest = ap (λ t. text ++ t) (sym e') ∙ sym e in
    let (pos, found, (extra, left)) =
      subst (Finds b part tail) whole (find-Finds b part tail text) in
    let (out, done) =
      match_parts-succeeds (drop (pos + length (b ∷ part)) rest) (b ∷ part) (next ∷ parts) hs k
        (subst (λ t. Glob (stars (next ∷ parts)) t) (sym left) (Glob-skip extra later)) in
    (out, match_parts-found rest last b part (next ∷ parts) pos found ∙ done)

match_first-append :
    (anchored : Bool) (part rest : Bytes)
    → (anchored ≡ true) ⊎ (part ≡ [])
    → match_first anchored part (part ++ rest) ≡ some rest
unfolding match_first
match_first-append anchored [] rest k = refl
match_first-append true (b ∷ part) rest k =
    rw (starts_with-append (b ∷ part) rest, drop-append (b ∷ part) rest) refl
match_first-append false (b ∷ part) rest (inl bad) = absurd (ground (arith, bad))
match_first-append false (b ∷ part) rest (inr bad) = absurd (ground (arith, bad))

ends_with-nothing : (pat : Bytes) → ends_with pat [] ≡ true
unfolding ends_with bytes_eq
ends_with-nothing [] = refl
ends_with-nothing (b ∷ pat) = ends_with-nothing pat

Glob-nothing : {pat name : Bytes} → Glob pat name → pat ≡ [] → name ≡ []
Glob-nothing nothing e = refl
Glob-nothing (byte c g) e = absurd (ground (arith, e))
Glob-nothing (star_ends g) e = absurd (ground (arith, e))
Glob-nothing (star_takes c g) e = absurd (ground (arith, e))

-- The first part is in front of the name, and the loop has the rest.
match_first-Glob :
    (pat name : Bytes)
    → Glob pat name
    → (rest : Bytes) × (match_first (not (starts_with pat star)) (split pat).0 name ≡ some rest)
      × Glob (stars (split pat).1) rest
match_first-Glob pat name g =
    let part = (split pat).0 in
    let parts = (split pat).1 in
    let (rest, e, later) =
      Glob-part part (stars parts) (split-ArePlain pat).0
        (subst (λ p. Glob p name) (sym (split_lem pat)) g) in
    let k : (not (starts_with pat star) ≡ true) ⊎ (part ≡ []) =
      elim (Bool-cases (starts_with pat star)) [
        | inl at_star ↦ inr (split-starts pat at_star)
        | inr plain ↦ inl (ap not plain)
      ] in
    (
      rest,
      subst (λ n. match_first (not (starts_with pat star)) part n ≡ some rest) (sym e)
          (match_first-append (not (starts_with pat star)) part rest k),
      later,
    )

script_pattern_matches-true :
    (pat name rest left final : Bytes)
    → match_first (not (starts_with pat star)) (split pat).0 name ≡ some rest
    → match_parts rest [] (split pat).1 ≡ some (left, final)
    → (not (not (ends_with pat star)) || (ends_with pat final && is_empty left)) ≡ true
    → script_pattern_matches pat name ≡ true
unfolding script_pattern_matches
script_pattern_matches-true pat name rest left final first later h =
    elim (Bool-cases (bytes_eq pat star)) [
      | inl all ↦ rw all refl
      | inr other ↦ rw (other, first, later) h
    ]

script_pattern_matches_complete :
    (pat name : Bytes)
    → (ends_with pat star ≡ true) ⊎ ((split pat).1 ≡ [])
    → Glob pat name
    → script_pattern_matches pat name ≡ true
unfolding match_parts
script_pattern_matches_complete pat name (inl at_star) g =
    let (rest, first, later) = match_first-Glob pat name g in
    let ((left, final), done) =
      match_parts-succeeds rest [] (split pat).1 (split-ArePlain pat).1 (split-ends pat at_star)
        later in
    script_pattern_matches-true pat name rest left final first done (rw at_star refl)
script_pattern_matches_complete pat name (inr single) g =
    let (rest, first, later) = match_first-Glob pat name g in
    let spent : rest ≡ [] = Glob-nothing later (ap stars single) in
    let done : match_parts rest [] (split pat).1 ≡ some ([], []) =
      rw (single, spent) (unfold match_parts in refl) in
    script_pattern_matches-true pat name rest [] [] first done
      (ground (arith, ends_with-nothing pat))

-- A pattern with a star at its end, or with no star, matches exactly the names that it stands for as a glob.
pub script_pattern_matches-Glob_iff :
    (pat name : Bytes)
    → (ends_with pat star ≡ true) ⊎ ((split pat).1 ≡ [])
    → (script_pattern_matches pat name ≡ true) ↔ Glob pat name
script_pattern_matches-Glob_iff pat name k =
    (script_pattern_matches-Glob pat name, λ g. script_pattern_matches_complete pat name k g)
