-- ===== src/Gc/Live/Start.antt =====
-- The set that a traversal starts from (peony-layout/src/gc/live.rs): its bits, and that it is empty.
use peony.Base.{
  ℕ, zero, suc, ◌+◌, ◌/◌, ◌%◌, ◌≡◌, refl, ◌∙◌, Bool, false, List, [], ◌∷◌, map, Option, none, some,
  ◌>>=◌, arith, if◌then◌else◌, get_elem?, replicate, leb, ltb, Bool-cases, inl, inr,
}
use peony.Gc.Bits.{bit-zero}
use peony.Gc.Live.{max_section_index, object_words, new, word_of, contains}
use peony.Gc.Live.Laws.{in_range}
use peony.Object.{InputObject}

-- The object exists, and the key's word is one of those that its highest section index asks for.
unfoldable pub fits : List InputObject → ℕ × ℕ → Bool
fits objects (o, s) = elim (get_elem? objects o) [
  | none ↦ false
  | some obj ↦ leb (s / 64) (max_section_index obj.sections / 64)
]

get_elem?-replicate :
    (n i : ℕ) → get_elem? {A = ℕ} (replicate n 0) i ≡ (if ltb i n then some 0 else none)
get_elem?-replicate zero i = ground arith
get_elem?-replicate (suc n) zero = ground arith
get_elem?-replicate (suc n) (suc i) = get_elem?-replicate n i ∙ ground arith

get_elem?-map_words :
    (objects : List InputObject) (o : ℕ)
    → get_elem? (map object_words objects) o
      ≡ (get_elem? objects o >>= λ obj. some (object_words obj))
get_elem?-map_words [] o = refl
get_elem?-map_words (obj ∷ objs) zero = refl
get_elem?-map_words (obj ∷ objs) (suc o) = get_elem?-map_words objs o

word_of-new :
    (objects : List InputObject) (k : ℕ × ℕ)
    → word_of (new objects) k ≡ (if fits objects k then some 0 else none)
unfolding word_of new fits
word_of-new objects (o, s) = go (get_elem? objects o) refl
  where
    go :
        (m : Option InputObject)
        → get_elem? objects o ≡ m
        → word_of (new objects) (o, s) ≡ (if fits objects (o, s) then some 0 else none)
    go none e = rw (word_of, get_elem?-map_words objects o, e, fits) refl
    go (some obj) e =
        rw
          (
            word_of,
            get_elem?-map_words objects o,
            e,
            fits,
            get_elem?-replicate (max_section_index obj.sections / 64 + 1) (s / 64),
          )
          (ground arith)

-- The set has a bit for exactly the keys of the objects whose word their section indices ask for.
pub in_range-new :
    (objects : List InputObject) (k : ℕ × ℕ) → in_range (new objects) k ≡ fits objects k
unfolding in_range
in_range-new objects k =
    rw (word_of-new objects k)
      (elim (Bool-cases (fits objects k)) [ inl h ↦ rw h refl | inr h ↦ rw h refl ])

pub contains-new : (objects : List InputObject) (k : ℕ × ℕ) → contains (new objects) k ≡ false
unfolding contains
contains-new objects k = elim (Bool-cases (fits objects k)) [
  | inl h ↦ rw (contains, word_of-new objects k, h) (bit-zero (k.1 % 64))
  | inr h ↦ rw (contains, word_of-new objects k, h) refl
]
