-- ===== src/Cache/Index/Chains.antt =====
-- The chains of the relocation reverse index (peony-cache/src/lib.rs).
use peony.Base.{
  ℕ, zero, suc, ◌≤◌, ◌<◌, ◌≡◌, refl, ◌∙◌, ap, inl, inr, false, List, [], ◌∷◌, some, arith, ◌==◌,
  length, get_elem?, set, Mem, get_elem?-set_ne,
}
use peony.Cache.Index.{no_entry, chain_from}

-- The entries of `nexts` from `current` on are the list.
abbrev pub IsChain : List ℕ → ℕ → List ℕ → Type 0
IsChain nexts current [] = current ≡ no_entry
IsChain nexts current (x ∷ xs) =
    (current ≡ x)
    × (x < no_entry)
    × ((next : ℕ) × (get_elem? nexts x ≡ some next) × IsChain nexts next xs)

pub chain_from-IsChain :
    (fuel : ℕ) (nexts : List ℕ) (current : ℕ) (xs : List ℕ)
    → IsChain nexts current xs
    → length xs ≤ fuel
    → chain_from fuel nexts current ≡ xs
unfolding chain_from
chain_from-IsChain zero nexts current [] c h = refl
chain_from-IsChain zero nexts current (x ∷ xs) c h = absurd (omega arith)
chain_from-IsChain (suc fuel) nexts current [] c h = rw c refl
chain_from-IsChain (suc fuel) nexts current (x ∷ xs) (e, small, (next, read, rest)) h =
    let here : (x == no_entry) ≡ false = ground (arith, small) in
    rw (e, here, read)
      (ap (λ ys. x ∷ ys) (chain_from-IsChain fuel nexts next xs rest (omega arith)))

-- A write elsewhere leaves a chain.
pub IsChain-set :
    (nexts : List ℕ) (r v current : ℕ) (xs : List ℕ)
    → ¬ Mem r xs
    → IsChain nexts current xs
    → IsChain (set nexts r v) current xs
IsChain-set nexts r v current [] out c = c
IsChain-set nexts r v current (x ∷ xs) out (e, small, (next, read, rest)) = (
  e,
  small,
  (
    next,
    get_elem?-set_ne nexts r x v (λ same. out (inl same)) ∙ read,
    IsChain-set nexts r v next xs (λ m. out (inr m)) rest,
  ),
)
