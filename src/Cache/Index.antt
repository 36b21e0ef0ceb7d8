-- ===== src/Cache/Index.antt =====
-- The relocation reverse index (peony-cache/src/lib.rs). Insertions are taken one after the other.
pub mod Chains
pub mod Contents
use peony.Base.{
  ℕ, zero, suc, ◌-◌, ◌^◌, Bool, true, false, ◌||◌, List, [], ◌∷◌, Option, none, some, ◌==◌, leb,
  if◌then◌else◌, length, get_elem?, set, replicate, unwrap_or,
}

-- `u32::MAX`.
abbrev pub no_entry : ℕ
no_entry = 2 ^ 32 - 1

pub record RelocReverseIndex : Type 0 where
  pub heads : List ℕ
  pub nexts : List ℕ

unfoldable pub new : ℕ → ℕ → RelocReverseIndex
new symbol_count reloc_count = record {
  heads = replicate symbol_count no_entry;
  nexts = replicate reloc_count no_entry;
}

unfoldable pub insert : RelocReverseIndex → ℕ × ℕ → RelocReverseIndex
insert index (symbol_id, reloc_id) = elim (get_elem? index.heads symbol_id) [
  | none ↦ index
  | some old_head ↦ if leb (length index.nexts) reloc_id then index else record {
    heads = set index.heads symbol_id reloc_id;
    nexts = set index.nexts reloc_id old_head;
  }
]

unfoldable pub insert_all : RelocReverseIndex → List (ℕ × ℕ) → RelocReverseIndex
insert_all index [] = index
insert_all index (entry ∷ entries) = insert_all (insert index entry) entries

-- What `RelocChainIter` yields from an entry on, within the fuel.
unfoldable pub chain_from : ℕ → List ℕ → ℕ → List ℕ
chain_from zero nexts current = []
chain_from (suc fuel) nexts current =
    let rest = chain_from fuel nexts (unwrap_or (get_elem? nexts current) no_entry) in
    if current == no_entry then [] else current ∷ rest

-- A chain without a repetition is no longer than `nexts`, which is the fuel; one with a cycle, on which the code does
-- not end, is cut off there.
unfoldable pub iter_relocs : RelocReverseIndex → ℕ → List ℕ
iter_relocs index symbol_id =
    chain_from (length index.nexts) index.nexts
      (unwrap_or (get_elem? index.heads symbol_id) no_entry)
