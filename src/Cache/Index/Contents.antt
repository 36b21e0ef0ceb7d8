-- ===== src/Cache/Index/Contents.antt =====
-- What the relocation reverse index holds after a run of insertions (peony-cache/src/lib.rs).
use peony.Base.{
  ℕ, ◌+◌, zero, suc, ◌≤◌, ◌<◌, ◌≡◌, ◌≢◌, refl, sym, ◌∙◌, ap, subst, inl, inr, false, List, [], ◌∷◌,
  none, some, arith, ◌==◌, leb, if◌then◌else◌, length, get_elem?, set, replicate, unwrap_or, Mem,
  Nodup, Bool-cases, length-set, get_elem?-set_self, get_elem?-set_ne, length-replicate,
}
use peony.Cache.Index.{
  RelocReverseIndex, no_entry, new, insert, insert_all, chain_from, iter_relocs,
}
use peony.Cache.Index.Chains.{IsChain, chain_from-IsChain, IsChain-set}

-- The relocations that the entries name for a symbol, the last inserted first.
unfoldable pub relocs_of : ℕ → List (ℕ × ℕ) → List ℕ → List ℕ
relocs_of s [] done = done
relocs_of s ((symbol_id, reloc_id) ∷ entries) done =
    relocs_of s entries (if symbol_id == s then reloc_id ∷ done else done)

unfoldable pub reloc_ids : List (ℕ × ℕ) → List ℕ
reloc_ids [] = []
reloc_ids ((symbol_id, reloc_id) ∷ entries) = reloc_id ∷ reloc_ids entries

-- Every entry names a symbol and a relocation of the index.
abbrev pub IsInRange : ℕ → ℕ → List (ℕ × ℕ) → Type 0
IsInRange symbol_count reloc_count [] = Unit
IsInRange symbol_count reloc_count ((symbol_id, reloc_id) ∷ entries) =
    (symbol_id < symbol_count)
    × (reloc_id < reloc_count)
    × (reloc_id < no_entry)
    × IsInRange symbol_count reloc_count entries

-- The index holds, for each symbol, the chain that the view gives.
abbrev Holds : RelocReverseIndex → (ℕ → List ℕ) → Type 0
Holds index view =
    (s : ℕ)
    → s < length index.heads
    → (c : ℕ) × (get_elem? index.heads s ≡ some c) × IsChain index.nexts c (view s)

abbrev pushed : ℕ → ℕ → (ℕ → List ℕ) → ℕ → List ℕ
pushed symbol_id reloc_id view s = if symbol_id == s then reloc_id ∷ view s else view s

abbrev written : RelocReverseIndex → ℕ → ℕ → ℕ → RelocReverseIndex
written index symbol_id reloc_id old_head = record {
  heads = set index.heads symbol_id reloc_id;
  nexts = set index.nexts reloc_id old_head;
}

insert-written :
    (index : RelocReverseIndex) (symbol_id reloc_id old_head : ℕ)
    → get_elem? index.heads symbol_id ≡ some old_head
    → reloc_id < length index.nexts
    → insert index (symbol_id, reloc_id) ≡ written index symbol_id reloc_id old_head
unfolding insert
insert-written index symbol_id reloc_id old_head e h =
    let room : leb (length index.nexts) reloc_id ≡ false = ground arith in
    ap
      (λ f. elim f as (λ _. RelocReverseIndex) [
        | none ↦ index
        | some o ↦
            if leb (length index.nexts) reloc_id then index else written index symbol_id reloc_id o
      ])
      e
    ∙ ap (λ b. if b then index else written index symbol_id reloc_id old_head) room

Holds-written :
    (index : RelocReverseIndex) (view : ℕ → List ℕ) (symbol_id reloc_id old_head : ℕ)
    → Holds index view
    → get_elem? index.heads symbol_id ≡ some old_head
    → IsChain index.nexts old_head (view symbol_id)
    → symbol_id < length index.heads
    → reloc_id < length index.nexts
    → reloc_id < no_entry
    → ((s : ℕ) → ¬ Mem reloc_id (view s))
    → Holds (written index symbol_id reloc_id old_head) (pushed symbol_id reloc_id view)
Holds-written index view symbol_id reloc_id old_head holds e chain inside room small fresh s h =
    elim (Bool-cases (symbol_id == s)) [
      | inl same ↦
          let equal : symbol_id ≡ s = ground (arith, same) in
          rw same (
            reloc_id,
            subst (λ t. get_elem? (set index.heads symbol_id reloc_id) t ≡ some reloc_id) equal
                (get_elem?-set_self index.heads symbol_id reloc_id inside),
            (
              refl,
              small,
              (
                old_head,
                get_elem?-set_self index.nexts reloc_id old_head room,
                IsChain-set index.nexts reloc_id old_head old_head (view s) (fresh s)
                    (subst (λ t. IsChain index.nexts old_head (view t)) equal chain),
              ),
            ),
          )
      | inr other ↦
          let apart : symbol_id ≢ s = ground (arith, other) in
          let kept : s < length index.heads =
            subst (λ n. s < n) (length-set index.heads symbol_id reloc_id) h in
          let (c, read, rest) = holds s kept in
          rw other (
            c,
            get_elem?-set_ne index.heads symbol_id s reloc_id apart ∙ read,
            IsChain-set index.nexts reloc_id old_head c (view s) (fresh s) rest,
          )
    ]

Holds-insert :
    (index : RelocReverseIndex) (view : ℕ → List ℕ) (symbol_id reloc_id : ℕ)
    → Holds index view
    → symbol_id < length index.heads
    → reloc_id < length index.nexts
    → reloc_id < no_entry
    → ((s : ℕ) → ¬ Mem reloc_id (view s))
    → (next : RelocReverseIndex) × (insert index (symbol_id, reloc_id) ≡ next)
      × (length next.heads ≡ length index.heads)
      × (length next.nexts ≡ length index.nexts)
      × Holds next (pushed symbol_id reloc_id view)
Holds-insert index view symbol_id reloc_id holds inside room small fresh =
    let (old_head, e, chain) = holds symbol_id inside in
    (
      written index symbol_id reloc_id old_head,
      insert-written index symbol_id reloc_id old_head e room,
      length-set index.heads symbol_id reloc_id,
      length-set index.nexts reloc_id old_head,
      Holds-written index view symbol_id reloc_id old_head holds e chain inside room small fresh,
    )

-- No entry to come names a relocation that the view has.
abbrev IsFresh : List ℕ → (ℕ → List ℕ) → Type 0
IsFresh ids view = (r s : ℕ) → Mem r ids → ¬ Mem r (view s)

IsFresh-pushed :
    (ids : List ℕ) (view : ℕ → List ℕ) (symbol_id reloc_id : ℕ)
    → IsFresh (reloc_id ∷ ids) view
    → ¬ Mem reloc_id ids
    → IsFresh ids (pushed symbol_id reloc_id view)
IsFresh-pushed ids view symbol_id reloc_id fresh new_id r s m = elim (Bool-cases (symbol_id == s)) [
  | inl same ↦
      rw same (λ i. elim i [
        | inl e ↦ new_id (subst (λ t. Mem t ids) e m)
        | inr i' ↦ fresh r s (inr m) i'
      ])
  | inr other ↦ rw other (fresh r s (inr m))
]

Holds-insert_all :
    (entries : List (ℕ × ℕ)) (index : RelocReverseIndex) (view : ℕ → List ℕ)
    → Holds index view
    → IsInRange (length index.heads) (length index.nexts) entries
    → Nodup (reloc_ids entries)
    → IsFresh (reloc_ids entries) view
    → (length (insert_all index entries).heads ≡ length index.heads)
      × (length (insert_all index entries).nexts ≡ length index.nexts)
      × Holds (insert_all index entries) (λ s. relocs_of s entries (view s))
unfolding insert_all relocs_of reloc_ids
Holds-insert_all [] index view holds range nodup fresh = (refl, refl, holds)
Holds-insert_all ((symbol_id, reloc_id) ∷ entries) index view holds (inside, room, small, range)
      (new_id, nodup) fresh =
    let (next, e, same_heads, same_nexts, holds') =
      Holds-insert index view symbol_id reloc_id holds inside room small
        (λ s. fresh reloc_id s (inl refl)) in
    let range' : IsInRange (length next.heads) (length next.nexts) entries =
      subst (λ n. IsInRange (length next.heads) n entries) (sym same_nexts)
        (subst (λ n. IsInRange n (length index.nexts) entries) (sym same_heads) range) in
    let (heads_len, nexts_len, after) =
      Holds-insert_all entries next (pushed symbol_id reloc_id view) holds' range' nodup
        (IsFresh-pushed (reloc_ids entries) view symbol_id reloc_id fresh new_id) in
    subst
      (λ t.
        (length (insert_all t entries).heads ≡ length index.heads)
        × (length (insert_all t entries).nexts ≡ length index.nexts)
        × Holds (insert_all t entries)
            (λ s. relocs_of s entries (pushed symbol_id reloc_id view s)))
      (sym e) (heads_len ∙ same_heads, nexts_len ∙ same_nexts, after)

length-relocs_of :
    (s : ℕ) (entries : List (ℕ × ℕ)) (done : List ℕ)
    → length (relocs_of s entries done) ≤ length entries + length done
unfolding relocs_of
length-relocs_of s [] done = omega arith
length-relocs_of s ((symbol_id, reloc_id) ∷ entries) done = elim (Bool-cases (symbol_id == s)) [
  | inl same ↦ rw same (let next = length-relocs_of s entries (reloc_id ∷ done) in omega arith)
  | inr other ↦ rw other (let next = length-relocs_of s entries done in omega arith)
]

get_elem?-replicate : (n i a : ℕ) → i < n → get_elem? (replicate n a) i ≡ some a
get_elem?-replicate zero i a h = absurd (omega arith)
get_elem?-replicate (suc n) zero a h = refl
get_elem?-replicate (suc n) (suc i) a h = get_elem?-replicate n i a (omega arith)

Holds-new : (symbol_count reloc_count : ℕ) → Holds (new symbol_count reloc_count) (λ s. [])
unfolding new
Holds-new symbol_count reloc_count s h = (
  no_entry,
  get_elem?-replicate symbol_count s no_entry
      (subst (λ n. s < n) (length-replicate symbol_count no_entry) h),
  refl,
)

-- After a run of insertions into a new index, one after the other, in which every entry names a symbol and a
-- relocation of the index, no relocation is inserted twice and there are no more entries than relocations, the
-- iteration over a symbol of the index yields exactly the relocations inserted for it, the last inserted first.
pub iter_relocs-insert_all :
    (symbol_count reloc_count : ℕ) (entries : List (ℕ × ℕ)) (s : ℕ)
    → IsInRange symbol_count reloc_count entries
    → Nodup (reloc_ids entries)
    → length entries ≤ reloc_count
    → s < symbol_count
    → iter_relocs (insert_all (new symbol_count reloc_count) entries) s ≡ relocs_of s entries []
unfolding iter_relocs new
iter_relocs-insert_all symbol_count reloc_count entries s range nodup few h =
    let start = new symbol_count reloc_count in
    let heads_len : length start.heads ≡ symbol_count = length-replicate symbol_count no_entry in
    let nexts_len : length start.nexts ≡ reloc_count = length-replicate reloc_count no_entry in
    let range' : IsInRange (length start.heads) (length start.nexts) entries =
      subst (λ n. IsInRange (length start.heads) n entries) (sym nexts_len)
        (subst (λ n. IsInRange n reloc_count entries) (sym heads_len) range) in
    let (same_heads, same_nexts, holds) =
      Holds-insert_all entries start (λ _. []) (Holds-new symbol_count reloc_count) range' nodup
        (λ _ _ _ m. m) in
    let inside : s < length (insert_all start entries).heads =
      subst (λ n. s < n) (sym (same_heads ∙ heads_len)) h in
    let (c, read, chain) = holds s inside in
    let bound = length-relocs_of s entries [] in
    let enough : length (relocs_of s entries []) ≤ length (insert_all start entries).nexts =
      subst (λ n. length (relocs_of s entries []) ≤ n) (sym (same_nexts ∙ nexts_len))
        (omega arith) in
    let here : unwrap_or (get_elem? (insert_all start entries).heads s) no_entry ≡ c =
      ap (λ o. unwrap_or o no_entry) read in
    ap (chain_from (length (insert_all start entries).nexts) (insert_all start entries).nexts) here
    ∙ chain_from-IsChain (length (insert_all start entries).nexts) (insert_all start entries).nexts
        c (relocs_of s entries []) chain enough
