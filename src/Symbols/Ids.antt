-- ===== src/Symbols/Ids.antt =====
-- The ids of peony-symbols/src/lib.rs: `names` is the inverse of the ids in the table, whatever
-- operations have built it, as long as fewer than 2 ^ 32 ids are minted.
use peony.Base.{
  ℕ, zero, suc, ◌+◌, ◌%◌, ◌≤◌, ◌<◌, ◌^◌, ◌≡◌, refl, sym, ◌∙◌, ap, ◌≢◌, ◌⊎◌, inl, inr, Bool, true,
  false, not, ◌&&◌, List, [], ◌∷◌, ◌++◌, Option, none, some, arith, ltb, ◌==◌, ==_iff,
  if◌then◌else◌, Bool-cases, Option-cases, length, length-append, get_elem?, get_elem?-append_left,
  get_elem?-append_last, lt-length_of_get, subst, some-injective,
}
use peony.Base.Bytes.{Bytes, bytes_eq, bytes_eq_iff}
use peony.Base.Map.{get-insert, get-insert_self, get-insert_ne, bytes_key}
use peony.Symbols.Resolution.{no_id, SymbolResolution}
use peony.Symbols.Table.{SymbolTable, new, lookup, store, next_id, push_name}

pub lookup-store :
    (t : SymbolTable) (name other : Bytes) (r : SymbolResolution)
    → lookup (store t name r) other ≡ (if bytes_eq name other then some r else lookup t other)
unfolding lookup store
lookup-store t name other r = get-insert name other r t.resolutions

pub lookup-push_name :
    (t : SymbolTable) (name other : Bytes) → lookup (push_name t name) other ≡ lookup t other
unfolding lookup push_name
lookup-push_name t name other = refl

names-store :
    (t : SymbolTable) (name : Bytes) (r : SymbolResolution) → (store t name r).names ≡ t.names
unfolding store
names-store t name r = refl

-- The id of every resolution that has one is the place of its name in `names`.
abbrev pub IsIndexed : SymbolTable → Type 0
IsIndexed t =
    (name : Bytes) (r : SymbolResolution)
    → lookup t name ≡ some r
    → r.id ≢ no_id
    → get_elem? t.names r.id ≡ some name

pub new-IsIndexed : IsIndexed new
unfolding lookup new peony.Base.Map.get
new-IsIndexed name r e n = cc

pub store-IsIndexed :
    (t : SymbolTable) (name : Bytes) (r : SymbolResolution)
    → IsIndexed t
    → (r.id ≢ no_id → get_elem? t.names r.id ≡ some name)
    → IsIndexed (store t name r)
store-IsIndexed t name r v h other q e n = ground (
  arith,
  lookup-store t name other r,
  bytes_eq_iff name other,
  names-store t name r,
  v other q,
  h,
)

push_name-IsIndexed : (t : SymbolTable) (name : Bytes) → IsIndexed t → IsIndexed (push_name t name)
unfolding push_name lookup
push_name-IsIndexed t name v other r e n =
    let old = v other r e n in
    get_elem?-append_left t.names (name ∷ []) r.id (lt-length_of_get t.names r.id old) ∙ old

next_id-push :
    (t : SymbolTable) (name : Bytes)
    → length t.names < 2 ^ 32
    → get_elem? (push_name t name).names (next_id t) ≡ some name
unfolding push_name next_id
next_id-push t name h =
    let e : length t.names % 2 ^ 32 ≡ length t.names = omega arith in
    rw e (get_elem?-append_last t.names name)

-- The table is indexed, and has at most `k` names more than before.
pub record Grows (k : ℕ) (t t' : SymbolTable) : Type 0 where
  pub indexed : IsIndexed t'
  pub grown : length t'.names ≤ length t.names + k
  pub kept : length t.names ≤ length t'.names

pub Grows-refl : (k : ℕ) (t : SymbolTable) → IsIndexed t → Grows k t t
Grows-refl k t v = record { indexed = v; grown = omega arith; kept = omega arith }

pub Grows-store :
    (k : ℕ) (t : SymbolTable) (name : Bytes) (r : SymbolResolution)
    → IsIndexed t
    → (r.id ≢ no_id → get_elem? t.names r.id ≡ some name)
    → Grows k t (store t name r)
unfolding store
Grows-store k t name r v h = record {
  indexed = store-IsIndexed t name r v h;
  grown = omega arith;
  kept = omega arith;
}

-- A resolution stored under the freshly minted id.
pub Grows-mint :
    (t : SymbolTable) (name : Bytes) (r : SymbolResolution)
    → IsIndexed t
    → length t.names < 2 ^ 32
    → r.id ≡ next_id t
    → Grows 1 t (store (push_name t name) name r)
unfolding store
Grows-mint t name r v room e = record {
  indexed =
      store-IsIndexed (push_name t name) name r (push_name-IsIndexed t name v)
        (λ n. rw e (next_id-push t name room));
  grown = unfold push_name in omega (arith, length-append t.names (name ∷ []));
  kept = unfold push_name in omega (arith, length-append t.names (name ∷ []));
}
