-- ===== src/Link/Resolver.antt =====
-- peony/src/main.rs, `Resolver`: symbol resolution and the discarding of COMDAT groups, object by
-- object. The arena of memory maps is left out.
use peony.Base.{ℕ, Bool, true, false, ◌&&◌, List, [], ◌∷◌, ◌++◌, ◌==◌, if◌then◌else◌}
use peony.Base.Bytes.{Bytes, bytes_eq}
use peony.Object.{InputObject, ComdatGroup}
use peony.Symbols.Resolution.{Outcome, ok, ◌>>=◌}
use peony.Symbols.Table.{SymbolTable, new, add_object, is_empty, process_object_excluding}

pub record Resolver : Type 0 where
  pub objects : List InputObject
  pub symbols : SymbolTable
  pub seen_comdat : List Bytes
  pub excluded : List (ℕ × ℕ)

unfoldable pub start : Resolver
start = record { objects = []; symbols = new; seen_comdat = []; excluded = [] }

unfoldable pub contains_name : List Bytes → Bytes → Bool
contains_name [] name = false
contains_name (x ∷ xs) name = if bytes_eq x name then true else contains_name xs name

unfoldable pub contains_pair : List (ℕ × ℕ) → ℕ → ℕ → Bool
contains_pair [] obj_id m = false
contains_pair ((o, s) ∷ ps) obj_id m =
    if (o == obj_id) && (s == m) then true else contains_pair ps obj_id m

-- The sets that the loop over the groups changes; the last is the object's own.
pub record Groups : Type 0 where
  pub seen : List Bytes
  pub excluded : List (ℕ × ℕ)
  pub obj_excluded : List ℕ

unfoldable pub exclude_members : ℕ → List ℕ → Groups → Groups
exclude_members obj_id [] g = g
exclude_members obj_id (m ∷ ms) g =
    exclude_members obj_id ms
      (record g { excluded = (obj_id, m) ∷ g.excluded; obj_excluded = m ∷ g.obj_excluded })

-- One round of the loop over the groups: `seen_comdat.insert` says whether the signature is new.
unfoldable pub exclude_group : ℕ → ComdatGroup → Groups → Groups
unfolding exclude_members contains_name
exclude_group obj_id group g =
    if is_empty group.signature
    then g
    else if contains_name g.seen group.signature
    then exclude_members obj_id group.members g
    else record g { seen = group.signature ∷ g.seen }

unfoldable pub exclude_groups : ℕ → List ComdatGroup → Groups → Groups
exclude_groups obj_id [] g = g
exclude_groups obj_id (group ∷ groups) g =
    exclude_groups obj_id groups (exclude_group obj_id group g)

-- The groups of an object, from the sets of the resolver.
unfoldable pub object_groups : Resolver → ℕ → InputObject → Groups
object_groups r obj_id obj =
    exclude_groups obj_id obj.comdat_groups
      (record { seen = r.seen_comdat; excluded = r.excluded; obj_excluded = [] })

unfoldable pub resolve_object : Resolver → InputObject → Outcome Resolver
resolve_object r obj =
    let (obj_id, symbols) = add_object r.symbols obj.path in
    let g = object_groups r obj_id obj in
    process_object_excluding symbols obj_id obj g.obj_excluded >>= λ symbols'. ok (record {
      objects = r.objects ++ obj ∷ [];
      symbols = symbols';
      seen_comdat = g.seen;
      excluded = g.excluded;
    })

unfoldable pub resolve_objects : Resolver → List InputObject → Outcome Resolver
resolve_objects r [] = ok r
resolve_objects r (obj ∷ objs) = resolve_object r obj >>= λ r'. resolve_objects r' objs
