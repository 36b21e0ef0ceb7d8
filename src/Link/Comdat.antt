-- ===== src/Link/Comdat.antt =====
-- The sets of discarded sections that `Resolver::resolve` (peony/src/main.rs) builds up.
use peony.Base.{ℕ, ◌≡◌, inl, inr, true, List, [], ◌∷◌, arith, Bool-cases}
use peony.Object.{ComdatGroup}
use peony.Symbols.Table.{contains, is_empty}
use peony.Link.Resolver.{
  Resolver, start, contains_pair, Groups, exclude_members, exclude_group, exclude_groups,
  object_groups, resolve_object, resolve_objects,
}

-- The pairs excluded so far stay excluded, and an object's own exclusions are among them.
pub record Covered (obj_id : ℕ) (g : Groups) : Type 0 where
  pub covered :
      (m : ℕ) → contains g.obj_excluded m ≡ true → contains_pair g.excluded obj_id m ≡ true

abbrev pub Extends : List (ℕ × ℕ) → List (ℕ × ℕ) → Type 0
Extends ps qs = (o m : ℕ) → contains_pair ps o m ≡ true → contains_pair qs o m ≡ true

pub exclude_members-Covered :
    (obj_id : ℕ) (ms : List ℕ) (g : Groups)
    → Covered obj_id g
    → Covered obj_id (exclude_members obj_id ms g)
unfolding exclude_members
exclude_members-Covered obj_id [] g c = c
exclude_members-Covered obj_id (x ∷ ms) g c =
    exclude_members-Covered obj_id ms _
      (record { covered = λ m h. unfold contains contains_pair in ground (arith, c.covered m) })

pub exclude_members-Extends :
    (obj_id : ℕ) (ms : List ℕ) (g : Groups)
    → Extends g.excluded (exclude_members obj_id ms g).excluded
unfolding exclude_members
exclude_members-Extends obj_id [] g o m h = h
exclude_members-Extends obj_id (x ∷ ms) g o m h =
    exclude_members-Extends obj_id ms _ o m (unfold contains_pair in ground arith)

pub exclude_group-Covered :
    (obj_id : ℕ) (group : ComdatGroup) (g : Groups)
    → Covered obj_id g
    → Covered obj_id (exclude_group obj_id group g)
unfolding exclude_group
exclude_group-Covered obj_id group g c = elim (Bool-cases (is_empty group.signature)) [
  | inl e ↦ simp (e) c
  | inr e ↦ elim (Bool-cases (peony.Link.Resolver.contains_name g.seen group.signature)) [
    | inl s ↦ simp (e, s) (exclude_members-Covered obj_id group.members g c)
    | inr s ↦ simp (e, s) (record { covered = c.covered })
  ]
]

pub exclude_group-Extends :
    (obj_id : ℕ) (group : ComdatGroup) (g : Groups)
    → Extends g.excluded (exclude_group obj_id group g).excluded
unfolding exclude_group
exclude_group-Extends obj_id group g o m h =
    ground (arith, exclude_members-Extends obj_id group.members g o m)

pub exclude_groups-Covered :
    (obj_id : ℕ) (groups : List ComdatGroup) (g : Groups)
    → Covered obj_id g
    → Covered obj_id (exclude_groups obj_id groups g)
unfolding exclude_groups
exclude_groups-Covered obj_id [] g c = c
exclude_groups-Covered obj_id (group ∷ groups) g c =
    exclude_groups-Covered obj_id groups (exclude_group obj_id group g)
      (exclude_group-Covered obj_id group g c)

pub exclude_groups-Extends :
    (obj_id : ℕ) (groups : List ComdatGroup) (g : Groups)
    → Extends g.excluded (exclude_groups obj_id groups g).excluded
unfolding exclude_groups
exclude_groups-Extends obj_id [] g o m h = h
exclude_groups-Extends obj_id (group ∷ groups) g o m h =
    exclude_groups-Extends obj_id groups (exclude_group obj_id group g) o m
      (exclude_group-Extends obj_id group g o m h)
