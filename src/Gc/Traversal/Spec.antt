-- ===== src/Gc/Traversal/Spec.antt =====
-- What the mark phase of peony-layout/src/gc.rs is to compute: the keys that the relocations reach.
use peony.Base.{ℕ, ◌≡◌, true, List, [], ◌∷◌, none, some, Mem}
use peony.Gc.Live.Start.{fits}
use peony.Gc.Targets.{GcTargetMaps}
use peony.Gc.Traversal.{GcWorkItem, GcRoot, item_for_key, collect_targets}
use peony.Object.{InputObject}

module _ (objects : List InputObject) (targets : GcTargetMaps) where
  -- The keys that the relocations of an item's section refer to.
  abbrev pub targets_of : GcWorkItem → List (ℕ × ℕ)
  targets_of item = (collect_targets objects targets item).0

  -- A key is live if it is one that the traversal starts from, or if a relocation of the section of
  -- a live key refers to it. Keys without a bit do not count.
  pub data Reach (starts : List (ℕ × ℕ)) : ℕ × ℕ → Type 0 where
    start : {k : ℕ × ℕ} → Mem k starts → fits objects k ≡ true → Reach starts k
    edge :
        {k j : ℕ × ℕ} {item : GcWorkItem}
        → Reach starts k
        → item_for_key objects k ≡ some item
        → Mem j (targets_of item)
        → fits objects j ≡ true
        → Reach starts j

-- The keys of the roots that are sections.
unfoldable pub starts_of : List InputObject → List GcRoot → List (ℕ × ℕ)
starts_of objects [] = []
starts_of objects (root ∷ roots) = elim (item_for_key objects root.key) [
  | none ↦ starts_of objects roots
  | some _ ↦ root.key ∷ starts_of objects roots
]
