-- ===== src/Gc/Traversal/Marks.antt =====
-- Every operation of the traversal (peony-layout/src/gc.rs) keeps the invariant of the mark phase.
use peony.Base.{
  ℕ, zero, suc, ◌≡◌, refl, sym, subst, ◌⊎◌, ◌↔◌, inl, inr, List, [], ◌∷◌, none, some, if◌then◌else◌,
  Option-cases, Mem, Mem-append_left, Mem-append_right, Mem-split,
}
use peony.Gc.Live.{LiveSections, insert}
use peony.Gc.Targets.{GcTargetMaps}
use peony.Gc.Traversal.{
  GcWorkItem, GcRoot, GcTraversal, key_of, item_for_key, collect_all, insert_key, insert_keys,
  insert_known_root, seed, visit, drain_serial_stack, drain_parallel_level, push_item,
}
use peony.Gc.Traversal.Kept.{Inv, IsDue, Inv-insert, item_for_key-key_of}
use peony.Gc.Traversal.Spec.{edge, targets_of, starts_of}
use peony.Object.{InputObject}

module _ (objects : List InputObject) (targets : GcTargetMaps) (starts : List (ℕ × ℕ)) where
  pub record Good (pending : List (ℕ × ℕ)) (t : GcTraversal) : Type 0 where
    pub same_objects : t.objects ≡ objects
    pub same_targets : t.targets ≡ targets
    pub inv : Inv objects targets starts pending t.live t.frontier

  insert_key-Good :
      {k : ℕ × ℕ} {pending : List (ℕ × ℕ)} {t : GcTraversal}
      → Good (k ∷ pending) t
      → Good pending (insert_key t k)
  unfolding insert_key
  insert_key-Good {k} {pending} {t} g = record {
    same_objects = g.same_objects;
    same_targets = g.same_targets;
    inv = rw g.same_objects (Inv-insert objects targets starts g.inv);
  }

  insert_keys-Good : (ks : List (ℕ × ℕ)) {t : GcTraversal} → Good ks t → Good [] (insert_keys t ks)
  unfolding insert_keys
  insert_keys-Good [] g = g
  insert_keys-Good (k ∷ ks) g = insert_keys-Good ks (insert_key-Good g)

  -- Items leave the frontier, and the keys that they refer to wait.
  Inv-take :
      {live : LiveSections} {frontier rest : List GcWorkItem} (keys : List (ℕ × ℕ))
      → ((item : GcWorkItem)
          → Mem item frontier
          → Mem item rest ⊎ ((j : ℕ × ℕ) → Mem j (targets_of objects targets item) → Mem j keys))
      → ((item : GcWorkItem) → Mem item rest → Mem item frontier)
      → ((j : ℕ × ℕ)
          → Mem j keys
          → (item : GcWorkItem) × Mem item frontier × Mem j (targets_of objects targets item))
      → Inv objects targets starts [] live frontier
      → Inv objects targets starts keys live rest
  Inv-take {live} keys taken stays comes i =
      let settle : (j : ℕ × ℕ)
          → IsDue objects targets starts [] live j
          → IsDue objects targets starts keys live j =
        λ j. elim [ inl c ↦ inl c | inr m ↦ absurd m ] in
      record {
        range = i.range;
        sound = i.sound;
        due = λ j m f.
            let (item, here, refers) = comes j m in
            let (reach, there) = i.queued item here in edge reach there refers f;
        queued = λ item m. i.queued item (stays item m);
        begun = λ j m f. settle j (i.begun j m f);
        closed = λ j item c e. elim (i.closed j item c e) [
          | inl m ↦ elim (taken item m) [ inl m' ↦ inl m' | inr all ↦ inr (λ x n f. inr (all x n)) ]
          | inr done ↦ inr (λ x m f. settle x (done x m f))
        ];
      }

  -- The popped item's keys, and those of no other item.
  visit-Good :
      (t : GcTraversal) (item : GcWorkItem) (rest : List GcWorkItem)
      → t.frontier ≡ item ∷ rest
      → Good [] t
      → Good [] (visit t item rest)
  unfolding visit
  visit-Good t item rest e g = insert_keys-Good _ (record {
    same_objects = g.same_objects;
    same_targets = g.same_targets;
    inv =
        rw (g.same_objects, g.same_targets)
          (Inv-take (targets_of objects targets item)
            (λ x. elim [ inl same ↦ inr (λ j m. rw (sym same) m) | inr m ↦ inl m ]) (λ x m. inr m)
            (λ j m. (item, inl refl, m)) (subst (Inv objects targets starts [] t.live) e g.inv));
  })

  -- The keys found in a level are those that its items refer to.
  collect_all-from :
      (items : List GcWorkItem) (j : ℕ × ℕ)
      → Mem j (collect_all objects targets items).0
      → (item : GcWorkItem) × Mem item items × Mem j (targets_of objects targets item)
  unfolding collect_all
  collect_all-from [] j m = absurd m
  collect_all-from (item ∷ items) j m =
      elim (Mem-split j (targets_of objects targets item) (collect_all objects targets items).0 m) [
        | inl here ↦ (item, inl refl, here)
        | inr later ↦ let (x, n, refers) = collect_all-from items j later in (x, inr n, refers)
      ]

  collect_all-of :
      (items : List GcWorkItem) (item : GcWorkItem) (j : ℕ × ℕ)
      → Mem item items
      → Mem j (targets_of objects targets item)
      → Mem j (collect_all objects targets items).0
  unfolding collect_all
  collect_all-of [] item j n m = absurd n
  collect_all-of (x ∷ items) item j (inl e) m =
      Mem-append_left j (targets_of objects targets x) (collect_all objects targets items).0
        (subst (λ y. Mem j (targets_of objects targets y)) e m)
  collect_all-of (x ∷ items) item j (inr n) m =
      Mem-append_right j (targets_of objects targets x) (collect_all objects targets items).0
        (collect_all-of items item j n m)

  starts_none :
      (root : GcRoot) (roots : List GcRoot)
      → item_for_key objects root.key ≡ none
      → starts_of objects (root ∷ roots) ≡ starts_of objects roots
  unfolding starts_of
  starts_none root roots e = rw (e, starts_of) refl

  starts_some :
      (root : GcRoot) (roots : List GcRoot) (item : GcWorkItem)
      → item_for_key objects root.key ≡ some item
      → starts_of objects (root ∷ roots) ≡ root.key ∷ starts_of objects roots
  unfolding starts_of
  starts_some root roots item e = rw (e, starts_of) refl

  insert_known_root-Good :
      {pending : List (ℕ × ℕ)} {t : GcTraversal} (k : ℕ × ℕ) (item : GcWorkItem)
      → item_for_key objects k ≡ some item
      → Good (k ∷ pending) t
      → Good pending (insert_known_root t item)
  unfolding insert_known_root
  insert_known_root-Good {pending} {t} k item e g =
      let same = item_for_key-key_of objects k item e in
      let there : item_for_key objects (key_of item) ≡ some item =
        subst (λ x. item_for_key objects x ≡ some item) (sym same) e in
      let due =
        subst (λ x. Inv objects targets starts (x ∷ pending) t.live t.frontier) (sym same) g.inv in
      record {
        same_objects = g.same_objects;
        same_targets = g.same_targets;
        inv =
            subst
              (λ o.
                Inv objects targets starts pending (insert t.live (key_of item)).1
                  (if (insert t.live (key_of item)).0 then push_item o t.frontier else t.frontier))
              there (Inv-insert objects targets starts due);
      }

  pub seed-Good :
      (roots : List GcRoot) {t : GcTraversal}
      → Good (starts_of objects roots) t
      → Good [] (seed t roots)
  unfolding seed starts_of
  seed-Good [] g = g
  seed-Good (root ∷ roots) {t} g = elim (Option-cases (item_for_key objects root.key)) [
    | inl e ↦
        rw (g.same_objects, e, seed)
          (seed-Good roots (subst (λ p. Good p t) (starts_none root roots e) g))
    | inr (item, e) ↦
        rw (g.same_objects, e, seed)
          (seed-Good roots (
            insert_known_root-Good root.key item e
              (subst (λ p. Good p t) (starts_some root roots item e) g)))
  ]

  module _ (reached : List GcWorkItem → List GcWorkItem)
      (all : (f : List GcWorkItem) (x : GcWorkItem) → Mem x (reached f) ↔ Mem x f) where
    pub level-Good : (t : GcTraversal) → Good [] t → Good [] (drain_parallel_level reached t)
    unfolding drain_parallel_level
    level-Good t g = insert_keys-Good _ (record {
      same_objects = g.same_objects;
      same_targets = g.same_targets;
      inv =
          rw (g.same_objects, g.same_targets)
            (Inv-take (collect_all objects targets (reached t.frontier)).0
              (λ x m. inr (λ j. collect_all-of (reached t.frontier) x j ((all t.frontier x).1 m)))
              (λ x m. absurd m)
              (λ j m.
                let (x, n, refers) = collect_all-from (reached t.frontier) j m in
                (x, (all t.frontier x).0 n, refers))
              g.inv);
    })

  pub drain-Good : (fuel : ℕ) (t : GcTraversal) → Good [] t → Good [] (drain_serial_stack fuel t)
  unfolding drain_serial_stack
  drain-Good zero t g = g
  drain-Good (suc fuel) t g = go t.frontier refl (drain-Good fuel)
    where
      go :
          (f : List GcWorkItem)
          → t.frontier ≡ f
          → ((t' : GcTraversal) → Good [] t' → Good [] (drain_serial_stack fuel t'))
          → Good [] (drain_serial_stack (suc fuel) t)
      go [] e rest = rw (e, drain_serial_stack) g
      go (item ∷ items) e rest = rw (e, drain_serial_stack) (rest _ (visit-Good t item items e g))
