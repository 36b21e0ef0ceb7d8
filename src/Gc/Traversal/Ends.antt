-- ===== src/Gc/Traversal/Ends.antt =====
-- The loops of the traversal (peony-layout/src/gc.rs) end.
use peony.Base.{
  ℕ, zero, suc, ◌+◌, ◌≤◌, ◌<◌, ◌≡◌, refl, ◌∙◌, ap, inl, inr, List, [], ◌∷◌, Option, none, some,
  arith, if◌then◌else◌, ◌==◌, Bool-cases, length,
}
use peony.Gc.Live.{insert}
use peony.Gc.Live.Free.{free, insert-free}
use peony.Gc.Traversal.{
  GcWorkItem, GcTraversal, item_for_key, insert_key, insert_keys, visit, drain_serial_stack,
  drain_parallel_level, rounds, todo, parallelism, push_item,
}

length-push_item :
    (o : Option GcWorkItem) (f : List GcWorkItem) → length (push_item o f) ≤ length f + 1
length-push_item none f = omega arith
length-push_item (some item) f = omega arith

todo-insert_key : (t : GcTraversal) (k : ℕ × ℕ) → todo (insert_key t k) ≤ todo t
unfolding todo insert_key
todo-insert_key t k =
    let used = insert-free t.live k in
    let pushed = length-push_item (item_for_key t.objects k) t.frontier in
    elim (Bool-cases (insert t.live k).0) [
      | inl h ↦
          let one : free t.live ≡ free (insert t.live k).1 + 1 =
            used ∙ ap (λ b. free (insert t.live k).1 + (if b then 1 else 0)) h in
          rw h (omega arith)
      | inr h ↦
          let none_used : free t.live ≡ free (insert t.live k).1 + 0 =
            used ∙ ap (λ b. free (insert t.live k).1 + (if b then 1 else 0)) h in
          rw h (omega arith)
    ]

todo-insert_keys : (t : GcTraversal) (ks : List (ℕ × ℕ)) → todo (insert_keys t ks) ≤ todo t
unfolding insert_keys
todo-insert_keys t [] = omega arith
todo-insert_keys t (k ∷ ks) =
    omega (arith, todo-insert_keys (insert_key t k) ks, todo-insert_key t k)

todo-visit :
    (t : GcTraversal) (item : GcWorkItem) (rest : List GcWorkItem)
    → t.frontier ≡ item ∷ rest
    → todo (visit t item rest) < todo t
unfolding visit todo
todo-visit t item rest e =
    let less : todo (visit t item rest) ≤ free t.live + length rest = todo-insert_keys _ _ in
    let size : length t.frontier ≡ suc (length rest) = ap length e in omega arith

some_todo :
    (t : GcTraversal) (item : GcWorkItem) (rest : List GcWorkItem)
    → t.frontier ≡ item ∷ rest
    → 0 < todo t
unfolding todo
some_todo t item rest e =
    let size : length t.frontier ≡ suc (length rest) = ap length e in omega arith

-- With the fuel `todo t` the serial drain empties the frontier.
drain-ends :
    (fuel : ℕ) (t : GcTraversal) → todo t ≤ fuel → (drain_serial_stack fuel t).frontier ≡ []
unfolding drain_serial_stack
drain-ends zero t h = go t.frontier refl
  where
    go : (f : List GcWorkItem) → t.frontier ≡ f → t.frontier ≡ []
    go [] e = e
    go (item ∷ rest) e = absurd (omega (arith, some_todo t item rest e))
drain-ends (suc fuel) t h = go t.frontier refl (drain-ends fuel)
  where
    go :
        (f : List GcWorkItem)
        → t.frontier ≡ f
        → ((t' : GcTraversal) → todo t' ≤ fuel → (drain_serial_stack fuel t').frontier ≡ [])
        → (drain_serial_stack (suc fuel) t).frontier ≡ []
    go [] e rest = rw (e, drain_serial_stack) e
    go (item ∷ items) e rest =
        rw (e, drain_serial_stack)
          (rest (visit t item items) (omega (arith, todo-visit t item items e)))

drain_nil : (fuel : ℕ) (t : GcTraversal) → t.frontier ≡ [] → drain_serial_stack (suc fuel) t ≡ t
unfolding drain_serial_stack
drain_nil fuel t e =
    ap
      (λ f. elim f as (λ _. GcTraversal) [
        | [] ↦ t
        | item ∷ rest ↦ drain_serial_stack fuel (visit t item rest)
      ])
      e

drain_cons :
    (fuel : ℕ) (t : GcTraversal) (item : GcWorkItem) (rest : List GcWorkItem)
    → t.frontier ≡ item ∷ rest
    → drain_serial_stack (suc fuel) t ≡ drain_serial_stack fuel (visit t item rest)
unfolding drain_serial_stack
drain_cons fuel t item rest e =
    ap
      (λ f. elim f as (λ _. GcTraversal) [
        | [] ↦ t
        | i ∷ is ↦ drain_serial_stack fuel (visit t i is)
      ])
      e

drain-todo : (fuel : ℕ) (t : GcTraversal) → todo (drain_serial_stack fuel t) ≤ todo t
unfolding drain_serial_stack
drain-todo zero t = omega arith
drain-todo (suc fuel) t = go t.frontier refl (drain-todo fuel)
  where
    go :
        (f : List GcWorkItem)
        → t.frontier ≡ f
        → ((t' : GcTraversal) → todo (drain_serial_stack fuel t') ≤ todo t')
        → todo (drain_serial_stack (suc fuel) t) ≤ todo t
    go [] e rest = rw (drain_nil fuel t e) (omega arith)
    go (item ∷ items) e rest =
        rw (drain_cons fuel t item items e)
          (omega (arith, rest (visit t item items), todo-visit t item items e))

drain-less :
    (fuel : ℕ) (t : GcTraversal) (item : GcWorkItem) (rest : List GcWorkItem)
    → t.frontier ≡ item ∷ rest
    → 0 < fuel
    → todo (drain_serial_stack fuel t) < todo t
unfolding drain_serial_stack
drain-less zero t item rest e h = absurd (omega arith)
drain-less (suc fuel) t item rest e h =
    rw (drain_cons fuel t item rest e)
      (omega (arith, drain-todo fuel (visit t item rest), todo-visit t item rest e))

level-less :
    (reached : List GcWorkItem → List GcWorkItem) (t : GcTraversal) (item : GcWorkItem)
    (rest : List GcWorkItem)
    → t.frontier ≡ item ∷ rest
    → todo (drain_parallel_level reached t) < todo t
unfolding drain_parallel_level todo
level-less reached t item rest e =
    let less : todo (drain_parallel_level reached t) ≤ free t.live + 0 = todo-insert_keys _ _ in
    let size : length t.frontier ≡ suc (length rest) = ap length e in omega arith

module _ (max_threads : ℕ) (reached : List GcWorkItem → List GcWorkItem) where
  -- One round of `rounds`.
  abbrev pub round : GcTraversal → GcTraversal
  round t =
      if parallelism max_threads (length t.frontier) == 1
      then drain_serial_stack (todo t) t
      else drain_parallel_level reached t

  todo-round :
      (t : GcTraversal) (item : GcWorkItem) (rest : List GcWorkItem)
      → t.frontier ≡ item ∷ rest
      → todo (round t) < todo t
  todo-round t item rest e = elim (Bool-cases (parallelism max_threads (length t.frontier) == 1)) [
    | inl h ↦ rw h (drain-less (todo t) t item rest e (some_todo t item rest e))
    | inr h ↦ rw h (level-less reached t item rest e)
  ]

  -- With at least the fuel `todo t` the loop of `run` empties the frontier, for any number of threads and any order
  -- in which they reach the items of a level, and from any state.
  pub rounds-ends :
      (fuel : ℕ) (t : GcTraversal)
      → todo t ≤ fuel
      → (rounds max_threads reached fuel t).frontier ≡ []
  unfolding rounds
  rounds-ends zero t h = go t.frontier refl
    where
      go : (f : List GcWorkItem) → t.frontier ≡ f → t.frontier ≡ []
      go [] e = e
      go (item ∷ rest) e = absurd (omega (arith, some_todo t item rest e))
  rounds-ends (suc fuel) t h = go t.frontier refl (rounds-ends fuel)
    where
      go :
          (f : List GcWorkItem)
          → t.frontier ≡ f
          → ((t' : GcTraversal)
              → todo t' ≤ fuel
              → (rounds max_threads reached fuel t').frontier ≡ [])
          → (rounds max_threads reached (suc fuel) t).frontier ≡ []
      go [] e rest = rw (e, rounds) e
      go (item ∷ items) e rest = rw (e, rounds) (rest _ (omega (arith, todo-round t item items e)))
