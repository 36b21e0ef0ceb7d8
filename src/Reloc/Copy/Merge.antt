-- ===== src/Reloc/Copy/Merge.antt =====
-- The merge of the symbols found and their sorting by name (peony-reloc/src/copy.rs) keep the ids,
-- each of them once.
use peony.Base.{
  ℕ, ◌≡◌, refl, sym, ◌∙◌, ap, subst, ◌↔◌, ◌⊎◌, inl, inr, true, true≢false, List, [], ◌∷◌, ◌++◌,
  none, some, arith, Mem, Nodup, Mem-append_left, Mem-append_right, Mem-split, Nodup-push,
  Bool-cases, Option-cases, is_some, ◌==◌,
}
use peony.Base.Bytes.{Bytes}
use peony.Base.Map.{get, insert, nat_eq}
use peony.Reloc.Copy.{
  or_insert, or_insert_all, merge_found, name_le, insert_sorted, sort_by_name, ids,
}

-- The map `out` has a key exactly if `ids` lists it.
get-ids : (id : ℕ) (out : List (ℕ × Bytes)) → (is_some (get id out) ≡ true) ↔ Mem id (ids out)
unfolding get
get-ids id [] = ((λ e. absurd cc), (λ m. absurd m))
get-ids id ((j, v) ∷ out) =
    let more = get-ids id out in
    elim (Bool-cases (j == id)) [
      | inl e ↦ rw e ((λ _. inl (ground (arith, e))), (λ _. refl))
      | inr e ↦ rw e (
        (λ h. inr (more.0 h)),
        (λ m. elim m [ inl q ↦ absurd (ground (arith, e, q)) | inr i ↦ more.1 i ]),
      )
    ]

ids-insert :
    (id : ℕ) (name : Bytes) (out : List (ℕ × Bytes))
    → get id out ≡ none
    → ids (insert id name out) ≡ ids out ++ id ∷ []
unfolding get insert
ids-insert id name [] e = refl
ids-insert id name ((j, v) ∷ out) e = elim (Bool-cases (j == id)) [
  | inl h ↦ absurd (ground (arith, h, e))
  | inr h ↦ rw h (ap (◌∷◌ j) (ids-insert id name out (ground (arith, h, e))))
]

-- Sorting keeps the ids.
Mem-insert_sorted :
    (x : ℕ) (p : ℕ × Bytes) (ps : List (ℕ × Bytes))
    → Mem x (ids (insert_sorted p ps)) ↔ ((x ≡ p.0) ⊎ Mem x (ids ps))
unfolding insert_sorted
Mem-insert_sorted x p [] = ((λ m. m), (λ m. m))
Mem-insert_sorted x p (q ∷ ps) =
    let more = Mem-insert_sorted x p ps in
    elim (Bool-cases (name_le p.1 q.1)) [
      | inl e ↦ rw e ((λ m. m), (λ m. m))
      | inr e ↦ rw e (
        (λ m. elim m [
          | inl h ↦ inr (inl h)
          | inr k ↦ elim (more.0 k) [ inl h ↦ inl h | inr i ↦ inr (inr i) ]
        ]),
        (λ m. elim m [
          | inl h ↦ inr (more.1 (inl h))
          | inr k ↦ elim k [ inl h ↦ inl h | inr i ↦ inr (more.1 (inr i)) ]
        ]),
      )
    ]

Nodup-insert_sorted :
    (p : ℕ × Bytes) (ps : List (ℕ × Bytes))
    → ¬ Mem p.0 (ids ps)
    → Nodup (ids ps)
    → Nodup (ids (insert_sorted p ps))
unfolding insert_sorted
Nodup-insert_sorted p [] h n = (h, tt)
Nodup-insert_sorted p (q ∷ ps) h n = elim (Bool-cases (name_le p.1 q.1)) [
  | inl e ↦ rw e (h, n)
  | inr e ↦ rw e (
    (λ m. elim ((Mem-insert_sorted q.0 p ps).0 m) [ inl k ↦ h (inl (sym k)) | inr i ↦ n.0 i ]),
    Nodup-insert_sorted p ps (λ i. h (inr i)) n.1,
  )
]

pub Mem-sort_by_name :
    (x : ℕ) (ps : List (ℕ × Bytes)) → Mem x (ids (sort_by_name ps)) ↔ Mem x (ids ps)
unfolding sort_by_name
Mem-sort_by_name x [] = ((λ m. m), (λ m. m))
Mem-sort_by_name x (p ∷ ps) =
    let here = Mem-insert_sorted x p (sort_by_name ps) in
    let more = Mem-sort_by_name x ps in
    (
      (λ m. elim (here.0 m) [ inl h ↦ inl h | inr i ↦ inr (more.0 i) ]),
      (λ m. elim m [ inl h ↦ here.1 (inl h) | inr i ↦ here.1 (inr (more.1 i)) ]),
    )

pub Nodup-sort_by_name : (ps : List (ℕ × Bytes)) → Nodup (ids ps) → Nodup (ids (sort_by_name ps))
unfolding sort_by_name
Nodup-sort_by_name [] n = tt
Nodup-sort_by_name (p ∷ ps) n =
    Nodup-insert_sorted p (sort_by_name ps) (λ m. n.0 ((Mem-sort_by_name p.0 ps).0 m))
      (Nodup-sort_by_name ps n.1)

-- A step that keeps the ids apart and adds exactly those of `more`.
abbrev pub Adds : List (ℕ × Bytes) → List (ℕ × Bytes) → List (ℕ × Bytes) → Type 0
Adds out more out' =
    Nodup (ids out') × ((x : ℕ) → Mem x (ids out') ↔ (Mem x (ids out) ⊎ Mem x (ids more)))

or_insert_old :
    (out : List (ℕ × Bytes)) (id : ℕ) (name v : Bytes)
    → get id out ≡ some v
    → or_insert out (id, name) ≡ out
unfolding or_insert
or_insert_old out id name v e = rw (e, or_insert) refl

or_insert_new :
    (out : List (ℕ × Bytes)) (id : ℕ) (name : Bytes)
    → get id out ≡ none
    → or_insert out (id, name) ≡ insert id name out
unfolding or_insert insert
or_insert_new out id name e = rw (e, or_insert) refl

or_insert-Adds :
    (out : List (ℕ × Bytes)) (id : ℕ) (name : Bytes)
    → Nodup (ids out)
    → Adds out ((id, name) ∷ []) (or_insert out (id, name))
or_insert-Adds out id name n = elim (Option-cases (get id out)) [
  | inl e ↦
      let pushed = ids-insert id name out e in
      subst (λ o. Adds out ((id, name) ∷ []) o) (sym (or_insert_new out id name e))
        (
          subst Nodup (sym pushed) (
              Nodup-push (ids out) id n
                (λ m. absurd (true≢false (sym ((get-ids id out).1 m) ∙ ap is_some e)))),
          (λ x.
              subst (λ l. Mem x l ↔ (Mem x (ids out) ⊎ Mem x (id ∷ []))) (sym pushed)
                (
                  (λ m. Mem-split x (ids out) (id ∷ []) m),
                  (λ m. elim m [
                    | inl i ↦ Mem-append_left x (ids out) (id ∷ []) i
                    | inr i ↦ Mem-append_right x (ids out) (id ∷ []) i
                  ]),
                )),
        )
  | inr (v, e) ↦
      subst (λ o. Adds out ((id, name) ∷ []) o) (sym (or_insert_old out id name v e))
        (
          n,
          (λ x. (
            (λ m. inl m),
            (λ m. elim m [
              | inl i ↦ i
              | inr (inl q) ↦
                  subst (λ y. Mem y (ids out)) (sym q) ((get-ids id out).0 (ap is_some e))
              | inr (inr z) ↦ absurd z
            ]),
          )),
        )
]

ids-append : (ps qs : List (ℕ × Bytes)) → ids (ps ++ qs) ≡ ids ps ++ ids qs
ids-append [] qs = refl
ids-append ((id, name) ∷ ps) qs = ap (◌∷◌ id) (ids-append ps qs)

Adds-join :
    (out next last more rest : List (ℕ × Bytes))
    → Adds out more next
    → Adds next rest last
    → Adds out (more ++ rest) last
Adds-join out next last more rest a b = (
  b.0,
  (λ x.
      subst (λ l. Mem x (ids last) ↔ (Mem x (ids out) ⊎ Mem x l)) (sym (ids-append more rest))
        (
          (λ m. elim ((b.1 x).0 m) [
            | inr j ↦ inr (Mem-append_right x (ids more) (ids rest) j)
            | inl i ↦ elim ((a.1 x).0 i) [
              | inl k ↦ inl k
              | inr k ↦ inr (Mem-append_left x (ids more) (ids rest) k)
            ]
          ]),
          (λ m. elim m [
            | inl i ↦ (b.1 x).1 (inl ((a.1 x).1 (inl i)))
            | inr k ↦ elim (Mem-split x (ids more) (ids rest) k) [
              | inl i ↦ (b.1 x).1 (inl ((a.1 x).1 (inr i)))
              | inr j ↦ (b.1 x).1 (inr j)
            ]
          ]),
        )),
)

Adds-refl : (out : List (ℕ × Bytes)) → Nodup (ids out) → Adds out [] out
Adds-refl out n = (n, (λ x. ((λ m. inl m), (λ m. elim m [ inl i ↦ i | inr z ↦ absurd z ]))))

or_insert_all-Adds :
    (out found : List (ℕ × Bytes)) → Nodup (ids out) → Adds out found (or_insert_all out found)
unfolding or_insert_all
or_insert_all-Adds out [] n = Adds-refl out n
or_insert_all-Adds out ((id, name) ∷ found) n =
    let a = or_insert-Adds out id name n in
    let next = or_insert out (id, name) in
    Adds-join out next (or_insert_all next found) ((id, name) ∷ []) found a
      (or_insert_all-Adds next found a.0)

abbrev pub concat : List (List (ℕ × Bytes)) → List (ℕ × Bytes)
concat [] = []
concat (ps ∷ pss) = ps ++ concat pss

pub merge_found-Adds :
    (out : List (ℕ × Bytes)) (pss : List (List (ℕ × Bytes)))
    → Nodup (ids out)
    → Adds out (concat pss) (merge_found out pss)
unfolding merge_found
merge_found-Adds out [] n = Adds-refl out n
merge_found-Adds out (ps ∷ pss) n =
    let a = or_insert_all-Adds out ps n in
    let next = or_insert_all out ps in
    Adds-join out next (merge_found next pss) ps (concat pss) a (merge_found-Adds next pss a.0)
