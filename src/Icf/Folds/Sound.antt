-- ===== src/Icf/Folds/Sound.antt =====
-- What the sections that are folded (peony-layout/src/icf.rs) have in common.
use peony.Base.{
  ℕ, suc, ◌+◌, ◌≡◌, refl, sym, ◌∙◌, ap, subst, inl, inr, Bool, true, false, ◌||◌, not, List, [],
  ◌∷◌, Option, none, some, none-ne-some, some-injective, ◌>>=◌, bind_some, if◌then◌else◌, arith,
  Bool-cases, Option-cases, get_elem?, length, ◌%◌, ◌^◌,
}
use peony.Base.Bytes.{bytes_eq, bytes_eq_iff}
use peony.Base.Map.{get, insert, get-insert, pair_eq, pair_beq, pair_beq_iff}
use peony.Icf.Key.{content_digest, FoldKey, RelocKey, fold_key_eq, fold_key_beq, fold_key_beq_iff}
use peony.Icf.Taint.{AddrTaint, address_taint, defines_address_significant, is_empty_name}
use peony.Icf.Folds.{
  key_relocs, is_text, fold_key_for, FoldState, fold_onto, fold_section, fold_sections,
  fold_objects, compute_fold_map,
}
use peony.Object.{InputObject, InputSection}

both_pass {ℓ} :
    {A : Type ℓ} (b c : Bool) (o : Option A) (a : A)
    → (if b then none else if c then none else o) ≡ some a
    → (b ≡ false) × (c ≡ false) × (o ≡ some a)
both_pass true c o a e = absurd (none-ne-some a e)
both_pass false true o a e = absurd (none-ne-some a e)
both_pass false false o a e = (refl, refl, e)

module _ (objects : List InputObject) (taint : AddrTaint) where
  -- The section at an object and a position, with its index and its key.
  pub record Keyed (o p i : ℕ) (key : FoldKey) : Type 0 where
    pub obj : InputObject
    pub sec : InputSection
    pub object_at : get_elem? objects o ≡ some obj
    pub section_at : get_elem? obj.sections p ≡ some sec
    pub index_of : i ≡ sec.index
    pub key_of : fold_key_for obj o p taint ≡ some key

  -- Two sections with one key and the same bytes.
  pub record IsFold (d c : ℕ × ℕ) : Type 0 where
    pub key : FoldKey
    pub pos : ℕ
    pub canonical_pos : ℕ
    pub here : Keyed d.0 pos d.1 key
    pub there : Keyed c.0 canonical_pos c.1 key
    pub same_bytes : here.sec.bytes ≡ there.sec.bytes

  record Inv (s : FoldState) : Type 0 where
    canon : (key : FoldKey) (o p i : ℕ) → get key s.canonical ≡ some (o, p, i) → Keyed o p i key
    folded : (d c : ℕ × ℕ) → get d s.folds ≡ some c → IsFold d c

  abbrev KeyedAt : ℕ × ℕ × ℕ → FoldKey → Type 0
  KeyedAt (o, p, i) key = Keyed o p i key

  -- Reading a map after an insertion: the new entry, or an old one.
  insert-IsFold :
      (m : List ((ℕ × ℕ) × (ℕ × ℕ))) (k v d c : ℕ × ℕ)
      → IsFold k v
      → ((x y : ℕ × ℕ) → get x m ≡ some y → IsFold x y)
      → get d (insert k v m) ≡ some c
      → IsFold d c
  insert-IsFold m k v d c fresh old e =
      let read = get-insert k d v m in
      elim (Bool-cases (pair_beq k d)) [
        | inl h ↦
            let value : v ≡ c =
              some-injective v c (sym (ap (λ b. if b then some v else get d m) h) ∙ sym read ∙ e) in
            subst (λ x. IsFold x c) ((pair_beq_iff k d).0 h) (subst (IsFold k) value fresh)
        | inr h ↦ old d c (sym (ap (λ b. if b then some v else get d m) h) ∙ sym read ∙ e)
      ]

  insert-Keyed :
      (m : List (FoldKey × (ℕ × ℕ × ℕ))) (k : FoldKey) (v : ℕ × ℕ × ℕ) (j : FoldKey) (t : ℕ × ℕ × ℕ)
      → KeyedAt v k
      → ((x : FoldKey) (y : ℕ × ℕ × ℕ) → get x m ≡ some y → KeyedAt y x)
      → get j (insert k v m) ≡ some t
      → KeyedAt t j
  insert-Keyed m k v j t fresh old e =
      let read = get-insert k j v m in
      elim (Bool-cases (fold_key_beq k j)) [
        | inl h ↦
            let value : v ≡ t =
              some-injective v t (sym (ap (λ b. if b then some v else get j m) h) ∙ sym read ∙ e) in
            subst (KeyedAt t) ((fold_key_beq_iff k j).0 h) (subst (λ y. KeyedAt y k) value fresh)
        | inr h ↦ old j t (sym (ap (λ b. if b then some v else get j m) h) ∙ sym read ∙ e)
      ]

  fold_onto-Inv :
      {s : FoldState} {key : FoldKey} (o p co cp ci : ℕ) (sec : InputSection)
      → (here : Keyed o p sec.index key) → here.sec ≡ sec
      → Keyed co cp ci key
      → Inv s
      → Inv (fold_onto objects taint s o sec (co, cp, ci))
  unfolding fold_onto
  fold_onto-Inv {s} {key} o p co cp ci sec here same there inv =
      elim (Bool-cases (bytes_eq sec.bytes there.sec.bytes)) [
        | inl h ↦
            rw (there.object_at, there.section_at, h, fold_onto)
              (record {
                canon = inv.canon;
                folded = λ d c e.
                    insert-IsFold s.folds (o, sec.index) (co, ci) d c
                      (record {
                        key = key;
                        pos = p;
                        canonical_pos = cp;
                        here = here;
                        there = there;
                        same_bytes =
                            ap (λ x. x.bytes) same ∙ (bytes_eq_iff sec.bytes there.sec.bytes).0 h;
                      })
                      inv.folded e;
              })
        | inr h ↦ rw (there.object_at, there.section_at, h, fold_onto) inv
      ]

  fold_section-Inv :
      {s : FoldState} (obj : InputObject) (o p : ℕ) (sec : InputSection)
      → get_elem? objects o ≡ some obj
      → get_elem? obj.sections p ≡ some sec
      → Inv s
      → Inv (fold_section objects taint s obj o p sec)
  unfolding fold_section
  fold_section-Inv {s} obj o p sec a b inv = go (fold_key_for obj o p taint) refl
    where
      go :
          (k : Option FoldKey)
          → fold_key_for obj o p taint ≡ k
          → Inv (fold_section objects taint s obj o p sec)
      go none e = rw (e, fold_section) inv
      go (some key) e =
          let here : Keyed o p sec.index key = record {
            obj = obj;
            sec = sec;
            object_at = a;
            section_at = b;
            index_of = refl;
            key_of = e;
          } in
          elim (Option-cases (get key s.canonical)) [
            | inl f ↦
                rw (e, f, fold_section)
                  (record {
                    canon = λ j x y z h.
                        insert-Keyed s.canonical key (o, p, sec.index) j (x, y, z) here
                          (λ k t. inv.canon k t.0 t.1 t.2) h;
                    folded = inv.folded;
                  })
            | inr ((co, cp, ci), f) ↦
                rw (e, f, fold_section)
                  (fold_onto-Inv o p co cp ci sec here refl (inv.canon key co cp ci f) inv)
          ]

  fold_sections-Inv :
      (obj : InputObject) (o p : ℕ) (secs : List InputSection) (s : FoldState)
      → get_elem? objects o ≡ some obj
      → ((i j : ℕ) (sec : InputSection)
          → j ≡ p + i
          → get_elem? secs i ≡ some sec
          → get_elem? obj.sections j ≡ some sec)
      → Inv s
      → Inv (fold_sections objects taint s obj o p secs)
  unfolding fold_sections
  fold_sections-Inv obj o p [] s a rest inv = inv
  fold_sections-Inv obj o p (sec ∷ secs) s a rest inv =
      fold_sections-Inv obj o (p + 1) secs (fold_section objects taint s obj o p sec) a
        (λ i j x e. rest (suc i) j x (omega arith))
        (fold_section-Inv obj o p sec a (rest 0 p sec (omega arith) refl) inv)

  fold_objects-Inv :
      (o : ℕ) (objs : List InputObject) (s : FoldState)
      → ((i j : ℕ) (obj : InputObject)
          → j ≡ o + i
          → get_elem? objs i ≡ some obj
          → get_elem? objects j ≡ some obj)
      → Inv s
      → Inv (fold_objects objects taint s o objs)
  unfolding fold_objects
  fold_objects-Inv o [] s rest inv = inv
  fold_objects-Inv o (obj ∷ objs) s rest inv =
      fold_objects-Inv (o + 1) objs (fold_sections objects taint s obj o 0 obj.sections)
        (λ i j x e. rest (suc i) j x (omega arith))
        (fold_sections-Inv obj o 0 obj.sections s (rest 0 o obj (omega arith) refl)
          (λ i j x e.
            let same : i ≡ j = omega arith in
            λ f. subst (λ k. get_elem? obj.sections k ≡ some x) same f)
          inv)

  -- What a key says of its section.
  pub record Foldable (obj : InputObject) (o p : ℕ) (sec : InputSection) (key : FoldKey)
      : Type 0 where
    pub text_kind : is_text sec.kind ≡ true
    pub insignificant : defines_address_significant obj o p taint ≡ false
    pub flags_of : key.flags ≡ sec.flags
    pub relocs_of : key_relocs obj sec.relocs ≡ some key.relocs

  pub fold_key_for-Foldable :
      (obj : InputObject) (o p : ℕ) (sec : InputSection) (key : FoldKey)
      → get_elem? obj.sections p ≡ some sec
      → fold_key_for obj o p taint ≡ some key
      → Foldable obj o p sec key
  unfolding fold_key_for
  fold_key_for-Foldable obj o p sec key a e =
      let (sec', there, rest) = bind_some (get_elem? obj.sections p) body key e in
      let same : sec' ≡ sec = some-injective sec' sec (sym there ∙ a) in
      let (kind, insignificant, made) =
        both_pass (not (is_text sec.kind) || is_empty_name sec.bytes)
          (defines_address_significant obj o p taint) (key_relocs obj sec.relocs >>= whole sec) key
          (subst (λ x. body x ≡ some key) same rest) in
      let (relocs, found, last) = bind_some (key_relocs obj sec.relocs) (whole sec) key made in
      let built = some-injective (made_of sec relocs) key last in
      record {
        text_kind = ground (arith, kind);
        insignificant = insignificant;
        flags_of = sym (ap (λ k. k.flags) built);
        relocs_of = found ∙ ap (λ k. some k.relocs) built;
      }
    where
      made_of : InputSection → List RelocKey → FoldKey
      made_of x relocs = record {
        flags = x.flags;
        digest = content_digest x.bytes;
        len = length x.bytes % 2 ^ 32;
        relocs = relocs;
      }

      whole : InputSection → List RelocKey → Option FoldKey
      whole x relocs = some (made_of x relocs)

      body : InputSection → Option FoldKey
      body x =
          if not (is_text x.kind) || is_empty_name x.bytes
          then none
          else if defines_address_significant obj o p taint
          then none
          else (key_relocs obj x.relocs >>= whole x)

-- The sections of a fold.
pub compute_fold_map-IsFold :
    (objects : List InputObject) (d c : ℕ × ℕ)
    → get d (compute_fold_map objects) ≡ some c
    → IsFold objects (address_taint objects) d c
unfolding compute_fold_map get
compute_fold_map-IsFold objects d c e =
    let taint = address_taint objects in
    let all =
      fold_objects-Inv objects taint 0 objects (record { canonical = []; folds = [] })
        (λ i j x e.
          let same : i ≡ j = omega arith in λ f. subst (λ k. get_elem? objects k ≡ some x) same f)
        (record {
          canon = λ key o p i f. absurd (none-ne-some _ f);
          folded = λ d c f. absurd (none-ne-some _ f);
        }) in
    all.folded d c e
