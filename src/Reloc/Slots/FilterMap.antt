-- ===== src/Reloc/Slots/FilterMap.antt =====
-- Laws of `filter_map`.
use peony.Base.{
  ◌≡◌, refl, sym, ◌∙◌, ap, inl, inr, List, [], ◌∷◌, ◌++◌, Option, none, some, ◌>>=◌, Option-cases,
}
use peony.Reloc.Slots.{filter_map}

-- The result of one element in front of the others.
abbrev pub cons_if {ℓ} : {A : Type ℓ} → Option A → List A → List A
cons_if none ys = ys
cons_if (some y) ys = y ∷ ys

cons_if-append {ℓ} :
    {A : Type ℓ} (o : Option A) (xs ys : List A) → cons_if o (xs ++ ys) ≡ cons_if o xs ++ ys
cons_if-append none xs ys = refl
cons_if-append (some x) xs ys = refl

module _ {ℓ κ} {A : Type ℓ} {B : Type κ} where
  pub filter_map-cons :
      (f : A → Option B) (x : A) (xs : List A)
      → filter_map f (x ∷ xs) ≡ cons_if (f x) (filter_map f xs)
  filter_map-cons f x xs = elim (Option-cases (f x)) [
    | inl e ↦ rw (e, filter_map) refl
    | inr (y, e) ↦ rw (e, filter_map) refl
  ]

  pub filter_map-append :
      (f : A → Option B) (xs ys : List A)
      → filter_map f (xs ++ ys) ≡ filter_map f xs ++ filter_map f ys
  filter_map-append f [] ys = refl
  filter_map-append f (x ∷ xs) ys =
      filter_map-cons f x (xs ++ ys)
      ∙ ap (cons_if (f x)) (filter_map-append f xs ys)
      ∙ cons_if-append (f x) (filter_map f xs) (filter_map f ys)
      ∙ ap (λ zs. zs ++ filter_map f ys) (sym (filter_map-cons f x xs))

  pub filter_map-same :
      (f g : A → Option B) (xs : List A) → ((x : A) → f x ≡ g x) → filter_map f xs ≡ filter_map g xs
  filter_map-same f g [] same = refl
  filter_map-same f g (x ∷ xs) same =
      filter_map-cons f x xs
      ∙ ap (λ o. cons_if o (filter_map f xs)) (same x)
      ∙ ap (cons_if (g x)) (filter_map-same f g xs same)
      ∙ sym (filter_map-cons g x xs)

  pub filter_map-none :
      (f : A → Option B) (xs : List A) → ((x : A) → f x ≡ none) → filter_map f xs ≡ []
  filter_map-none f [] same = refl
  filter_map-none f (x ∷ xs) same =
      filter_map-cons f x xs
      ∙ ap (λ o. cons_if o (filter_map f xs)) (same x)
      ∙ filter_map-none f xs same

cons_if-filter_map {κ μ} :
    {B : Type κ} {C : Type μ} (p : B → Option C) (o : Option B) (ys : List B)
    → filter_map p (cons_if o ys) ≡ cons_if (o >>= p) (filter_map p ys)
cons_if-filter_map p none ys = refl
cons_if-filter_map p (some y) ys = filter_map-cons p y ys

module _ {ℓ κ μ} {A : Type ℓ} {B : Type κ} {C : Type μ} where
  -- Two filters one after the other are one.
  pub filter_map-filter_map :
      (f : A → Option B) (p : B → Option C) (xs : List A)
      → filter_map p (filter_map f xs) ≡ filter_map (λ x. f x >>= p) xs
  filter_map-filter_map f p [] = refl
  filter_map-filter_map f p (x ∷ xs) =
      ap (filter_map p) (filter_map-cons f x xs)
      ∙ cons_if-filter_map p (f x) (filter_map f xs)
      ∙ ap (cons_if (f x >>= p)) (filter_map-filter_map f p xs)
      ∙ sym (filter_map-cons (λ y. f y >>= p) x xs)
