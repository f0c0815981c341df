-- ===== src/Prelude/Sorted.antt =====
-- A `std::set` as the list of its elements in their order: what is put in is what is in it.
use mathlib.Core.Path.{◌≡◌, refl, sym, subst}
use mathlib.Core.Logic.{◌⊎◌, inl, inr}
use mathlib.Core.Bool.{Bool, false}
use mathlib.Core.List.{List, [], ◌∷◌}
use vca.Prelude.Tests.{Bool-cases, if◌then◌else◌}
use vca.Prelude.Members.{In, here, there}

module _ {ℓ} {A : Type ℓ} where
  -- `insert` of a set by its order.
  unfoldable pub insert_by : (A → A → Bool) → A → List A → List A
  insert_by lt r [] = r ∷ []
  insert_by lt r (k ∷ xs) =
      let rest = insert_by lt r xs in
      if lt r k then r ∷ k ∷ xs else if lt k r then k ∷ rest else k ∷ xs

  unfoldable pub insert_all : (A → A → Bool) → List A → List A → List A
  insert_all lt [] xs = xs
  insert_all lt (r ∷ rs) xs = insert_all lt rs (insert_by lt r xs)

  In-cons : (q k : A) (xs ys : List A) → (In q xs → In q ys) → In q (k ∷ xs) → In q (k ∷ ys)
  In-cons q k xs ys h (here e) = here e
  In-cons q k xs ys h (there m) = there (h m)

  In-uncons : (q k : A) (xs : List A) → In q (k ∷ xs) → (q ≡ k) ⊎ In q xs
  In-uncons q k xs (here e) = inl e
  In-uncons q k xs (there m) = inr m

  In-later :
      (q r k : A) (xs ys : List A)
      → (In q ys → (q ≡ r) ⊎ In q xs)
      → In q (k ∷ ys)
      → (q ≡ r) ⊎ In q (k ∷ xs)
  In-later q r k xs ys h (here e) = inr (here e)
  In-later q r k xs ys h (there m) = elim (h m) [ inl e ↦ inl e | inr n ↦ inr (there n) ]

module _ {ℓ} {A : Type ℓ} (lt : A → A → Bool)
    (antisym : (x y : A) → lt x y ≡ false → lt y x ≡ false → x ≡ y) where
  pub In-insert_by_self : (r : A) (xs : List A) → In r (insert_by lt r xs)
  unfolding insert_by
  In-insert_by_self r [] = here refl
  In-insert_by_self r (k ∷ xs) = elim (Bool-cases (lt r k)) [
    | inl e ↦ rw e (here refl)
    | inr e ↦ elim (Bool-cases (lt k r)) [
      | inl f ↦ rw (e, f) (there (In-insert_by_self r xs))
      | inr f ↦ rw (e, f) (here (antisym r k e f))
    ]
  ]

module _ {ℓ} {A : Type ℓ} (lt : A → A → Bool) where
  pub In-insert_by : (r q : A) (xs : List A) → In q xs → In q (insert_by lt r xs)
  unfolding insert_by
  In-insert_by r q [] m = there m
  In-insert_by r q (k ∷ xs) m = elim (Bool-cases (lt r k)) [
    | inl e ↦ rw e (there m)
    | inr e ↦ elim (Bool-cases (lt k r)) [
      | inl f ↦ rw (e, f) (In-cons q k xs (insert_by lt r xs) (In-insert_by r q xs) m)
      | inr f ↦ rw (e, f) m
    ]
  ]

  pub In-of-insert_by : (r q : A) (xs : List A) → In q (insert_by lt r xs) → (q ≡ r) ⊎ In q xs
  unfolding insert_by
  In-of-insert_by r q [] m = In-uncons q r [] m
  In-of-insert_by r q (k ∷ xs) m = elim (Bool-cases (lt r k)) [
    | inl e ↦ In-uncons q r (k ∷ xs) (rw e at m)
    | inr e ↦ elim (Bool-cases (lt k r)) [
      | inl f ↦ In-later q r k xs (insert_by lt r xs) (In-of-insert_by r q xs) (rw (e, f) at m)
      | inr f ↦ inr (rw (e, f) at m)
    ]
  ]

  pub In-of-insert_all :
      (rs : List A) (q : A) (xs : List A) → In q (insert_all lt rs xs) → In q rs ⊎ In q xs
  unfolding insert_all
  In-of-insert_all [] q xs m = inr m
  In-of-insert_all (r ∷ rs) q xs m = elim (In-of-insert_all rs q (insert_by lt r xs) m) [
    | inl n ↦ inl (there n)
    | inr n ↦ elim (In-of-insert_by r q xs n) [ inl e ↦ inl (here e) | inr k ↦ inr k ]
  ]

  pub In-insert_all_right :
      (rs : List A) (q : A) (xs : List A) → In q xs → In q (insert_all lt rs xs)
  unfolding insert_all
  In-insert_all_right [] q xs m = m
  In-insert_all_right (r ∷ rs) q xs m =
      In-insert_all_right rs q (insert_by lt r xs) (In-insert_by r q xs m)

module _ {ℓ} {A : Type ℓ} (lt : A → A → Bool)
    (antisym : (x y : A) → lt x y ≡ false → lt y x ≡ false → x ≡ y) where
  pub In-insert_all_left :
      (rs : List A) (q : A) (xs : List A) → In q rs → In q (insert_all lt rs xs)
  unfolding insert_all
  In-insert_all_left [] q xs m = elim m [ ]
  In-insert_all_left (r ∷ rs) q xs (here e) =
      In-insert_all_right lt rs q (insert_by lt r xs)
        (subst (λ x. In x (insert_by lt r xs)) (sym e) (In-insert_by_self lt antisym r xs))
  In-insert_all_left (r ∷ rs) q xs (there m) = In-insert_all_left rs q (insert_by lt r xs) m
