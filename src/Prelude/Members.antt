-- ===== src/Prelude/Members.antt =====
-- Membership with its place: what `any` finds, what `filter` keeps, and what holds of all.
use mathlib.Core.Path.{◌≡◌, refl, sym, ap, subst, ◌∙◌}
use mathlib.Core.Logic.{inl, inr}
use mathlib.Core.Bool.{Bool, true, false}
use mathlib.Core.List.{List, [], ◌∷◌}
use native.Mathlib.Omega.{arith}
use vca.Prelude.Tests.{Bool-cases, if◌then◌else◌}
use vca.Prelude.Lists.{any, filter, All}

pub data In {ℓ} {A : Type ℓ} (x : A) : List A → Type ℓ where
  here : {y : A} {ys : List A} → x ≡ y → In x (y ∷ ys)
  there : {y : A} {ys : List A} → In x ys → In x (y ∷ ys)

module _ {ℓ} {A : Type ℓ} where
  pub not-In-nil : (x : A) → ¬ In x []
  not-In-nil x m = elim m [ ]

  pub any-In : (p : A → Bool) (xs : List A) → any p xs ≡ true → (x : A) × In x xs × (p x ≡ true)
  any-In p [] h = cc
  any-In p (x ∷ xs) h = elim (Bool-cases (p x)) [
    | inl e ↦ (x, here refl, e)
    | inr e ↦ let (y, m, q) = any-In p xs (ground arith) in (y, there m, q)
  ]

  pub In-any : (p : A → Bool) (xs : List A) (x : A) → In x xs → p x ≡ true → any p xs ≡ true
  In-any p [] x m h = elim m [ ]
  In-any p (y ∷ xs) x (here e) h = ground (arith, ap p e)
  In-any p (y ∷ xs) x (there m) h = ground (arith, In-any p xs x m h)

  In-if : (b : Bool) (x y : A) (xs : List A) → In x xs → In x (if b then y ∷ xs else xs)
  In-if true x y xs m = there m
  In-if false x y xs m = m

  pub In-filter : (p : A → Bool) (xs : List A) (x : A) → In x xs → p x ≡ true → In x (filter p xs)
  In-filter p [] x m h = elim m [ ]
  In-filter p (y ∷ xs) x (here e) h = let q : p y ≡ true = ap p (sym e) ∙ h in rw q (here e)
  In-filter p (y ∷ xs) x (there m) h = In-if (p y) x y (filter p xs) (In-filter p xs x m h)

  In-of-if :
      (p : A → Bool) (x y : A) (xs ys : List A)
      → (In x ys → In x xs × (p x ≡ true))
      → (b : Bool) → p y ≡ b
      → In x (if b then y ∷ ys else ys)
      → In x (y ∷ xs) × (p x ≡ true)
  In-of-if p x y xs ys ih true e (here q) = (here q, ap p q ∙ e)
  In-of-if p x y xs ys ih true e (there m) = let r = ih m in (there r.0, r.1)
  In-of-if p x y xs ys ih false e m = let r = ih m in (there r.0, r.1)

  pub In-of-filter :
      (p : A → Bool) (xs : List A) (x : A) → In x (filter p xs) → In x xs × (p x ≡ true)
  In-of-filter p [] x m = absurd (not-In-nil x m)
  In-of-filter p (y ∷ xs) x m = In-of-if p x y xs (filter p xs) (In-of-filter p xs x) (p y) refl m

  pub All-of-In {κ} : (P : A → Type κ) (xs : List A) → ((x : A) → In x xs → P x) → All P xs
  All-of-In P [] h = tt
  All-of-In P (x ∷ xs) h = (h x (here refl), All-of-In P xs (λ y m. h y (there m)))

  pub All-In {κ} : (P : A → Type κ) (xs : List A) (x : A) → All P xs → In x xs → P x
  All-In P [] x h m = elim m [ ]
  All-In P (y ∷ xs) x h (here e) = subst P (sym e) h.0
  All-In P (y ∷ xs) x h (there m) = All-In P xs x h.1 m
