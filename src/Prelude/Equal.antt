-- ===== src/Prelude/Equal.antt =====
-- Equality tests on lists, such as texts and the components of paths.
use Prim.Native.Nat.{ℕ}
use mathlib.Core.Path.{◌≡◌, refl}
use mathlib.Core.Logic.{◌↔◌}
use mathlib.Core.Bool.{Bool, true, false, ◌&&◌}
use mathlib.Core.List.{List, [], ◌∷◌}
use native.Mathlib.Omega.{arith}
use vca.Prelude.Tests.{◌==◌, ==_iff}

-- A test that decides equality.
abbrev pub Decides {ℓ} : {A : Type ℓ} → (A → A → Bool) → Type ℓ
Decides {A} eq = (a b : A) → (eq a b ≡ true) ↔ (a ≡ b)

module _ {ℓ} {A : Type ℓ} where
  abbrev pub list_eq : (A → A → Bool) → List A → List A → Bool
  list_eq eq [] [] = true
  list_eq eq [] (y ∷ ys) = false
  list_eq eq (x ∷ xs) [] = false
  list_eq eq (x ∷ xs) (y ∷ ys) = eq x y && list_eq eq xs ys

  pub list_eq_iff : (eq : A → A → Bool) → Decides eq → Decides (list_eq eq)
  list_eq_iff eq h [] [] = (λ _. refl, λ _. refl)
  list_eq_iff eq h [] (y ∷ ys) = (λ e. cc, λ e. cc)
  list_eq_iff eq h (x ∷ xs) [] = (λ e. cc, λ e. cc)
  list_eq_iff eq h (x ∷ xs) (y ∷ ys) =
      let heads = h x y in
      let tails = list_eq_iff eq h xs ys in
      (λ e. ground (arith, heads, tails), λ e. ground (arith, heads, tails))

abbrev pub str_eq : List ℕ → List ℕ → Bool
str_eq = list_eq ◌==◌

pub str_eq_iff : (a b : List ℕ) → (str_eq a b ≡ true) ↔ (a ≡ b)
str_eq_iff = list_eq_iff ◌==◌ ==_iff
