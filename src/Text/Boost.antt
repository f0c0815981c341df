-- ===== src/Text/Boost.antt =====
-- What core/vca/string.cpp calls of Boost, as an interface: `split`, `trim_if` and `replace_all`
-- of Boost.StringAlgo, with what their documentation says, and the number parser of Boost.Spirit,
-- of which nothing is assumed.
use vca.Prelude.{ℕ, ◌≡◌, ◌≢◌, Bool, true, false, List, [], ◌∷◌, ◌++◌, some, All, last?, starts_with}

pub record Boost : Type 0 where
  -- The tokens between the characters that the predicate picks, adjacent ones not merged.
  pub split : (ℕ → Bool) → List ℕ → List (List ℕ)
  pub split_nil : (p : ℕ → Bool) → split p [] ≡ [] ∷ []
  pub split_delimiter :
      (p : ℕ → Bool) (c : ℕ) (s : List ℕ) → p c ≡ true → split p (c ∷ s) ≡ [] ∷ split p s
  pub split_other :
      (p : ℕ → Bool) (c : ℕ) (s t : List ℕ) (ts : List (List ℕ))
      → p c ≡ false
      → split p s ≡ t ∷ ts
      → split p (c ∷ s) ≡ (c ∷ t) ∷ ts
  -- The text less the longest prefix and suffix of characters that the predicate picks.
  pub trim_if : (ℕ → Bool) → List ℕ → List ℕ
  pub trim_if_parts :
      (p : ℕ → Bool) (s : List ℕ)
      → (l r : List ℕ) × All (λ c. p c ≡ true) l
        × All (λ c. p c ≡ true) r
        × (s ≡ l ++ (trim_if p s ++ r))
  pub trim_if_head : (p : ℕ → Bool) (s t : List ℕ) (c : ℕ) → trim_if p s ≡ c ∷ t → p c ≡ false
  pub trim_if_last :
      (p : ℕ → Bool) (s : List ℕ) (c : ℕ) → last? (trim_if p s) ≡ some c → p c ≡ false
  -- `replace_all text from to`: from left to right, each `from` in the text becomes `to`.
  pub replace_all : List ℕ → List ℕ → List ℕ → List ℕ
  pub replace_all_nil : (from to : List ℕ) → replace_all [] from to ≡ []
  pub replace_all_hit :
      (from to rest : List ℕ)
      → from ≢ []
      → replace_all (from ++ rest) from to ≡ to ++ replace_all rest from to
  pub replace_all_miss :
      (c : ℕ) (s from to : List ℕ)
      → starts_with from (c ∷ s) ≡ false
      → replace_all (c ∷ s) from to ≡ c ∷ replace_all s from to
  -- `qi::parse` with `double_ >> *space`: whether it succeeds, and the input that it leaves.
  pub parse_double : List ℕ → Bool × List ℕ
