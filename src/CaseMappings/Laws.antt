-- ===== src/CaseMappings/Laws.antt =====
-- `to_lower_case` and `to_upper_case` of core/vca/string.cpp on every text.
use vca.Prelude.{
  ℕ, ◌≡◌, refl, ap, false, List, [], ◌∷◌, none, any, All, ◌==◌, Option-cases, inl, inr, ◌≢◌,
}
use vca.CaseMappings.Tables.{find, lower_to_upper_map, upper_to_lower_map}
use vca.CaseMappings.Convert.{to_lower, to_upper, to_lower_case, to_upper_case}
use vca.CaseMappings.Check.{one_way_capitals, find-upper_to_lower, find-lower_to_upper, find-back}

lower-lower : (c : ℕ) → find (to_lower c) upper_to_lower_map ≡ none
unfolding to_lower
lower-lower c = elim (Option-cases (find c upper_to_lower_map)) [
  | inl e ↦ rw e e
  | inr (v, e) ↦ rw e (find-upper_to_lower c v e)
]

upper-upper : (c : ℕ) → find (to_upper c) lower_to_upper_map ≡ none
unfolding to_upper
upper-upper c = elim (Option-cases (find c lower_to_upper_map)) [
  | inl e ↦ rw e e
  | inr (v, e) ↦ rw e (find-lower_to_upper c v e)
]

-- A small letter is a character that the upper-to-lower table leaves alone.
abbrev pub IsLower : ℕ → Type 0
IsLower c = find c upper_to_lower_map ≡ none

abbrev pub IsUpper : ℕ → Type 0
IsUpper c = find c lower_to_upper_map ≡ none

to_lower_of_IsLower : (c : ℕ) → IsLower c → to_lower c ≡ c
unfolding to_lower
to_lower_of_IsLower c h = rw h

to_upper_of_IsUpper : (c : ℕ) → IsUpper c → to_upper c ≡ c
unfolding to_upper
to_upper_of_IsUpper c h = rw h

-- Lower-casing leaves no character that has a small form, and leaves every text of such
-- characters as it is, so a second pass changes nothing.
pub to_lower_case-idempotent :
    (s : List ℕ)
    → All IsLower (to_lower_case s) × (to_lower_case (to_lower_case s) ≡ to_lower_case s)
unfolding to_lower_case
to_lower_case-idempotent [] = (tt, refl)
to_lower_case-idempotent (c ∷ s) =
    let rest = to_lower_case-idempotent s in
    (
      (lower-lower c, rest.0),
      rw (to_lower_of_IsLower (to_lower c) (lower-lower c)) (ap (to_lower c ∷◌) rest.1),
    )

-- Upper-casing leaves no character that has a capital, and a second pass changes nothing.
pub to_upper_case-idempotent :
    (s : List ℕ)
    → All IsUpper (to_upper_case s) × (to_upper_case (to_upper_case s) ≡ to_upper_case s)
unfolding to_upper_case
to_upper_case-idempotent [] = (tt, refl)
to_upper_case-idempotent (c ∷ s) =
    let rest = to_upper_case-idempotent s in
    (
      (upper-upper c, rest.0),
      rw (to_upper_of_IsUpper (to_upper c) (upper-upper c)) (ap (to_upper c ∷◌) rest.1),
    )

-- A capital that is not one of the ten whose small letter leads to another character or, as that of
-- U+1E9E, to none.
abbrev pub IsCapital : ℕ → Type 0
IsCapital c = (find c upper_to_lower_map ≢ none) × (any (λ e. e == c) one_way_capitals ≡ false)

upper-lower : (c : ℕ) → IsCapital c → to_upper (to_lower c) ≡ c
unfolding to_lower to_upper
upper-lower c h = elim (Option-cases (find c upper_to_lower_map)) [
  | inl e ↦ absurd (h.0 e)
  | inr (v, e) ↦ rw (e, find-back c v h.1 e)
]

-- A text of capitals comes back from lower-casing by upper-casing, but for ten capitals: the small
-- letter of nine, such as the Kelvin sign, belongs to another capital, and that of U+1E9E to none.
pub to_upper_case-to_lower_case :
    (s : List ℕ) → All IsCapital s → to_upper_case (to_lower_case s) ≡ s
unfolding to_lower_case to_upper_case
to_upper_case-to_lower_case [] h = refl
to_upper_case-to_lower_case (c ∷ s) h =
    rw (upper-lower c h.0) (ap (c ∷◌) (to_upper_case-to_lower_case s h.1))
