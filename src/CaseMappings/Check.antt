-- ===== src/CaseMappings/Check.antt =====
-- What holds of the tables of core/vca/case_mappings.cpp entry by entry, by evaluation.
use vca.Prelude.{ℕ, ◌≡◌, refl, Bool, true, false, List, [], ◌∷◌, ◌++◌, none, some, any, ◌==◌, arith}
use vca.CaseMappings.Tables.{
  find, lower_to_upper_map, upper_to_lower_map, lower_to_upper_1, lower_to_upper_2,
  lower_to_upper_3, lower_to_upper_4, lower_to_upper_5, lower_to_upper_6, lower_to_upper_7,
  lower_to_upper_8, upper_to_lower_1, upper_to_lower_2, upper_to_lower_3, upper_to_lower_4,
  upper_to_lower_5, upper_to_lower_6, upper_to_lower_7, upper_to_lower_8,
}

-- No value of the second table is a key of the first.
misses : List (ℕ × ℕ) → List (ℕ × ℕ) → Bool
unfolding find
misses m [] = true
misses m ((k, v) ∷ l) = elim (find v m) [ none ↦ misses m l | some w ↦ false ]

-- Every entry of the second table that is not excepted is mapped back by the first.
inverts : List (ℕ × ℕ) → List ℕ → List (ℕ × ℕ) → Bool
unfolding find
inverts m ex [] = true
inverts m ex ((k, v) ∷ l) = elim (any (λ e. e == k) ex) [
  | true ↦ inverts m ex l
  | false ↦ elim (find v m) [
    | none ↦ false
    | some w ↦ elim (w == k) [ true ↦ inverts m ex l | false ↦ false ]
  ]
]

misses_sound :
    (m l : List (ℕ × ℕ)) (c v : ℕ) → misses m l ≡ true → find c l ≡ some v → find v m ≡ none
unfolding misses find
misses_sound m [] c v h e = ground arith
misses_sound m ((k, w) ∷ l) c v h e = ground (arith, misses_sound m l c v)

inverts_sound :
    (m : List (ℕ × ℕ)) (ex : List ℕ) (l : List (ℕ × ℕ)) (c v : ℕ)
    → inverts m ex l ≡ true
    → any (λ e. e == c) ex ≡ false
    → find c l ≡ some v
    → find v m ≡ some c
unfolding inverts find
inverts_sound m ex [] c v h n e = ground arith
inverts_sound m ex ((k, w) ∷ l) c v h n e = ground (arith, inverts_sound m ex l c v)

-- The capitals that share their small letter with another, which is the one that it maps to, and
-- U+1E9E, whose small letter maps to none.
abbrev pub one_way_capitals : List ℕ
one_way_capitals =
    0x130 ∷ 0x1c5 ∷ 0x1c8 ∷ 0x1cb ∷ 0x1f2 ∷ 0x3f4 ∷ 0x1e9e ∷ 0x2126 ∷ 0x212a ∷ 0x212b ∷ []

-- A table is checked part by part.
misses-append :
    (m xs ys : List (ℕ × ℕ)) → misses m xs ≡ true → misses m ys ≡ true → misses m (xs ++ ys) ≡ true
unfolding misses
misses-append m [] ys h k = k
misses-append m ((a, b) ∷ xs) ys h k = ground (arith, misses-append m xs ys)

upper_misses_1 : misses upper_to_lower_map upper_to_lower_1 ≡ true
unfolding misses upper_to_lower_map
upper_misses_1 = refl

upper_misses_2 : misses upper_to_lower_map upper_to_lower_2 ≡ true
unfolding misses upper_to_lower_map
upper_misses_2 = refl

upper_misses_3 : misses upper_to_lower_map upper_to_lower_3 ≡ true
unfolding misses upper_to_lower_map
upper_misses_3 = refl

upper_misses_4 : misses upper_to_lower_map upper_to_lower_4 ≡ true
unfolding misses upper_to_lower_map
upper_misses_4 = refl

upper_misses_5 : misses upper_to_lower_map upper_to_lower_5 ≡ true
unfolding misses upper_to_lower_map
upper_misses_5 = refl

upper_misses_6 : misses upper_to_lower_map upper_to_lower_6 ≡ true
unfolding misses upper_to_lower_map
upper_misses_6 = refl

upper_misses_7 : misses upper_to_lower_map upper_to_lower_7 ≡ true
unfolding misses upper_to_lower_map
upper_misses_7 = refl

upper_misses_8 : misses upper_to_lower_map upper_to_lower_8 ≡ true
unfolding misses upper_to_lower_map
upper_misses_8 = refl

upper_misses : misses upper_to_lower_map upper_to_lower_map ≡ true
unfolding upper_to_lower_map
upper_misses = misses-append _ _ _ upper_misses_1 (
    misses-append _ _ _ upper_misses_2 (
      misses-append _ _ _ upper_misses_3 (
        misses-append _ _ _ upper_misses_4 (
          misses-append _ _ _ upper_misses_5 (
            misses-append _ _ _ upper_misses_6
              (misses-append _ _ _ upper_misses_7 upper_misses_8))))))

lower_misses_1 : misses lower_to_upper_map lower_to_upper_1 ≡ true
unfolding misses lower_to_upper_map
lower_misses_1 = refl

lower_misses_2 : misses lower_to_upper_map lower_to_upper_2 ≡ true
unfolding misses lower_to_upper_map
lower_misses_2 = refl

lower_misses_3 : misses lower_to_upper_map lower_to_upper_3 ≡ true
unfolding misses lower_to_upper_map
lower_misses_3 = refl

lower_misses_4 : misses lower_to_upper_map lower_to_upper_4 ≡ true
unfolding misses lower_to_upper_map
lower_misses_4 = refl

lower_misses_5 : misses lower_to_upper_map lower_to_upper_5 ≡ true
unfolding misses lower_to_upper_map
lower_misses_5 = refl

lower_misses_6 : misses lower_to_upper_map lower_to_upper_6 ≡ true
unfolding misses lower_to_upper_map
lower_misses_6 = refl

lower_misses_7 : misses lower_to_upper_map lower_to_upper_7 ≡ true
unfolding misses lower_to_upper_map
lower_misses_7 = refl

lower_misses_8 : misses lower_to_upper_map lower_to_upper_8 ≡ true
unfolding misses lower_to_upper_map
lower_misses_8 = refl

lower_misses : misses lower_to_upper_map lower_to_upper_map ≡ true
unfolding lower_to_upper_map
lower_misses = misses-append _ _ _ lower_misses_1 (
    misses-append _ _ _ lower_misses_2 (
      misses-append _ _ _ lower_misses_3 (
        misses-append _ _ _ lower_misses_4 (
          misses-append _ _ _ lower_misses_5 (
            misses-append _ _ _ lower_misses_6
              (misses-append _ _ _ lower_misses_7 lower_misses_8))))))

upper_inverts : inverts lower_to_upper_map one_way_capitals upper_to_lower_map ≡ true
unfolding inverts upper_to_lower_map lower_to_upper_map
upper_inverts = refl

pub find-upper_to_lower :
    (c v : ℕ) → find c upper_to_lower_map ≡ some v → find v upper_to_lower_map ≡ none
find-upper_to_lower c v = misses_sound upper_to_lower_map upper_to_lower_map c v upper_misses

pub find-lower_to_upper :
    (c v : ℕ) → find c lower_to_upper_map ≡ some v → find v lower_to_upper_map ≡ none
find-lower_to_upper c v = misses_sound lower_to_upper_map lower_to_upper_map c v lower_misses

pub find-back :
    (c v : ℕ)
    → any (λ e. e == c) one_way_capitals ≡ false
    → find c upper_to_lower_map ≡ some v
    → find v lower_to_upper_map ≡ some c
find-back c v =
    inverts_sound lower_to_upper_map one_way_capitals upper_to_lower_map c v upper_inverts
