-- ===== src/Tests/Case.antt =====
-- Tests of the case conversion.
use vca.Prelude.{ℕ, ◌≡◌, refl, List, [], ◌∷◌}
use vca.CaseMappings.Tables.{find, upper_to_lower_map}
use vca.CaseMappings.Convert.{to_lower, to_lower_case, to_upper_case}
use vca.CaseMappings.Laws.{to_upper_case-to_lower_case}

-- `KÜ` of core/test/string_test.cpp
abbrev german : List ℕ
german = 0x4b ∷ 0xdc ∷ []

german_lower : to_lower_case german ≡ 0x6b ∷ 0xfc ∷ []
unfolding to_lower_case to_lower find upper_to_lower_map
german_lower = refl

to_upper_case-to_lower_case_example : to_upper_case (to_lower_case german) ≡ german
unfolding find upper_to_lower_map
to_upper_case-to_lower_case_example =
    to_upper_case-to_lower_case german (((λ e. cc), refl), (((λ e. cc), refl), tt))
