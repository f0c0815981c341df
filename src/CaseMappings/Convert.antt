-- ===== src/CaseMappings/Convert.antt =====
-- `to_lower_case` and `to_upper_case` of core/vca/string.cpp, on texts as lists of code points.
use vca.Prelude.{ℕ, List, map, Option, none, some}
use vca.CaseMappings.Tables.{find, lower_to_upper_map, upper_to_lower_map}

-- The lambda of both functions: the mapped character if there is one.
abbrev or_self : ℕ → Option ℕ → ℕ
or_self c none = c
or_self c (some v) = v

unfoldable pub to_lower : ℕ → ℕ
to_lower c = or_self c (find c upper_to_lower_map)

unfoldable pub to_upper : ℕ → ℕ
to_upper c = or_self c (find c lower_to_upper_map)

unfoldable pub to_lower_case : List ℕ → List ℕ
to_lower_case str = map to_lower str

unfoldable pub to_upper_case : List ℕ → List ℕ
to_upper_case str = map to_upper str
