-- ===== src/CaseMappings/Tables.antt =====
-- core/vca/case_mappings.cpp: the two tables of simple case mappings, each in eight parts.
mod Upper1
mod Upper2
mod Upper3
mod Upper4
mod Upper5
mod Upper6
mod Upper7
mod Upper8
mod Lower1
mod Lower2
mod Lower3
mod Lower4
mod Lower5
mod Lower6
mod Lower7
mod Lower8
use vca.Prelude.{ℕ, List, ◌++◌, Option, none, some, [], ◌∷◌, true, false, ◌==◌}
unfoldable pub use Upper1.{lower_to_upper_1}
unfoldable pub use Upper2.{lower_to_upper_2}
unfoldable pub use Upper3.{lower_to_upper_3}
unfoldable pub use Upper4.{lower_to_upper_4}
unfoldable pub use Upper5.{lower_to_upper_5}
unfoldable pub use Upper6.{lower_to_upper_6}
unfoldable pub use Upper7.{lower_to_upper_7}
unfoldable pub use Upper8.{lower_to_upper_8}
unfoldable pub use Lower1.{upper_to_lower_1}
unfoldable pub use Lower2.{upper_to_lower_2}
unfoldable pub use Lower3.{upper_to_lower_3}
unfoldable pub use Lower4.{upper_to_lower_4}
unfoldable pub use Lower5.{upper_to_lower_5}
unfoldable pub use Lower6.{upper_to_lower_6}
unfoldable pub use Lower7.{upper_to_lower_7}
unfoldable pub use Lower8.{upper_to_lower_8}

-- `find` of the `unordered_map`; no key stands twice in either table.
unfoldable pub find : ℕ → List (ℕ × ℕ) → Option ℕ
find c [] = none
find c ((k, v) ∷ m) = elim (k == c) [ true ↦ some v | false ↦ find c m ]

unfoldable pub lower_to_upper_map : List (ℕ × ℕ)
unfolding lower_to_upper_1 lower_to_upper_2 lower_to_upper_3 lower_to_upper_4 lower_to_upper_5
    lower_to_upper_6 lower_to_upper_7 lower_to_upper_8
lower_to_upper_map =
    lower_to_upper_1
    ++ (lower_to_upper_2
        ++ (lower_to_upper_3
            ++ (lower_to_upper_4
                ++ (lower_to_upper_5
                    ++ (lower_to_upper_6 ++ (lower_to_upper_7 ++ (lower_to_upper_8)))))))

unfoldable pub upper_to_lower_map : List (ℕ × ℕ)
unfolding upper_to_lower_1 upper_to_lower_2 upper_to_lower_3 upper_to_lower_4 upper_to_lower_5
    upper_to_lower_6 upper_to_lower_7 upper_to_lower_8
upper_to_lower_map =
    upper_to_lower_1
    ++ (upper_to_lower_2
        ++ (upper_to_lower_3
            ++ (upper_to_lower_4
                ++ (upper_to_lower_5
                    ++ (upper_to_lower_6 ++ (upper_to_lower_7 ++ (upper_to_lower_8)))))))
