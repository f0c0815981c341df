-- ===== src/Http/Command.antt =====
-- The loop of command/src/command.cpp: what it does with a line that was read.
use vca.Prelude.{ℕ, List, [], ◌∷◌, ◌++◌, Option, none, some, if◌then◌else◌, str_eq}
use vca.Text.Boost.{Boost}
use vca.Text.Chars.{space_char}
use vca.Text.Split.{split, trim, is_empty}
use vca.Utf8.Codec.{wide_to_narrow, narrow_to_wide}

-- The next line is read at once, the loop is left, a message is printed, the value is asked for, an
-- exception ends the program, or the behaviour is undefined.
pub data Reply : Type 0 where
  ignored quits empty_search unknown_command fails undefined : Reply
  asks : List ℕ → Reply

-- The loop that makes one value of the words.
unfoldable pub value_of : List (List ℕ) → List ℕ → Option (List ℕ)
value_of [] value = some value
value_of (v ∷ values) value = elim (wide_to_narrow v) [
  | none ↦ none
  | some w ↦ value_of values (value ++ w ++ b' ' ∷ [])
]

unfoldable pub reply_to_search : List (List ℕ) → Reply
reply_to_search [] = empty_search
reply_to_search (v ∷ values) = elim (value_of (v ∷ values) []) [
  | none ↦ fails
  | some value ↦ asks value
]

-- `values.front()` of no values is undefined.
unfoldable pub reply_to_values : List (List ℕ) → Reply
reply_to_values [] = undefined
reply_to_values (v ∷ values) =
    if str_eq v (b'q' ∷ [])
    then quits
    else if str_eq v (b's' ∷ [])
    then reply_to_search values
    else unknown_command

module _ (b : Boost) where
  unfoldable pub reply_to : List ℕ → Reply
  reply_to input = if is_empty input then ignored else elim (narrow_to_wide input) [
    | none ↦ fails
    | some wide ↦ reply_to_values (split b (trim b wide) space_char)
  ]
