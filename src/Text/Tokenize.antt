-- ===== src/Text/Tokenize.antt =====
-- `is_numeric` and `tokenize` of core/vca/string.cpp.
use vca.Prelude.{ℕ, Bool, ◌&&◌, List, [], ◌∷◌, ◌++◌, length, ltb, leb, if◌then◌else◌}
use vca.Text.Boost.{Boost}
use vca.Text.Chars.{special_chars, end_of_line_chars, space_char, is_cjk, replace_all}
use vca.Text.Split.{split, trim, is_empty}

abbrev pub max_word_length : ℕ
max_word_length = 32

-- The loop over the characters of the line: the words of one character each that it puts out, and
-- the line with a space in the place of each. `String{1, c}` is the text of U+0001 and `c`.
unfoldable pub take_cjk : List ℕ → List (List ℕ) × List ℕ
take_cjk [] = ([], [])
take_cjk (c ∷ line) =
    let (words, rest) = take_cjk line in
    if is_cjk c then ((1 ∷ c ∷ []) ∷ words, space_char ∷ rest) else (words, c ∷ rest)

module _ (b : Boost) where
  unfoldable pub is_numeric : List ℕ → Bool
  is_numeric str = (b.parse_double str).0 && is_empty (b.parse_double str).1

  -- The loop over the tokens.
  unfoldable pub keep_tokens : List (List ℕ) → List (List ℕ)
  keep_tokens [] = []
  keep_tokens (t ∷ tokens) =
      let t' = trim b t in
      let rest = keep_tokens tokens in
      if leb (length t') 1
      then rest
      else if ltb max_word_length (length t')
      then rest
      else if is_numeric t'
      then rest
      else t' ∷ rest

  unfoldable pub tokenize : List ℕ → List (List ℕ)
  tokenize line =
      let line' = replace_all line special_chars space_char in
      let line'' = replace_all line' end_of_line_chars space_char in
      let (words, rest) = take_cjk line'' in words ++ keep_tokens (split b rest space_char)
