-- ===== src/Tokenizers/Txt.antt =====
-- daemon/src/txt_tokenizer.cpp.
use vca.Prelude.{ℕ, ◌*◌, Bool, List, [], ◌∷◌, Option, none, some, if◌then◌else◌}
use vca.Text.Boost.{Boost}
use vca.Text.Chars.{end_of_line_chars, line_feed_char, replace_all}
use vca.Text.Split.{split}
use vca.Text.Tokenize.{tokenize}
use vca.Utf8.Codec.{narrow_to_wide}
use vca.Xml.Unescape.{xml_unescape}
use vca.Xml.Content.{add_line}
use vca.Tokenizers.Read.{File, read_text}

abbrev pub max_byte_count : ℕ
max_byte_count = 8192

-- The loop over the lines: it joins those that a dash breaks.
unfoldable pub join_lines : List ℕ → List (List ℕ) → List ℕ
join_lines one_line [] = one_line
join_lines one_line (line ∷ lines) = join_lines (add_line one_line line) lines

-- The text that is read, `none` if that fails.
unfoldable pub read_wide : File → Option (List ℕ)
unfolding read_text
read_wide file = elim (read_text file (max_byte_count * 2)) [
  | none ↦ none
  | some bytes ↦ narrow_to_wide bytes
]

module _ (b : Boost) where
  unfoldable pub words_of : Bool → List ℕ → List (List ℕ)
  words_of unescapes one_line =
      let lines = split b (replace_all one_line end_of_line_chars line_feed_char) line_feed_char in
      let joined = join_lines [] lines in
      tokenize b (if unescapes then xml_unescape b joined else joined)

  -- `TxtTokenizer{xml_unescape}.extract(file)`
  unfoldable pub extract : Bool → File → List (List ℕ)
  extract unescapes file = elim (read_wide file) [
    | none ↦ []
    | some one_line ↦ words_of unescapes one_line
  ]
