-- ===== src/Tokenizers/Files.antt =====
-- What daemon/src/txt_tokenizer.cpp reads from a file of words, whole or broken over lines.
use vca.Prelude.{
  ℕ, ◌*◌, ◌≤◌, ◌≡◌, refl, ap, ◌∙◌, true, false, List, [], ◌∷◌, ◌++◌, some, All, All-append,
  All-append_left, All-append_right, All-map, arith, contains, map, flatten, length, last?, ◌==◌,
  Option-cases, inl, inr, take_self, All-flatten, All-last,
}
use vca.Text.Boost.{Boost}
use vca.Text.Chars.{
  special_chars, end_of_line_chars, line_feed_char, replace_all, replace_self, replace-append,
}
use vca.Text.Split.{split, is_empty, delim, split-word, split-nil}
use vca.Text.Tokenize.{tokenize}
use vca.Text.Words.{IsTokenChar}
use vca.Text.RoundTrip.{IsWhole, tokenize-unwords}
use vca.Utf8.Codec.{is_scalar, narrow_to_wide}
use vca.Utf8.RoundTrip.{utf8, narrow_to_wide-utf8}
use vca.Xml.Content.{ends_with_dash}
use vca.Tokenizers.Txt.{max_byte_count, read_wide, words_of, extract}
use vca.Tokenizers.Lines.{Broken, word, dashed, lines_of, unlines, file_lines, join_file}

read_wide-utf8 :
    (wide : List ℕ)
    → All (λ c. is_scalar c ≡ true) wide
    → length (utf8 wide) ≤ max_byte_count * 2
    → read_wide (some (utf8 wide)) ≡ some wide
unfolding read_wide
read_wide-utf8 wide scalars fits =
    ap narrow_to_wide (take_self (max_byte_count * 2) (utf8 wide) fits)
    ∙ narrow_to_wide-utf8 wide scalars

-- A character that a line may hold: no end of line and no U+0001.
abbrev IsLineChar : ℕ → Type 0
IsLineChar c = (contains end_of_line_chars c ≡ false) × (contains (delim line_feed_char) c ≡ false)

token-IsLineChar : (c : ℕ) → IsTokenChar c → IsLineChar c
unfolding end_of_line_chars
token-IsLineChar c h = (h.0.1, ground arith)

dash-IsLineChar : IsLineChar b'-'
unfolding end_of_line_chars
dash-IsLineChar = (refl, refl)

line_feed-replaced :
    (s : List ℕ)
    → replace_all (line_feed_char ∷ s) end_of_line_chars line_feed_char
      ≡ line_feed_char ∷ replace_all s end_of_line_chars line_feed_char
unfolding replace_all end_of_line_chars
line_feed-replaced s = refl

dashed-not_empty : (p : List ℕ) → is_empty (dashed p) ≡ false
dashed-not_empty [] = refl
dashed-not_empty (c ∷ p) = refl

token-dash : (c : ℕ) → IsTokenChar c → (c == b'-') ≡ false
unfolding special_chars
token-dash c h = ground arith

-- What a file of broken words meets so that each is read back: each word is a token without
-- characters to trim, and ends in a part that is not empty.
module _ (b : Boost) where
  pub record IsWritten (w : Broken) : Type 0 where
    pub whole : IsWhole b (word w)
    pub finished : is_empty w.rest ≡ false

  -- A line: no end of line in it and no U+0001, and something in it.
  record IsLine (l : List ℕ) : Type 0 where
    chars : All IsLineChar l
    filled : is_empty l ≡ false

  unlines-replaced :
      (ls : List (List ℕ))
      → All IsLine ls
      → replace_all (unlines ls) end_of_line_chars line_feed_char ≡ unlines ls
  unfolding unlines
  unlines-replaced [] h = unfold replace_all in refl
  unlines-replaced (l ∷ ls) h =
      replace-append end_of_line_chars line_feed_char l (line_feed_char ∷ unlines ls)
      ∙ ap (◌++◌ (replace_all l end_of_line_chars line_feed_char)) (line_feed-replaced (unlines ls))
      ∙ ap (λ t. t ++ line_feed_char ∷ replace_all (unlines ls) end_of_line_chars line_feed_char)
          (replace_self end_of_line_chars line_feed_char l (All-map _ (λ c p. p.0) l h.0.chars))
      ∙ ap (λ t. l ++ line_feed_char ∷ t) (unlines-replaced ls h.1)

  split-unlines : (ls : List (List ℕ)) → All IsLine ls → split b (unlines ls) line_feed_char ≡ ls
  unfolding unlines
  split-unlines [] h = split-nil b line_feed_char
  split-unlines (l ∷ ls) h =
      split-word b l (unlines ls) line_feed_char (All-map _ (λ c p. p.1) l h.0.chars) h.0.filled
      ∙ ap (l ∷◌) (split-unlines ls h.1)

  dashed-IsLine :
      (parts : List (List ℕ)) → All (All IsTokenChar) parts → All IsLine (map dashed parts)
  dashed-IsLine [] h = tt
  dashed-IsLine (p ∷ parts) h = (
    record {
      chars =
          All-append IsLineChar p (b'-' ∷ []) (All-map _ token-IsLineChar p h.0)
            (dash-IsLineChar, tt);
      filled = dashed-not_empty p;
    },
    dashed-IsLine parts h.1,
  )

  lines_of-IsLine : (w : Broken) → IsWritten w → All IsLine (lines_of w)
  lines_of-IsLine w h =
      let chars = h.whole.token.chars in
      let last : IsLine w.rest = record {
        chars =
            All-map _ token-IsLineChar w.rest
              (All-append_right IsTokenChar (flatten w.parts) w.rest chars);
        filled = h.finished;
      } in
      All-append IsLine (map dashed w.parts) (w.rest ∷ [])
        (dashed-IsLine w.parts (
          All-flatten IsTokenChar w.parts
            (All-append_left IsTokenChar (flatten w.parts) w.rest chars)))
        (last, tt)

  file_lines-IsLine : (ws : List Broken) → All IsWritten ws → All IsLine (file_lines ws)
  unfolding file_lines
  file_lines-IsLine [] h = tt
  file_lines-IsLine (w ∷ ws) h =
      All-append IsLine (lines_of w) (file_lines ws) (lines_of-IsLine w h.0)
        (file_lines-IsLine ws h.1)

  rest-dash : (w : Broken) → IsWritten w → ends_with_dash w.rest ≡ false
  unfolding ends_with_dash
  rest-dash w h = elim (Option-cases (last? w.rest)) [
    | inl e ↦ rw (e, ends_with_dash)
    | inr (c, e) ↦
        rw (e, ends_with_dash)
          (token-dash c (
            All-last IsTokenChar w.rest c
              (All-append_right IsTokenChar (flatten w.parts) w.rest h.whole.token.chars) e))
  ]

  words-IsWhole : (ws : List Broken) → All IsWritten ws → All (IsWhole b) (map word ws)
  words-IsWhole [] h = tt
  words-IsWhole (w ∷ ws) h = (h.0.whole, words-IsWhole ws h.1)

  words_of-file :
      (ws : List Broken)
      → All IsWritten ws
      → words_of b false (unlines (file_lines ws)) ≡ map word ws
  unfolding words_of
  words_of-file ws h =
      let lines = file_lines-IsLine ws h in
      rw (unlines-replaced (file_lines ws) lines, split-unlines (file_lines ws) lines)
        (ap (tokenize b) (join_file ws [] (All-map _ rest-dash ws h))
          ∙ tokenize-unwords b (map word ws) (words-IsWhole ws h))

  -- A UTF-8 file that fits into the bytes that are read, with a word to a line or broken by a dash
  -- over several, gives its words in order, those that were broken put together again.
  pub extract_file :
      (ws : List Broken)
      → All IsWritten ws
      → All (λ c. is_scalar c ≡ true) (unlines (file_lines ws))
      → length (utf8 (unlines (file_lines ws))) ≤ max_byte_count * 2
      → extract b false (some (utf8 (unlines (file_lines ws)))) ≡ map word ws
  unfolding extract
  extract_file ws h scalars fits =
      rw (read_wide-utf8 (unlines (file_lines ws)) scalars fits, extract) (words_of-file ws h)
