-- ===== src/Tests/Words.antt =====
-- Tests of the functions of core/vca/string.cpp that split a text into words.
use vca.Prelude.{◌≡◌, refl, not, [], ◌∷◌, All, ◌⊎◌, flatten, filter, contains}
use vca.Text.Reference.{reference, split_by, drop_while, trim_right, digits}
use vca.Text.Chars.{special_chars, end_of_line_chars, is_cjk, replace_all}
use vca.Text.Split.{split, trim, trim_chars, delim, flatten-split_filter}
use vca.Text.Tokenize.{is_numeric, take_cjk, keep_tokens, tokenize}
use vca.Text.Words.{IsCjkWord, IsToken, tokenize-IsToken}
use vca.Text.RoundTrip.{unwords, tokenize-unwords}
use vca.Tests.Sample.{red, fox, red-IsWhole, fox-IsWhole}

-- `red, 42 fox`: the number is left out.
tokenize_run :
    tokenize reference
      (b'r' ∷ b'e' ∷ b'd' ∷ b',' ∷ b' ' ∷ b'4' ∷ b'2' ∷ b' ' ∷ b'f' ∷ b'o' ∷ b'x' ∷ [])
    ≡ red ∷ fox ∷ []
unfolding tokenize replace_all special_chars end_of_line_chars is_cjk take_cjk keep_tokens
    is_numeric split trim trim_chars split_by drop_while trim_right digits
tokenize_run = refl

-- A Chinese character becomes a word of its own, behind U+0001.
tokenize_cjk : tokenize reference (0x4f60 ∷ []) ≡ (1 ∷ 0x4f60 ∷ []) ∷ []
unfolding tokenize replace_all special_chars end_of_line_chars is_cjk take_cjk keep_tokens
    is_numeric split trim trim_chars split_by drop_while trim_right digits
tokenize_cjk = refl

tokenize-unwords_example : tokenize reference (unwords (red ∷ fox ∷ [])) ≡ red ∷ fox ∷ []
tokenize-unwords_example =
    tokenize-unwords reference (red ∷ fox ∷ []) (red-IsWhole, (fox-IsWhole, tt))

tokenize-IsToken_example :
    All (λ w. IsCjkWord w ⊎ IsToken reference w) (tokenize reference (0x4f60 ∷ red))
tokenize-IsToken_example = tokenize-IsToken reference (0x4f60 ∷ red)

flatten-split_example :
    flatten (split reference (b'a' ∷ b' ' ∷ b'b' ∷ []) 0x20)
    ≡ filter (λ c. not (contains (delim 0x20) c)) (b'a' ∷ b' ' ∷ b'b' ∷ [])
flatten-split_example = flatten-split_filter reference (b'a' ∷ b' ' ∷ b'b' ∷ []) 0x20
