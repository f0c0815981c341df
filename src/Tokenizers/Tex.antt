-- ===== src/Tokenizers/Tex.antt =====
-- daemon/src/tex_tokenizer.cpp.
use vca.Prelude.{
  ℕ, Bool, true, false, ◌||◌, List, [], ◌∷◌, ◌++◌, Option, none, some, if◌then◌else◌, ◌==◌,
}
use vca.Text.Boost.{Boost}
use vca.Text.Tokenize.{tokenize}
use vca.Utf8.Codec.{narrow_to_wide}
use vca.Tokenizers.Read.{File, read_text}

abbrev pub max_byte_count : ℕ
max_byte_count = 81920

abbrev pub ends_command : ℕ → Bool
ends_command c = c == b' ' || c == b'{' || c == b']'

abbrev pub is_bracket : ℕ → Bool
is_bracket c = c == b'{' || c == b'}' || c == b'[' || c == b']'

-- `is_text` after the character, behind the first `if` of the loop.
unfoldable pub text_after : Bool → ℕ → Bool
text_after true c = if c == 0x5c then false else true
text_after false c = ends_command c

-- What the character adds to the text. One that ends a command adds nothing.
unfoldable pub text_of : Bool → ℕ → List ℕ
text_of true c =
    if c == 0x5c then [] else if is_bracket c then b' ' ∷ [] else if c == b'$' then [] else c ∷ []
text_of false c = []

-- The loop over the bytes.
unfoldable pub strip : Bool → List ℕ → List ℕ
unfolding text_after text_of
strip is_text [] = []
strip is_text (c ∷ bytes) = text_of is_text c ++ strip (text_after is_text c) bytes

module _ (b : Boost) where
  -- `none` stands for the `std::range_error` that leaves `extract` if the text is no UTF-8: that
  -- conversion is outside of the `try` block.
  unfoldable pub extract : File → Option (List (List ℕ))
  extract file = elim (read_text file max_byte_count) [
    | none ↦ some []
    | some bytes ↦ elim (narrow_to_wide (strip true bytes)) [
      | none ↦ none
      | some text ↦ some (tokenize b text)
    ]
  ]
