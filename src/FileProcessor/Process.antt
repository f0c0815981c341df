-- ===== src/FileProcessor/Process.antt =====
-- daemon/src/file_processor.cpp. A set of texts is the list of its elements in their order, a map
-- the list of its entries.
use vca.Prelude.{
  ℕ, ◌-◌, List, [], ◌∷◌, ◌++◌, Option, none, some, if◌then◌else◌, any, str_eq, length, take,
  insert_all,
}
use vca.Text.Boost.{Boost}
use vca.Text.Chars.{special_chars, space_char, replace_all}
use vca.Text.Split.{split}
use vca.Utf8.Codec.{narrow_to_wide, wide_to_narrow}
use vca.CaseMappings.Convert.{to_lower_case}
use vca.Paths.Path.{FilePath}
use vca.UserDb.Contents.{str_lt}
use vca.UserDb.Results.{last_part, extension}

-- `extract` of a tokenizer; `none` is an exception.
abbrev pub Tokenizer : Type 0
Tokenizer = FilePath → Option (List (List ℕ))

pub record FileProcessor : Type 0 where
  pub default_tokenizer : Option Tokenizer
  pub tokenizers : List (List ℕ × Tokenizer)

unfoldable pub set_default_tokenizer : Tokenizer → FileProcessor → FileProcessor
set_default_tokenizer t p = record p { default_tokenizer = some t }

-- `emplace`: an extension that is there keeps its tokenizer.
unfoldable pub add_tokenizer : List ℕ → Tokenizer → FileProcessor → FileProcessor
add_tokenizer ext t p =
    if any (λ e. str_eq e.0 ext) p.tokenizers
    then p
    else record p { tokenizers = p.tokenizers ++ (ext, t) ∷ [] }

unfoldable pub find_in : List ℕ → List (List ℕ × Tokenizer) → Option Tokenizer
find_in ext [] = none
find_in ext ((k, t) ∷ tokenizers) = if str_eq k ext then some t else find_in ext tokenizers

unfoldable pub find_tokenizer : FileProcessor → List ℕ → Option Tokenizer
find_tokenizer p ext = elim (find_in ext p.tokenizers) [
  | some t ↦ some t
  | none ↦ p.default_tokenizer
]

-- `stem` of a file name: the name less its extension.
unfoldable pub stem : FilePath → List ℕ
stem file = let name = last_part file.parts in take (length name - length (extension file)) name

unfoldable pub narrow_all : List (List ℕ) → Option (List (List ℕ))
narrow_all [] = some []
narrow_all (w ∷ words) = elim (wide_to_narrow w) [
  | none ↦ none
  | some n ↦ elim (narrow_all words) [ none ↦ none | some ns ↦ some (n ∷ ns) ]
]

-- The tokens that the tokenizer finds, none of them if there is no tokenizer.
unfoldable pub extracted : FileProcessor → List ℕ → FilePath → Option (List (List ℕ))
extracted p ext file = elim (find_tokenizer p ext) [ none ↦ some [] | some t ↦ t file ]

module _ (b : Boost) where
  unfoldable pub stem_tokens : List ℕ → List (List ℕ)
  stem_tokens stem = split b (replace_all stem special_chars space_char) space_char

  unfoldable pub tokenize_filename : List ℕ → List ℕ → List (List ℕ)
  tokenize_filename stem ext = insert_all str_lt (stem_tokens stem ++ ext ∷ []) []

  -- `none` is an exception, of the conversions or of the tokenizer.
  unfoldable pub process : FileProcessor → FilePath → Option (List (List ℕ))
  process p file = elim (narrow_to_wide (stem file)) [
    | none ↦ none
    | some s ↦ elim (narrow_to_wide (extension file)) [
      | none ↦ none
      | some e ↦
          let ext = to_lower_case e in
          elim (extracted p ext file) [
            | none ↦ none
            | some tokens ↦ narrow_all (insert_all str_lt tokens (tokenize_filename s ext))
          ]
    ]
  ]
