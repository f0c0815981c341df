-- ===== src/Tokenizers/Xml.antt =====
-- daemon/src/xml_tokenizer.cpp.
use vca.Prelude.{ℕ, ◌*◌, List, [], Option, none, some}
use vca.Text.Boost.{Boost}
use vca.Text.Tokenize.{tokenize}
use vca.Xml.Content.{xml_tag_content}
use vca.Tokenizers.Read.{File, read_text}

abbrev pub max_byte_count : ℕ
max_byte_count = 8192

module _ (b : Boost) where
  -- The words of the texts between the tags. The outer `none` is that of `xml_tag_content`, which
  -- never occurs.
  unfoldable pub tag_words : List ℕ → ℕ → Option (List (List ℕ))
  tag_words content limit = elim (xml_tag_content b content limit) [
    | none ↦ none
    | some tag_content ↦ some (tokenize b tag_content)
  ]

  -- `XmlTokenizer::extract`
  unfoldable pub extract : File → Option (List (List ℕ))
  extract file = elim (read_text file (max_byte_count * 2)) [
    | none ↦ some []
    | some content ↦ tag_words content max_byte_count
  ]
