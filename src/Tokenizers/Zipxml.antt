-- ===== src/Tokenizers/Zipxml.antt =====
-- daemon/src/zipxml_tokenizer.cpp.
use vca.Prelude.{ℕ, Bool, List, [], Option, none, some}
use vca.Text.Boost.{Boost}
use vca.Tokenizers.Xml.{tag_words}
use vca.Zip.Inflater.{Entry, inflate}

abbrev pub max_byte_count : ℕ
max_byte_count = 81920

-- `ZipxmlTokenizer::extract`: an archive that cannot be read has no words. The outer `none` is that
-- of the text between the tags, which never occurs.
unfoldable pub extract : Boost → (List ℕ → Bool) → Option (List Entry) → Option (List (List ℕ))
extract b regex_match file = elim (inflate max_byte_count regex_match file) [
  | none ↦ some []
  | some content ↦ tag_words b content max_byte_count
]
