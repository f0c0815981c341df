-- ===== src/Tests/Processor.antt =====
-- A test of the file processor: a file without an extension, and no tokenizer for it.
use vca.Prelude.{ℕ, true, ◌≡◌, refl, List, [], ◌∷◌, none, some, In, ◌↔◌, insert_all, insert_by}
use vca.Text.Chars.{special_chars, replace_all}
use vca.Text.Split.{split}
use vca.Text.Reference.{reference, split_by}
use vca.Utf8.Codec.{narrow_to_wide, wide_to_narrow, decode, encode, is_scalar}
use vca.CaseMappings.Convert.{to_lower_case}
use vca.Paths.Path.{FilePath}
use vca.UserDb.Contents.{str_lt}
use vca.UserDb.Results.{from_dot, extension}
use vca.FileProcessor.Process.{
  FileProcessor, find_in, find_tokenizer, stem, narrow_all, extracted, stem_tokens,
  tokenize_filename, process,
}
use vca.FileProcessor.Words.{IsWordOf, process_iff}

abbrev plan : List ℕ
plan = b'p' ∷ b'n' ∷ []

abbrev file : FilePath
file = record { rooted = true; parts = plan ∷ [] }

abbrev processor : FileProcessor
processor = record { default_tokenizer = none; tokenizers = [] }

stem_run : narrow_to_wide (stem file) ≡ some plan
unfolding narrow_to_wide decode is_scalar stem extension from_dot
stem_run = refl

extension_run : narrow_to_wide (extension file) ≡ some []
unfolding narrow_to_wide decode extension from_dot
extension_run = refl

extracted_run : extracted processor (to_lower_case []) file ≡ some []
unfolding extracted find_tokenizer find_in
extracted_run = refl

process_run : process reference processor file ≡ some ([] ∷ plan ∷ [])
unfolding process insert_all insert_by narrow_to_wide decode is_scalar stem extension from_dot
    to_lower_case extracted find_tokenizer find_in narrow_all tokenize_filename stem_tokens str_lt
    replace_all special_chars split split_by wide_to_narrow encode
process_run = refl

process_iff_example : In plan ([] ∷ plan ∷ []) ↔ (
    (wide : List ℕ) × IsWordOf reference plan (to_lower_case []) [] wide
    × (wide_to_narrow wide ≡ some plan))
process_iff_example =
    process_iff reference processor file plan [] [] ([] ∷ plan ∷ []) plan stem_run extension_run
      extracted_run process_run

-- `..txt`: only the dot in front is passed over.
abbrev dotted : FilePath
dotted = record { rooted = true; parts = (b'.' ∷ b'.' ∷ b't' ∷ b'x' ∷ b't' ∷ []) ∷ [] }

extension_of_dotted : extension dotted ≡ b'.' ∷ b't' ∷ b'x' ∷ b't' ∷ []
unfolding extension from_dot
extension_of_dotted = refl

stem_of_dotted : stem dotted ≡ b'.' ∷ []
unfolding stem extension from_dot
stem_of_dotted = refl
