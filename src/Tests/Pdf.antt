-- ===== src/Tests/Pdf.antt =====
-- Tests of the reading of PDF documents.
use vca.Prelude.{ℕ, ◌+◌, ◌≤◌, ◌≡◌, refl, List, [], ◌∷◌, Option, none, some, true, In, ◌↔◌, arith}
use vca.Text.Reference.{reference}
use vca.Tokenizers.Pdf.Interpreter.{
  name, text, keyword, operand, Page, max_byte_count, get_utf8, emplace, emplace_text, set_font,
  font_named, show_top, before_text, in_text, step, run, run_pages, extract_text,
}
use vca.Tokenizers.Pdf.Counted.{total, size_of}
use vca.Tokenizers.Pdf.Bounds.{PagesFit, extract_text-bound}
use vca.Tokenizers.Pdf.Hyphens.{
  extract, undefined, unfinished, is_hyphenated, extract-undefined_iff,
}

abbrev get_font : ℕ → Option ℕ
get_font o = some o

-- One font, whose bytes are those of the text.
abbrev encoding : ℕ → Option (List ℕ → List ℕ)
encoding f = some (λ s. s)

-- A page that shows `r-`.
abbrev page : Page ℕ
page = record {
  tokens =
      keyword (b'B' ∷ b'T' ∷ [])
      ∷ operand (name (b'F' ∷ []))
      ∷ operand (text [])
      ∷ keyword (b'T' ∷ b'f' ∷ [])
      ∷ operand (text (b'r' ∷ b'-' ∷ []))
      ∷ keyword (b'T' ∷ b'j' ∷ [])
      ∷ [];
  get_from_resources = λ n. some 0;
}

extract_text_run : extract_text get_font encoding (page ∷ []) ≡ some ((b'r' ∷ b'-' ∷ []) ∷ [])
unfolding extract_text run_pages run step before_text in_text set_font font_named show_top
    emplace_text emplace get_utf8
extract_text_run = refl

text-Fits : (font : Option ℕ) → size_of get_font encoding font (text (b'r' ∷ b'-' ∷ [])) ≤ 2
unfolding size_of get_utf8
text-Fits none = omega arith
text-Fits (some f) = omega arith

size-Fits : (font : Option ℕ) → size_of get_font encoding font (text []) ≤ 2
unfolding size_of get_utf8
size-Fits none = omega arith
size-Fits (some f) = omega arith

name-Fits : (font : Option ℕ) → size_of get_font encoding font (name (b'F' ∷ [])) ≤ 2
unfolding size_of
name-Fits font = omega arith

page-Fits : PagesFit get_font encoding 2 (page ∷ [])
page-Fits = ((tt, (name-Fits, (size-Fits, (tt, (text-Fits, (tt, tt)))))), tt)

extract_text-bound_example : total ((b'r' ∷ b'-' ∷ []) ∷ []) ≤ max_byte_count + 2
extract_text-bound_example =
    extract_text-bound get_font encoding 2 (page ∷ []) ((b'r' ∷ b'-' ∷ []) ∷ []) page-Fits
      extract_text_run

extract-undefined_iff_example :
    ((extract reference get_font encoding (page ∷ []) ≡ undefined) ↔ (
      (ws : List (List ℕ)) × (w : List ℕ) × (extract_text get_font encoding (page ∷ []) ≡ some ws)
      × In w ws
      × (is_hyphenated w ≡ true)))
    × ¬ (extract reference get_font encoding (page ∷ []) ≡ unfinished)
extract-undefined_iff_example = extract-undefined_iff reference get_font encoding (page ∷ [])
