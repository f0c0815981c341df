-- ===== src/Tokenizers/Pdf/Counted.antt =====
-- The words that `extract_text` of daemon/src/pdf_tokenizer.cpp collects, and their bytes.
use vca.Prelude.{
  ℕ, ◌+◌, ◌≤◌, ◌≡◌, Bool, true, false, List, [], ◌∷◌, ◌++◌, Option, none, some, if◌then◌else◌,
  length, length-append, str_eq, arith,
}
use vca.Tokenizers.Pdf.Interpreter.{
  Variant, name, text, array, other, Token, keyword, operand, image_data, Words, emplace, get_utf8,
  add_elements,
}

unfoldable pub total : List (List ℕ) → ℕ
total [] = 0
total (w ∷ ws) = length w + total ws

total-snoc : (ws : List (List ℕ)) (w : List ℕ) → total (ws ++ w ∷ []) ≡ total ws + length w
unfolding total
total-snoc [] w = omega arith
total-snoc (v ∷ ws) w = omega (arith, total-snoc ws w)

-- `byte_count` is the number of bytes of the words.
abbrev pub IsCounted : Words → Type 0
IsCounted w = w.byte_count ≡ total w.words

emplace-IsCounted : (res : List ℕ) (w : Words) → IsCounted w → IsCounted (emplace res w)
unfolding emplace
emplace-IsCounted res w h = omega (arith, h, total-snoc w.words res)

-- Words that are counted and at most so many bytes.
abbrev pub IsWithin : ℕ → Words → Type 0
IsWithin m w = IsCounted w × (w.byte_count ≤ m)

emplace-IsWithin :
    (m : ℕ) (res : List ℕ) (w : Words)
    → IsCounted w
    → w.byte_count + length res ≤ m
    → IsWithin m (emplace res w)
unfolding emplace
emplace-IsWithin m res w h le = (emplace-IsCounted res w h, le)

-- The words that may or may not get another one.
pub either-IsWithin :
    (b : Bool) (m : ℕ) (res : List ℕ) (w : Words)
    → IsCounted w
    → w.byte_count + length res ≤ m
    → IsWithin m (if b then w else emplace res w)
either-IsWithin true m res w h le = (h, omega arith)
either-IsWithin false m res w h le = emplace-IsWithin m res w h le

round-IsWithin :
    (space b : Bool) (m : ℕ) (s res : List ℕ) (w : Words)
    → IsCounted w
    → w.byte_count + length res + length s ≤ m
    → let w' = if space then if b then w else emplace res w else w in
      IsCounted w' × (w'.byte_count + length (if space then [] else res ++ s) ≤ m)
unfolding emplace
round-IsWithin true true m s res w h le = (h, omega arith)
round-IsWithin true false m s res w h le = (emplace-IsCounted res w h, omega arith)
round-IsWithin false b m s res w h le = (h, omega (arith, length-append res s))

module _ {O F : Type 0} (get_font : O → Option F) (encoding : F → Option (List ℕ → List ℕ)) where
  abbrev pub bytes_of : Option F → List (Option (List ℕ)) → ℕ
  bytes_of font [] = 0
  bytes_of font (none ∷ es) = bytes_of font es
  bytes_of font (some str ∷ es) = length (get_utf8 get_font encoding font str) + bytes_of font es

  -- The bytes of the text that an operator takes from a value, decoded with a font.
  unfoldable pub size_of : Option F → Variant → ℕ
  size_of font (name n) = 0
  size_of font (text str) = length (get_utf8 get_font encoding font str)
  size_of font (array es) = bytes_of font es
  size_of font other = 0

  abbrev pub Fits : ℕ → Variant → Type 0
  Fits k v = (font : Option F) → size_of font v ≤ k

  abbrev pub TokenFits : ℕ → Token → Type 0
  TokenFits k (keyword token) = Unit
  TokenFits k (operand var) = Fits k var
  TokenFits k image_data = Unit

  pub add_elements-IsWithin :
      (m : ℕ) (font : Option F) (es : List (Option (List ℕ))) (res : List ℕ) (w : Words)
      → IsCounted w
      → w.byte_count + length res + bytes_of font es ≤ m
      → IsWithin m (add_elements get_font encoding font es res w)
  unfolding add_elements
  add_elements-IsWithin m font [] res w h le =
      either-IsWithin (str_eq res []) m res w h (omega arith)
  add_elements-IsWithin m font (none ∷ es) res w h le = add_elements-IsWithin m font es res w h le
  add_elements-IsWithin m font (some str ∷ es) res w h le =
      let s = get_utf8 get_font encoding font str in
      let (counted, within) =
        round-IsWithin (str_eq s (b' ' ∷ [])) (str_eq res []) (w.byte_count + length res + length s)
          s res w h (omega arith) in
      add_elements-IsWithin m font es _ _ counted (omega (arith, within, le))
