-- ===== src/Tokenizers/Pdf/Interpreter.antt =====
-- `extract_text` of daemon/src/pdf_tokenizer.cpp. What the PDF library reads from the file is the
-- pages and what their tokenizer gives, and the fonts and encodings are parameters. A value that is
-- read as one of another kind throws in the library.
use vca.Prelude.{
  ℕ, ◌+◌, Bool, true, false, ◌||◌, List, [], ◌∷◌, ◌++◌, Option, none, some, if◌then◌else◌, ◌==◌,
  ltb, length, drop, str_eq,
}

-- `PdfVariant`: `text` is a string or a string in hexadecimal. An element of an array that is
-- neither is `none`.
pub data Variant : Type 0 where
  name : List ℕ → Variant
  text : List ℕ → Variant
  array : List (Option (List ℕ)) → Variant
  other : Variant

-- What `ReadNext` gives.
pub data Token : Type 0 where
  keyword : List ℕ → Token
  operand : Variant → Token
  image_data : Token

pub record Page (O : Type 0) : Type 0 where
  pub tokens : List Token
  -- `GetFromResources` for a key under `Font`.
  pub get_from_resources : List ℕ → Option O

-- The variables of the whole document.
pub record Words : Type 0 where
  pub words : List (List ℕ)
  pub byte_count : ℕ

-- The variables of a page; the top of the stack is the head.
pub record State (F : Type 0) : Type 0 where
  pub out : Words
  pub is_text : Bool
  pub font : Option F
  pub stack : List Variant

-- The loop goes on, or the function returns, or something throws.
pub data Outcome (F : Type 0) : Type 0 where
  goes_on : State F → Outcome F
  returns : Words → Outcome F
  throws : Outcome F

abbrev pub max_byte_count : ℕ
max_byte_count = 8192

abbrev blank : List ℕ → Bool
blank res = str_eq res [] || str_eq res (b' ' ∷ [])

unfoldable pub emplace : List ℕ → Words → Words
emplace res w = record { words = w.words ++ res ∷ []; byte_count = w.byte_count + length res }

unfoldable pub emplace_text : List ℕ → Words → Words
emplace_text res w = if blank res then w else emplace res w

abbrev emplace_rest : List ℕ → Words → Words
emplace_rest res w = if str_eq res [] then w else emplace res w

module _ {O F : Type 0} (get_font : O → Option F) (encoding : F → Option (List ℕ → List ℕ)) where
  unfoldable pub get_utf8 : Option F → List ℕ → List ℕ
  get_utf8 none str = []
  get_utf8 (some f) str = elim (encoding f) [ none ↦ [] | some convert ↦ convert str ]

  -- The loop over an array: `res` is what was read of a word.
  unfoldable pub add_elements : Option F → List (Option (List ℕ)) → List ℕ → Words → Words
  add_elements font [] res w = emplace_rest res w
  add_elements font (none ∷ es) res w = add_elements font es res w
  add_elements font (some str ∷ es) res w =
      let s = get_utf8 font str in
      let space = str_eq s (b' ' ∷ []) in
      add_elements font es (if space then [] else res ++ s)
        (if space then emplace_rest res w else w)

  -- The name that stands below the size: the size is popped, the name stays.
  unfoldable pub font_named : Page O → State F → Variant → List Variant → Outcome F
  font_named page s (name n) below = elim (page.get_from_resources n) [
    | none ↦ returns s.out
    | some f ↦ goes_on (record s { font = get_font f; stack = name n ∷ below })
  ]
  font_named page s (text _) below = throws
  font_named page s (array _) below = throws
  font_named page s other below = throws

  unfoldable pub set_font : Page O → State F → List Variant → Outcome F
  set_font page s [] = goes_on (record s { font = none })
  set_font page s (size ∷ []) = goes_on (record s { font = none })
  set_font page s (size ∷ top ∷ below) = font_named page s top below

  -- The text on the top of the stack, with `n` values popped.
  unfoldable pub show_top : ℕ → State F → List Variant → Outcome F
  show_top n s [] = goes_on s
  show_top n s (text str ∷ rest) = goes_on (record s {
    out = emplace_text (get_utf8 s.font str) s.out;
    stack = drop n (text str ∷ rest);
  })
  show_top n s (name _ ∷ rest) = throws
  show_top n s (array _ ∷ rest) = throws
  show_top n s (other ∷ rest) = throws

  unfoldable pub show_array : State F → List Variant → Outcome F
  show_array s [] = goes_on s
  show_array s (array es ∷ rest) =
      goes_on (record s { out = add_elements s.font es [] s.out; stack = rest })
  show_array s (name _ ∷ rest) = throws
  show_array s (text _ ∷ rest) = throws
  show_array s (other ∷ rest) = throws

  -- The first chain of tests: what a keyword does outside of a text as well.
  unfoldable pub before_text : List ℕ → State F → State F
  before_text token s =
      if str_eq token (b'l' ∷ []) || str_eq token (b'm' ∷ [])
      then record s { stack = if length s.stack == 2 then drop 2 s.stack else [] }
      else if str_eq token (b'B' ∷ b'T' ∷ [])
      then record s { is_text = true }
      else s

  -- The second chain, within a text.
  unfoldable pub in_text : Page O → List ℕ → State F → Outcome F
  in_text page token s =
      if str_eq token (b'T' ∷ b'f' ∷ [])
      then set_font page s s.stack
      else if str_eq token (b'T' ∷ b'j' ∷ []) || str_eq token (b'\'' ∷ [])
      then show_top 1 s s.stack
      else if str_eq token (b'"' ∷ [])
      then (if ltb (length s.stack) 3
          then goes_on (record s { stack = [] })
          else show_top 3 s s.stack)
      else if str_eq token (b'T' ∷ b'J' ∷ [])
      then (if ltb (length s.stack) 3 then goes_on s else show_array s s.stack)
      else goes_on s

  unfoldable pub step : Page O → Token → State F → Outcome F
  step page (keyword token) s =
      let s' = before_text token s in if s'.is_text then in_text page token s' else goes_on s'
  step page (operand var) s = goes_on (record s { stack = var ∷ s.stack })
  step page image_data s = goes_on s

  -- The loop over the tokens of a page.
  unfoldable pub run : Page O → List Token → State F → Outcome F
  run page [] s = goes_on s
  run page (t ∷ ts) s =
      if ltb max_byte_count s.out.byte_count then returns s.out else elim (step page t s) [
        | goes_on s' ↦ run page ts s'
        | returns w ↦ returns w
        | throws ↦ throws
      ]

  abbrev pub begin : Words → State F
  begin w = record { out = w; is_text = false; font = none; stack = [] }

  -- The loop over the pages; `none` is an exception.
  unfoldable pub run_pages : List (Page O) → Words → Option Words
  run_pages [] w = some w
  run_pages (page ∷ pages) w = elim (run page page.tokens (begin w)) [
    | goes_on s ↦ run_pages pages s.out
    | returns w' ↦ some w'
    | throws ↦ none
  ]

  unfoldable pub extract_text : List (Page O) → Option (List (List ℕ))
  extract_text pages = elim (run_pages pages (record { words = []; byte_count = 0 })) [
    | none ↦ none
    | some w ↦ some w.words
  ]
