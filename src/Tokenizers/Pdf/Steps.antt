-- ===== src/Tokenizers/Pdf/Steps.antt =====
-- What one token of a page adds to the words: `step` of `extract_text` in
-- daemon/src/pdf_tokenizer.cpp.
use vca.Prelude.{
  ℕ, zero, suc, ◌+◌, ◌≤◌, Bool, true, false, ◌||◌, List, [], ◌∷◌, Option, if◌then◌else◌, ◌==◌, ltb,
  length, drop, str_eq, All, Bool-cases, Option-cases, inl, inr, arith,
}
use vca.Tokenizers.Pdf.Interpreter.{
  Variant, name, text, array, other, Token, keyword, operand, image_data, Page, State, Outcome,
  goes_on, returns, throws, emplace_text, get_utf8, font_named, set_font, show_top, show_array,
  before_text, in_text, step,
}
use vca.Tokenizers.Pdf.Counted.{
  IsCounted, IsWithin, either-IsWithin, size_of, Fits, TokenFits, add_elements-IsWithin,
}

module _ {O F : Type 0} (get_font : O → Option F) (encoding : F → Option (List ℕ → List ℕ)) where
  -- What is left after a token: counted words within a bound, and a stack of values that fit.
  unfoldable pub IsFine : ℕ → ℕ → Outcome F → Type 0
  IsFine k m (goes_on s) = IsWithin m s.out × All (Fits get_font encoding k) s.stack
  IsFine k m (returns w) = IsWithin m w
  IsFine k m throws = Unit

  pub goes_on-IsFine :
      (k m : ℕ) (s : State F)
      → IsCounted s.out
      → s.out.byte_count ≤ m
      → All (Fits get_font encoding k) s.stack
      → IsFine k m (goes_on s)
  unfolding IsFine
  goes_on-IsFine k m s h le fits = ((h, le), fits)

  All-drop :
      (k n : ℕ) (vs : List Variant)
      → All (Fits get_font encoding k) vs
      → All (Fits get_font encoding k) (drop n vs)
  All-drop k zero vs h = h
  All-drop k (suc n) [] h = tt
  All-drop k (suc n) (v ∷ vs) h = All-drop k n vs h.1

  module _ (k : ℕ) (page : Page O) where
    abbrev pub Starts : ℕ → State F → Type 0
    Starts m s =
        IsCounted s.out × (s.out.byte_count + k ≤ m) × All (Fits get_font encoding k) s.stack

    set_font-IsFine :
        (m : ℕ) (s : State F) (vs : List Variant)
        → Starts m s
        → All (Fits get_font encoding k) vs
        → IsFine k m (set_font get_font encoding page s vs)
    unfolding set_font font_named IsFine
    set_font-IsFine m s [] (h, le, fits) vs = ((h, omega arith), fits)
    set_font-IsFine m s (size ∷ []) (h, le, fits) vs = ((h, omega arith), fits)
    set_font-IsFine m s (size ∷ name n ∷ below) (h, le, fits) vs =
        elim (Option-cases (page.get_from_resources n)) [
          | inl e ↦ rw (e, font_named, IsFine) (h, omega arith)
          | inr (f, e) ↦ rw (e, font_named, IsFine) ((h, omega arith), vs.1)
        ]
    set_font-IsFine m s (size ∷ text str ∷ below) start vs = tt
    set_font-IsFine m s (size ∷ array es ∷ below) start vs = tt
    set_font-IsFine m s (size ∷ other ∷ below) start vs = tt

    show_top-IsFine :
        (m n : ℕ) (s : State F) (vs : List Variant)
        → Starts m s
        → All (Fits get_font encoding k) vs
        → IsFine k m (show_top get_font encoding n s vs)
    unfolding show_top emplace_text size_of IsFine
    show_top-IsFine m n s [] (h, le, fits) vs = ((h, omega arith), fits)
    show_top-IsFine m n s (text str ∷ rest) (h, le, fits) vs =
        let res = get_utf8 get_font encoding s.font str in
        (
          either-IsWithin _ m res s.out h (omega (arith, le, vs.0 s.font)),
          All-drop k n (text str ∷ rest) vs,
        )
    show_top-IsFine m n s (name _ ∷ rest) start vs = tt
    show_top-IsFine m n s (array _ ∷ rest) start vs = tt
    show_top-IsFine m n s (other ∷ rest) start vs = tt

    show_array-IsFine :
        (m : ℕ) (s : State F) (vs : List Variant)
        → Starts m s
        → All (Fits get_font encoding k) vs
        → IsFine k m (show_array get_font encoding s vs)
    unfolding show_array size_of IsFine
    show_array-IsFine m s [] (h, le, fits) vs = ((h, omega arith), fits)
    show_array-IsFine m s (array es ∷ rest) (h, le, fits) vs = (
      add_elements-IsWithin get_font encoding m s.font es [] s.out h
          (omega (arith, le, vs.0 s.font)),
      vs.1,
    )
    show_array-IsFine m s (name _ ∷ rest) start vs = tt
    show_array-IsFine m s (text _ ∷ rest) start vs = tt
    show_array-IsFine m s (other ∷ rest) start vs = tt

    if-IsFine :
        (b : Bool) (m : ℕ) (o o' : Outcome F)
        → IsFine k m o
        → IsFine k m o'
        → IsFine k m (if b then o else o')
    if-IsFine true m o o' h h' = h
    if-IsFine false m o o' h h' = h'

    in_text-IsFine :
        (m : ℕ) (token : List ℕ) (s : State F)
        → Starts m s
        → IsFine k m (in_text get_font encoding page token s)
    unfolding in_text
    in_text-IsFine m token s (h, le, fits) =
        let start : Starts m s = (h, le, fits) in
        let same : IsFine k m (goes_on s) = goes_on-IsFine k m s h (omega arith) fits in
        let is : List ℕ → Bool = str_eq token in
        if-IsFine (is (b'T' ∷ b'f' ∷ [])) m _ _ (set_font-IsFine m s s.stack start fits) (
          if-IsFine (is (b'T' ∷ b'j' ∷ []) || is (b'\'' ∷ [])) m _ _
            (show_top-IsFine m 1 s s.stack start fits)
            (if-IsFine (is (b'"' ∷ [])) m _ _
              (if-IsFine (ltb (length s.stack) 3) m _ _
                (goes_on-IsFine k m (record s { stack = [] }) h (omega arith) tt)
                (show_top-IsFine m 3 s s.stack start fits))
              (if-IsFine (is (b'T' ∷ b'J' ∷ [])) m _ _
                (if-IsFine (ltb (length s.stack) 3) m _ _ same
                  (show_array-IsFine m s s.stack start fits))
                same)))

    All-clear :
        (b : Bool) (vs : List Variant)
        → All (Fits get_font encoding k) vs
        → All (Fits get_font encoding k) (if b then drop 2 vs else [])
    All-clear true vs h = All-drop k 2 vs h
    All-clear false vs h = tt

    before_text-Starts :
        (m : ℕ) (token : List ℕ) (s : State F)
        → Starts m s
        → Starts m (before_text get_font encoding token s)
    unfolding before_text
    before_text-Starts m token s (h, le, fits) =
        elim (Bool-cases (str_eq token (b'l' ∷ []) || str_eq token (b'm' ∷ []))) [
          | inl e ↦ rw (e, before_text) (h, le, All-clear (length s.stack == 2) s.stack fits)
          | inr e ↦ elim (Bool-cases (str_eq token (b'B' ∷ b'T' ∷ []))) [
            | inl f ↦ rw (e, f, before_text) (h, le, fits)
            | inr f ↦ rw (e, f, before_text) (h, le, fits)
          ]
        ]

    pub step-IsFine :
        (m : ℕ) (t : Token) (s : State F)
        → Starts m s
        → TokenFits get_font encoding k t
        → IsFine k m (step get_font encoding page t s)
    unfolding step
    step-IsFine m (keyword token) s start fit =
        let (h, le, fits) = before_text-Starts m token s start in
        if-IsFine (before_text get_font encoding token s).is_text m _ _
          (in_text-IsFine m token (before_text get_font encoding token s) (h, le, fits))
          (goes_on-IsFine k m _ h (omega arith) fits)
    step-IsFine m (operand var) s (h, le, fits) fit =
        goes_on-IsFine k m _ h (omega arith) (fit, fits)
    step-IsFine m image_data s (h, le, fits) fit = goes_on-IsFine k m s h (omega arith) fits
