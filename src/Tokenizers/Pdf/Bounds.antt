-- ===== src/Tokenizers/Pdf/Bounds.antt =====
-- How much text `extract_text` of daemon/src/pdf_tokenizer.cpp collects.
use vca.Prelude.{
  ℕ, ◌+◌, ◌≤◌, ◌≡◌, refl, ap, List, [], ◌∷◌, Option, none, some, ltb, All, Bool-cases, Option-cases,
  inl, inr, arith, subst,
}
use mathlib.Core.Option.{some-injective}
use vca.Tokenizers.Pdf.Interpreter.{
  Token, Page, Words, State, Outcome, goes_on, returns, throws, max_byte_count, run, begin,
  run_pages, extract_text,
}
use vca.Tokenizers.Pdf.Counted.{IsWithin, total, Fits, TokenFits}
use vca.Tokenizers.Pdf.Steps.{IsFine, goes_on-IsFine, step-IsFine}

module _ {O F : Type 0} (get_font : O → Option F) (encoding : F → Option (List ℕ → List ℕ)) where
  module _ (k : ℕ) (page : Page O) where
    next-IsFine :
        (m : ℕ) (ts : List Token)
        → ((s : State F)
            → IsWithin m s.out
            → All (Fits get_font encoding k) s.stack
            → IsFine get_font encoding k m (run get_font encoding page ts s))
        → (o : Outcome F) → IsFine get_font encoding k m o
        → IsFine get_font encoding k m (elim o [
          | goes_on s ↦ run get_font encoding page ts s
          | returns w ↦ returns w
          | throws ↦ throws
        ])
    unfolding IsFine
    next-IsFine m ts ih (goes_on s) h = ih s h.0 h.1
    next-IsFine m ts ih (returns w) h = h
    next-IsFine m ts ih throws h = tt

    run-IsFine :
        (ts : List Token) (s : State F)
        → IsWithin (max_byte_count + k) s.out
        → All (Fits get_font encoding k) s.stack
        → All (TokenFits get_font encoding k) ts
        → IsFine get_font encoding k (max_byte_count + k) (run get_font encoding page ts s)
    unfolding run IsFine
    run-IsFine [] s (h, le) fits ts = goes_on-IsFine get_font encoding k _ s h le fits
    run-IsFine (t ∷ ts) s (h, le) fits (one, rest) =
        elim (Bool-cases (ltb max_byte_count s.out.byte_count)) [
          | inl e ↦ rw (e, run, IsFine) (h, le)
          | inr e ↦
              let small : s.out.byte_count ≤ max_byte_count = ground arith in
              let one' =
                step-IsFine get_font encoding k page (max_byte_count + k) t s (h, omega arith, fits)
                  one in
              rw (e, run) (next-IsFine _ ts (λ s' w fit. run-IsFine ts s' w fit rest) _ one')
        ]

  -- Every value of the pages fits.
  abbrev pub PagesFit : ℕ → List (Page O) → Type 0
  PagesFit k pages = All (λ p. All (TokenFits get_font encoding k) p.tokens) pages

  next_page-IsWithin :
      (k : ℕ) (pages : List (Page O)) (o : Outcome F) (w' : Words)
      → IsFine get_font encoding k (max_byte_count + k) o
      → ((w : Words)
          → IsWithin (max_byte_count + k) w
          → run_pages get_font encoding pages w ≡ some w'
          → IsWithin (max_byte_count + k) w')
      → (elim o [
        | goes_on s ↦ run_pages get_font encoding pages s.out
        | returns w ↦ some w
        | throws ↦ none
      ])
        ≡ some w'
      → IsWithin (max_byte_count + k) w'
  unfolding IsFine
  next_page-IsWithin k pages (goes_on s) w' h ih e = ih s.out h.0 e
  next_page-IsWithin k pages (returns w) w' h ih e =
      subst (IsWithin (max_byte_count + k)) (some-injective w w' e) h
  next_page-IsWithin k pages throws w' h ih e = cc

  pages-IsWithin :
      (k : ℕ) (pages : List (Page O)) (w w' : Words)
      → PagesFit k pages
      → IsWithin (max_byte_count + k) w
      → run_pages get_font encoding pages w ≡ some w'
      → IsWithin (max_byte_count + k) w'
  unfolding run_pages
  pages-IsWithin k [] w w' fit h e = subst (IsWithin (max_byte_count + k)) (some-injective w w' e) h
  pages-IsWithin k (page ∷ pages) w w' (one, rest) h e =
      next_page-IsWithin k pages _ w'
        (run-IsFine k page page.tokens (begin get_font encoding w) h tt one)
        (λ v hv ev. pages-IsWithin k pages v w' rest hv ev) e

  -- The words of a document are at most 8192 bytes and those that one more value of it has, whatever
  -- font that is decoded with.
  pub extract_text-bound :
      (k : ℕ) (pages : List (Page O)) (ws : List (List ℕ))
      → PagesFit k pages
      → extract_text get_font encoding pages ≡ some ws
      → total ws ≤ max_byte_count + k
  unfolding extract_text total
  extract_text-bound k pages ws fit h =
      elim (Option-cases
        (run_pages get_font encoding pages (record { words = []; byte_count = 0 }))) [
          | inl e ↦ cc (rw (e, extract_text) at h)
          | inr (w, e) ↦
              let (counted, le) = pages-IsWithin k pages _ w fit (refl, omega arith) e in
              let same : w.words ≡ ws = some-injective w.words ws (rw (e, extract_text) at h) in
              omega (arith, counted, le, ap total same)
        ]
