-- ===== src/Tokenizers/Pdf/Hyphens.antt =====
-- `PdfTokenizer::extract` of daemon/src/pdf_tokenizer.cpp.
use vca.Prelude.{
  ℕ, zero, suc, ◌+◌, ◌<◌, ap, ◌∙◌, arith, init, append_assoc, ◌≡◌, refl, Bool, true, false, ◌&&◌,
  List, [], ◌∷◌, ◌++◌, Option, none, some, if◌then◌else◌, ltb, length, last?, ◌==◌, any, Bool-cases,
  Option-cases, In, any-In, In-any, ◌↔◌, ◌⊎◌, inl, inr, sym, subst,
}
use mathlib.Core.Option.{some-injective}
use vca.Text.Boost.{Boost}
use vca.Text.Chars.{space_char}
use vca.Text.Tokenize.{tokenize}
use vca.Utf8.Codec.{narrow_to_wide}
use vca.Tokenizers.Pdf.Interpreter.{Page, extract_text}

-- `undefined` is undefined behaviour, `unfinished` a loop that does not end on its fuel.
pub data Extraction : Type 0 where
  gives : List (List ℕ) → Extraction
  exception undefined unfinished : Extraction

unfoldable pub is_hyphenated : List ℕ → Bool
is_hyphenated w = ltb 1 (length w) && elim (last? w) [ none ↦ false | some c ↦ c == b'-' ]

-- The list of words with the iterator `w`: it stands at an element, with those in front of it and
-- those behind it, or at the end, or its element was erased.
pub data Cursor : Type 0 where
  stands : List (List ℕ) → List ℕ → List (List ℕ) → Cursor
  at_end dangling : List (List ℕ) → Cursor

unfoldable pub begin_of : List (List ℕ) → Cursor
begin_of [] = at_end []
begin_of (w ∷ ws) = stands [] w ws

-- `++w`; `none` is undefined behaviour, as below.
unfoldable pub advance : Cursor → Option Cursor
advance (stands before w []) = some (at_end (before ++ w ∷ []))
advance (stands before w (v ∷ after)) = some (stands (before ++ w ∷ []) v after)
advance (at_end words) = none
advance (dangling words) = none

-- What follows `++w` where a word is joined: `start` is the element in front of the iterator, which
-- has `*w` appended to it less its last byte, and `erase` takes the element of the iterator away.
unfoldable pub join_next : List (List ℕ) → List ℕ → Cursor → Option Cursor
join_next before start (stands _ v after) = some (dangling (before ++ (init start ++ v) ∷ after))
join_next before start (at_end words) = none
join_next before start (dangling words) = none

-- The body of the loop.
unfoldable pub join_body : Cursor → Option Cursor
join_body (stands before w after) =
    if is_hyphenated w
    then elim (advance (stands before w after)) [ none ↦ none | some c ↦ join_next before w c ]
    else some (stands before w after)
join_body (at_end words) = some (at_end words)
join_body (dangling words) = none

-- A round of the loop: its body and then `++w`.
unfoldable pub join_round : Cursor → Option Cursor
join_round c = elim (join_body c) [ none ↦ none | some d ↦ advance d ]

pub data Joining : Type 0 where
  joined : List (List ℕ) → Joining
  ill_defined out_of_fuel : Joining

-- The loop that joins a word with the next one, on fuel.
unfoldable pub join_loop : ℕ → Cursor → Joining
join_loop zero c = out_of_fuel
join_loop (suc fuel) (at_end words) = joined words
join_loop (suc fuel) (dangling words) = ill_defined
join_loop (suc fuel) (stands before w after) = elim (join_round (stands before w after)) [
  | none ↦ ill_defined
  | some c ↦ join_loop fuel c
]

unfoldable pub join_hyphenated : List (List ℕ) → Joining
join_hyphenated words = join_loop (suc (length words)) (begin_of words)

-- The loop that makes one line of the words; `none` is the exception of the codec.
unfoldable pub one_line_of : List (List ℕ) → List ℕ → Option (List ℕ)
one_line_of [] one_line = some one_line
one_line_of (w ∷ ws) one_line = elim (narrow_to_wide w) [
  | none ↦ none
  | some wide ↦ one_line_of ws (one_line ++ space_char ∷ wide)
]

module _ (b : Boost) where
  unfoldable pub tokenize_line : List (List ℕ) → Extraction
  tokenize_line words = elim (one_line_of words []) [
    | none ↦ exception
    | some one_line ↦ gives (tokenize b one_line)
  ]

  unfoldable pub extract_words : List (List ℕ) → Extraction
  extract_words words = elim (join_hyphenated words) [
    | joined ws ↦ tokenize_line ws
    | ill_defined ↦ undefined
    | out_of_fuel ↦ unfinished
  ]

  unfoldable pub extract :
      {O F : Type 0} → (O → Option F) → (F → Option (List ℕ → List ℕ)) → List (Page O) → Extraction
  extract get_font encoding pages = elim (extract_text get_font encoding pages) [
    | none ↦ exception
    | some words ↦ extract_words words
  ]

-- The round at a word that is to be joined ends in undefined behaviour: at the last word `*w` is
-- that of the end, and else `++w` is that of an iterator whose element is gone.
round-hyphenated :
    (before : List (List ℕ)) (w : List ℕ) (after : List (List ℕ))
    → is_hyphenated w ≡ true
    → join_round (stands before w after) ≡ none
unfolding join_round join_body advance join_next
round-hyphenated before w [] e = rw (e, join_round, join_body) refl
round-hyphenated before w (v ∷ after) e = rw (e, join_round, join_body) refl

round-other :
    (before : List (List ℕ)) (w : List ℕ) (after : List (List ℕ))
    → is_hyphenated w ≡ false
    → join_round (stands before w after) ≡ advance (stands before w after)
unfolding join_round join_body
round-other before w after e = rw (e, join_round, join_body) refl

abbrev JoinCases : List (List ℕ) → List (List ℕ) → Joining → Type 0
JoinCases before ws j =
    ((any is_hyphenated ws ≡ true) × (j ≡ ill_defined))
    ⊎ ((any is_hyphenated ws ≡ false) × (j ≡ joined (before ++ ws)))

-- The rounds at words that are not joined lead through the list.
loop_later :
    (before : List (List ℕ)) (w : List ℕ) (ws : List (List ℕ)) (j : Joining)
    → is_hyphenated w ≡ false
    → JoinCases (before ++ w ∷ []) ws j
    → JoinCases before (w ∷ ws) j
loop_later before w ws j e (inl (f, g)) = inl (rw (e, f) refl, g)
loop_later before w ws j e (inr (f, g)) =
    inr (rw (e, f) refl, g ∙ ap joined (append_assoc before (w ∷ []) ws))

loop-cases :
    (fuel : ℕ) (before : List (List ℕ)) (w : List ℕ) (after : List (List ℕ))
    → length after + 1 < fuel
    → JoinCases before (w ∷ after) (join_loop fuel (stands before w after))
unfolding join_loop advance
loop-cases zero before w after h = absurd (omega arith)
loop-cases (suc zero) before w after h = absurd (omega arith)
loop-cases (suc (suc fuel)) before w [] h = elim (Bool-cases (is_hyphenated w)) [
  | inl e ↦ inl (rw e refl, rw (round-hyphenated before w [] e, join_loop) refl)
  | inr e ↦ inr (rw e refl, rw (round-other before w [] e, join_loop) refl)
]
loop-cases (suc (suc fuel)) before w (v ∷ after) h = elim (Bool-cases (is_hyphenated w)) [
  | inl e ↦ inl (rw e refl, rw (round-hyphenated before w (v ∷ after) e, join_loop) refl)
  | inr e ↦
      rw (round-other before w (v ∷ after) e, join_loop)
        (loop_later before w (v ∷ after) _ e
          (loop-cases (suc fuel) (before ++ w ∷ []) v after (omega arith)))
]

join-cases : (ws : List (List ℕ)) → JoinCases [] ws (join_hyphenated ws)
unfolding join_hyphenated begin_of join_loop
join-cases [] = inr (refl, refl)
join-cases (w ∷ ws) = loop-cases (suc (suc (length ws))) [] w ws (omega arith)

module _ (b : Boost) where
  tokenize_line-defined :
      (ws : List (List ℕ))
      → ¬ (tokenize_line b ws ≡ undefined) × ¬ (tokenize_line b ws ≡ unfinished)
  unfolding tokenize_line
  tokenize_line-defined ws = elim (Option-cases (one_line_of ws [])) [
    | inl e ↦ rw (e, tokenize_line) (λ h. cc h, λ h. cc h)
    | inr (l, e) ↦ rw (e, tokenize_line) (λ h. cc h, λ h. cc h)
  ]

  extract_words-cases :
      (ws : List (List ℕ))
      → ((extract_words b ws ≡ undefined) ↔ (any is_hyphenated ws ≡ true))
        × ¬ (extract_words b ws ≡ unfinished)
  unfolding extract_words
  extract_words-cases ws = elim (join-cases ws) [
    | inl (f, g) ↦ rw (g, f, extract_words) ((λ _. refl, λ _. refl), λ h. cc h)
    | inr (f, g) ↦
        let (defined, ends) = tokenize_line-defined ws in
        rw (g, f, extract_words) ((λ h. absurd (defined h), λ h. cc h), ends)
  ]

  module _ {O F : Type 0} (get_font : O → Option F) (encoding : F → Option (List ℕ → List ℕ)) where
    -- The loop over the words always ends, and the behaviour is undefined for just those documents
    -- of which a word of two bytes or more is collected that ends with a dash, wherever that word
    -- stands.
    pub extract-undefined_iff :
        (pages : List (Page O))
        → ((extract b get_font encoding pages ≡ undefined) ↔ (
            (ws : List (List ℕ)) × (w : List ℕ) × (extract_text get_font encoding pages ≡ some ws)
            × In w ws
            × (is_hyphenated w ≡ true)))
          × ¬ (extract b get_font encoding pages ≡ unfinished)
    unfolding extract
    extract-undefined_iff pages = elim (Option-cases (extract_text get_font encoding pages)) [
      | inl e ↦ rw (e, extract) ((λ h. cc h, λ (_, _, f, _, _). cc f), λ h. cc h)
      | inr (ws, e) ↦
          let (verdict, ends) = extract_words-cases ws in
          rw (e, extract)
            (
              (
                λ h. let (w, m, k) = any-In is_hyphenated ws (verdict.0 h) in (ws, w, refl, m, k),
                λ (vs, w, f, m, k).
                    verdict.1
                      (In-any is_hyphenated ws w (subst (In w) (sym (some-injective ws vs f)) m) k),
              ),
              ends,
            )
    ]

    -- A document without such a word gives the words of the line that its words make, or the
    -- exception of the codec.
    pub extract-defined :
        (pages : List (Page O)) (ws : List (List ℕ))
        → extract_text get_font encoding pages ≡ some ws
        → any is_hyphenated ws ≡ false
        → extract b get_font encoding pages ≡ tokenize_line b ws
    unfolding extract extract_words
    extract-defined pages ws e f = elim (join-cases ws) [
      | inl (g, _) ↦ cc (f, g)
      | inr (_, g) ↦ rw (e, g, extract, extract_words) refl
    ]
