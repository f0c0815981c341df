-- ===== src/Text/Words.antt =====
-- What the words are that `tokenize` of core/vca/string.cpp puts out, and that it finds them.
use vca.Prelude.{
  ℕ, ◌≡◌, ◌≤◌, refl, true, false, List, [], ◌∷◌, length, ltb, leb, All, All-Unit, last?, head?,
  All-append, All-map, Bool-cases, inl, inr, arith, contains, ◌⊎◌,
}
use vca.Text.Boost.{Boost}
use vca.Text.Chars.{special_chars, end_of_line_chars, space_char, is_cjk, replace_all, replace-All}
use vca.Text.Split.{trim, delim, split-IsToken, trim-All, trim_ends, Untrimmed}
use vca.Text.Tokenize.{max_word_length, take_cjk, is_numeric, keep_tokens, tokenize}

-- A character that is no separator of words.
abbrev pub IsPlain : ℕ → Type 0
IsPlain c =
    (contains special_chars c ≡ false) × (contains end_of_line_chars c ≡ false) × (is_cjk c ≡ false)

clean_line : List ℕ → List ℕ
clean_line line =
    replace_all (replace_all line special_chars space_char) end_of_line_chars space_char

-- A character that the two replacements leave: no special one and no end of line.
abbrev IsClean : ℕ → Type 0
IsClean c = (contains special_chars c ≡ false) × (contains end_of_line_chars c ≡ false)

space-IsClean : IsClean space_char
unfolding special_chars end_of_line_chars
space-IsClean = (refl, refl)

space-is_cjk : is_cjk space_char ≡ false
unfolding is_cjk
space-is_cjk = refl

pub space-IsPlain : IsPlain space_char
space-IsPlain = (space-IsClean.0, space-IsClean.1, space-is_cjk)

clean_line-All : (line : List ℕ) → All IsClean (clean_line line)
unfolding clean_line
clean_line-All line =
    let none_special =
      replace-All (λ _. Unit {0}) (λ c. contains special_chars c ≡ false) special_chars space_char
        space-IsClean.0 (λ c _ e. e) line (All-Unit line) in
    replace-All (λ c. contains special_chars c ≡ false) IsClean end_of_line_chars space_char
      space-IsClean (λ c p e. (p, e)) _ none_special

-- A word that a single character of the line gives.
abbrev pub IsCjkWord : List ℕ → Type 0
IsCjkWord w = (c : ℕ) × (is_cjk c ≡ true) × (w ≡ 1 ∷ c ∷ [])

take_cjk-words : (s : List ℕ) → All IsCjkWord (take_cjk s).0
unfolding take_cjk
take_cjk-words [] = tt
take_cjk-words (c ∷ s) = elim (Bool-cases (is_cjk c)) [
  | inl e ↦ rw e ((c, e, refl), take_cjk-words s)
  | inr e ↦ rw e (take_cjk-words s)
]

take_cjk-rest : (s : List ℕ) → All IsClean s → All IsPlain (take_cjk s).1
unfolding take_cjk
take_cjk-rest [] h = tt
take_cjk-rest (c ∷ s) h = elim (Bool-cases (is_cjk c)) [
  | inl e ↦ rw e ((space-IsClean.0, space-IsClean.1, space-is_cjk), take_cjk-rest s h.1)
  | inr e ↦ rw e ((h.0.0, h.0.1, e), take_cjk-rest s h.1)
]

-- A character of a token: no separator, and neither U+0001 nor the space.
abbrev pub IsTokenChar : ℕ → Type 0
IsTokenChar c = IsPlain c × (contains (delim space_char) c ≡ false)

module _ (b : Boost) where
  -- A word of two to 32 such characters that is no number, with nothing to trim at its ends.
  pub record IsToken (w : List ℕ) : Type 0 where
    pub long : 2 ≤ length w
    pub short : length w ≤ 32
    pub wordy : is_numeric b w ≡ false
    pub chars : All IsTokenChar w
    pub starts : Untrimmed (head? w)
    pub ends : Untrimmed (last? w)

  trimmed-IsToken :
      (t : List ℕ)
      → All IsTokenChar t
      → leb (length (trim b t)) 1 ≡ false
      → ltb max_word_length (length (trim b t)) ≡ false
      → is_numeric b (trim b t) ≡ false
      → IsToken (trim b t)
  trimmed-IsToken t h long short wordy = record {
    long = ground arith;
    short = ground arith;
    wordy = wordy;
    chars = trim-All b IsTokenChar t h;
    starts = (trim_ends b t).0;
    ends = (trim_ends b t).1;
  }

  keep_tokens-IsToken :
      (ts : List (List ℕ)) → All (All IsTokenChar) ts → All IsToken (keep_tokens b ts)
  unfolding keep_tokens
  keep_tokens-IsToken [] h = tt
  keep_tokens-IsToken (t ∷ ts) h =
      let rest = keep_tokens-IsToken ts h.1 in
      elim (Bool-cases (leb (length (trim b t)) 1)) [
        | inl e ↦ rw e rest
        | inr long ↦ rw long (elim (Bool-cases (ltb max_word_length (length (trim b t)))) [
          | inl e ↦ rw e rest
          | inr short ↦ rw short (elim (Bool-cases (is_numeric b (trim b t))) [
            | inl e ↦ rw e rest
            | inr wordy ↦ rw wordy (trimmed-IsToken t h.0 long short wordy, rest)
          ])
        ])
      ]

  -- Every word is a single Chinese, Japanese or Korean character behind U+0001, or a token of two
  -- to 32 characters that is no number: none of its characters is special, ends a line, is
  -- Chinese, Japanese or Korean, a space or U+0001, and there is nothing to trim at its ends.
  pub tokenize-IsToken : (line : List ℕ) → All (λ w. IsCjkWord w ⊎ IsToken w) (tokenize b line)
  unfolding tokenize clean_line
  tokenize-IsToken line =
      let cjk = take_cjk-words (clean_line line) in
      let rest = take_cjk-rest (clean_line line) (clean_line-All line) in
      let tokens = keep_tokens-IsToken _ (split-IsToken b IsPlain _ space_char rest) in
      All-append (λ w. IsCjkWord w ⊎ IsToken w) _ _ (All-map IsCjkWord (λ w h. inl h) _ cjk)
        (All-map IsToken (λ w h. inr h) _ tokens)
