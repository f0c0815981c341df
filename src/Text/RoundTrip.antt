-- ===== src/Text/RoundTrip.antt =====
-- `tokenize` of core/vca/string.cpp reads back the words of a line.
use vca.Prelude.{
  ℕ, ◌≡◌, refl, ap, ◌∙◌, ◌≤◌, false, List, [], ◌∷◌, ◌++◌, All, All-append, All-map, contains, arith,
  length,
}
use vca.Text.Boost.{Boost}
use vca.Text.Chars.{special_chars, end_of_line_chars, space_char, is_cjk, replace_self}
use vca.Text.Split.{split, is_empty, trim_chars, split-word, split-nil, trim_self}
use vca.Text.Tokenize.{take_cjk, keep_tokens, tokenize}
use vca.Text.Words.{IsPlain, IsToken, space-IsPlain}

-- The words of a line, each with a space behind it.
unfoldable pub unwords : List (List ℕ) → List ℕ
unwords [] = []
unwords (w ∷ ws) = w ++ space_char ∷ unwords ws

take_cjk_self : (s : List ℕ) → All (λ c. is_cjk c ≡ false) s → take_cjk s ≡ ([], s)
unfolding take_cjk
take_cjk_self [] h = refl
take_cjk_self (c ∷ s) h = rw (take_cjk_self s h.1, h.0)

module _ (b : Boost) where
  -- A token with no character to trim anywhere, so that it is a token as it stands.
  pub record IsWhole (w : List ℕ) : Type 0 where
    pub token : IsToken b w
    pub untrimmed : All (λ c. contains trim_chars c ≡ false) w

  unwords-IsPlain : (ws : List (List ℕ)) → All IsWhole ws → All IsPlain (unwords ws)
  unfolding unwords
  unwords-IsPlain [] h = tt
  unwords-IsPlain (w ∷ ws) h =
      All-append IsPlain w _ (All-map _ (λ c p. p.0) w h.0.token.chars)
        (space-IsPlain, unwords-IsPlain ws h.1)

  IsToken-not_empty : (w : List ℕ) → IsToken b w → is_empty w ≡ false
  IsToken-not_empty [] h = absurd (omega (arith, h.long))
  IsToken-not_empty (c ∷ w) h = refl

  split-unwords : (ws : List (List ℕ)) → All IsWhole ws → split b (unwords ws) space_char ≡ ws
  unfolding unwords
  split-unwords [] h = split-nil b space_char
  split-unwords (w ∷ ws) h =
      split-word b w (unwords ws) space_char (All-map _ (λ c p. p.1) w h.0.token.chars)
        (IsToken-not_empty w h.0.token)
      ∙ ap (w ∷◌) (split-unwords ws h.1)

  keep_tokens_self : (ws : List (List ℕ)) → All IsWhole ws → keep_tokens b ws ≡ ws
  unfolding keep_tokens
  keep_tokens_self [] h = refl
  keep_tokens_self (w ∷ ws) h =
      let t = h.0.token in
      let long : 2 ≤ length w = t.long in
      let short : length w ≤ 32 = t.short in
      rw (trim_self b w h.0.untrimmed, t.wordy) (ground (arith, keep_tokens_self ws h.1))

  -- The words of a line are what `tokenize` finds in it, in order and each as often as it stands
  -- there, if each is a token and holds no character that `trim` takes off.
  pub tokenize-unwords : (ws : List (List ℕ)) → All IsWhole ws → tokenize b (unwords ws) ≡ ws
  unfolding tokenize
  tokenize-unwords ws h =
      let plain = unwords-IsPlain ws h in
      rw
        (
          replace_self special_chars space_char (unwords ws) (All-map _ (λ c p. p.0) _ plain),
          replace_self end_of_line_chars space_char (unwords ws) (All-map _ (λ c p. p.1) _ plain),
          take_cjk_self (unwords ws) (All-map _ (λ c p. p.2) _ plain),
          split-unwords ws h,
        )
        (keep_tokens_self ws h)
