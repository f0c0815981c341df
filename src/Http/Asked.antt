-- ===== src/Http/Asked.antt =====
-- What command/src/command.cpp asks of daemon/src/http_server.cpp, and what that makes of it.
use vca.Prelude.{
  ℕ, ◌≡◌, refl, ap, sym, ◌∙◌, true, false, not, List, [], ◌∷◌, ◌++◌, some, filter, map, contains,
  All, All-map, All-append, append_assoc, append-nil,
}
use mathlib.Core.Option.{some-injective}
use vca.Text.Boost.{Boost}
use vca.Text.Chars.{space_char}
use vca.Text.Split.{split, trim, trim_chars, trim_self, split-word, split-nil, is_empty, delim}
use vca.Text.RoundTrip.{unwords}
use vca.Utf8.Codec.{is_scalar, encode, decode, narrow_to_wide}
use vca.Utf8.RoundTrip.{utf8, wide_to_narrow-utf8, narrow_to_wide-utf8}
use vca.Http.Server.{narrow_words, from_search, searched_for}
use vca.Http.Command.{asks, value_of, reply_to_search, reply_to_values, reply_to}

abbrev pub IsWordChar : ℕ → Type 0
IsWordChar c =
    (is_scalar c ≡ true) × (contains (delim space_char) c ≡ false) × (contains trim_chars c ≡ false)

-- A word to search for: not empty, without spaces or characters that are trimmed.
abbrev pub IsSearchWord : List ℕ → Type 0
IsSearchWord w = (is_empty w ≡ false) × All IsWordChar w

utf8-append : (v w : List ℕ) → utf8 (v ++ w) ≡ utf8 v ++ utf8 w
unfolding utf8
utf8-append [] w = refl
utf8-append (c ∷ v) w =
    ap (encode c ++◌) (utf8-append v w) ∙ sym (append_assoc (encode c) (utf8 v) (utf8 w))

scalars : (w : List ℕ) → All IsWordChar w → All (λ c. is_scalar c ≡ true) w
scalars w h = All-map IsWordChar (λ c k. k.0) w h

value_of-unwords :
    (ws : List (List ℕ)) (value : List ℕ)
    → All IsSearchWord ws
    → value_of ws value ≡ some (value ++ utf8 (unwords ws))
unfolding value_of unwords utf8 encode
value_of-unwords [] value h = ap some (sym (append-nil value))
value_of-unwords (w ∷ ws) value h =
    let rest = utf8 (unwords ws) in
    rw (wide_to_narrow-utf8 w (scalars w h.0.1), value_of)
      (value_of-unwords ws (value ++ utf8 w ++ b' ' ∷ []) h.1)
    ∙ ap some (
        append_assoc (value ++ utf8 w) (b' ' ∷ []) rest
        ∙ append_assoc value (utf8 w) (b' ' ∷ rest)
        ∙ ap (value ++◌) (sym (utf8-append w (space_char ∷ unwords ws))))

space-scalar : is_scalar space_char ≡ true
unfolding is_scalar
space-scalar = refl

space-kept : contains trim_chars space_char ≡ false
unfolding trim_chars
space-kept = refl

unwords-All :
    (P : ℕ → Type 0) (ws : List (List ℕ)) → P space_char → All (All P) ws → All P (unwords ws)
unfolding unwords
unwords-All P [] h k = tt
unwords-All P (w ∷ ws) h k =
    All-append P w (space_char ∷ unwords ws) k.0 (h, unwords-All P ws h k.1)

narrow_words-utf8 :
    (ws : List (List ℕ)) → All IsSearchWord ws → narrow_words ws ≡ some (map utf8 ws)
unfolding narrow_words
narrow_words-utf8 [] h = refl
narrow_words-utf8 (w ∷ ws) h =
    rw (wide_to_narrow-utf8 w (scalars w h.0.1), narrow_words-utf8 ws h.1, narrow_words) refl

module _ (b : Boost) where
  split-unwords : (ws : List (List ℕ)) → All IsSearchWord ws → split b (unwords ws) space_char ≡ ws
  unfolding unwords
  split-unwords [] h = split-nil b space_char
  split-unwords (w ∷ ws) h =
      split-word b w (unwords ws) space_char (All-map IsWordChar (λ c k. k.1) w h.0.1) h.0.0
      ∙ ap (w ∷◌) (split-unwords ws h.1)

  trimmed :
      (ws : List (List ℕ))
      → All IsSearchWord ws
      → filter (λ v. not (is_empty v)) (map (trim b) ws) ≡ ws
  trimmed [] h = refl
  trimmed (w ∷ ws) h =
      rw (trim_self b w (All-map IsWordChar (λ c k. k.2) w h.0.1), h.0.0)
        (ap (w ∷◌) (trimmed ws h.1))

  searched_for-words :
      (value wide w : List ℕ) (ws narrow : List (List ℕ))
      → narrow_to_wide value ≡ some wide
      → split b (trim b wide) space_char ≡ w ∷ ws
      → narrow_words (filter (λ v. not (is_empty v)) (map (trim b) (w ∷ ws))) ≡ some narrow
      → searched_for b value ≡ some (some (record { words = narrow }))
  unfolding searched_for from_search
  searched_for-words value wide w ws narrow e f g = rw (e, f, g, searched_for, from_search) refl

  searched_for-unwords :
      (w : List ℕ) (ws : List (List ℕ))
      → All IsSearchWord (w ∷ ws)
      → searched_for b (utf8 (unwords (w ∷ ws)))
        ≡ some (some (record { words = map utf8 (w ∷ ws) }))
  searched_for-unwords w ws h =
      let whole = w ∷ ws in
      let kept : All (λ c. contains trim_chars c ≡ false) (unwords whole) =
        unwords-All _ whole space-kept
          (All-map IsSearchWord (λ v k. All-map IsWordChar (λ c n. n.2) v k.1) whole h) in
      let scalar : All (λ c. is_scalar c ≡ true) (unwords whole) =
        unwords-All _ whole space-scalar (All-map IsSearchWord (λ v k. scalars v k.1) whole h) in
      searched_for-words (utf8 (unwords whole)) (unwords whole) w ws (map utf8 whole)
        (narrow_to_wide-utf8 (unwords whole) scalar)
        (ap (λ s. split b s space_char) (trim_self b (unwords whole) kept) ∙ split-unwords whole h)
        (ap narrow_words (trimmed whole h) ∙ narrow_words-utf8 whole h)

  reply_to-words :
      (input wide : List ℕ) (v : List ℕ) (values : List (List ℕ))
      → narrow_to_wide input ≡ some wide
      → split b (trim b wide) space_char ≡ v ∷ values
      → reply_to b input ≡ reply_to_values (v ∷ values)
  unfolding reply_to narrow_to_wide decode
  reply_to-words [] wide v values e f =
      let nothing : wide ≡ [] = sym (some-injective _ wide e) in
      let none_left =
        ap (λ s. split b (trim b s) space_char) nothing
        ∙ ap (λ s. split b s space_char) (trim_self b [] tt)
        ∙ split-nil b space_char in
      cc (none_left, f)
  reply_to-words (c ∷ input) wide v values e f = rw (e, f, reply_to) refl

  -- A line that begins with the command `s`: the program asks, and the server searches for just the
  -- words behind it, in UTF-8.
  pub asked-searched :
      (input wide w : List ℕ) (ws : List (List ℕ))
      → narrow_to_wide input ≡ some wide
      → split b (trim b wide) space_char ≡ (b's' ∷ []) ∷ w ∷ ws
      → All IsSearchWord (w ∷ ws)
      → (value : List ℕ) × (reply_to b input ≡ asks value)
        × (searched_for b value ≡ some (some (record { words = map utf8 (w ∷ ws) })))
  unfolding reply_to_values reply_to_search
  asked-searched input wide w ws e f h = (
    utf8 (unwords (w ∷ ws)),
    reply_to-words input wide (b's' ∷ []) (w ∷ ws) e f
        ∙ (rw (value_of-unwords (w ∷ ws) [] h, reply_to_search) refl),
    searched_for-unwords w ws h,
  )
