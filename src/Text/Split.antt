-- ===== src/Text/Split.antt =====
-- `split` and `trim` of core/vca/string.cpp over the calls of Boost that they make.
use vca.Prelude.{
  subst, append-nil, ℕ, ◌≡◌, refl, ap, sym, ◌∙◌, Bool, true, false, not, List, [], ◌∷◌, ◌++◌,
  filter, contains, All, All-append_left, All-append_right, All-filter, Bool-cases, inl, inr, arith,
  last?, head?, Option, none, some, flatten,
}
use vca.Text.Boost.{Boost}

abbrev pub is_empty : List ℕ → Bool
is_empty [] = true
is_empty (c ∷ s) = false

-- `String{1, delimiter}` is the text of the two characters U+0001 and `delimiter`.
abbrev pub delim : ℕ → List ℕ
delim delimiter = 1 ∷ delimiter ∷ []

unfoldable pub trim_chars : List ℕ
trim_chars =
    0x2000 ∷ 0x2001 ∷ 0x2002 ∷ 0x2003 ∷ 0x2004 ∷ 0x2005 ∷ 0x2006 ∷ 0x2007 ∷ 0x2009 ∷ 0x200a ∷ 0x2028
    ∷ 0x2029 ∷ 0x202f ∷ 0x205f ∷ 0x3000 ∷ []

-- A character at an end of a text, if there is one, is not to be trimmed.
abbrev pub Untrimmed : Option ℕ → Type 0
Untrimmed none = Unit
Untrimmed (some c) = contains trim_chars c ≡ false

module _ (b : Boost) where
  unfoldable pub split : List ℕ → ℕ → List (List ℕ)
  split str delimiter = filter (λ s. not (is_empty s)) (b.split (contains (delim delimiter)) str)

  unfoldable pub trim : List ℕ → List ℕ
  trim str = b.trim_if (contains trim_chars) str

  split-cons :
      (p : ℕ → Bool) (s : List ℕ) → (t : List ℕ) × (ts : List (List ℕ)) × (b.split p s ≡ t ∷ ts)
  split-cons p [] = ([], [], b.split_nil p)
  split-cons p (c ∷ s) = elim (Bool-cases (p c)) [
    | inl e ↦ ([], b.split p s, b.split_delimiter p c s e)
    | inr e ↦ let (t, ts, h) = split-cons p s in (c ∷ t, ts, b.split_other p c s t ts e h)
  ]

  flatten-split : (p : ℕ → Bool) (s : List ℕ) → flatten (b.split p s) ≡ filter (λ c. not (p c)) s
  unfolding flatten
  flatten-split p [] = rw (b.split_nil p)
  flatten-split p (c ∷ s) = elim (Bool-cases (p c)) [
    | inl e ↦ rw (b.split_delimiter p c s e, e) (flatten-split p s)
    | inr e ↦
        let (t, ts, h) = split-cons p s in
        rw (b.split_other p c s t ts e h, e) (ap (c ∷◌) (ap flatten (sym h) ∙ flatten-split p s))
  ]

  flatten-filter : (ts : List (List ℕ)) → flatten (filter (λ s. not (is_empty s)) ts) ≡ flatten ts
  unfolding flatten
  flatten-filter [] = refl
  flatten-filter ([] ∷ ts) = flatten-filter ts
  flatten-filter ((c ∷ t) ∷ ts) = ap (◌++◌ (c ∷ t)) (flatten-filter ts)

  -- The tokens, one after the other, are the text less its delimiters: no other character is
  -- lost, moved or made up. The delimiters are U+0001 and the one that is asked for.
  pub flatten-split_filter :
      (str : List ℕ) (delimiter : ℕ)
      → flatten (split str delimiter) ≡ filter (λ c. not (contains (delim delimiter) c)) str
  unfolding split
  flatten-split_filter str delimiter =
      flatten-filter (b.split (contains (delim delimiter)) str)
      ∙ flatten-split (contains (delim delimiter)) str

  -- Each token is free of the delimiters.
  split-All :
      (P : ℕ → Type 0) (p : ℕ → Bool) (s : List ℕ)
      → All P s
      → All (All (λ c. P c × (p c ≡ false))) (b.split p s)
  split-All P p [] h = rw (b.split_nil p) (tt, tt)
  split-All P p (c ∷ s) h = elim (Bool-cases (p c)) [
    | inl e ↦ rw (b.split_delimiter p c s e) (tt, split-All P p s h.1)
    | inr e ↦
        let (t, ts, q) = split-cons p s in
        let rest : All (All (λ c. P c × (p c ≡ false))) (t ∷ ts) = rw q at (split-All P p s h.1) in
        rw (b.split_other p c s t ts e q) (((h.0, e), rest.0), rest.1)
  ]

  pub split-IsToken :
      (P : ℕ → Type 0) (str : List ℕ) (delimiter : ℕ)
      → All P str
      → All (All (λ c. P c × (contains (delim delimiter) c ≡ false))) (split str delimiter)
  unfolding split
  split-IsToken P str delimiter h =
      All-filter (All (λ c. P c × (contains (delim delimiter) c ≡ false))) _ _
        (split-All P (contains (delim delimiter)) str h)

  -- A text without delimiters is one token, up to the first delimiter.
  split-append :
      (p : ℕ → Bool) (w s : List ℕ) (c : ℕ)
      → All (λ a. p a ≡ false) w
      → p c ≡ true
      → b.split p (w ++ c ∷ s) ≡ w ∷ b.split p s
  split-append p [] s c h e = b.split_delimiter p c s e
  split-append p (a ∷ w) s c h e =
      b.split_other p a (w ++ c ∷ s) w (b.split p s) h.0 (split-append p w s c h.1 e)

  pub split-word :
      (w s : List ℕ) (d : ℕ)
      → All (λ a. contains (delim d) a ≡ false) w
      → is_empty w ≡ false
      → split (w ++ d ∷ s) d ≡ w ∷ split s d
  unfolding split
  split-word w s d h e = rw (split-append (contains (delim d)) w s d h (ground arith), e)

  pub split-nil : (d : ℕ) → split [] d ≡ []
  unfolding split
  split-nil d = rw (b.split_nil (contains (delim d)))

  -- Trimming keeps what holds of every character, and leaves no character to trim at the ends.
  pub trim-All : (P : ℕ → Type 0) (s : List ℕ) → All P s → All P (trim s)
  unfolding trim
  trim-All P s h =
      let (l, r, hl, hr, e) = b.trim_if_parts (contains trim_chars) s in
      All-append_left P _ r (All-append_right P l _ (subst (All P) e h))

  All-and_none :
      (p : ℕ → Bool) (l s : List ℕ)
      → All (λ c. p c ≡ true) l
      → All (λ c. p c ≡ false) (l ++ s)
      → l ≡ []
  All-and_none p [] s h k = refl
  All-and_none p (c ∷ l) s h k = ground arith

  pub trim_self : (s : List ℕ) → All (λ c. contains trim_chars c ≡ false) s → trim s ≡ s
  unfolding trim
  trim_self s h =
      let p : ℕ → Bool = contains trim_chars in
      let (l, r, hl, hr, e) = b.trim_if_parts p s in
      let whole : All (λ c. p c ≡ false) (l ++ (b.trim_if p s ++ r)) =
        subst (All (λ c. p c ≡ false)) e h in
      let no_l : l ≡ [] = All-and_none p l _ hl whole in
      let no_r : r ≡ [] = All-and_none p r [] hr (
        rw append-nil (
          All-append_right (λ c. p c ≡ false) (b.trim_if p s) r
            (All-append_right (λ c. p c ≡ false) l _ whole))) in
      sym (
        e
        ∙ ap (λ q. q ++ (b.trim_if p s ++ r)) no_l
        ∙ ap (λ q. b.trim_if p s ++ q) no_r
        ∙ append-nil (b.trim_if p s))

  Untrimmed-head :
      (w : List ℕ)
      → ((c : ℕ) (t : List ℕ) → w ≡ c ∷ t → contains trim_chars c ≡ false)
      → Untrimmed (head? w)
  Untrimmed-head [] h = tt
  Untrimmed-head (c ∷ t) h = h c t refl

  Untrimmed-some :
      (o : Option ℕ) → ((c : ℕ) → o ≡ some c → contains trim_chars c ≡ false) → Untrimmed o
  Untrimmed-some none h = tt
  Untrimmed-some (some c) h = h c refl

  -- What stands at an end of a trimmed text is no character to trim.
  pub trim_ends : (s : List ℕ) → Untrimmed (head? (trim s)) × Untrimmed (last? (trim s))
  unfolding trim
  trim_ends s = (
    Untrimmed-head _ (λ c t. b.trim_if_head (contains trim_chars) s t c),
    Untrimmed-some _ (b.trim_if_last (contains trim_chars) s),
  )
