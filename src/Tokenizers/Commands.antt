-- ===== src/Tokenizers/Commands.antt =====
-- What the loop of daemon/src/tex_tokenizer.cpp leaves of a text.
use vca.Prelude.{
  ℕ, ◌≡◌, refl, ap, ◌∙◌, sym, Bool, true, false, List, [], ◌∷◌, ◌++◌, All, All-append, ◌==◌,
  append_assoc, Bool-cases, inl, inr,
}
use vca.Tokenizers.Tex.{ends_command, is_bracket, text_after, text_of, strip}

-- The value of `is_text` behind some bytes.
unfoldable pub mode_after : Bool → List ℕ → Bool
mode_after is_text [] = is_text
mode_after is_text (c ∷ bytes) = mode_after (text_after is_text c) bytes

-- A file is read piece by piece: what a piece gives depends on the text before it by one flag.
pub strip-append :
    (is_text : Bool) (xs ys : List ℕ)
    → strip is_text (xs ++ ys) ≡ strip is_text xs ++ strip (mode_after is_text xs) ys
unfolding strip mode_after
strip-append is_text [] ys = refl
strip-append is_text (c ∷ xs) ys =
    ap (text_of is_text c ++◌) (strip-append (text_after is_text c) xs ys)
    ∙ sym (append_assoc (text_of is_text c) (strip (text_after is_text c) xs) _)

-- No mark-up: no backslash, bracket or dollar sign.
abbrev pub NoMarkup : ℕ → Type 0
NoMarkup c = ((c == 0x5c) ≡ false) × (is_bracket c ≡ false) × ((c == b'$') ≡ false)

text_of-NoMarkup : (is_text : Bool) (c : ℕ) → All NoMarkup (text_of is_text c)
unfolding text_of
text_of-NoMarkup true c = elim (Bool-cases (c == 0x5c)) [
  | inl e ↦ rw e tt
  | inr e ↦ rw e (elim (Bool-cases (is_bracket c)) [
    | inl f ↦ rw f ((refl, refl, refl), tt)
    | inr f ↦
        rw f (elim (Bool-cases (c == b'$')) [ inl g ↦ rw g tt | inr g ↦ rw g ((e, f, g), tt) ])
  ])
]
text_of-NoMarkup false c = tt

-- No mark-up is left in the text, whatever the file holds.
pub strip-NoMarkup : (is_text : Bool) (bytes : List ℕ) → All NoMarkup (strip is_text bytes)
unfolding strip
strip-NoMarkup is_text [] = tt
strip-NoMarkup is_text (c ∷ bytes) =
    All-append NoMarkup (text_of is_text c) _ (text_of-NoMarkup is_text c)
      (strip-NoMarkup (text_after is_text c) bytes)

-- Plain text stays as it is.
pub strip_self : (bytes : List ℕ) → All NoMarkup bytes → strip true bytes ≡ bytes
unfolding strip text_of text_after
strip_self [] h = refl
strip_self (c ∷ bytes) h = rw (h.0.0, h.0.1, h.0.2) (ap (c ∷◌) (strip_self bytes h.1))

skip :
    (name rest : List ℕ) (c : ℕ)
    → All (λ a. ends_command a ≡ false) name
    → ends_command c ≡ true
    → strip false (name ++ c ∷ rest) ≡ strip true rest
unfolding strip text_of text_after
skip [] rest c h e = rw e
skip (a ∷ name) rest c h e = rw h.0 (skip name rest c h.1 e)

-- A command is dropped: the backslash, its name up to the next space, `{` or `]`, and that
-- character. The text before it stays, and what follows is read as text again.
pub strip-command :
    (text name rest : List ℕ) (c : ℕ)
    → All NoMarkup text
    → All (λ a. ends_command a ≡ false) name
    → ends_command c ≡ true
    → strip true (text ++ 0x5c ∷ (name ++ c ∷ rest)) ≡ text ++ strip true rest
unfolding strip text_of text_after
strip-command [] name rest c p h e = skip name rest c h e
strip-command (a ∷ text) name rest c p h e =
    rw (p.0.0, p.0.1, p.0.2) (ap (a ∷◌) (strip-command text name rest c p.1 h e))
