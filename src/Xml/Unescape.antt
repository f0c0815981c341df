-- ===== src/Xml/Unescape.antt =====
-- `xml_unescape` of core/vca/string.cpp.
use vca.Prelude.{
  sym, append-nil, All-append, ℕ, ◌≡◌, refl, ◌∙◌, ap, false, List, [], ◌∷◌, ◌++◌, All, ◌==◌,
  starts_with,
}
use vca.Text.Boost.{Boost}

-- The entries of the map in the order of its keys, in which the loop meets them: each entity
-- with the text that it stands for.
unfoldable pub str_map : List (List ℕ × List ℕ)
str_map =
    (b'&' ∷ b'a' ∷ b'm' ∷ b'p' ∷ b';' ∷ [], b'&' ∷ [])
    ∷ (b'&' ∷ b'a' ∷ b'p' ∷ b'o' ∷ b's' ∷ b';' ∷ [], 0x27 ∷ [])
    ∷ (b'&' ∷ b'g' ∷ b't' ∷ b';' ∷ [], b'>' ∷ [])
    ∷ (b'&' ∷ b'l' ∷ b't' ∷ b';' ∷ [], b'<' ∷ [])
    ∷ (b'&' ∷ b'q' ∷ b'u' ∷ b'o' ∷ b't' ∷ b';' ∷ [], 0x22 ∷ [])
    ∷ []

module _ (b : Boost) where
  -- The loop over the map.
  unfoldable pub unescape_by : List (List ℕ × List ℕ) → List ℕ → List ℕ
  unescape_by [] text = text
  unescape_by ((from, to) ∷ m) text = unescape_by m (b.replace_all text from to)

  unfoldable pub xml_unescape : List ℕ → List ℕ
  xml_unescape text = unescape_by str_map text

-- A character that begins no entity.
abbrev pub IsPlain : ℕ → Type 0
IsPlain c = (b'&' == c) ≡ false

abbrev pub lt_name : List ℕ
lt_name = b'l' ∷ b't' ∷ b';' ∷ []

module _ (b : Boost) where
  -- What holds no `&` is left as it is.
  replace-plain :
      (name to text rest : List ℕ)
      → All IsPlain text
      → b.replace_all (text ++ rest) (b'&' ∷ name) to ≡ text ++ b.replace_all rest (b'&' ∷ name) to
  replace-plain name to [] rest h = refl
  replace-plain name to (c ∷ text) rest h =
      b.replace_all_miss c (text ++ rest) (b'&' ∷ name) to (rw h.0)
      ∙ ap (c ∷◌) (replace-plain name to text rest h.1)

  replace_self :
      (name to text : List ℕ) → All IsPlain text → b.replace_all text (b'&' ∷ name) to ≡ text
  replace_self name to text h =
      ap (λ s. b.replace_all s (b'&' ∷ name) to) (sym (append-nil text))
      ∙ replace-plain name to text [] h
      ∙ ap (text ++◌) (b.replace_all_nil (b'&' ∷ name) to)
      ∙ append-nil text

  -- Another entity than the one looked for stays.
  replace-other :
      (name to other text : List ℕ)
      → starts_with (b'&' ∷ name) (b'&' ∷ (other ++ text)) ≡ false
      → All IsPlain other
      → All IsPlain text
      → b.replace_all (b'&' ∷ (other ++ text)) (b'&' ∷ name) to ≡ b'&' ∷ (other ++ text)
  replace-other name to other text e h k =
      b.replace_all_miss b'&' (other ++ text) (b'&' ∷ name) to e
      ∙ ap (b'&' ∷◌) (replace_self name to (other ++ text) (All-append IsPlain other text h k))

  replace-hit :
      (name to text : List ℕ)
      → All IsPlain text
      → b.replace_all (b'&' ∷ (name ++ text)) (b'&' ∷ name) to ≡ to ++ text
  replace-hit name to text h =
      b.replace_all_hit (b'&' ∷ name) to text (λ e. cc) ∙ ap (to ++◌) (replace_self name to text h)

  -- A text without `&` is left as it is.
  pub xml_unescape_self : (text : List ℕ) → All IsPlain text → xml_unescape b text ≡ text
  unfolding xml_unescape unescape_by str_map
  xml_unescape_self text h = simp (replace_self _ _ text h)

  -- Text that is escaped once is unescaped twice: `&amp;lt;`, which is XML for `&lt;`, becomes `<`,
  -- whatever plain text follows, because `&amp;` is the first entity to be replaced.
  pub xml_unescape-twice :
      (text : List ℕ)
      → All IsPlain text
      → xml_unescape b (b'&' ∷ b'a' ∷ b'm' ∷ b'p' ∷ b';' ∷ (lt_name ++ text)) ≡ b'<' ∷ text
  unfolding xml_unescape unescape_by str_map
  xml_unescape-twice text h =
      let plain : All IsPlain (lt_name ++ text) = (refl, (refl, (refl, h))) in
      rw
        (
          replace-hit (b'a' ∷ b'm' ∷ b'p' ∷ b';' ∷ []) (b'&' ∷ []) (lt_name ++ text) plain,
          replace-other _ (0x27 ∷ []) lt_name text refl (refl, (refl, (refl, tt))) h,
          replace-other _ (b'>' ∷ []) lt_name text refl (refl, (refl, (refl, tt))) h,
          replace-hit lt_name (b'<' ∷ []) text h,
          replace_self _ (0x22 ∷ []) (b'<' ∷ text) (refl, h),
        )
        refl
