-- ===== src/Text/Chars.antt =====
-- The character classes of core/vca/string.cpp and `replace_all`, which maps a class to one
-- character.
use vca.Prelude.{
  ℕ, ◌≡◌, refl, ap, Bool, true, false, ◌&&◌, List, [], ◌∷◌, map, leb, if◌then◌else◌, contains,
  length, length-map, All, All-Unit, if-elim, ◌++◌,
}

unfoldable pub special_chars : List ℕ
special_chars =
    0x3001 ∷ 0xff1f ∷ 0xff09 ∷ 0x2026 ∷ 0xff08 ∷ 0x3002 ∷ 0xff0c ∷ 0x9 ∷ 0x3e ∷ 0x3c ∷ 0x2019 ∷ 0x27
    ∷ 0x22 ∷ 0x7c ∷ 0x3d ∷ 0x201d ∷ 0x2b ∷ 0x201c ∷ 0xb7 ∷ 0x2a ∷ 0x2018 ∷ 0x26 ∷ 0x2f ∷ 0x5e ∷ 0x25
    ∷ 0x24 ∷ 0x23 ∷ 0x40 ∷ 0x60 ∷ 0x300b ∷ 0x7e ∷ 0x300a ∷ 0x7d ∷ 0x7b ∷ 0x29 ∷ 0x28 ∷ 0x3a ∷ 0x3b
    ∷ 0x21 ∷ 0x3f ∷ 0x5d ∷ 0x2e ∷ 0x5b ∷ 0x2c ∷ 0x5c ∷ 0x2d ∷ 0x5f ∷ []

unfoldable pub end_of_line_chars : List ℕ
end_of_line_chars = 0xa ∷ 0xb ∷ 0xc ∷ 0xd ∷ 0x85 ∷ 0x2028 ∷ 0x2029 ∷ []

abbrev pub line_feed_char : ℕ
line_feed_char = 0xa

abbrev pub space_char : ℕ
space_char = 0x20

-- Chinese, Japanese and Korean.
unfoldable pub is_cjk : ℕ → Bool
is_cjk c =
    if leb 0x4e00 c && leb c 0x9fff
    then true
    else if leb 0x3040 c && leb c 0x30ff
    then true
    else if leb 0xac00 c && leb c 0xd7a3
    then true
    else false

unfoldable pub replace_all : List ℕ → List ℕ → ℕ → List ℕ
replace_all str chars with_ = map (λ c. if contains chars c then with_ else c) str

-- What holds of the new character, and of each old one outside of the class, holds of all.
pub replace-All :
    (P Q : ℕ → Type 0) (chars : List ℕ) (with_ : ℕ)
    → Q with_
    → ((c : ℕ) → P c → contains chars c ≡ false → Q c)
    → (s : List ℕ) → All P s
    → All Q (replace_all s chars with_)
unfolding replace_all
replace-All P Q chars with_ new old [] h = tt
replace-All P Q chars with_ new old (c ∷ s) h = (
  if-elim Q (contains chars c) with_ c (λ _. new) (old c h.0),
  replace-All P Q chars with_ new old s h.1,
)

-- A text without characters of the class stays as it is.
pub replace_self :
    (chars : List ℕ) (with_ : ℕ) (s : List ℕ)
    → All (λ c. contains chars c ≡ false) s
    → replace_all s chars with_ ≡ s
unfolding replace_all
replace_self chars with_ [] h = refl
replace_self chars with_ (c ∷ s) h = rw h.0 (ap (c ∷◌) (replace_self chars with_ s h.1))

-- Characters are replaced one by one: the result is as long as the text, holds none of the class
-- if the new character is not of it, and a second pass changes nothing.
pub replace_all-idempotent :
    (chars : List ℕ) (with_ : ℕ) (s : List ℕ)
    → contains chars with_ ≡ false
    → (length (replace_all s chars with_) ≡ length s)
      × All (λ c. contains chars c ≡ false) (replace_all s chars with_)
      × (replace_all (replace_all s chars with_) chars with_ ≡ replace_all s chars with_)
unfolding replace_all
replace_all-idempotent chars with_ s h =
    let clean =
      replace-All (λ c. Unit {0}) (λ c. contains chars c ≡ false) chars with_ h (λ c _ e. e) s
        (All-Unit s) in
    (length-map _ s, clean, replace_self chars with_ (replace_all s chars with_) clean)

pub replace-append :
    (chars : List ℕ) (with_ : ℕ) (xs ys : List ℕ)
    → replace_all (xs ++ ys) chars with_ ≡ replace_all xs chars with_ ++ replace_all ys chars with_
unfolding replace_all
replace-append chars with_ [] ys = refl
replace-append chars with_ (x ∷ xs) ys =
    ap (◌∷◌ (if contains chars x then with_ else x)) (replace-append chars with_ xs ys)
