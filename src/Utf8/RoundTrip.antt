-- ===== src/Utf8/RoundTrip.antt =====
-- What is written in UTF-8 is read back, and of a text that is cut what is whole is read.
use vca.Prelude.{
  ℕ, zero, suc, ◌≡◌, ◌≤◌, ◌<◌, ◌+◌, ◌*◌, ◌/◌, ◌%◌, refl, ap, ◌∙◌, true, List, [], ◌∷◌, ◌++◌, Option,
  none, some, All, arith, append_assoc, append-nil, ltb, Bool-cases, inl, inr, length, take, ◌⊎◌,
  sym,
}
use vca.Utf8.Codec.{is_scalar, encode, wide_to_narrow, onto, decode, narrow_to_wide}

decode-one : (a : ℕ) (s : List ℕ) → a < 0x80 → decode 0 0 0 (a ∷ s) ≡ onto a (decode 0 0 0 s)
unfolding decode
decode-one a s h = ground arith

decode-two :
    (a : ℕ) (s : List ℕ)
    → 2 ≤ a
    → a < 0x20
    → 0 < length s
    → decode 0 0 0 ((0xc0 + a) ∷ s) ≡ decode 1 a 0x80 s
unfolding decode
decode-two a s g h k = ground arith

decode-three :
    (a : ℕ) (s : List ℕ)
    → a < 0x10
    → 1 < length s
    → decode 0 0 0 ((0xe0 + a) ∷ s) ≡ decode 2 a 0x800 s
unfolding decode
decode-three a s h k = ground arith

decode-four :
    (a : ℕ) (s : List ℕ)
    → a < 5
    → 2 < length s
    → decode 0 0 0 ((0xf0 + a) ∷ s) ≡ decode 3 a 0x10000 s
unfolding decode
decode-four a s h k = ground arith

-- A character of which bytes are missing at the end of the text.
short-two :
    (a : ℕ) (s : List ℕ) → 2 ≤ a → a < 0x20 → length s ≤ 0 → decode 0 0 0 ((0xc0 + a) ∷ s) ≡ some []
unfolding decode
short-two a s g h k = ground arith

short-three :
    (a : ℕ) (s : List ℕ) → a < 0x10 → length s ≤ 1 → decode 0 0 0 ((0xe0 + a) ∷ s) ≡ some []
unfolding decode
short-three a s h k = ground arith

short-four : (a : ℕ) (s : List ℕ) → a < 5 → length s ≤ 2 → decode 0 0 0 ((0xf0 + a) ∷ s) ≡ some []
unfolding decode
short-four a s h k = ground arith

decode-next :
    (k bits least a : ℕ) (s : List ℕ)
    → a < 64
    → decode (suc (suc k)) bits least ((0x80 + a) ∷ s) ≡ decode (suc k) (bits * 64 + a) least s
unfolding decode
decode-next k bits least a s h = ground arith

decode-last :
    (bits least a c : ℕ) (s : List ℕ)
    → a < 64
    → bits * 64 + a ≡ c
    → least ≤ c
    → ltb c 0x110000 ≡ true
    → decode 1 bits least ((0x80 + a) ∷ s) ≡ onto c (decode 0 0 0 s)
unfolding decode
decode-last bits least a c s h e l q = ground arith

abbrev bytes_two : ℕ → List ℕ
bytes_two c = (0xc0 + c / 64) ∷ (0x80 + c % 64) ∷ []

abbrev bytes_three : ℕ → List ℕ
bytes_three c = (0xe0 + c / 4096) ∷ (0x80 + c / 64 % 64) ∷ (0x80 + c % 64) ∷ []

abbrev bytes_four : ℕ → List ℕ
bytes_four c =
    (0xf0 + c / 262144) ∷ (0x80 + c / 4096 % 64) ∷ (0x80 + c / 64 % 64) ∷ (0x80 + c % 64) ∷ []

is_scalar-lt : (c : ℕ) → is_scalar c ≡ true → c < 0x110000
unfolding is_scalar
is_scalar-lt c h = ground arith

in_range : (c : ℕ) → is_scalar c ≡ true → ltb c 0x110000 ≡ true
unfolding is_scalar
in_range c h = ground arith

-- The four forms of a code point.
encode-cases :
    (c : ℕ)
    → is_scalar c ≡ true
    → ((c < 0x80) × (encode c ≡ c ∷ []))
      ⊎ ((0x80 ≤ c) × (c < 0x800) × (encode c ≡ bytes_two c))
      ⊎ ((0x800 ≤ c) × (c < 0x10000) × (encode c ≡ bytes_three c))
      ⊎ ((0x10000 ≤ c) × (c < 0x110000) × (encode c ≡ bytes_four c))
unfolding encode
encode-cases c s = elim (Bool-cases (ltb c 0x80)) [
  | inl e ↦ inl (ground arith, rw e)
  | inr e ↦ elim (Bool-cases (ltb c 0x800)) [
    | inl f ↦ inr (inl (ground arith, ground arith, rw (e, f)))
    | inr f ↦ elim (Bool-cases (ltb c 0x10000)) [
      | inl g ↦ inr (inr (inl (ground arith, ground arith, rw (e, f, g))))
      | inr g ↦ inr (inr (inr (ground arith, is_scalar-lt c s, rw (e, f, g))))
    ]
  ]
]

-- A character that is written is read, whatever follows.
decode-encode :
    (c : ℕ) (s : List ℕ)
    → is_scalar c ≡ true
    → decode 0 0 0 (encode c ++ s) ≡ onto c (decode 0 0 0 s)
decode-encode c s h = elim (encode-cases c h) [
  | inl (lt, e) ↦ rw e (decode-one c s lt)
  | inr (inl (ge, lt, e)) ↦ rw e (
      decode-two (c / 64) ((0x80 + c % 64) ∷ s) (omega arith) (omega arith) (omega arith)
      ∙ decode-last (c / 64) 0x80 (c % 64) c s (omega arith) (omega arith) ge (in_range c h))
  | inr (inr (inl (ge, lt, e))) ↦ rw e (
      decode-three (c / 4096) ((0x80 + c / 64 % 64) ∷ (0x80 + c % 64) ∷ s) (omega arith)
        (omega arith)
      ∙ decode-next 0 (c / 4096) 0x800 (c / 64 % 64) ((0x80 + c % 64) ∷ s) (omega arith)
      ∙ decode-last (c / 4096 * 64 + c / 64 % 64) 0x800 (c % 64) c s (omega arith) (omega arith) ge
          (in_range c h))
  | inr (inr (inr (ge, lt, e))) ↦ rw e (
      decode-four (c / 262144) ((0x80 + c / 4096 % 64) ∷ (0x80 + c / 64 % 64) ∷ (0x80 + c % 64) ∷ s)
        (omega arith) (omega arith)
      ∙ decode-next 1 (c / 262144) 0x10000 (c / 4096 % 64)
          ((0x80 + c / 64 % 64) ∷ (0x80 + c % 64) ∷ s) (omega arith)
      ∙ decode-next 0 (c / 262144 * 64 + c / 4096 % 64) 0x10000 (c / 64 % 64) ((0x80 + c % 64) ∷ s)
          (omega arith)
      ∙ decode-last ((c / 262144 * 64 + c / 4096 % 64) * 64 + c / 64 % 64) 0x10000 (c % 64) c s
          (omega arith) (omega arith) ge (in_range c h))
]

abbrev pub onto_all : List ℕ → Option (List ℕ) → Option (List ℕ)
onto_all w none = none
onto_all w (some s) = some (w ++ s)

onto-onto_all :
    (c : ℕ) (w : List ℕ) (o : Option (List ℕ)) → onto c (onto_all w o) ≡ onto_all (c ∷ w) o
onto-onto_all c w none = refl
onto-onto_all c w (some s) = refl

onto_all-nil : (o : Option (List ℕ)) → o ≡ onto_all [] o
onto_all-nil none = refl
onto_all-nil (some s) = refl

-- The UTF-8 form of a text of Unicode characters.
unfoldable pub utf8 : List ℕ → List ℕ
utf8 [] = []
utf8 (c ∷ wide) = encode c ++ utf8 wide

pub decode-utf8 :
    (wide narrow : List ℕ)
    → All (λ c. is_scalar c ≡ true) wide
    → narrow_to_wide (utf8 wide ++ narrow) ≡ onto_all wide (narrow_to_wide narrow)
unfolding utf8 narrow_to_wide
decode-utf8 [] narrow h = onto_all-nil (decode 0 0 0 narrow)
decode-utf8 (c ∷ wide) narrow h = rw (append_assoc (encode c) (utf8 wide) narrow) (
    decode-encode c (utf8 wide ++ narrow) h.0
    ∙ ap (onto c) (decode-utf8 wide narrow h.1)
    ∙ onto-onto_all c wide (decode 0 0 0 narrow))

-- `wide_to_narrow` writes every text of Unicode characters.
pub wide_to_narrow-utf8 :
    (wide : List ℕ) → All (λ c. is_scalar c ≡ true) wide → wide_to_narrow wide ≡ some (utf8 wide)
unfolding wide_to_narrow utf8
wide_to_narrow-utf8 [] h = refl
wide_to_narrow-utf8 (c ∷ wide) h = rw (wide_to_narrow-utf8 wide h.1, h.0)

pub narrow_to_wide-utf8 :
    (wide : List ℕ) → All (λ c. is_scalar c ≡ true) wide → narrow_to_wide (utf8 wide) ≡ some wide
unfolding narrow_to_wide decode
narrow_to_wide-utf8 wide h =
    ap narrow_to_wide (sym (append-nil (utf8 wide)))
    ∙ decode-utf8 wide [] h
    ∙ ap some (append-nil wide)

-- A text of Unicode characters is written in UTF-8 and read back as it was.
pub narrow_to_wide-wide_to_narrow :
    (wide : List ℕ)
    → All (λ c. is_scalar c ≡ true) wide
    → (narrow : List ℕ) × (wide_to_narrow wide ≡ some narrow) × (narrow_to_wide narrow ≡ some wide)
narrow_to_wide-wide_to_narrow wide h =
    (utf8 wide, wide_to_narrow-utf8 wide h, narrow_to_wide-utf8 wide h)

cut-two :
    (c k : ℕ)
    → 0x80 ≤ c
    → c < 0x800
    → suc k < 2
    → decode 0 0 0 (take (suc k) (bytes_two c)) ≡ some []
unfolding decode
cut-two c zero ge lt less = short-two (c / 64) [] (omega arith) (omega arith) (omega arith)
cut-two c (suc k) ge lt less = absurd (omega arith)

cut-three :
    (c k : ℕ) → c < 0x10000 → suc k < 3 → decode 0 0 0 (take (suc k) (bytes_three c)) ≡ some []
unfolding decode
cut-three c zero lt less = short-three (c / 4096) [] (omega arith) (omega arith)
cut-three c (suc zero) lt less =
    short-three (c / 4096) ((0x80 + c / 64 % 64) ∷ []) (omega arith) (omega arith)
cut-three c (suc (suc k)) lt less = absurd (omega arith)

cut-four :
    (c k : ℕ) → c < 0x110000 → suc k < 4 → decode 0 0 0 (take (suc k) (bytes_four c)) ≡ some []
unfolding decode
cut-four c zero lt less = short-four (c / 262144) [] (omega arith) (omega arith)
cut-four c (suc zero) lt less =
    short-four (c / 262144) ((0x80 + c / 4096 % 64) ∷ []) (omega arith) (omega arith)
cut-four c (suc (suc zero)) lt less =
    short-four (c / 262144) ((0x80 + c / 4096 % 64) ∷ (0x80 + c / 64 % 64) ∷ []) (omega arith)
      (omega arith)
cut-four c (suc (suc (suc k))) lt less = absurd (omega arith)

cut-encode :
    (c k : ℕ)
    → is_scalar c ≡ true
    → suc k < length (encode c)
    → decode 0 0 0 (take (suc k) (encode c)) ≡ some []
cut-encode c k h less = elim (encode-cases c h) [
  | inl (lt, e) ↦ absurd (omega (arith, ap length e))
  | inr (inl (ge, lt, e)) ↦ rw e (cut-two c k ge lt (omega (arith, ap length e)))
  | inr (inr (inl (ge, lt, e))) ↦ rw e (cut-three c k lt (omega (arith, ap length e)))
  | inr (inr (inr (ge, lt, e))) ↦ rw e (cut-four c k lt (omega (arith, ap length e)))
]

-- Of a text that is cut behind the first byte of a character and before its last, the characters
-- before that one are read.
pub narrow_to_wide-cut :
    (wide : List ℕ) (c k : ℕ)
    → All (λ a. is_scalar a ≡ true) wide
    → is_scalar c ≡ true
    → suc k < length (encode c)
    → narrow_to_wide (utf8 wide ++ take (suc k) (encode c)) ≡ some wide
unfolding narrow_to_wide
narrow_to_wide-cut wide c k h q less =
    decode-utf8 wide (take (suc k) (encode c)) h
    ∙ ap (onto_all wide) (cut-encode c k q less)
    ∙ ap some (append-nil wide)
