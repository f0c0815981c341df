-- ===== src/Tests/Codec.antt =====
-- Tests of the UTF-8 conversion.
use vca.Prelude.{ℕ, ◌≡◌, refl, List, [], ◌∷◌, ◌++◌, none, some, take, arith}
use vca.Utf8.Codec.{is_scalar, encode, wide_to_narrow, narrow_to_wide, decode}
use vca.Utf8.RoundTrip.{utf8, narrow_to_wide-wide_to_narrow, narrow_to_wide-cut}

-- The text of core/test/string_test.cpp, `你好, k`.
abbrev hello : List ℕ
hello = 0x4f60 ∷ 0x597d ∷ b',' ∷ b' ' ∷ b'k' ∷ []

wide_to_narrow_run : wide_to_narrow (0x4f60 ∷ []) ≡ some (0xe4 ∷ 0xbd ∷ 0xa0 ∷ [])
unfolding wide_to_narrow encode is_scalar
wide_to_narrow_run = refl

overlong_refused : narrow_to_wide (0xc0 ∷ 0x80 ∷ []) ≡ none
unfolding narrow_to_wide decode
overlong_refused = refl

narrow_to_wide-wide_to_narrow_example :
    (narrow : List ℕ) × (wide_to_narrow hello ≡ some narrow) × (narrow_to_wide narrow ≡ some hello)
unfolding is_scalar
narrow_to_wide-wide_to_narrow_example =
    narrow_to_wide-wide_to_narrow hello (refl, (refl, (refl, (refl, (refl, tt)))))

narrow_to_wide-cut_example :
    narrow_to_wide (utf8 (b'k' ∷ []) ++ take 2 (encode 0x4f60)) ≡ some (b'k' ∷ [])
unfolding is_scalar encode
narrow_to_wide-cut_example = narrow_to_wide-cut (b'k' ∷ []) 0x4f60 1 (refl, tt) refl (omega arith)

-- A first byte that asks for more bytes than are left ends the conversion, and a surrogate is read.
short_run : narrow_to_wide (0xe4 ∷ 0x41 ∷ []) ≡ some []
unfolding narrow_to_wide decode
short_run = refl

surrogate_run : narrow_to_wide (0xed ∷ 0xa0 ∷ 0x80 ∷ []) ≡ some (0xd800 ∷ [])
unfolding narrow_to_wide decode
surrogate_run = refl
