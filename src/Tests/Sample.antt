-- ===== src/Tests/Sample.antt =====
-- The data of the tests: two words and what `tokenize` asks of them.
use vca.Prelude.{ℕ, refl, List, [], ◌∷◌, arith}
use vca.Text.Chars.{special_chars, end_of_line_chars, is_cjk}
use vca.Text.Split.{trim_chars}
use vca.Text.Tokenize.{is_numeric}
use vca.Text.RoundTrip.{IsWhole}
use vca.Text.Reference.{reference, digits}

abbrev pub red : List ℕ
red = b'r' ∷ b'e' ∷ b'd' ∷ []

abbrev pub fox : List ℕ
fox = b'f' ∷ b'o' ∷ b'x' ∷ []

pub red-IsWhole : IsWhole reference red
unfolding special_chars end_of_line_chars is_cjk trim_chars is_numeric digits
red-IsWhole = record {
  token = record {
    long = omega arith;
    short = omega arith;
    wordy = refl;
    chars = (
      ((refl, refl, refl), refl),
      (((refl, refl, refl), refl), (((refl, refl, refl), refl), tt)),
    );
    starts = refl;
    ends = refl;
  };
  untrimmed = (refl, (refl, (refl, tt)));
}

pub fox-IsWhole : IsWhole reference fox
unfolding special_chars end_of_line_chars is_cjk trim_chars is_numeric digits
fox-IsWhole = record {
  token = record {
    long = omega arith;
    short = omega arith;
    wordy = refl;
    chars = (
      ((refl, refl, refl), refl),
      (((refl, refl, refl), refl), (((refl, refl, refl), refl), tt)),
    );
    starts = refl;
    ends = refl;
  };
  untrimmed = (refl, (refl, (refl, tt)));
}
