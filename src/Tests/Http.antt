-- ===== src/Tests/Http.antt =====
-- Tests of the server and of the command line.
use vca.Prelude.{arith, ℕ, ◌≡◌, refl, List, [], ◌∷◌, Bool, some, ◌⊎◌, leb, map, All}
use vca.Text.Reference.{reference, split_by, drop_while, trim_right}
use vca.Text.Chars.{space_char}
use vca.Text.Split.{split, trim, trim_chars}
use vca.Utf8.Codec.{narrow_to_wide, decode, lead, is_scalar}
use vca.Utf8.RoundTrip.{utf8}
use vca.Http.Server.{serves, throws, serve, searched_for}
use vca.Http.Command.{reply_to, asks}
use vca.Http.Ports.{IsFirstFree, NoneFree, serve-first}
use vca.Http.Asked.{IsSearchWord, asked-searched}
use vca.Tests.Sample.{red, fox}

-- The ports from 7780 on are free.
abbrev binds : ℕ → Bool
binds port = leb 7780 port

serve-first_example :
    ((p : ℕ) × (serve binds 200 0 7777 ≡ serves p) × IsFirstFree binds 7777 100 p)
    ⊎ ((serve binds 200 0 7777 ≡ throws) × NoneFree binds 7777 100)
serve-first_example = serve-first binds 200 7777 (omega arith)

-- `s  red fox`
abbrev line : List ℕ
line = b's' ∷ b' ' ∷ b' ' ∷ b'r' ∷ b'e' ∷ b'd' ∷ b' ' ∷ b'f' ∷ b'o' ∷ b'x' ∷ []

line_decoded : narrow_to_wide line ≡ some line
unfolding narrow_to_wide decode lead is_scalar
line_decoded = refl

line_split : split reference (trim reference line) space_char ≡ (b's' ∷ []) ∷ red ∷ fox ∷ []
unfolding split trim trim_chars split_by drop_while trim_right
line_split = refl

words-IsSearchWord : All IsSearchWord (red ∷ fox ∷ [])
unfolding is_scalar trim_chars
words-IsSearchWord = (
  (refl, ((refl, refl, refl), ((refl, refl, refl), ((refl, refl, refl), tt)))),
  ((refl, ((refl, refl, refl), ((refl, refl, refl), ((refl, refl, refl), tt)))), tt),
)

asked-searched_example :
    (value : List ℕ) × (reply_to reference line ≡ asks value)
    × (searched_for reference value ≡ some (some (record { words = map utf8 (red ∷ fox ∷ []) })))
asked-searched_example =
    asked-searched reference line line red (fox ∷ []) line_decoded line_split words-IsSearchWord
