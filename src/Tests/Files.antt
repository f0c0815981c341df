-- ===== src/Tests/Files.antt =====
-- Tests of the reading of whole files.
use vca.Prelude.{◌≡◌, refl, List, [], ◌∷◌, some, false, arith, flatten}
use vca.Text.Reference.{reference}
use vca.Utf8.Codec.{is_scalar, encode}
use vca.Utf8.RoundTrip.{utf8}
use vca.Tokenizers.Txt.{extract}
use vca.Tokenizers.Lines.{Broken, unlines, file_lines}
use vca.Tokenizers.Files.{extract_file}
use vca.Tests.Sample.{red, fox, red-IsWhole, fox-IsWhole}

-- `re-` and `d` on two lines, then `fox`.
abbrev story : List Broken
story =
    record { parts = (b'r' ∷ b'e' ∷ []) ∷ []; rest = b'd' ∷ [] }
    ∷ record { parts = []; rest = fox }
    ∷ []

extract_file_example :
    extract reference false (some (utf8 (unlines (file_lines story)))) ≡ red ∷ fox ∷ []
unfolding is_scalar unlines file_lines utf8 encode flatten
extract_file_example =
    extract_file reference story
      (
        record { whole = red-IsWhole; finished = refl },
        (record { whole = fox-IsWhole; finished = refl }, tt),
      )
      (refl, (refl, (refl, (refl, (refl, (refl, (refl, (refl, (refl, (refl, tt))))))))))
      (omega arith)
