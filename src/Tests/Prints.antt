-- ===== src/Tests/Prints.antt =====
-- Tests of fingerprints.
use vca.Prelude.{ℕ, zero, suc, ◌≡◌, refl, ap, List, [], ◌∷◌, arith, length, map, flatten}
use vca.Paths.Fingerprint.{crc_count, from_stream}
use vca.Paths.Sampling.{sampled_crcs, from_stream-sampled}
use vca.Paths.Parts.{parts, from_stream-parts}

sevens : ℕ → List ℕ
sevens zero = []
sevens (suc n) = 7 ∷ sevens n

length-sevens : (n : ℕ) → length (sevens n) ≡ n
unfolding sevens
length-sevens zero = refl
length-sevens (suc n) = ap suc (length-sevens n)

abbrev weight : List ℕ → ℕ
weight s = length s

from_stream-sampled_example :
    (from_stream weight weight [] (sevens 64) (sevens 10000) (length (sevens 10000)) 0).crc
    ≡ sampled_crcs (sevens 10000) weight weight crc_count 0
from_stream-sampled_example =
    from_stream-sampled (sevens 10000) weight weight [] (sevens 64) 0
      (omega (arith, length-sevens 10000)) (omega (arith, length-sevens 10000)) (length-sevens 64)

from_stream-parts_example :
    ((from_stream weight weight [] [] (sevens 20) (length (sevens 20)) 0).crc
      ≡ map weight (parts (sevens 20) crc_count 0))
    × (flatten (parts (sevens 20) crc_count 0) ≡ sevens 20)
from_stream-parts_example =
    from_stream-parts (sevens 20) weight weight [] [] 0 (omega (arith, length-sevens 20))
      (omega (arith, length-sevens 20))
