-- ===== src/CaseMappings/Tables/Upper6.antt =====
-- Part 6 of the table of `lower_to_upper_map` of core/vca/case_mappings.cpp, in the source's order:
-- lines 306 to 364, 177 pairs of code points.
use vca.Prelude.{ℕ, List, [], ◌∷◌}

unfoldable pub lower_to_upper_6 : List (ℕ × ℕ)
lower_to_upper_6 =
    (0x2c8d, 0x2c8c)
    ∷ (0x2c8f, 0x2c8e)
    ∷ (0x2c91, 0x2c90)
    ∷ (0x2c93, 0x2c92)
    ∷ (0x2c95, 0x2c94)
    ∷ (0x2c97, 0x2c96)
    ∷ (0x2c99, 0x2c98)
    ∷ (0x2c9b, 0x2c9a)
    ∷ (0x2c9d, 0x2c9c)
    ∷ (0x2c9f, 0x2c9e)
    ∷ (0x2ca1, 0x2ca0)
    ∷ (0x2ca3, 0x2ca2)
    ∷ (0x2ca5, 0x2ca4)
    ∷ (0x2ca7, 0x2ca6)
    ∷ (0x2ca9, 0x2ca8)
    ∷ (0x2cab, 0x2caa)
    ∷ (0x2cad, 0x2cac)
    ∷ (0x2caf, 0x2cae)
    ∷ (0x2cb1, 0x2cb0)
    ∷ (0x2cb3, 0x2cb2)
    ∷ (0x2cb5, 0x2cb4)
    ∷ (0x2cb7, 0x2cb6)
    ∷ (0x2cb9, 0x2cb8)
    ∷ (0x2cbb, 0x2cba)
    ∷ (0x2cbd, 0x2cbc)
    ∷ (0x2cbf, 0x2cbe)
    ∷ (0x2cc1, 0x2cc0)
    ∷ (0x2cc3, 0x2cc2)
    ∷ (0x2cc5, 0x2cc4)
    ∷ (0x2cc7, 0x2cc6)
    ∷ (0x2cc9, 0x2cc8)
    ∷ (0x2ccb, 0x2cca)
    ∷ (0x2ccd, 0x2ccc)
    ∷ (0x2ccf, 0x2cce)
    ∷ (0x2cd1, 0x2cd0)
    ∷ (0x2cd3, 0x2cd2)
    ∷ (0x2cd5, 0x2cd4)
    ∷ (0x2cd7, 0x2cd6)
    ∷ (0x2cd9, 0x2cd8)
    ∷ (0x2cdb, 0x2cda)
    ∷ (0x2cdd, 0x2cdc)
    ∷ (0x2cdf, 0x2cde)
    ∷ (0x2ce1, 0x2ce0)
    ∷ (0x2ce3, 0x2ce2)
    ∷ (0x2cec, 0x2ceb)
    ∷ (0x2cee, 0x2ced)
    ∷ (0x2cf3, 0x2cf2)
    ∷ (0x2d00, 0x10a0)
    ∷ (0x2d01, 0x10a1)
    ∷ (0x2d02, 0x10a2)
    ∷ (0x2d03, 0x10a3)
    ∷ (0x2d04, 0x10a4)
    ∷ (0x2d05, 0x10a5)
    ∷ (0x2d06, 0x10a6)
    ∷ (0x2d07, 0x10a7)
    ∷ (0x2d08, 0x10a8)
    ∷ (0x2d09, 0x10a9)
    ∷ (0x2d0a, 0x10aa)
    ∷ (0x2d0b, 0x10ab)
    ∷ (0x2d0c, 0x10ac)
    ∷ (0x2d0d, 0x10ad)
    ∷ (0x2d0e, 0x10ae)
    ∷ (0x2d0f, 0x10af)
    ∷ (0x2d10, 0x10b0)
    ∷ (0x2d11, 0x10b1)
    ∷ (0x2d12, 0x10b2)
    ∷ (0x2d13, 0x10b3)
    ∷ (0x2d14, 0x10b4)
    ∷ (0x2d15, 0x10b5)
    ∷ (0x2d16, 0x10b6)
    ∷ (0x2d17, 0x10b7)
    ∷ (0x2d18, 0x10b8)
    ∷ (0x2d19, 0x10b9)
    ∷ (0x2d1a, 0x10ba)
    ∷ (0x2d1b, 0x10bb)
    ∷ (0x2d1c, 0x10bc)
    ∷ (0x2d1d, 0x10bd)
    ∷ (0x2d1e, 0x10be)
    ∷ (0x2d1f, 0x10bf)
    ∷ (0x2d20, 0x10c0)
    ∷ (0x2d21, 0x10c1)
    ∷ (0x2d22, 0x10c2)
    ∷ (0x2d23, 0x10c3)
    ∷ (0x2d24, 0x10c4)
    ∷ (0x2d25, 0x10c5)
    ∷ (0x2d27, 0x10c7)
    ∷ (0x2d2d, 0x10cd)
    ∷ (0xa641, 0xa640)
    ∷ (0xa643, 0xa642)
    ∷ (0xa645, 0xa644)
    ∷ (0xa647, 0xa646)
    ∷ (0xa649, 0xa648)
    ∷ (0xa64b, 0xa64a)
    ∷ (0xa64d, 0xa64c)
    ∷ (0xa64f, 0xa64e)
    ∷ (0xa651, 0xa650)
    ∷ (0xa653, 0xa652)
    ∷ (0xa655, 0xa654)
    ∷ (0xa657, 0xa656)
    ∷ (0xa659, 0xa658)
    ∷ (0xa65b, 0xa65a)
    ∷ (0xa65d, 0xa65c)
    ∷ (0xa65f, 0xa65e)
    ∷ (0xa661, 0xa660)
    ∷ (0xa663, 0xa662)
    ∷ (0xa665, 0xa664)
    ∷ (0xa667, 0xa666)
    ∷ (0xa669, 0xa668)
    ∷ (0xa66b, 0xa66a)
    ∷ (0xa66d, 0xa66c)
    ∷ (0xa681, 0xa680)
    ∷ (0xa683, 0xa682)
    ∷ (0xa685, 0xa684)
    ∷ (0xa687, 0xa686)
    ∷ (0xa689, 0xa688)
    ∷ (0xa68b, 0xa68a)
    ∷ (0xa68d, 0xa68c)
    ∷ (0xa68f, 0xa68e)
    ∷ (0xa691, 0xa690)
    ∷ (0xa693, 0xa692)
    ∷ (0xa695, 0xa694)
    ∷ (0xa697, 0xa696)
    ∷ (0xa699, 0xa698)
    ∷ (0xa69b, 0xa69a)
    ∷ (0xa723, 0xa722)
    ∷ (0xa725, 0xa724)
    ∷ (0xa727, 0xa726)
    ∷ (0xa729, 0xa728)
    ∷ (0xa72b, 0xa72a)
    ∷ (0xa72d, 0xa72c)
    ∷ (0xa72f, 0xa72e)
    ∷ (0xa733, 0xa732)
    ∷ (0xa735, 0xa734)
    ∷ (0xa737, 0xa736)
    ∷ (0xa739, 0xa738)
    ∷ (0xa73b, 0xa73a)
    ∷ (0xa73d, 0xa73c)
    ∷ (0xa73f, 0xa73e)
    ∷ (0xa741, 0xa740)
    ∷ (0xa743, 0xa742)
    ∷ (0xa745, 0xa744)
    ∷ (0xa747, 0xa746)
    ∷ (0xa749, 0xa748)
    ∷ (0xa74b, 0xa74a)
    ∷ (0xa74d, 0xa74c)
    ∷ (0xa74f, 0xa74e)
    ∷ (0xa751, 0xa750)
    ∷ (0xa753, 0xa752)
    ∷ (0xa755, 0xa754)
    ∷ (0xa757, 0xa756)
    ∷ (0xa759, 0xa758)
    ∷ (0xa75b, 0xa75a)
    ∷ (0xa75d, 0xa75c)
    ∷ (0xa75f, 0xa75e)
    ∷ (0xa761, 0xa760)
    ∷ (0xa763, 0xa762)
    ∷ (0xa765, 0xa764)
    ∷ (0xa767, 0xa766)
    ∷ (0xa769, 0xa768)
    ∷ (0xa76b, 0xa76a)
    ∷ (0xa76d, 0xa76c)
    ∷ (0xa76f, 0xa76e)
    ∷ (0xa77a, 0xa779)
    ∷ (0xa77c, 0xa77b)
    ∷ (0xa77f, 0xa77e)
    ∷ (0xa781, 0xa780)
    ∷ (0xa783, 0xa782)
    ∷ (0xa785, 0xa784)
    ∷ (0xa787, 0xa786)
    ∷ (0xa78c, 0xa78b)
    ∷ (0xa791, 0xa790)
    ∷ (0xa793, 0xa792)
    ∷ (0xa794, 0xa7c4)
    ∷ (0xa797, 0xa796)
    ∷ (0xa799, 0xa798)
    ∷ (0xa79b, 0xa79a)
    ∷ (0xa79d, 0xa79c)
    ∷ []
