-- ===== src/CaseMappings/Tables/Lower4.antt =====
-- Part 4 of the table of `upper_to_lower_map` of core/vca/case_mappings.cpp, in the source's order:
-- lines 666 to 724, 177 pairs of code points.
use vca.Prelude.{ℕ, List, [], ◌∷◌}

unfoldable pub upper_to_lower_4 : List (ℕ × ℕ)
upper_to_lower_4 =
    (0x13b6, 0xab86)
    ∷ (0x13b7, 0xab87)
    ∷ (0x13b8, 0xab88)
    ∷ (0x13b9, 0xab89)
    ∷ (0x13ba, 0xab8a)
    ∷ (0x13bb, 0xab8b)
    ∷ (0x13bc, 0xab8c)
    ∷ (0x13bd, 0xab8d)
    ∷ (0x13be, 0xab8e)
    ∷ (0x13bf, 0xab8f)
    ∷ (0x13c0, 0xab90)
    ∷ (0x13c1, 0xab91)
    ∷ (0x13c2, 0xab92)
    ∷ (0x13c3, 0xab93)
    ∷ (0x13c4, 0xab94)
    ∷ (0x13c5, 0xab95)
    ∷ (0x13c6, 0xab96)
    ∷ (0x13c7, 0xab97)
    ∷ (0x13c8, 0xab98)
    ∷ (0x13c9, 0xab99)
    ∷ (0x13ca, 0xab9a)
    ∷ (0x13cb, 0xab9b)
    ∷ (0x13cc, 0xab9c)
    ∷ (0x13cd, 0xab9d)
    ∷ (0x13ce, 0xab9e)
    ∷ (0x13cf, 0xab9f)
    ∷ (0x13d0, 0xaba0)
    ∷ (0x13d1, 0xaba1)
    ∷ (0x13d2, 0xaba2)
    ∷ (0x13d3, 0xaba3)
    ∷ (0x13d4, 0xaba4)
    ∷ (0x13d5, 0xaba5)
    ∷ (0x13d6, 0xaba6)
    ∷ (0x13d7, 0xaba7)
    ∷ (0x13d8, 0xaba8)
    ∷ (0x13d9, 0xaba9)
    ∷ (0x13da, 0xabaa)
    ∷ (0x13db, 0xabab)
    ∷ (0x13dc, 0xabac)
    ∷ (0x13dd, 0xabad)
    ∷ (0x13de, 0xabae)
    ∷ (0x13df, 0xabaf)
    ∷ (0x13e0, 0xabb0)
    ∷ (0x13e1, 0xabb1)
    ∷ (0x13e2, 0xabb2)
    ∷ (0x13e3, 0xabb3)
    ∷ (0x13e4, 0xabb4)
    ∷ (0x13e5, 0xabb5)
    ∷ (0x13e6, 0xabb6)
    ∷ (0x13e7, 0xabb7)
    ∷ (0x13e8, 0xabb8)
    ∷ (0x13e9, 0xabb9)
    ∷ (0x13ea, 0xabba)
    ∷ (0x13eb, 0xabbb)
    ∷ (0x13ec, 0xabbc)
    ∷ (0x13ed, 0xabbd)
    ∷ (0x13ee, 0xabbe)
    ∷ (0x13ef, 0xabbf)
    ∷ (0x13f0, 0x13f8)
    ∷ (0x13f1, 0x13f9)
    ∷ (0x13f2, 0x13fa)
    ∷ (0x13f3, 0x13fb)
    ∷ (0x13f4, 0x13fc)
    ∷ (0x13f5, 0x13fd)
    ∷ (0x1c90, 0x10d0)
    ∷ (0x1c91, 0x10d1)
    ∷ (0x1c92, 0x10d2)
    ∷ (0x1c93, 0x10d3)
    ∷ (0x1c94, 0x10d4)
    ∷ (0x1c95, 0x10d5)
    ∷ (0x1c96, 0x10d6)
    ∷ (0x1c97, 0x10d7)
    ∷ (0x1c98, 0x10d8)
    ∷ (0x1c99, 0x10d9)
    ∷ (0x1c9a, 0x10da)
    ∷ (0x1c9b, 0x10db)
    ∷ (0x1c9c, 0x10dc)
    ∷ (0x1c9d, 0x10dd)
    ∷ (0x1c9e, 0x10de)
    ∷ (0x1c9f, 0x10df)
    ∷ (0x1ca0, 0x10e0)
    ∷ (0x1ca1, 0x10e1)
    ∷ (0x1ca2, 0x10e2)
    ∷ (0x1ca3, 0x10e3)
    ∷ (0x1ca4, 0x10e4)
    ∷ (0x1ca5, 0x10e5)
    ∷ (0x1ca6, 0x10e6)
    ∷ (0x1ca7, 0x10e7)
    ∷ (0x1ca8, 0x10e8)
    ∷ (0x1ca9, 0x10e9)
    ∷ (0x1caa, 0x10ea)
    ∷ (0x1cab, 0x10eb)
    ∷ (0x1cac, 0x10ec)
    ∷ (0x1cad, 0x10ed)
    ∷ (0x1cae, 0x10ee)
    ∷ (0x1caf, 0x10ef)
    ∷ (0x1cb0, 0x10f0)
    ∷ (0x1cb1, 0x10f1)
    ∷ (0x1cb2, 0x10f2)
    ∷ (0x1cb3, 0x10f3)
    ∷ (0x1cb4, 0x10f4)
    ∷ (0x1cb5, 0x10f5)
    ∷ (0x1cb6, 0x10f6)
    ∷ (0x1cb7, 0x10f7)
    ∷ (0x1cb8, 0x10f8)
    ∷ (0x1cb9, 0x10f9)
    ∷ (0x1cba, 0x10fa)
    ∷ (0x1cbd, 0x10fd)
    ∷ (0x1cbe, 0x10fe)
    ∷ (0x1cbf, 0x10ff)
    ∷ (0x1e00, 0x1e01)
    ∷ (0x1e02, 0x1e03)
    ∷ (0x1e04, 0x1e05)
    ∷ (0x1e06, 0x1e07)
    ∷ (0x1e08, 0x1e09)
    ∷ (0x1e0a, 0x1e0b)
    ∷ (0x1e0c, 0x1e0d)
    ∷ (0x1e0e, 0x1e0f)
    ∷ (0x1e10, 0x1e11)
    ∷ (0x1e12, 0x1e13)
    ∷ (0x1e14, 0x1e15)
    ∷ (0x1e16, 0x1e17)
    ∷ (0x1e18, 0x1e19)
    ∷ (0x1e1a, 0x1e1b)
    ∷ (0x1e1c, 0x1e1d)
    ∷ (0x1e1e, 0x1e1f)
    ∷ (0x1e20, 0x1e21)
    ∷ (0x1e22, 0x1e23)
    ∷ (0x1e24, 0x1e25)
    ∷ (0x1e26, 0x1e27)
    ∷ (0x1e28, 0x1e29)
    ∷ (0x1e2a, 0x1e2b)
    ∷ (0x1e2c, 0x1e2d)
    ∷ (0x1e2e, 0x1e2f)
    ∷ (0x1e30, 0x1e31)
    ∷ (0x1e32, 0x1e33)
    ∷ (0x1e34, 0x1e35)
    ∷ (0x1e36, 0x1e37)
    ∷ (0x1e38, 0x1e39)
    ∷ (0x1e3a, 0x1e3b)
    ∷ (0x1e3c, 0x1e3d)
    ∷ (0x1e3e, 0x1e3f)
    ∷ (0x1e40, 0x1e41)
    ∷ (0x1e42, 0x1e43)
    ∷ (0x1e44, 0x1e45)
    ∷ (0x1e46, 0x1e47)
    ∷ (0x1e48, 0x1e49)
    ∷ (0x1e4a, 0x1e4b)
    ∷ (0x1e4c, 0x1e4d)
    ∷ (0x1e4e, 0x1e4f)
    ∷ (0x1e50, 0x1e51)
    ∷ (0x1e52, 0x1e53)
    ∷ (0x1e54, 0x1e55)
    ∷ (0x1e56, 0x1e57)
    ∷ (0x1e58, 0x1e59)
    ∷ (0x1e5a, 0x1e5b)
    ∷ (0x1e5c, 0x1e5d)
    ∷ (0x1e5e, 0x1e5f)
    ∷ (0x1e60, 0x1e61)
    ∷ (0x1e62, 0x1e63)
    ∷ (0x1e64, 0x1e65)
    ∷ (0x1e66, 0x1e67)
    ∷ (0x1e68, 0x1e69)
    ∷ (0x1e6a, 0x1e6b)
    ∷ (0x1e6c, 0x1e6d)
    ∷ (0x1e6e, 0x1e6f)
    ∷ (0x1e70, 0x1e71)
    ∷ (0x1e72, 0x1e73)
    ∷ (0x1e74, 0x1e75)
    ∷ (0x1e76, 0x1e77)
    ∷ (0x1e78, 0x1e79)
    ∷ (0x1e7a, 0x1e7b)
    ∷ (0x1e7c, 0x1e7d)
    ∷ (0x1e7e, 0x1e7f)
    ∷ (0x1e80, 0x1e81)
    ∷ (0x1e82, 0x1e83)
    ∷ (0x1e84, 0x1e85)
    ∷ []
