-- ===== src/CaseMappings/Tables/Lower3.antt =====
-- Part 3 of the table of `upper_to_lower_map` of core/vca/case_mappings.cpp, in the source's order:
-- lines 607 to 665, 177 pairs of code points.
use vca.Prelude.{ℕ, List, [], ◌∷◌}

unfoldable pub upper_to_lower_3 : List (ℕ × ℕ)
upper_to_lower_3 =
    (0x496, 0x497)
    ∷ (0x498, 0x499)
    ∷ (0x49a, 0x49b)
    ∷ (0x49c, 0x49d)
    ∷ (0x49e, 0x49f)
    ∷ (0x4a0, 0x4a1)
    ∷ (0x4a2, 0x4a3)
    ∷ (0x4a4, 0x4a5)
    ∷ (0x4a6, 0x4a7)
    ∷ (0x4a8, 0x4a9)
    ∷ (0x4aa, 0x4ab)
    ∷ (0x4ac, 0x4ad)
    ∷ (0x4ae, 0x4af)
    ∷ (0x4b0, 0x4b1)
    ∷ (0x4b2, 0x4b3)
    ∷ (0x4b4, 0x4b5)
    ∷ (0x4b6, 0x4b7)
    ∷ (0x4b8, 0x4b9)
    ∷ (0x4ba, 0x4bb)
    ∷ (0x4bc, 0x4bd)
    ∷ (0x4be, 0x4bf)
    ∷ (0x4c0, 0x4cf)
    ∷ (0x4c1, 0x4c2)
    ∷ (0x4c3, 0x4c4)
    ∷ (0x4c5, 0x4c6)
    ∷ (0x4c7, 0x4c8)
    ∷ (0x4c9, 0x4ca)
    ∷ (0x4cb, 0x4cc)
    ∷ (0x4cd, 0x4ce)
    ∷ (0x4d0, 0x4d1)
    ∷ (0x4d2, 0x4d3)
    ∷ (0x4d4, 0x4d5)
    ∷ (0x4d6, 0x4d7)
    ∷ (0x4d8, 0x4d9)
    ∷ (0x4da, 0x4db)
    ∷ (0x4dc, 0x4dd)
    ∷ (0x4de, 0x4df)
    ∷ (0x4e0, 0x4e1)
    ∷ (0x4e2, 0x4e3)
    ∷ (0x4e4, 0x4e5)
    ∷ (0x4e6, 0x4e7)
    ∷ (0x4e8, 0x4e9)
    ∷ (0x4ea, 0x4eb)
    ∷ (0x4ec, 0x4ed)
    ∷ (0x4ee, 0x4ef)
    ∷ (0x4f0, 0x4f1)
    ∷ (0x4f2, 0x4f3)
    ∷ (0x4f4, 0x4f5)
    ∷ (0x4f6, 0x4f7)
    ∷ (0x4f8, 0x4f9)
    ∷ (0x4fa, 0x4fb)
    ∷ (0x4fc, 0x4fd)
    ∷ (0x4fe, 0x4ff)
    ∷ (0x500, 0x501)
    ∷ (0x502, 0x503)
    ∷ (0x504, 0x505)
    ∷ (0x506, 0x507)
    ∷ (0x508, 0x509)
    ∷ (0x50a, 0x50b)
    ∷ (0x50c, 0x50d)
    ∷ (0x50e, 0x50f)
    ∷ (0x510, 0x511)
    ∷ (0x512, 0x513)
    ∷ (0x514, 0x515)
    ∷ (0x516, 0x517)
    ∷ (0x518, 0x519)
    ∷ (0x51a, 0x51b)
    ∷ (0x51c, 0x51d)
    ∷ (0x51e, 0x51f)
    ∷ (0x520, 0x521)
    ∷ (0x522, 0x523)
    ∷ (0x524, 0x525)
    ∷ (0x526, 0x527)
    ∷ (0x528, 0x529)
    ∷ (0x52a, 0x52b)
    ∷ (0x52c, 0x52d)
    ∷ (0x52e, 0x52f)
    ∷ (0x531, 0x561)
    ∷ (0x532, 0x562)
    ∷ (0x533, 0x563)
    ∷ (0x534, 0x564)
    ∷ (0x535, 0x565)
    ∷ (0x536, 0x566)
    ∷ (0x537, 0x567)
    ∷ (0x538, 0x568)
    ∷ (0x539, 0x569)
    ∷ (0x53a, 0x56a)
    ∷ (0x53b, 0x56b)
    ∷ (0x53c, 0x56c)
    ∷ (0x53d, 0x56d)
    ∷ (0x53e, 0x56e)
    ∷ (0x53f, 0x56f)
    ∷ (0x540, 0x570)
    ∷ (0x541, 0x571)
    ∷ (0x542, 0x572)
    ∷ (0x543, 0x573)
    ∷ (0x544, 0x574)
    ∷ (0x545, 0x575)
    ∷ (0x546, 0x576)
    ∷ (0x547, 0x577)
    ∷ (0x548, 0x578)
    ∷ (0x549, 0x579)
    ∷ (0x54a, 0x57a)
    ∷ (0x54b, 0x57b)
    ∷ (0x54c, 0x57c)
    ∷ (0x54d, 0x57d)
    ∷ (0x54e, 0x57e)
    ∷ (0x54f, 0x57f)
    ∷ (0x550, 0x580)
    ∷ (0x551, 0x581)
    ∷ (0x552, 0x582)
    ∷ (0x553, 0x583)
    ∷ (0x554, 0x584)
    ∷ (0x555, 0x585)
    ∷ (0x556, 0x586)
    ∷ (0x10a0, 0x2d00)
    ∷ (0x10a1, 0x2d01)
    ∷ (0x10a2, 0x2d02)
    ∷ (0x10a3, 0x2d03)
    ∷ (0x10a4, 0x2d04)
    ∷ (0x10a5, 0x2d05)
    ∷ (0x10a6, 0x2d06)
    ∷ (0x10a7, 0x2d07)
    ∷ (0x10a8, 0x2d08)
    ∷ (0x10a9, 0x2d09)
    ∷ (0x10aa, 0x2d0a)
    ∷ (0x10ab, 0x2d0b)
    ∷ (0x10ac, 0x2d0c)
    ∷ (0x10ad, 0x2d0d)
    ∷ (0x10ae, 0x2d0e)
    ∷ (0x10af, 0x2d0f)
    ∷ (0x10b0, 0x2d10)
    ∷ (0x10b1, 0x2d11)
    ∷ (0x10b2, 0x2d12)
    ∷ (0x10b3, 0x2d13)
    ∷ (0x10b4, 0x2d14)
    ∷ (0x10b5, 0x2d15)
    ∷ (0x10b6, 0x2d16)
    ∷ (0x10b7, 0x2d17)
    ∷ (0x10b8, 0x2d18)
    ∷ (0x10b9, 0x2d19)
    ∷ (0x10ba, 0x2d1a)
    ∷ (0x10bb, 0x2d1b)
    ∷ (0x10bc, 0x2d1c)
    ∷ (0x10bd, 0x2d1d)
    ∷ (0x10be, 0x2d1e)
    ∷ (0x10bf, 0x2d1f)
    ∷ (0x10c0, 0x2d20)
    ∷ (0x10c1, 0x2d21)
    ∷ (0x10c2, 0x2d22)
    ∷ (0x10c3, 0x2d23)
    ∷ (0x10c4, 0x2d24)
    ∷ (0x10c5, 0x2d25)
    ∷ (0x10c7, 0x2d27)
    ∷ (0x10cd, 0x2d2d)
    ∷ (0x13a0, 0xab70)
    ∷ (0x13a1, 0xab71)
    ∷ (0x13a2, 0xab72)
    ∷ (0x13a3, 0xab73)
    ∷ (0x13a4, 0xab74)
    ∷ (0x13a5, 0xab75)
    ∷ (0x13a6, 0xab76)
    ∷ (0x13a7, 0xab77)
    ∷ (0x13a8, 0xab78)
    ∷ (0x13a9, 0xab79)
    ∷ (0x13aa, 0xab7a)
    ∷ (0x13ab, 0xab7b)
    ∷ (0x13ac, 0xab7c)
    ∷ (0x13ad, 0xab7d)
    ∷ (0x13ae, 0xab7e)
    ∷ (0x13af, 0xab7f)
    ∷ (0x13b0, 0xab80)
    ∷ (0x13b1, 0xab81)
    ∷ (0x13b2, 0xab82)
    ∷ (0x13b3, 0xab83)
    ∷ (0x13b4, 0xab84)
    ∷ (0x13b5, 0xab85)
    ∷ []
