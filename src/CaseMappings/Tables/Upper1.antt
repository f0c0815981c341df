-- ===== src/CaseMappings/Tables/Upper1.antt =====
-- Part 1 of the table of `lower_to_upper_map` of core/vca/case_mappings.cpp, in the source's order:
-- lines 11 to 69, 177 pairs of code points.
use vca.Prelude.{ℕ, List, [], ◌∷◌}

unfoldable pub lower_to_upper_1 : List (ℕ × ℕ)
lower_to_upper_1 =
    (0x61, 0x41)
    ∷ (0x62, 0x42)
    ∷ (0x63, 0x43)
    ∷ (0x64, 0x44)
    ∷ (0x65, 0x45)
    ∷ (0x66, 0x46)
    ∷ (0x67, 0x47)
    ∷ (0x68, 0x48)
    ∷ (0x69, 0x49)
    ∷ (0x6a, 0x4a)
    ∷ (0x6b, 0x4b)
    ∷ (0x6c, 0x4c)
    ∷ (0x6d, 0x4d)
    ∷ (0x6e, 0x4e)
    ∷ (0x6f, 0x4f)
    ∷ (0x70, 0x50)
    ∷ (0x71, 0x51)
    ∷ (0x72, 0x52)
    ∷ (0x73, 0x53)
    ∷ (0x74, 0x54)
    ∷ (0x75, 0x55)
    ∷ (0x76, 0x56)
    ∷ (0x77, 0x57)
    ∷ (0x78, 0x58)
    ∷ (0x79, 0x59)
    ∷ (0x7a, 0x5a)
    ∷ (0xb5, 0x39c)
    ∷ (0xe0, 0xc0)
    ∷ (0xe1, 0xc1)
    ∷ (0xe2, 0xc2)
    ∷ (0xe3, 0xc3)
    ∷ (0xe4, 0xc4)
    ∷ (0xe5, 0xc5)
    ∷ (0xe6, 0xc6)
    ∷ (0xe7, 0xc7)
    ∷ (0xe8, 0xc8)
    ∷ (0xe9, 0xc9)
    ∷ (0xea, 0xca)
    ∷ (0xeb, 0xcb)
    ∷ (0xec, 0xcc)
    ∷ (0xed, 0xcd)
    ∷ (0xee, 0xce)
    ∷ (0xef, 0xcf)
    ∷ (0xf0, 0xd0)
    ∷ (0xf1, 0xd1)
    ∷ (0xf2, 0xd2)
    ∷ (0xf3, 0xd3)
    ∷ (0xf4, 0xd4)
    ∷ (0xf5, 0xd5)
    ∷ (0xf6, 0xd6)
    ∷ (0xf8, 0xd8)
    ∷ (0xf9, 0xd9)
    ∷ (0xfa, 0xda)
    ∷ (0xfb, 0xdb)
    ∷ (0xfc, 0xdc)
    ∷ (0xfd, 0xdd)
    ∷ (0xfe, 0xde)
    ∷ (0xff, 0x178)
    ∷ (0x101, 0x100)
    ∷ (0x103, 0x102)
    ∷ (0x105, 0x104)
    ∷ (0x107, 0x106)
    ∷ (0x109, 0x108)
    ∷ (0x10b, 0x10a)
    ∷ (0x10d, 0x10c)
    ∷ (0x10f, 0x10e)
    ∷ (0x111, 0x110)
    ∷ (0x113, 0x112)
    ∷ (0x115, 0x114)
    ∷ (0x117, 0x116)
    ∷ (0x119, 0x118)
    ∷ (0x11b, 0x11a)
    ∷ (0x11d, 0x11c)
    ∷ (0x11f, 0x11e)
    ∷ (0x121, 0x120)
    ∷ (0x123, 0x122)
    ∷ (0x125, 0x124)
    ∷ (0x127, 0x126)
    ∷ (0x129, 0x128)
    ∷ (0x12b, 0x12a)
    ∷ (0x12d, 0x12c)
    ∷ (0x12f, 0x12e)
    ∷ (0x131, 0x49)
    ∷ (0x133, 0x132)
    ∷ (0x135, 0x134)
    ∷ (0x137, 0x136)
    ∷ (0x13a, 0x139)
    ∷ (0x13c, 0x13b)
    ∷ (0x13e, 0x13d)
    ∷ (0x140, 0x13f)
    ∷ (0x142, 0x141)
    ∷ (0x144, 0x143)
    ∷ (0x146, 0x145)
    ∷ (0x148, 0x147)
    ∷ (0x14b, 0x14a)
    ∷ (0x14d, 0x14c)
    ∷ (0x14f, 0x14e)
    ∷ (0x151, 0x150)
    ∷ (0x153, 0x152)
    ∷ (0x155, 0x154)
    ∷ (0x157, 0x156)
    ∷ (0x159, 0x158)
    ∷ (0x15b, 0x15a)
    ∷ (0x15d, 0x15c)
    ∷ (0x15f, 0x15e)
    ∷ (0x161, 0x160)
    ∷ (0x163, 0x162)
    ∷ (0x165, 0x164)
    ∷ (0x167, 0x166)
    ∷ (0x169, 0x168)
    ∷ (0x16b, 0x16a)
    ∷ (0x16d, 0x16c)
    ∷ (0x16f, 0x16e)
    ∷ (0x171, 0x170)
    ∷ (0x173, 0x172)
    ∷ (0x175, 0x174)
    ∷ (0x177, 0x176)
    ∷ (0x17a, 0x179)
    ∷ (0x17c, 0x17b)
    ∷ (0x17e, 0x17d)
    ∷ (0x17f, 0x53)
    ∷ (0x180, 0x243)
    ∷ (0x183, 0x182)
    ∷ (0x185, 0x184)
    ∷ (0x188, 0x187)
    ∷ (0x18c, 0x18b)
    ∷ (0x192, 0x191)
    ∷ (0x195, 0x1f6)
    ∷ (0x199, 0x198)
    ∷ (0x19a, 0x23d)
    ∷ (0x19e, 0x220)
    ∷ (0x1a1, 0x1a0)
    ∷ (0x1a3, 0x1a2)
    ∷ (0x1a5, 0x1a4)
    ∷ (0x1a8, 0x1a7)
    ∷ (0x1ad, 0x1ac)
    ∷ (0x1b0, 0x1af)
    ∷ (0x1b4, 0x1b3)
    ∷ (0x1b6, 0x1b5)
    ∷ (0x1b9, 0x1b8)
    ∷ (0x1bd, 0x1bc)
    ∷ (0x1bf, 0x1f7)
    ∷ (0x1c5, 0x1c4)
    ∷ (0x1c6, 0x1c4)
    ∷ (0x1c8, 0x1c7)
    ∷ (0x1c9, 0x1c7)
    ∷ (0x1cb, 0x1ca)
    ∷ (0x1cc, 0x1ca)
    ∷ (0x1ce, 0x1cd)
    ∷ (0x1d0, 0x1cf)
    ∷ (0x1d2, 0x1d1)
    ∷ (0x1d4, 0x1d3)
    ∷ (0x1d6, 0x1d5)
    ∷ (0x1d8, 0x1d7)
    ∷ (0x1da, 0x1d9)
    ∷ (0x1dc, 0x1db)
    ∷ (0x1dd, 0x18e)
    ∷ (0x1df, 0x1de)
    ∷ (0x1e1, 0x1e0)
    ∷ (0x1e3, 0x1e2)
    ∷ (0x1e5, 0x1e4)
    ∷ (0x1e7, 0x1e6)
    ∷ (0x1e9, 0x1e8)
    ∷ (0x1eb, 0x1ea)
    ∷ (0x1ed, 0x1ec)
    ∷ (0x1ef, 0x1ee)
    ∷ (0x1f2, 0x1f1)
    ∷ (0x1f3, 0x1f1)
    ∷ (0x1f5, 0x1f4)
    ∷ (0x1f9, 0x1f8)
    ∷ (0x1fb, 0x1fa)
    ∷ (0x1fd, 0x1fc)
    ∷ (0x1ff, 0x1fe)
    ∷ (0x201, 0x200)
    ∷ (0x203, 0x202)
    ∷ (0x205, 0x204)
    ∷ (0x207, 0x206)
    ∷ []
