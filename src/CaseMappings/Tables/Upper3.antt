-- ===== src/CaseMappings/Tables/Upper3.antt =====
-- Part 3 of the table of `lower_to_upper_map` of core/vca/case_mappings.cpp, in the source's order:
-- lines 129 to 187, 177 pairs of code points.
use vca.Prelude.{ℕ, List, [], ◌∷◌}

unfoldable pub lower_to_upper_3 : List (ℕ × ℕ)
lower_to_upper_3 =
    (0x45d, 0x40d)
    ∷ (0x45e, 0x40e)
    ∷ (0x45f, 0x40f)
    ∷ (0x461, 0x460)
    ∷ (0x463, 0x462)
    ∷ (0x465, 0x464)
    ∷ (0x467, 0x466)
    ∷ (0x469, 0x468)
    ∷ (0x46b, 0x46a)
    ∷ (0x46d, 0x46c)
    ∷ (0x46f, 0x46e)
    ∷ (0x471, 0x470)
    ∷ (0x473, 0x472)
    ∷ (0x475, 0x474)
    ∷ (0x477, 0x476)
    ∷ (0x479, 0x478)
    ∷ (0x47b, 0x47a)
    ∷ (0x47d, 0x47c)
    ∷ (0x47f, 0x47e)
    ∷ (0x481, 0x480)
    ∷ (0x48b, 0x48a)
    ∷ (0x48d, 0x48c)
    ∷ (0x48f, 0x48e)
    ∷ (0x491, 0x490)
    ∷ (0x493, 0x492)
    ∷ (0x495, 0x494)
    ∷ (0x497, 0x496)
    ∷ (0x499, 0x498)
    ∷ (0x49b, 0x49a)
    ∷ (0x49d, 0x49c)
    ∷ (0x49f, 0x49e)
    ∷ (0x4a1, 0x4a0)
    ∷ (0x4a3, 0x4a2)
    ∷ (0x4a5, 0x4a4)
    ∷ (0x4a7, 0x4a6)
    ∷ (0x4a9, 0x4a8)
    ∷ (0x4ab, 0x4aa)
    ∷ (0x4ad, 0x4ac)
    ∷ (0x4af, 0x4ae)
    ∷ (0x4b1, 0x4b0)
    ∷ (0x4b3, 0x4b2)
    ∷ (0x4b5, 0x4b4)
    ∷ (0x4b7, 0x4b6)
    ∷ (0x4b9, 0x4b8)
    ∷ (0x4bb, 0x4ba)
    ∷ (0x4bd, 0x4bc)
    ∷ (0x4bf, 0x4be)
    ∷ (0x4c2, 0x4c1)
    ∷ (0x4c4, 0x4c3)
    ∷ (0x4c6, 0x4c5)
    ∷ (0x4c8, 0x4c7)
    ∷ (0x4ca, 0x4c9)
    ∷ (0x4cc, 0x4cb)
    ∷ (0x4ce, 0x4cd)
    ∷ (0x4cf, 0x4c0)
    ∷ (0x4d1, 0x4d0)
    ∷ (0x4d3, 0x4d2)
    ∷ (0x4d5, 0x4d4)
    ∷ (0x4d7, 0x4d6)
    ∷ (0x4d9, 0x4d8)
    ∷ (0x4db, 0x4da)
    ∷ (0x4dd, 0x4dc)
    ∷ (0x4df, 0x4de)
    ∷ (0x4e1, 0x4e0)
    ∷ (0x4e3, 0x4e2)
    ∷ (0x4e5, 0x4e4)
    ∷ (0x4e7, 0x4e6)
    ∷ (0x4e9, 0x4e8)
    ∷ (0x4eb, 0x4ea)
    ∷ (0x4ed, 0x4ec)
    ∷ (0x4ef, 0x4ee)
    ∷ (0x4f1, 0x4f0)
    ∷ (0x4f3, 0x4f2)
    ∷ (0x4f5, 0x4f4)
    ∷ (0x4f7, 0x4f6)
    ∷ (0x4f9, 0x4f8)
    ∷ (0x4fb, 0x4fa)
    ∷ (0x4fd, 0x4fc)
    ∷ (0x4ff, 0x4fe)
    ∷ (0x501, 0x500)
    ∷ (0x503, 0x502)
    ∷ (0x505, 0x504)
    ∷ (0x507, 0x506)
    ∷ (0x509, 0x508)
    ∷ (0x50b, 0x50a)
    ∷ (0x50d, 0x50c)
    ∷ (0x50f, 0x50e)
    ∷ (0x511, 0x510)
    ∷ (0x513, 0x512)
    ∷ (0x515, 0x514)
    ∷ (0x517, 0x516)
    ∷ (0x519, 0x518)
    ∷ (0x51b, 0x51a)
    ∷ (0x51d, 0x51c)
    ∷ (0x51f, 0x51e)
    ∷ (0x521, 0x520)
    ∷ (0x523, 0x522)
    ∷ (0x525, 0x524)
    ∷ (0x527, 0x526)
    ∷ (0x529, 0x528)
    ∷ (0x52b, 0x52a)
    ∷ (0x52d, 0x52c)
    ∷ (0x52f, 0x52e)
    ∷ (0x561, 0x531)
    ∷ (0x562, 0x532)
    ∷ (0x563, 0x533)
    ∷ (0x564, 0x534)
    ∷ (0x565, 0x535)
    ∷ (0x566, 0x536)
    ∷ (0x567, 0x537)
    ∷ (0x568, 0x538)
    ∷ (0x569, 0x539)
    ∷ (0x56a, 0x53a)
    ∷ (0x56b, 0x53b)
    ∷ (0x56c, 0x53c)
    ∷ (0x56d, 0x53d)
    ∷ (0x56e, 0x53e)
    ∷ (0x56f, 0x53f)
    ∷ (0x570, 0x540)
    ∷ (0x571, 0x541)
    ∷ (0x572, 0x542)
    ∷ (0x573, 0x543)
    ∷ (0x574, 0x544)
    ∷ (0x575, 0x545)
    ∷ (0x576, 0x546)
    ∷ (0x577, 0x547)
    ∷ (0x578, 0x548)
    ∷ (0x579, 0x549)
    ∷ (0x57a, 0x54a)
    ∷ (0x57b, 0x54b)
    ∷ (0x57c, 0x54c)
    ∷ (0x57d, 0x54d)
    ∷ (0x57e, 0x54e)
    ∷ (0x57f, 0x54f)
    ∷ (0x580, 0x550)
    ∷ (0x581, 0x551)
    ∷ (0x582, 0x552)
    ∷ (0x583, 0x553)
    ∷ (0x584, 0x554)
    ∷ (0x585, 0x555)
    ∷ (0x586, 0x556)
    ∷ (0x10d0, 0x1c90)
    ∷ (0x10d1, 0x1c91)
    ∷ (0x10d2, 0x1c92)
    ∷ (0x10d3, 0x1c93)
    ∷ (0x10d4, 0x1c94)
    ∷ (0x10d5, 0x1c95)
    ∷ (0x10d6, 0x1c96)
    ∷ (0x10d7, 0x1c97)
    ∷ (0x10d8, 0x1c98)
    ∷ (0x10d9, 0x1c99)
    ∷ (0x10da, 0x1c9a)
    ∷ (0x10db, 0x1c9b)
    ∷ (0x10dc, 0x1c9c)
    ∷ (0x10dd, 0x1c9d)
    ∷ (0x10de, 0x1c9e)
    ∷ (0x10df, 0x1c9f)
    ∷ (0x10e0, 0x1ca0)
    ∷ (0x10e1, 0x1ca1)
    ∷ (0x10e2, 0x1ca2)
    ∷ (0x10e3, 0x1ca3)
    ∷ (0x10e4, 0x1ca4)
    ∷ (0x10e5, 0x1ca5)
    ∷ (0x10e6, 0x1ca6)
    ∷ (0x10e7, 0x1ca7)
    ∷ (0x10e8, 0x1ca8)
    ∷ (0x10e9, 0x1ca9)
    ∷ (0x10ea, 0x1caa)
    ∷ (0x10eb, 0x1cab)
    ∷ (0x10ec, 0x1cac)
    ∷ (0x10ed, 0x1cad)
    ∷ (0x10ee, 0x1cae)
    ∷ (0x10ef, 0x1caf)
    ∷ (0x10f0, 0x1cb0)
    ∷ (0x10f1, 0x1cb1)
    ∷ (0x10f2, 0x1cb2)
    ∷ (0x10f3, 0x1cb3)
    ∷ []
