-- ===== src/CaseMappings/Tables/Lower2.antt =====
-- Part 2 of the table of `upper_to_lower_map` of core/vca/case_mappings.cpp, in the source's order:
-- lines 548 to 606, 177 pairs of code points.
use vca.Prelude.{ℕ, List, [], ◌∷◌}

unfoldable pub upper_to_lower_2 : List (ℕ × ℕ)
upper_to_lower_2 =
    (0x1ee, 0x1ef)
    ∷ (0x1f1, 0x1f3)
    ∷ (0x1f2, 0x1f3)
    ∷ (0x1f4, 0x1f5)
    ∷ (0x1f6, 0x195)
    ∷ (0x1f7, 0x1bf)
    ∷ (0x1f8, 0x1f9)
    ∷ (0x1fa, 0x1fb)
    ∷ (0x1fc, 0x1fd)
    ∷ (0x1fe, 0x1ff)
    ∷ (0x200, 0x201)
    ∷ (0x202, 0x203)
    ∷ (0x204, 0x205)
    ∷ (0x206, 0x207)
    ∷ (0x208, 0x209)
    ∷ (0x20a, 0x20b)
    ∷ (0x20c, 0x20d)
    ∷ (0x20e, 0x20f)
    ∷ (0x210, 0x211)
    ∷ (0x212, 0x213)
    ∷ (0x214, 0x215)
    ∷ (0x216, 0x217)
    ∷ (0x218, 0x219)
    ∷ (0x21a, 0x21b)
    ∷ (0x21c, 0x21d)
    ∷ (0x21e, 0x21f)
    ∷ (0x220, 0x19e)
    ∷ (0x222, 0x223)
    ∷ (0x224, 0x225)
    ∷ (0x226, 0x227)
    ∷ (0x228, 0x229)
    ∷ (0x22a, 0x22b)
    ∷ (0x22c, 0x22d)
    ∷ (0x22e, 0x22f)
    ∷ (0x230, 0x231)
    ∷ (0x232, 0x233)
    ∷ (0x23a, 0x2c65)
    ∷ (0x23b, 0x23c)
    ∷ (0x23d, 0x19a)
    ∷ (0x23e, 0x2c66)
    ∷ (0x241, 0x242)
    ∷ (0x243, 0x180)
    ∷ (0x244, 0x289)
    ∷ (0x245, 0x28c)
    ∷ (0x246, 0x247)
    ∷ (0x248, 0x249)
    ∷ (0x24a, 0x24b)
    ∷ (0x24c, 0x24d)
    ∷ (0x24e, 0x24f)
    ∷ (0x370, 0x371)
    ∷ (0x372, 0x373)
    ∷ (0x376, 0x377)
    ∷ (0x37f, 0x3f3)
    ∷ (0x386, 0x3ac)
    ∷ (0x388, 0x3ad)
    ∷ (0x389, 0x3ae)
    ∷ (0x38a, 0x3af)
    ∷ (0x38c, 0x3cc)
    ∷ (0x38e, 0x3cd)
    ∷ (0x38f, 0x3ce)
    ∷ (0x391, 0x3b1)
    ∷ (0x392, 0x3b2)
    ∷ (0x393, 0x3b3)
    ∷ (0x394, 0x3b4)
    ∷ (0x395, 0x3b5)
    ∷ (0x396, 0x3b6)
    ∷ (0x397, 0x3b7)
    ∷ (0x398, 0x3b8)
    ∷ (0x399, 0x3b9)
    ∷ (0x39a, 0x3ba)
    ∷ (0x39b, 0x3bb)
    ∷ (0x39c, 0x3bc)
    ∷ (0x39d, 0x3bd)
    ∷ (0x39e, 0x3be)
    ∷ (0x39f, 0x3bf)
    ∷ (0x3a0, 0x3c0)
    ∷ (0x3a1, 0x3c1)
    ∷ (0x3a3, 0x3c3)
    ∷ (0x3a4, 0x3c4)
    ∷ (0x3a5, 0x3c5)
    ∷ (0x3a6, 0x3c6)
    ∷ (0x3a7, 0x3c7)
    ∷ (0x3a8, 0x3c8)
    ∷ (0x3a9, 0x3c9)
    ∷ (0x3aa, 0x3ca)
    ∷ (0x3ab, 0x3cb)
    ∷ (0x3cf, 0x3d7)
    ∷ (0x3d8, 0x3d9)
    ∷ (0x3da, 0x3db)
    ∷ (0x3dc, 0x3dd)
    ∷ (0x3de, 0x3df)
    ∷ (0x3e0, 0x3e1)
    ∷ (0x3e2, 0x3e3)
    ∷ (0x3e4, 0x3e5)
    ∷ (0x3e6, 0x3e7)
    ∷ (0x3e8, 0x3e9)
    ∷ (0x3ea, 0x3eb)
    ∷ (0x3ec, 0x3ed)
    ∷ (0x3ee, 0x3ef)
    ∷ (0x3f4, 0x3b8)
    ∷ (0x3f7, 0x3f8)
    ∷ (0x3f9, 0x3f2)
    ∷ (0x3fa, 0x3fb)
    ∷ (0x3fd, 0x37b)
    ∷ (0x3fe, 0x37c)
    ∷ (0x3ff, 0x37d)
    ∷ (0x400, 0x450)
    ∷ (0x401, 0x451)
    ∷ (0x402, 0x452)
    ∷ (0x403, 0x453)
    ∷ (0x404, 0x454)
    ∷ (0x405, 0x455)
    ∷ (0x406, 0x456)
    ∷ (0x407, 0x457)
    ∷ (0x408, 0x458)
    ∷ (0x409, 0x459)
    ∷ (0x40a, 0x45a)
    ∷ (0x40b, 0x45b)
    ∷ (0x40c, 0x45c)
    ∷ (0x40d, 0x45d)
    ∷ (0x40e, 0x45e)
    ∷ (0x40f, 0x45f)
    ∷ (0x410, 0x430)
    ∷ (0x411, 0x431)
    ∷ (0x412, 0x432)
    ∷ (0x413, 0x433)
    ∷ (0x414, 0x434)
    ∷ (0x415, 0x435)
    ∷ (0x416, 0x436)
    ∷ (0x417, 0x437)
    ∷ (0x418, 0x438)
    ∷ (0x419, 0x439)
    ∷ (0x41a, 0x43a)
    ∷ (0x41b, 0x43b)
    ∷ (0x41c, 0x43c)
    ∷ (0x41d, 0x43d)
    ∷ (0x41e, 0x43e)
    ∷ (0x41f, 0x43f)
    ∷ (0x420, 0x440)
    ∷ (0x421, 0x441)
    ∷ (0x422, 0x442)
    ∷ (0x423, 0x443)
    ∷ (0x424, 0x444)
    ∷ (0x425, 0x445)
    ∷ (0x426, 0x446)
    ∷ (0x427, 0x447)
    ∷ (0x428, 0x448)
    ∷ (0x429, 0x449)
    ∷ (0x42a, 0x44a)
    ∷ (0x42b, 0x44b)
    ∷ (0x42c, 0x44c)
    ∷ (0x42d, 0x44d)
    ∷ (0x42e, 0x44e)
    ∷ (0x42f, 0x44f)
    ∷ (0x460, 0x461)
    ∷ (0x462, 0x463)
    ∷ (0x464, 0x465)
    ∷ (0x466, 0x467)
    ∷ (0x468, 0x469)
    ∷ (0x46a, 0x46b)
    ∷ (0x46c, 0x46d)
    ∷ (0x46e, 0x46f)
    ∷ (0x470, 0x471)
    ∷ (0x472, 0x473)
    ∷ (0x474, 0x475)
    ∷ (0x476, 0x477)
    ∷ (0x478, 0x479)
    ∷ (0x47a, 0x47b)
    ∷ (0x47c, 0x47d)
    ∷ (0x47e, 0x47f)
    ∷ (0x480, 0x481)
    ∷ (0x48a, 0x48b)
    ∷ (0x48c, 0x48d)
    ∷ (0x48e, 0x48f)
    ∷ (0x490, 0x491)
    ∷ (0x492, 0x493)
    ∷ (0x494, 0x495)
    ∷ []
