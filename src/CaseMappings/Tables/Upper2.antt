-- ===== src/CaseMappings/Tables/Upper2.antt =====
-- Part 2 of the table of `lower_to_upper_map` of core/vca/case_mappings.cpp, in the source's order:
-- lines 70 to 128, 177 pairs of code points.
use vca.Prelude.{ℕ, List, [], ◌∷◌}

unfoldable pub lower_to_upper_2 : List (ℕ × ℕ)
lower_to_upper_2 =
    (0x209, 0x208)
    ∷ (0x20b, 0x20a)
    ∷ (0x20d, 0x20c)
    ∷ (0x20f, 0x20e)
    ∷ (0x211, 0x210)
    ∷ (0x213, 0x212)
    ∷ (0x215, 0x214)
    ∷ (0x217, 0x216)
    ∷ (0x219, 0x218)
    ∷ (0x21b, 0x21a)
    ∷ (0x21d, 0x21c)
    ∷ (0x21f, 0x21e)
    ∷ (0x223, 0x222)
    ∷ (0x225, 0x224)
    ∷ (0x227, 0x226)
    ∷ (0x229, 0x228)
    ∷ (0x22b, 0x22a)
    ∷ (0x22d, 0x22c)
    ∷ (0x22f, 0x22e)
    ∷ (0x231, 0x230)
    ∷ (0x233, 0x232)
    ∷ (0x23c, 0x23b)
    ∷ (0x23f, 0x2c7e)
    ∷ (0x240, 0x2c7f)
    ∷ (0x242, 0x241)
    ∷ (0x247, 0x246)
    ∷ (0x249, 0x248)
    ∷ (0x24b, 0x24a)
    ∷ (0x24d, 0x24c)
    ∷ (0x24f, 0x24e)
    ∷ (0x250, 0x2c6f)
    ∷ (0x251, 0x2c6d)
    ∷ (0x252, 0x2c70)
    ∷ (0x253, 0x181)
    ∷ (0x254, 0x186)
    ∷ (0x256, 0x189)
    ∷ (0x257, 0x18a)
    ∷ (0x259, 0x18f)
    ∷ (0x25b, 0x190)
    ∷ (0x25c, 0xa7ab)
    ∷ (0x260, 0x193)
    ∷ (0x261, 0xa7ac)
    ∷ (0x263, 0x194)
    ∷ (0x265, 0xa78d)
    ∷ (0x266, 0xa7aa)
    ∷ (0x268, 0x197)
    ∷ (0x269, 0x196)
    ∷ (0x26a, 0xa7ae)
    ∷ (0x26b, 0x2c62)
    ∷ (0x26c, 0xa7ad)
    ∷ (0x26f, 0x19c)
    ∷ (0x271, 0x2c6e)
    ∷ (0x272, 0x19d)
    ∷ (0x275, 0x19f)
    ∷ (0x27d, 0x2c64)
    ∷ (0x280, 0x1a6)
    ∷ (0x282, 0xa7c5)
    ∷ (0x283, 0x1a9)
    ∷ (0x287, 0xa7b1)
    ∷ (0x288, 0x1ae)
    ∷ (0x289, 0x244)
    ∷ (0x28a, 0x1b1)
    ∷ (0x28b, 0x1b2)
    ∷ (0x28c, 0x245)
    ∷ (0x292, 0x1b7)
    ∷ (0x29d, 0xa7b2)
    ∷ (0x29e, 0xa7b0)
    ∷ (0x345, 0x399)
    ∷ (0x371, 0x370)
    ∷ (0x373, 0x372)
    ∷ (0x377, 0x376)
    ∷ (0x37b, 0x3fd)
    ∷ (0x37c, 0x3fe)
    ∷ (0x37d, 0x3ff)
    ∷ (0x3ac, 0x386)
    ∷ (0x3ad, 0x388)
    ∷ (0x3ae, 0x389)
    ∷ (0x3af, 0x38a)
    ∷ (0x3b1, 0x391)
    ∷ (0x3b2, 0x392)
    ∷ (0x3b3, 0x393)
    ∷ (0x3b4, 0x394)
    ∷ (0x3b5, 0x395)
    ∷ (0x3b6, 0x396)
    ∷ (0x3b7, 0x397)
    ∷ (0x3b8, 0x398)
    ∷ (0x3b9, 0x399)
    ∷ (0x3ba, 0x39a)
    ∷ (0x3bb, 0x39b)
    ∷ (0x3bc, 0x39c)
    ∷ (0x3bd, 0x39d)
    ∷ (0x3be, 0x39e)
    ∷ (0x3bf, 0x39f)
    ∷ (0x3c0, 0x3a0)
    ∷ (0x3c1, 0x3a1)
    ∷ (0x3c2, 0x3a3)
    ∷ (0x3c3, 0x3a3)
    ∷ (0x3c4, 0x3a4)
    ∷ (0x3c5, 0x3a5)
    ∷ (0x3c6, 0x3a6)
    ∷ (0x3c7, 0x3a7)
    ∷ (0x3c8, 0x3a8)
    ∷ (0x3c9, 0x3a9)
    ∷ (0x3ca, 0x3aa)
    ∷ (0x3cb, 0x3ab)
    ∷ (0x3cc, 0x38c)
    ∷ (0x3cd, 0x38e)
    ∷ (0x3ce, 0x38f)
    ∷ (0x3d0, 0x392)
    ∷ (0x3d1, 0x398)
    ∷ (0x3d5, 0x3a6)
    ∷ (0x3d6, 0x3a0)
    ∷ (0x3d7, 0x3cf)
    ∷ (0x3d9, 0x3d8)
    ∷ (0x3db, 0x3da)
    ∷ (0x3dd, 0x3dc)
    ∷ (0x3df, 0x3de)
    ∷ (0x3e1, 0x3e0)
    ∷ (0x3e3, 0x3e2)
    ∷ (0x3e5, 0x3e4)
    ∷ (0x3e7, 0x3e6)
    ∷ (0x3e9, 0x3e8)
    ∷ (0x3eb, 0x3ea)
    ∷ (0x3ed, 0x3ec)
    ∷ (0x3ef, 0x3ee)
    ∷ (0x3f0, 0x39a)
    ∷ (0x3f1, 0x3a1)
    ∷ (0x3f2, 0x3f9)
    ∷ (0x3f3, 0x37f)
    ∷ (0x3f5, 0x395)
    ∷ (0x3f8, 0x3f7)
    ∷ (0x3fb, 0x3fa)
    ∷ (0x430, 0x410)
    ∷ (0x431, 0x411)
    ∷ (0x432, 0x412)
    ∷ (0x433, 0x413)
    ∷ (0x434, 0x414)
    ∷ (0x435, 0x415)
    ∷ (0x436, 0x416)
    ∷ (0x437, 0x417)
    ∷ (0x438, 0x418)
    ∷ (0x439, 0x419)
    ∷ (0x43a, 0x41a)
    ∷ (0x43b, 0x41b)
    ∷ (0x43c, 0x41c)
    ∷ (0x43d, 0x41d)
    ∷ (0x43e, 0x41e)
    ∷ (0x43f, 0x41f)
    ∷ (0x440, 0x420)
    ∷ (0x441, 0x421)
    ∷ (0x442, 0x422)
    ∷ (0x443, 0x423)
    ∷ (0x444, 0x424)
    ∷ (0x445, 0x425)
    ∷ (0x446, 0x426)
    ∷ (0x447, 0x427)
    ∷ (0x448, 0x428)
    ∷ (0x449, 0x429)
    ∷ (0x44a, 0x42a)
    ∷ (0x44b, 0x42b)
    ∷ (0x44c, 0x42c)
    ∷ (0x44d, 0x42d)
    ∷ (0x44e, 0x42e)
    ∷ (0x44f, 0x42f)
    ∷ (0x450, 0x400)
    ∷ (0x451, 0x401)
    ∷ (0x452, 0x402)
    ∷ (0x453, 0x403)
    ∷ (0x454, 0x404)
    ∷ (0x455, 0x405)
    ∷ (0x456, 0x406)
    ∷ (0x457, 0x407)
    ∷ (0x458, 0x408)
    ∷ (0x459, 0x409)
    ∷ (0x45a, 0x40a)
    ∷ (0x45b, 0x40b)
    ∷ (0x45c, 0x40c)
    ∷ []
