-- ===== src/CaseMappings/Tables/Lower6.antt =====
-- Part 6 of the table of `upper_to_lower_map` of core/vca/case_mappings.cpp, in the source's order:
-- lines 784 to 842, 177 pairs of code points.
use vca.Prelude.{ℕ, List, [], ◌∷◌}

unfoldable pub upper_to_lower_6 : List (ℕ × ℕ)
upper_to_lower_6 =
    (0x24b9, 0x24d3)
    ∷ (0x24ba, 0x24d4)
    ∷ (0x24bb, 0x24d5)
    ∷ (0x24bc, 0x24d6)
    ∷ (0x24bd, 0x24d7)
    ∷ (0x24be, 0x24d8)
    ∷ (0x24bf, 0x24d9)
    ∷ (0x24c0, 0x24da)
    ∷ (0x24c1, 0x24db)
    ∷ (0x24c2, 0x24dc)
    ∷ (0x24c3, 0x24dd)
    ∷ (0x24c4, 0x24de)
    ∷ (0x24c5, 0x24df)
    ∷ (0x24c6, 0x24e0)
    ∷ (0x24c7, 0x24e1)
    ∷ (0x24c8, 0x24e2)
    ∷ (0x24c9, 0x24e3)
    ∷ (0x24ca, 0x24e4)
    ∷ (0x24cb, 0x24e5)
    ∷ (0x24cc, 0x24e6)
    ∷ (0x24cd, 0x24e7)
    ∷ (0x24ce, 0x24e8)
    ∷ (0x24cf, 0x24e9)
    ∷ (0x2c00, 0x2c30)
    ∷ (0x2c01, 0x2c31)
    ∷ (0x2c02, 0x2c32)
    ∷ (0x2c03, 0x2c33)
    ∷ (0x2c04, 0x2c34)
    ∷ (0x2c05, 0x2c35)
    ∷ (0x2c06, 0x2c36)
    ∷ (0x2c07, 0x2c37)
    ∷ (0x2c08, 0x2c38)
    ∷ (0x2c09, 0x2c39)
    ∷ (0x2c0a, 0x2c3a)
    ∷ (0x2c0b, 0x2c3b)
    ∷ (0x2c0c, 0x2c3c)
    ∷ (0x2c0d, 0x2c3d)
    ∷ (0x2c0e, 0x2c3e)
    ∷ (0x2c0f, 0x2c3f)
    ∷ (0x2c10, 0x2c40)
    ∷ (0x2c11, 0x2c41)
    ∷ (0x2c12, 0x2c42)
    ∷ (0x2c13, 0x2c43)
    ∷ (0x2c14, 0x2c44)
    ∷ (0x2c15, 0x2c45)
    ∷ (0x2c16, 0x2c46)
    ∷ (0x2c17, 0x2c47)
    ∷ (0x2c18, 0x2c48)
    ∷ (0x2c19, 0x2c49)
    ∷ (0x2c1a, 0x2c4a)
    ∷ (0x2c1b, 0x2c4b)
    ∷ (0x2c1c, 0x2c4c)
    ∷ (0x2c1d, 0x2c4d)
    ∷ (0x2c1e, 0x2c4e)
    ∷ (0x2c1f, 0x2c4f)
    ∷ (0x2c20, 0x2c50)
    ∷ (0x2c21, 0x2c51)
    ∷ (0x2c22, 0x2c52)
    ∷ (0x2c23, 0x2c53)
    ∷ (0x2c24, 0x2c54)
    ∷ (0x2c25, 0x2c55)
    ∷ (0x2c26, 0x2c56)
    ∷ (0x2c27, 0x2c57)
    ∷ (0x2c28, 0x2c58)
    ∷ (0x2c29, 0x2c59)
    ∷ (0x2c2a, 0x2c5a)
    ∷ (0x2c2b, 0x2c5b)
    ∷ (0x2c2c, 0x2c5c)
    ∷ (0x2c2d, 0x2c5d)
    ∷ (0x2c2e, 0x2c5e)
    ∷ (0x2c60, 0x2c61)
    ∷ (0x2c62, 0x26b)
    ∷ (0x2c63, 0x1d7d)
    ∷ (0x2c64, 0x27d)
    ∷ (0x2c67, 0x2c68)
    ∷ (0x2c69, 0x2c6a)
    ∷ (0x2c6b, 0x2c6c)
    ∷ (0x2c6d, 0x251)
    ∷ (0x2c6e, 0x271)
    ∷ (0x2c6f, 0x250)
    ∷ (0x2c70, 0x252)
    ∷ (0x2c72, 0x2c73)
    ∷ (0x2c75, 0x2c76)
    ∷ (0x2c7e, 0x23f)
    ∷ (0x2c7f, 0x240)
    ∷ (0x2c80, 0x2c81)
    ∷ (0x2c82, 0x2c83)
    ∷ (0x2c84, 0x2c85)
    ∷ (0x2c86, 0x2c87)
    ∷ (0x2c88, 0x2c89)
    ∷ (0x2c8a, 0x2c8b)
    ∷ (0x2c8c, 0x2c8d)
    ∷ (0x2c8e, 0x2c8f)
    ∷ (0x2c90, 0x2c91)
    ∷ (0x2c92, 0x2c93)
    ∷ (0x2c94, 0x2c95)
    ∷ (0x2c96, 0x2c97)
    ∷ (0x2c98, 0x2c99)
    ∷ (0x2c9a, 0x2c9b)
    ∷ (0x2c9c, 0x2c9d)
    ∷ (0x2c9e, 0x2c9f)
    ∷ (0x2ca0, 0x2ca1)
    ∷ (0x2ca2, 0x2ca3)
    ∷ (0x2ca4, 0x2ca5)
    ∷ (0x2ca6, 0x2ca7)
    ∷ (0x2ca8, 0x2ca9)
    ∷ (0x2caa, 0x2cab)
    ∷ (0x2cac, 0x2cad)
    ∷ (0x2cae, 0x2caf)
    ∷ (0x2cb0, 0x2cb1)
    ∷ (0x2cb2, 0x2cb3)
    ∷ (0x2cb4, 0x2cb5)
    ∷ (0x2cb6, 0x2cb7)
    ∷ (0x2cb8, 0x2cb9)
    ∷ (0x2cba, 0x2cbb)
    ∷ (0x2cbc, 0x2cbd)
    ∷ (0x2cbe, 0x2cbf)
    ∷ (0x2cc0, 0x2cc1)
    ∷ (0x2cc2, 0x2cc3)
    ∷ (0x2cc4, 0x2cc5)
    ∷ (0x2cc6, 0x2cc7)
    ∷ (0x2cc8, 0x2cc9)
    ∷ (0x2cca, 0x2ccb)
    ∷ (0x2ccc, 0x2ccd)
    ∷ (0x2cce, 0x2ccf)
    ∷ (0x2cd0, 0x2cd1)
    ∷ (0x2cd2, 0x2cd3)
    ∷ (0x2cd4, 0x2cd5)
    ∷ (0x2cd6, 0x2cd7)
    ∷ (0x2cd8, 0x2cd9)
    ∷ (0x2cda, 0x2cdb)
    ∷ (0x2cdc, 0x2cdd)
    ∷ (0x2cde, 0x2cdf)
    ∷ (0x2ce0, 0x2ce1)
    ∷ (0x2ce2, 0x2ce3)
    ∷ (0x2ceb, 0x2cec)
    ∷ (0x2ced, 0x2cee)
    ∷ (0x2cf2, 0x2cf3)
    ∷ (0xa640, 0xa641)
    ∷ (0xa642, 0xa643)
    ∷ (0xa644, 0xa645)
    ∷ (0xa646, 0xa647)
    ∷ (0xa648, 0xa649)
    ∷ (0xa64a, 0xa64b)
    ∷ (0xa64c, 0xa64d)
    ∷ (0xa64e, 0xa64f)
    ∷ (0xa650, 0xa651)
    ∷ (0xa652, 0xa653)
    ∷ (0xa654, 0xa655)
    ∷ (0xa656, 0xa657)
    ∷ (0xa658, 0xa659)
    ∷ (0xa65a, 0xa65b)
    ∷ (0xa65c, 0xa65d)
    ∷ (0xa65e, 0xa65f)
    ∷ (0xa660, 0xa661)
    ∷ (0xa662, 0xa663)
    ∷ (0xa664, 0xa665)
    ∷ (0xa666, 0xa667)
    ∷ (0xa668, 0xa669)
    ∷ (0xa66a, 0xa66b)
    ∷ (0xa66c, 0xa66d)
    ∷ (0xa680, 0xa681)
    ∷ (0xa682, 0xa683)
    ∷ (0xa684, 0xa685)
    ∷ (0xa686, 0xa687)
    ∷ (0xa688, 0xa689)
    ∷ (0xa68a, 0xa68b)
    ∷ (0xa68c, 0xa68d)
    ∷ (0xa68e, 0xa68f)
    ∷ (0xa690, 0xa691)
    ∷ (0xa692, 0xa693)
    ∷ (0xa694, 0xa695)
    ∷ (0xa696, 0xa697)
    ∷ (0xa698, 0xa699)
    ∷ (0xa69a, 0xa69b)
    ∷ (0xa722, 0xa723)
    ∷ (0xa724, 0xa725)
    ∷ []
