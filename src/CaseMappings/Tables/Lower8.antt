-- ===== src/CaseMappings/Tables/Lower8.antt =====
-- Part 8 of the table of `upper_to_lower_map` of core/vca/case_mappings.cpp, in the source's order:
-- lines 902 to 953, 154 pairs of code points.
use vca.Prelude.{ℕ, List, [], ◌∷◌}

unfoldable pub upper_to_lower_8 : List (ℕ × ℕ)
upper_to_lower_8 =
    (0x104cf, 0x104f7)
    ∷ (0x104d0, 0x104f8)
    ∷ (0x104d1, 0x104f9)
    ∷ (0x104d2, 0x104fa)
    ∷ (0x104d3, 0x104fb)
    ∷ (0x10c80, 0x10cc0)
    ∷ (0x10c81, 0x10cc1)
    ∷ (0x10c82, 0x10cc2)
    ∷ (0x10c83, 0x10cc3)
    ∷ (0x10c84, 0x10cc4)
    ∷ (0x10c85, 0x10cc5)
    ∷ (0x10c86, 0x10cc6)
    ∷ (0x10c87, 0x10cc7)
    ∷ (0x10c88, 0x10cc8)
    ∷ (0x10c89, 0x10cc9)
    ∷ (0x10c8a, 0x10cca)
    ∷ (0x10c8b, 0x10ccb)
    ∷ (0x10c8c, 0x10ccc)
    ∷ (0x10c8d, 0x10ccd)
    ∷ (0x10c8e, 0x10cce)
    ∷ (0x10c8f, 0x10ccf)
    ∷ (0x10c90, 0x10cd0)
    ∷ (0x10c91, 0x10cd1)
    ∷ (0x10c92, 0x10cd2)
    ∷ (0x10c93, 0x10cd3)
    ∷ (0x10c94, 0x10cd4)
    ∷ (0x10c95, 0x10cd5)
    ∷ (0x10c96, 0x10cd6)
    ∷ (0x10c97, 0x10cd7)
    ∷ (0x10c98, 0x10cd8)
    ∷ (0x10c99, 0x10cd9)
    ∷ (0x10c9a, 0x10cda)
    ∷ (0x10c9b, 0x10cdb)
    ∷ (0x10c9c, 0x10cdc)
    ∷ (0x10c9d, 0x10cdd)
    ∷ (0x10c9e, 0x10cde)
    ∷ (0x10c9f, 0x10cdf)
    ∷ (0x10ca0, 0x10ce0)
    ∷ (0x10ca1, 0x10ce1)
    ∷ (0x10ca2, 0x10ce2)
    ∷ (0x10ca3, 0x10ce3)
    ∷ (0x10ca4, 0x10ce4)
    ∷ (0x10ca5, 0x10ce5)
    ∷ (0x10ca6, 0x10ce6)
    ∷ (0x10ca7, 0x10ce7)
    ∷ (0x10ca8, 0x10ce8)
    ∷ (0x10ca9, 0x10ce9)
    ∷ (0x10caa, 0x10cea)
    ∷ (0x10cab, 0x10ceb)
    ∷ (0x10cac, 0x10cec)
    ∷ (0x10cad, 0x10ced)
    ∷ (0x10cae, 0x10cee)
    ∷ (0x10caf, 0x10cef)
    ∷ (0x10cb0, 0x10cf0)
    ∷ (0x10cb1, 0x10cf1)
    ∷ (0x10cb2, 0x10cf2)
    ∷ (0x118a0, 0x118c0)
    ∷ (0x118a1, 0x118c1)
    ∷ (0x118a2, 0x118c2)
    ∷ (0x118a3, 0x118c3)
    ∷ (0x118a4, 0x118c4)
    ∷ (0x118a5, 0x118c5)
    ∷ (0x118a6, 0x118c6)
    ∷ (0x118a7, 0x118c7)
    ∷ (0x118a8, 0x118c8)
    ∷ (0x118a9, 0x118c9)
    ∷ (0x118aa, 0x118ca)
    ∷ (0x118ab, 0x118cb)
    ∷ (0x118ac, 0x118cc)
    ∷ (0x118ad, 0x118cd)
    ∷ (0x118ae, 0x118ce)
    ∷ (0x118af, 0x118cf)
    ∷ (0x118b0, 0x118d0)
    ∷ (0x118b1, 0x118d1)
    ∷ (0x118b2, 0x118d2)
    ∷ (0x118b3, 0x118d3)
    ∷ (0x118b4, 0x118d4)
    ∷ (0x118b5, 0x118d5)
    ∷ (0x118b6, 0x118d6)
    ∷ (0x118b7, 0x118d7)
    ∷ (0x118b8, 0x118d8)
    ∷ (0x118b9, 0x118d9)
    ∷ (0x118ba, 0x118da)
    ∷ (0x118bb, 0x118db)
    ∷ (0x118bc, 0x118dc)
    ∷ (0x118bd, 0x118dd)
    ∷ (0x118be, 0x118de)
    ∷ (0x118bf, 0x118df)
    ∷ (0x16e40, 0x16e60)
    ∷ (0x16e41, 0x16e61)
    ∷ (0x16e42, 0x16e62)
    ∷ (0x16e43, 0x16e63)
    ∷ (0x16e44, 0x16e64)
    ∷ (0x16e45, 0x16e65)
    ∷ (0x16e46, 0x16e66)
    ∷ (0x16e47, 0x16e67)
    ∷ (0x16e48, 0x16e68)
    ∷ (0x16e49, 0x16e69)
    ∷ (0x16e4a, 0x16e6a)
    ∷ (0x16e4b, 0x16e6b)
    ∷ (0x16e4c, 0x16e6c)
    ∷ (0x16e4d, 0x16e6d)
    ∷ (0x16e4e, 0x16e6e)
    ∷ (0x16e4f, 0x16e6f)
    ∷ (0x16e50, 0x16e70)
    ∷ (0x16e51, 0x16e71)
    ∷ (0x16e52, 0x16e72)
    ∷ (0x16e53, 0x16e73)
    ∷ (0x16e54, 0x16e74)
    ∷ (0x16e55, 0x16e75)
    ∷ (0x16e56, 0x16e76)
    ∷ (0x16e57, 0x16e77)
    ∷ (0x16e58, 0x16e78)
    ∷ (0x16e59, 0x16e79)
    ∷ (0x16e5a, 0x16e7a)
    ∷ (0x16e5b, 0x16e7b)
    ∷ (0x16e5c, 0x16e7c)
    ∷ (0x16e5d, 0x16e7d)
    ∷ (0x16e5e, 0x16e7e)
    ∷ (0x16e5f, 0x16e7f)
    ∷ (0x1e900, 0x1e922)
    ∷ (0x1e901, 0x1e923)
    ∷ (0x1e902, 0x1e924)
    ∷ (0x1e903, 0x1e925)
    ∷ (0x1e904, 0x1e926)
    ∷ (0x1e905, 0x1e927)
    ∷ (0x1e906, 0x1e928)
    ∷ (0x1e907, 0x1e929)
    ∷ (0x1e908, 0x1e92a)
    ∷ (0x1e909, 0x1e92b)
    ∷ (0x1e90a, 0x1e92c)
    ∷ (0x1e90b, 0x1e92d)
    ∷ (0x1e90c, 0x1e92e)
    ∷ (0x1e90d, 0x1e92f)
    ∷ (0x1e90e, 0x1e930)
    ∷ (0x1e90f, 0x1e931)
    ∷ (0x1e910, 0x1e932)
    ∷ (0x1e911, 0x1e933)
    ∷ (0x1e912, 0x1e934)
    ∷ (0x1e913, 0x1e935)
    ∷ (0x1e914, 0x1e936)
    ∷ (0x1e915, 0x1e937)
    ∷ (0x1e916, 0x1e938)
    ∷ (0x1e917, 0x1e939)
    ∷ (0x1e918, 0x1e93a)
    ∷ (0x1e919, 0x1e93b)
    ∷ (0x1e91a, 0x1e93c)
    ∷ (0x1e91b, 0x1e93d)
    ∷ (0x1e91c, 0x1e93e)
    ∷ (0x1e91d, 0x1e93f)
    ∷ (0x1e91e, 0x1e940)
    ∷ (0x1e91f, 0x1e941)
    ∷ (0x1e920, 0x1e942)
    ∷ (0x1e921, 0x1e943)
    ∷ []
