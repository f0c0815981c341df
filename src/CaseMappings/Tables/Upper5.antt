-- ===== src/CaseMappings/Tables/Upper5.antt =====
-- Part 5 of the table of `lower_to_upper_map` of core/vca/case_mappings.cpp, in the source's order:
-- lines 247 to 305, 177 pairs of code points.
use vca.Prelude.{ℕ, List, [], ◌∷◌}

unfoldable pub lower_to_upper_5 : List (ℕ × ℕ)
lower_to_upper_5 =
    (0x1f33, 0x1f3b)
    ∷ (0x1f34, 0x1f3c)
    ∷ (0x1f35, 0x1f3d)
    ∷ (0x1f36, 0x1f3e)
    ∷ (0x1f37, 0x1f3f)
    ∷ (0x1f40, 0x1f48)
    ∷ (0x1f41, 0x1f49)
    ∷ (0x1f42, 0x1f4a)
    ∷ (0x1f43, 0x1f4b)
    ∷ (0x1f44, 0x1f4c)
    ∷ (0x1f45, 0x1f4d)
    ∷ (0x1f51, 0x1f59)
    ∷ (0x1f53, 0x1f5b)
    ∷ (0x1f55, 0x1f5d)
    ∷ (0x1f57, 0x1f5f)
    ∷ (0x1f60, 0x1f68)
    ∷ (0x1f61, 0x1f69)
    ∷ (0x1f62, 0x1f6a)
    ∷ (0x1f63, 0x1f6b)
    ∷ (0x1f64, 0x1f6c)
    ∷ (0x1f65, 0x1f6d)
    ∷ (0x1f66, 0x1f6e)
    ∷ (0x1f67, 0x1f6f)
    ∷ (0x1f70, 0x1fba)
    ∷ (0x1f71, 0x1fbb)
    ∷ (0x1f72, 0x1fc8)
    ∷ (0x1f73, 0x1fc9)
    ∷ (0x1f74, 0x1fca)
    ∷ (0x1f75, 0x1fcb)
    ∷ (0x1f76, 0x1fda)
    ∷ (0x1f77, 0x1fdb)
    ∷ (0x1f78, 0x1ff8)
    ∷ (0x1f79, 0x1ff9)
    ∷ (0x1f7a, 0x1fea)
    ∷ (0x1f7b, 0x1feb)
    ∷ (0x1f7c, 0x1ffa)
    ∷ (0x1f7d, 0x1ffb)
    ∷ (0x1f80, 0x1f88)
    ∷ (0x1f81, 0x1f89)
    ∷ (0x1f82, 0x1f8a)
    ∷ (0x1f83, 0x1f8b)
    ∷ (0x1f84, 0x1f8c)
    ∷ (0x1f85, 0x1f8d)
    ∷ (0x1f86, 0x1f8e)
    ∷ (0x1f87, 0x1f8f)
    ∷ (0x1f90, 0x1f98)
    ∷ (0x1f91, 0x1f99)
    ∷ (0x1f92, 0x1f9a)
    ∷ (0x1f93, 0x1f9b)
    ∷ (0x1f94, 0x1f9c)
    ∷ (0x1f95, 0x1f9d)
    ∷ (0x1f96, 0x1f9e)
    ∷ (0x1f97, 0x1f9f)
    ∷ (0x1fa0, 0x1fa8)
    ∷ (0x1fa1, 0x1fa9)
    ∷ (0x1fa2, 0x1faa)
    ∷ (0x1fa3, 0x1fab)
    ∷ (0x1fa4, 0x1fac)
    ∷ (0x1fa5, 0x1fad)
    ∷ (0x1fa6, 0x1fae)
    ∷ (0x1fa7, 0x1faf)
    ∷ (0x1fb0, 0x1fb8)
    ∷ (0x1fb1, 0x1fb9)
    ∷ (0x1fb3, 0x1fbc)
    ∷ (0x1fbe, 0x399)
    ∷ (0x1fc3, 0x1fcc)
    ∷ (0x1fd0, 0x1fd8)
    ∷ (0x1fd1, 0x1fd9)
    ∷ (0x1fe0, 0x1fe8)
    ∷ (0x1fe1, 0x1fe9)
    ∷ (0x1fe5, 0x1fec)
    ∷ (0x1ff3, 0x1ffc)
    ∷ (0x214e, 0x2132)
    ∷ (0x2170, 0x2160)
    ∷ (0x2171, 0x2161)
    ∷ (0x2172, 0x2162)
    ∷ (0x2173, 0x2163)
    ∷ (0x2174, 0x2164)
    ∷ (0x2175, 0x2165)
    ∷ (0x2176, 0x2166)
    ∷ (0x2177, 0x2167)
    ∷ (0x2178, 0x2168)
    ∷ (0x2179, 0x2169)
    ∷ (0x217a, 0x216a)
    ∷ (0x217b, 0x216b)
    ∷ (0x217c, 0x216c)
    ∷ (0x217d, 0x216d)
    ∷ (0x217e, 0x216e)
    ∷ (0x217f, 0x216f)
    ∷ (0x2184, 0x2183)
    ∷ (0x24d0, 0x24b6)
    ∷ (0x24d1, 0x24b7)
    ∷ (0x24d2, 0x24b8)
    ∷ (0x24d3, 0x24b9)
    ∷ (0x24d4, 0x24ba)
    ∷ (0x24d5, 0x24bb)
    ∷ (0x24d6, 0x24bc)
    ∷ (0x24d7, 0x24bd)
    ∷ (0x24d8, 0x24be)
    ∷ (0x24d9, 0x24bf)
    ∷ (0x24da, 0x24c0)
    ∷ (0x24db, 0x24c1)
    ∷ (0x24dc, 0x24c2)
    ∷ (0x24dd, 0x24c3)
    ∷ (0x24de, 0x24c4)
    ∷ (0x24df, 0x24c5)
    ∷ (0x24e0, 0x24c6)
    ∷ (0x24e1, 0x24c7)
    ∷ (0x24e2, 0x24c8)
    ∷ (0x24e3, 0x24c9)
    ∷ (0x24e4, 0x24ca)
    ∷ (0x24e5, 0x24cb)
    ∷ (0x24e6, 0x24cc)
    ∷ (0x24e7, 0x24cd)
    ∷ (0x24e8, 0x24ce)
    ∷ (0x24e9, 0x24cf)
    ∷ (0x2c30, 0x2c00)
    ∷ (0x2c31, 0x2c01)
    ∷ (0x2c32, 0x2c02)
    ∷ (0x2c33, 0x2c03)
    ∷ (0x2c34, 0x2c04)
    ∷ (0x2c35, 0x2c05)
    ∷ (0x2c36, 0x2c06)
    ∷ (0x2c37, 0x2c07)
    ∷ (0x2c38, 0x2c08)
    ∷ (0x2c39, 0x2c09)
    ∷ (0x2c3a, 0x2c0a)
    ∷ (0x2c3b, 0x2c0b)
    ∷ (0x2c3c, 0x2c0c)
    ∷ (0x2c3d, 0x2c0d)
    ∷ (0x2c3e, 0x2c0e)
    ∷ (0x2c3f, 0x2c0f)
    ∷ (0x2c40, 0x2c10)
    ∷ (0x2c41, 0x2c11)
    ∷ (0x2c42, 0x2c12)
    ∷ (0x2c43, 0x2c13)
    ∷ (0x2c44, 0x2c14)
    ∷ (0x2c45, 0x2c15)
    ∷ (0x2c46, 0x2c16)
    ∷ (0x2c47, 0x2c17)
    ∷ (0x2c48, 0x2c18)
    ∷ (0x2c49, 0x2c19)
    ∷ (0x2c4a, 0x2c1a)
    ∷ (0x2c4b, 0x2c1b)
    ∷ (0x2c4c, 0x2c1c)
    ∷ (0x2c4d, 0x2c1d)
    ∷ (0x2c4e, 0x2c1e)
    ∷ (0x2c4f, 0x2c1f)
    ∷ (0x2c50, 0x2c20)
    ∷ (0x2c51, 0x2c21)
    ∷ (0x2c52, 0x2c22)
    ∷ (0x2c53, 0x2c23)
    ∷ (0x2c54, 0x2c24)
    ∷ (0x2c55, 0x2c25)
    ∷ (0x2c56, 0x2c26)
    ∷ (0x2c57, 0x2c27)
    ∷ (0x2c58, 0x2c28)
    ∷ (0x2c59, 0x2c29)
    ∷ (0x2c5a, 0x2c2a)
    ∷ (0x2c5b, 0x2c2b)
    ∷ (0x2c5c, 0x2c2c)
    ∷ (0x2c5d, 0x2c2d)
    ∷ (0x2c5e, 0x2c2e)
    ∷ (0x2c61, 0x2c60)
    ∷ (0x2c65, 0x23a)
    ∷ (0x2c66, 0x23e)
    ∷ (0x2c68, 0x2c67)
    ∷ (0x2c6a, 0x2c69)
    ∷ (0x2c6c, 0x2c6b)
    ∷ (0x2c73, 0x2c72)
    ∷ (0x2c76, 0x2c75)
    ∷ (0x2c81, 0x2c80)
    ∷ (0x2c83, 0x2c82)
    ∷ (0x2c85, 0x2c84)
    ∷ (0x2c87, 0x2c86)
    ∷ (0x2c89, 0x2c88)
    ∷ (0x2c8b, 0x2c8a)
    ∷ []
