-- ===== src/CaseMappings/Tables/Lower5.antt =====
-- Part 5 of the table of `upper_to_lower_map` of core/vca/case_mappings.cpp, in the source's order:
-- lines 725 to 783, 177 pairs of code points.
use vca.Prelude.{ℕ, List, [], ◌∷◌}

unfoldable pub upper_to_lower_5 : List (ℕ × ℕ)
upper_to_lower_5 =
    (0x1e86, 0x1e87)
    ∷ (0x1e88, 0x1e89)
    ∷ (0x1e8a, 0x1e8b)
    ∷ (0x1e8c, 0x1e8d)
    ∷ (0x1e8e, 0x1e8f)
    ∷ (0x1e90, 0x1e91)
    ∷ (0x1e92, 0x1e93)
    ∷ (0x1e94, 0x1e95)
    ∷ (0x1e9e, 0xdf)
    ∷ (0x1ea0, 0x1ea1)
    ∷ (0x1ea2, 0x1ea3)
    ∷ (0x1ea4, 0x1ea5)
    ∷ (0x1ea6, 0x1ea7)
    ∷ (0x1ea8, 0x1ea9)
    ∷ (0x1eaa, 0x1eab)
    ∷ (0x1eac, 0x1ead)
    ∷ (0x1eae, 0x1eaf)
    ∷ (0x1eb0, 0x1eb1)
    ∷ (0x1eb2, 0x1eb3)
    ∷ (0x1eb4, 0x1eb5)
    ∷ (0x1eb6, 0x1eb7)
    ∷ (0x1eb8, 0x1eb9)
    ∷ (0x1eba, 0x1ebb)
    ∷ (0x1ebc, 0x1ebd)
    ∷ (0x1ebe, 0x1ebf)
    ∷ (0x1ec0, 0x1ec1)
    ∷ (0x1ec2, 0x1ec3)
    ∷ (0x1ec4, 0x1ec5)
    ∷ (0x1ec6, 0x1ec7)
    ∷ (0x1ec8, 0x1ec9)
    ∷ (0x1eca, 0x1ecb)
    ∷ (0x1ecc, 0x1ecd)
    ∷ (0x1ece, 0x1ecf)
    ∷ (0x1ed0, 0x1ed1)
    ∷ (0x1ed2, 0x1ed3)
    ∷ (0x1ed4, 0x1ed5)
    ∷ (0x1ed6, 0x1ed7)
    ∷ (0x1ed8, 0x1ed9)
    ∷ (0x1eda, 0x1edb)
    ∷ (0x1edc, 0x1edd)
    ∷ (0x1ede, 0x1edf)
    ∷ (0x1ee0, 0x1ee1)
    ∷ (0x1ee2, 0x1ee3)
    ∷ (0x1ee4, 0x1ee5)
    ∷ (0x1ee6, 0x1ee7)
    ∷ (0x1ee8, 0x1ee9)
    ∷ (0x1eea, 0x1eeb)
    ∷ (0x1eec, 0x1eed)
    ∷ (0x1eee, 0x1eef)
    ∷ (0x1ef0, 0x1ef1)
    ∷ (0x1ef2, 0x1ef3)
    ∷ (0x1ef4, 0x1ef5)
    ∷ (0x1ef6, 0x1ef7)
    ∷ (0x1ef8, 0x1ef9)
    ∷ (0x1efa, 0x1efb)
    ∷ (0x1efc, 0x1efd)
    ∷ (0x1efe, 0x1eff)
    ∷ (0x1f08, 0x1f00)
    ∷ (0x1f09, 0x1f01)
    ∷ (0x1f0a, 0x1f02)
    ∷ (0x1f0b, 0x1f03)
    ∷ (0x1f0c, 0x1f04)
    ∷ (0x1f0d, 0x1f05)
    ∷ (0x1f0e, 0x1f06)
    ∷ (0x1f0f, 0x1f07)
    ∷ (0x1f18, 0x1f10)
    ∷ (0x1f19, 0x1f11)
    ∷ (0x1f1a, 0x1f12)
    ∷ (0x1f1b, 0x1f13)
    ∷ (0x1f1c, 0x1f14)
    ∷ (0x1f1d, 0x1f15)
    ∷ (0x1f28, 0x1f20)
    ∷ (0x1f29, 0x1f21)
    ∷ (0x1f2a, 0x1f22)
    ∷ (0x1f2b, 0x1f23)
    ∷ (0x1f2c, 0x1f24)
    ∷ (0x1f2d, 0x1f25)
    ∷ (0x1f2e, 0x1f26)
    ∷ (0x1f2f, 0x1f27)
    ∷ (0x1f38, 0x1f30)
    ∷ (0x1f39, 0x1f31)
    ∷ (0x1f3a, 0x1f32)
    ∷ (0x1f3b, 0x1f33)
    ∷ (0x1f3c, 0x1f34)
    ∷ (0x1f3d, 0x1f35)
    ∷ (0x1f3e, 0x1f36)
    ∷ (0x1f3f, 0x1f37)
    ∷ (0x1f48, 0x1f40)
    ∷ (0x1f49, 0x1f41)
    ∷ (0x1f4a, 0x1f42)
    ∷ (0x1f4b, 0x1f43)
    ∷ (0x1f4c, 0x1f44)
    ∷ (0x1f4d, 0x1f45)
    ∷ (0x1f59, 0x1f51)
    ∷ (0x1f5b, 0x1f53)
    ∷ (0x1f5d, 0x1f55)
    ∷ (0x1f5f, 0x1f57)
    ∷ (0x1f68, 0x1f60)
    ∷ (0x1f69, 0x1f61)
    ∷ (0x1f6a, 0x1f62)
    ∷ (0x1f6b, 0x1f63)
    ∷ (0x1f6c, 0x1f64)
    ∷ (0x1f6d, 0x1f65)
    ∷ (0x1f6e, 0x1f66)
    ∷ (0x1f6f, 0x1f67)
    ∷ (0x1f88, 0x1f80)
    ∷ (0x1f89, 0x1f81)
    ∷ (0x1f8a, 0x1f82)
    ∷ (0x1f8b, 0x1f83)
    ∷ (0x1f8c, 0x1f84)
    ∷ (0x1f8d, 0x1f85)
    ∷ (0x1f8e, 0x1f86)
    ∷ (0x1f8f, 0x1f87)
    ∷ (0x1f98, 0x1f90)
    ∷ (0x1f99, 0x1f91)
    ∷ (0x1f9a, 0x1f92)
    ∷ (0x1f9b, 0x1f93)
    ∷ (0x1f9c, 0x1f94)
    ∷ (0x1f9d, 0x1f95)
    ∷ (0x1f9e, 0x1f96)
    ∷ (0x1f9f, 0x1f97)
    ∷ (0x1fa8, 0x1fa0)
    ∷ (0x1fa9, 0x1fa1)
    ∷ (0x1faa, 0x1fa2)
    ∷ (0x1fab, 0x1fa3)
    ∷ (0x1fac, 0x1fa4)
    ∷ (0x1fad, 0x1fa5)
    ∷ (0x1fae, 0x1fa6)
    ∷ (0x1faf, 0x1fa7)
    ∷ (0x1fb8, 0x1fb0)
    ∷ (0x1fb9, 0x1fb1)
    ∷ (0x1fba, 0x1f70)
    ∷ (0x1fbb, 0x1f71)
    ∷ (0x1fbc, 0x1fb3)
    ∷ (0x1fc8, 0x1f72)
    ∷ (0x1fc9, 0x1f73)
    ∷ (0x1fca, 0x1f74)
    ∷ (0x1fcb, 0x1f75)
    ∷ (0x1fcc, 0x1fc3)
    ∷ (0x1fd8, 0x1fd0)
    ∷ (0x1fd9, 0x1fd1)
    ∷ (0x1fda, 0x1f76)
    ∷ (0x1fdb, 0x1f77)
    ∷ (0x1fe8, 0x1fe0)
    ∷ (0x1fe9, 0x1fe1)
    ∷ (0x1fea, 0x1f7a)
    ∷ (0x1feb, 0x1f7b)
    ∷ (0x1fec, 0x1fe5)
    ∷ (0x1ff8, 0x1f78)
    ∷ (0x1ff9, 0x1f79)
    ∷ (0x1ffa, 0x1f7c)
    ∷ (0x1ffb, 0x1f7d)
    ∷ (0x1ffc, 0x1ff3)
    ∷ (0x2126, 0x3c9)
    ∷ (0x212a, 0x6b)
    ∷ (0x212b, 0xe5)
    ∷ (0x2132, 0x214e)
    ∷ (0x2160, 0x2170)
    ∷ (0x2161, 0x2171)
    ∷ (0x2162, 0x2172)
    ∷ (0x2163, 0x2173)
    ∷ (0x2164, 0x2174)
    ∷ (0x2165, 0x2175)
    ∷ (0x2166, 0x2176)
    ∷ (0x2167, 0x2177)
    ∷ (0x2168, 0x2178)
    ∷ (0x2169, 0x2179)
    ∷ (0x216a, 0x217a)
    ∷ (0x216b, 0x217b)
    ∷ (0x216c, 0x217c)
    ∷ (0x216d, 0x217d)
    ∷ (0x216e, 0x217e)
    ∷ (0x216f, 0x217f)
    ∷ (0x2183, 0x2184)
    ∷ (0x24b6, 0x24d0)
    ∷ (0x24b7, 0x24d1)
    ∷ (0x24b8, 0x24d2)
    ∷ []
