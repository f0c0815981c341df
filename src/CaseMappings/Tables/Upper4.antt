-- ===== src/CaseMappings/Tables/Upper4.antt =====
-- Part 4 of the table of `lower_to_upper_map` of core/vca/case_mappings.cpp, in the source's order:
-- lines 188 to 246, 177 pairs of code points.
use vca.Prelude.{ℕ, List, [], ◌∷◌}

unfoldable pub lower_to_upper_4 : List (ℕ × ℕ)
lower_to_upper_4 =
    (0x10f4, 0x1cb4)
    ∷ (0x10f5, 0x1cb5)
    ∷ (0x10f6, 0x1cb6)
    ∷ (0x10f7, 0x1cb7)
    ∷ (0x10f8, 0x1cb8)
    ∷ (0x10f9, 0x1cb9)
    ∷ (0x10fa, 0x1cba)
    ∷ (0x10fd, 0x1cbd)
    ∷ (0x10fe, 0x1cbe)
    ∷ (0x10ff, 0x1cbf)
    ∷ (0x13f8, 0x13f0)
    ∷ (0x13f9, 0x13f1)
    ∷ (0x13fa, 0x13f2)
    ∷ (0x13fb, 0x13f3)
    ∷ (0x13fc, 0x13f4)
    ∷ (0x13fd, 0x13f5)
    ∷ (0x1c80, 0x412)
    ∷ (0x1c81, 0x414)
    ∷ (0x1c82, 0x41e)
    ∷ (0x1c83, 0x421)
    ∷ (0x1c84, 0x422)
    ∷ (0x1c85, 0x422)
    ∷ (0x1c86, 0x42a)
    ∷ (0x1c87, 0x462)
    ∷ (0x1c88, 0xa64a)
    ∷ (0x1d79, 0xa77d)
    ∷ (0x1d7d, 0x2c63)
    ∷ (0x1d8e, 0xa7c6)
    ∷ (0x1e01, 0x1e00)
    ∷ (0x1e03, 0x1e02)
    ∷ (0x1e05, 0x1e04)
    ∷ (0x1e07, 0x1e06)
    ∷ (0x1e09, 0x1e08)
    ∷ (0x1e0b, 0x1e0a)
    ∷ (0x1e0d, 0x1e0c)
    ∷ (0x1e0f, 0x1e0e)
    ∷ (0x1e11, 0x1e10)
    ∷ (0x1e13, 0x1e12)
    ∷ (0x1e15, 0x1e14)
    ∷ (0x1e17, 0x1e16)
    ∷ (0x1e19, 0x1e18)
    ∷ (0x1e1b, 0x1e1a)
    ∷ (0x1e1d, 0x1e1c)
    ∷ (0x1e1f, 0x1e1e)
    ∷ (0x1e21, 0x1e20)
    ∷ (0x1e23, 0x1e22)
    ∷ (0x1e25, 0x1e24)
    ∷ (0x1e27, 0x1e26)
    ∷ (0x1e29, 0x1e28)
    ∷ (0x1e2b, 0x1e2a)
    ∷ (0x1e2d, 0x1e2c)
    ∷ (0x1e2f, 0x1e2e)
    ∷ (0x1e31, 0x1e30)
    ∷ (0x1e33, 0x1e32)
    ∷ (0x1e35, 0x1e34)
    ∷ (0x1e37, 0x1e36)
    ∷ (0x1e39, 0x1e38)
    ∷ (0x1e3b, 0x1e3a)
    ∷ (0x1e3d, 0x1e3c)
    ∷ (0x1e3f, 0x1e3e)
    ∷ (0x1e41, 0x1e40)
    ∷ (0x1e43, 0x1e42)
    ∷ (0x1e45, 0x1e44)
    ∷ (0x1e47, 0x1e46)
    ∷ (0x1e49, 0x1e48)
    ∷ (0x1e4b, 0x1e4a)
    ∷ (0x1e4d, 0x1e4c)
    ∷ (0x1e4f, 0x1e4e)
    ∷ (0x1e51, 0x1e50)
    ∷ (0x1e53, 0x1e52)
    ∷ (0x1e55, 0x1e54)
    ∷ (0x1e57, 0x1e56)
    ∷ (0x1e59, 0x1e58)
    ∷ (0x1e5b, 0x1e5a)
    ∷ (0x1e5d, 0x1e5c)
    ∷ (0x1e5f, 0x1e5e)
    ∷ (0x1e61, 0x1e60)
    ∷ (0x1e63, 0x1e62)
    ∷ (0x1e65, 0x1e64)
    ∷ (0x1e67, 0x1e66)
    ∷ (0x1e69, 0x1e68)
    ∷ (0x1e6b, 0x1e6a)
    ∷ (0x1e6d, 0x1e6c)
    ∷ (0x1e6f, 0x1e6e)
    ∷ (0x1e71, 0x1e70)
    ∷ (0x1e73, 0x1e72)
    ∷ (0x1e75, 0x1e74)
    ∷ (0x1e77, 0x1e76)
    ∷ (0x1e79, 0x1e78)
    ∷ (0x1e7b, 0x1e7a)
    ∷ (0x1e7d, 0x1e7c)
    ∷ (0x1e7f, 0x1e7e)
    ∷ (0x1e81, 0x1e80)
    ∷ (0x1e83, 0x1e82)
    ∷ (0x1e85, 0x1e84)
    ∷ (0x1e87, 0x1e86)
    ∷ (0x1e89, 0x1e88)
    ∷ (0x1e8b, 0x1e8a)
    ∷ (0x1e8d, 0x1e8c)
    ∷ (0x1e8f, 0x1e8e)
    ∷ (0x1e91, 0x1e90)
    ∷ (0x1e93, 0x1e92)
    ∷ (0x1e95, 0x1e94)
    ∷ (0x1e9b, 0x1e60)
    ∷ (0x1ea1, 0x1ea0)
    ∷ (0x1ea3, 0x1ea2)
    ∷ (0x1ea5, 0x1ea4)
    ∷ (0x1ea7, 0x1ea6)
    ∷ (0x1ea9, 0x1ea8)
    ∷ (0x1eab, 0x1eaa)
    ∷ (0x1ead, 0x1eac)
    ∷ (0x1eaf, 0x1eae)
    ∷ (0x1eb1, 0x1eb0)
    ∷ (0x1eb3, 0x1eb2)
    ∷ (0x1eb5, 0x1eb4)
    ∷ (0x1eb7, 0x1eb6)
    ∷ (0x1eb9, 0x1eb8)
    ∷ (0x1ebb, 0x1eba)
    ∷ (0x1ebd, 0x1ebc)
    ∷ (0x1ebf, 0x1ebe)
    ∷ (0x1ec1, 0x1ec0)
    ∷ (0x1ec3, 0x1ec2)
    ∷ (0x1ec5, 0x1ec4)
    ∷ (0x1ec7, 0x1ec6)
    ∷ (0x1ec9, 0x1ec8)
    ∷ (0x1ecb, 0x1eca)
    ∷ (0x1ecd, 0x1ecc)
    ∷ (0x1ecf, 0x1ece)
    ∷ (0x1ed1, 0x1ed0)
    ∷ (0x1ed3, 0x1ed2)
    ∷ (0x1ed5, 0x1ed4)
    ∷ (0x1ed7, 0x1ed6)
    ∷ (0x1ed9, 0x1ed8)
    ∷ (0x1edb, 0x1eda)
    ∷ (0x1edd, 0x1edc)
    ∷ (0x1edf, 0x1ede)
    ∷ (0x1ee1, 0x1ee0)
    ∷ (0x1ee3, 0x1ee2)
    ∷ (0x1ee5, 0x1ee4)
    ∷ (0x1ee7, 0x1ee6)
    ∷ (0x1ee9, 0x1ee8)
    ∷ (0x1eeb, 0x1eea)
    ∷ (0x1eed, 0x1eec)
    ∷ (0x1eef, 0x1eee)
    ∷ (0x1ef1, 0x1ef0)
    ∷ (0x1ef3, 0x1ef2)
    ∷ (0x1ef5, 0x1ef4)
    ∷ (0x1ef7, 0x1ef6)
    ∷ (0x1ef9, 0x1ef8)
    ∷ (0x1efb, 0x1efa)
    ∷ (0x1efd, 0x1efc)
    ∷ (0x1eff, 0x1efe)
    ∷ (0x1f00, 0x1f08)
    ∷ (0x1f01, 0x1f09)
    ∷ (0x1f02, 0x1f0a)
    ∷ (0x1f03, 0x1f0b)
    ∷ (0x1f04, 0x1f0c)
    ∷ (0x1f05, 0x1f0d)
    ∷ (0x1f06, 0x1f0e)
    ∷ (0x1f07, 0x1f0f)
    ∷ (0x1f10, 0x1f18)
    ∷ (0x1f11, 0x1f19)
    ∷ (0x1f12, 0x1f1a)
    ∷ (0x1f13, 0x1f1b)
    ∷ (0x1f14, 0x1f1c)
    ∷ (0x1f15, 0x1f1d)
    ∷ (0x1f20, 0x1f28)
    ∷ (0x1f21, 0x1f29)
    ∷ (0x1f22, 0x1f2a)
    ∷ (0x1f23, 0x1f2b)
    ∷ (0x1f24, 0x1f2c)
    ∷ (0x1f25, 0x1f2d)
    ∷ (0x1f26, 0x1f2e)
    ∷ (0x1f27, 0x1f2f)
    ∷ (0x1f30, 0x1f38)
    ∷ (0x1f31, 0x1f39)
    ∷ (0x1f32, 0x1f3a)
    ∷ []
