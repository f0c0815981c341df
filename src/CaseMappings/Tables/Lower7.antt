-- ===== src/CaseMappings/Tables/Lower7.antt =====
-- Part 7 of the table of `upper_to_lower_map` of core/vca/case_mappings.cpp, in the source's order:
-- lines 843 to 901, 177 pairs of code points.
use vca.Prelude.{ℕ, List, [], ◌∷◌}

unfoldable pub upper_to_lower_7 : List (ℕ × ℕ)
upper_to_lower_7 =
    (0xa726, 0xa727)
    ∷ (0xa728, 0xa729)
    ∷ (0xa72a, 0xa72b)
    ∷ (0xa72c, 0xa72d)
    ∷ (0xa72e, 0xa72f)
    ∷ (0xa732, 0xa733)
    ∷ (0xa734, 0xa735)
    ∷ (0xa736, 0xa737)
    ∷ (0xa738, 0xa739)
    ∷ (0xa73a, 0xa73b)
    ∷ (0xa73c, 0xa73d)
    ∷ (0xa73e, 0xa73f)
    ∷ (0xa740, 0xa741)
    ∷ (0xa742, 0xa743)
    ∷ (0xa744, 0xa745)
    ∷ (0xa746, 0xa747)
    ∷ (0xa748, 0xa749)
    ∷ (0xa74a, 0xa74b)
    ∷ (0xa74c, 0xa74d)
    ∷ (0xa74e, 0xa74f)
    ∷ (0xa750, 0xa751)
    ∷ (0xa752, 0xa753)
    ∷ (0xa754, 0xa755)
    ∷ (0xa756, 0xa757)
    ∷ (0xa758, 0xa759)
    ∷ (0xa75a, 0xa75b)
    ∷ (0xa75c, 0xa75d)
    ∷ (0xa75e, 0xa75f)
    ∷ (0xa760, 0xa761)
    ∷ (0xa762, 0xa763)
    ∷ (0xa764, 0xa765)
    ∷ (0xa766, 0xa767)
    ∷ (0xa768, 0xa769)
    ∷ (0xa76a, 0xa76b)
    ∷ (0xa76c, 0xa76d)
    ∷ (0xa76e, 0xa76f)
    ∷ (0xa779, 0xa77a)
    ∷ (0xa77b, 0xa77c)
    ∷ (0xa77d, 0x1d79)
    ∷ (0xa77e, 0xa77f)
    ∷ (0xa780, 0xa781)
    ∷ (0xa782, 0xa783)
    ∷ (0xa784, 0xa785)
    ∷ (0xa786, 0xa787)
    ∷ (0xa78b, 0xa78c)
    ∷ (0xa78d, 0x265)
    ∷ (0xa790, 0xa791)
    ∷ (0xa792, 0xa793)
    ∷ (0xa796, 0xa797)
    ∷ (0xa798, 0xa799)
    ∷ (0xa79a, 0xa79b)
    ∷ (0xa79c, 0xa79d)
    ∷ (0xa79e, 0xa79f)
    ∷ (0xa7a0, 0xa7a1)
    ∷ (0xa7a2, 0xa7a3)
    ∷ (0xa7a4, 0xa7a5)
    ∷ (0xa7a6, 0xa7a7)
    ∷ (0xa7a8, 0xa7a9)
    ∷ (0xa7aa, 0x266)
    ∷ (0xa7ab, 0x25c)
    ∷ (0xa7ac, 0x261)
    ∷ (0xa7ad, 0x26c)
    ∷ (0xa7ae, 0x26a)
    ∷ (0xa7b0, 0x29e)
    ∷ (0xa7b1, 0x287)
    ∷ (0xa7b2, 0x29d)
    ∷ (0xa7b3, 0xab53)
    ∷ (0xa7b4, 0xa7b5)
    ∷ (0xa7b6, 0xa7b7)
    ∷ (0xa7b8, 0xa7b9)
    ∷ (0xa7ba, 0xa7bb)
    ∷ (0xa7bc, 0xa7bd)
    ∷ (0xa7be, 0xa7bf)
    ∷ (0xa7c2, 0xa7c3)
    ∷ (0xa7c4, 0xa794)
    ∷ (0xa7c5, 0x282)
    ∷ (0xa7c6, 0x1d8e)
    ∷ (0xa7c7, 0xa7c8)
    ∷ (0xa7c9, 0xa7ca)
    ∷ (0xa7f5, 0xa7f6)
    ∷ (0xff21, 0xff41)
    ∷ (0xff22, 0xff42)
    ∷ (0xff23, 0xff43)
    ∷ (0xff24, 0xff44)
    ∷ (0xff25, 0xff45)
    ∷ (0xff26, 0xff46)
    ∷ (0xff27, 0xff47)
    ∷ (0xff28, 0xff48)
    ∷ (0xff29, 0xff49)
    ∷ (0xff2a, 0xff4a)
    ∷ (0xff2b, 0xff4b)
    ∷ (0xff2c, 0xff4c)
    ∷ (0xff2d, 0xff4d)
    ∷ (0xff2e, 0xff4e)
    ∷ (0xff2f, 0xff4f)
    ∷ (0xff30, 0xff50)
    ∷ (0xff31, 0xff51)
    ∷ (0xff32, 0xff52)
    ∷ (0xff33, 0xff53)
    ∷ (0xff34, 0xff54)
    ∷ (0xff35, 0xff55)
    ∷ (0xff36, 0xff56)
    ∷ (0xff37, 0xff57)
    ∷ (0xff38, 0xff58)
    ∷ (0xff39, 0xff59)
    ∷ (0xff3a, 0xff5a)
    ∷ (0x10400, 0x10428)
    ∷ (0x10401, 0x10429)
    ∷ (0x10402, 0x1042a)
    ∷ (0x10403, 0x1042b)
    ∷ (0x10404, 0x1042c)
    ∷ (0x10405, 0x1042d)
    ∷ (0x10406, 0x1042e)
    ∷ (0x10407, 0x1042f)
    ∷ (0x10408, 0x10430)
    ∷ (0x10409, 0x10431)
    ∷ (0x1040a, 0x10432)
    ∷ (0x1040b, 0x10433)
    ∷ (0x1040c, 0x10434)
    ∷ (0x1040d, 0x10435)
    ∷ (0x1040e, 0x10436)
    ∷ (0x1040f, 0x10437)
    ∷ (0x10410, 0x10438)
    ∷ (0x10411, 0x10439)
    ∷ (0x10412, 0x1043a)
    ∷ (0x10413, 0x1043b)
    ∷ (0x10414, 0x1043c)
    ∷ (0x10415, 0x1043d)
    ∷ (0x10416, 0x1043e)
    ∷ (0x10417, 0x1043f)
    ∷ (0x10418, 0x10440)
    ∷ (0x10419, 0x10441)
    ∷ (0x1041a, 0x10442)
    ∷ (0x1041b, 0x10443)
    ∷ (0x1041c, 0x10444)
    ∷ (0x1041d, 0x10445)
    ∷ (0x1041e, 0x10446)
    ∷ (0x1041f, 0x10447)
    ∷ (0x10420, 0x10448)
    ∷ (0x10421, 0x10449)
    ∷ (0x10422, 0x1044a)
    ∷ (0x10423, 0x1044b)
    ∷ (0x10424, 0x1044c)
    ∷ (0x10425, 0x1044d)
    ∷ (0x10426, 0x1044e)
    ∷ (0x10427, 0x1044f)
    ∷ (0x104b0, 0x104d8)
    ∷ (0x104b1, 0x104d9)
    ∷ (0x104b2, 0x104da)
    ∷ (0x104b3, 0x104db)
    ∷ (0x104b4, 0x104dc)
    ∷ (0x104b5, 0x104dd)
    ∷ (0x104b6, 0x104de)
    ∷ (0x104b7, 0x104df)
    ∷ (0x104b8, 0x104e0)
    ∷ (0x104b9, 0x104e1)
    ∷ (0x104ba, 0x104e2)
    ∷ (0x104bb, 0x104e3)
    ∷ (0x104bc, 0x104e4)
    ∷ (0x104bd, 0x104e5)
    ∷ (0x104be, 0x104e6)
    ∷ (0x104bf, 0x104e7)
    ∷ (0x104c0, 0x104e8)
    ∷ (0x104c1, 0x104e9)
    ∷ (0x104c2, 0x104ea)
    ∷ (0x104c3, 0x104eb)
    ∷ (0x104c4, 0x104ec)
    ∷ (0x104c5, 0x104ed)
    ∷ (0x104c6, 0x104ee)
    ∷ (0x104c7, 0x104ef)
    ∷ (0x104c8, 0x104f0)
    ∷ (0x104c9, 0x104f1)
    ∷ (0x104ca, 0x104f2)
    ∷ (0x104cb, 0x104f3)
    ∷ (0x104cc, 0x104f4)
    ∷ (0x104cd, 0x104f5)
    ∷ (0x104ce, 0x104f6)
    ∷ []
