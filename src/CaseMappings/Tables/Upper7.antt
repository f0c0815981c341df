-- ===== src/CaseMappings/Tables/Upper7.antt =====
-- Part 7 of the table of `lower_to_upper_map` of core/vca/case_mappings.cpp, in the source's order:
-- lines 365 to 423, 177 pairs of code points.
use vca.Prelude.{ℕ, List, [], ◌∷◌}

unfoldable pub lower_to_upper_7 : List (ℕ × ℕ)
lower_to_upper_7 =
    (0xa79f, 0xa79e)
    ∷ (0xa7a1, 0xa7a0)
    ∷ (0xa7a3, 0xa7a2)
    ∷ (0xa7a5, 0xa7a4)
    ∷ (0xa7a7, 0xa7a6)
    ∷ (0xa7a9, 0xa7a8)
    ∷ (0xa7b5, 0xa7b4)
    ∷ (0xa7b7, 0xa7b6)
    ∷ (0xa7b9, 0xa7b8)
    ∷ (0xa7bb, 0xa7ba)
    ∷ (0xa7bd, 0xa7bc)
    ∷ (0xa7bf, 0xa7be)
    ∷ (0xa7c3, 0xa7c2)
    ∷ (0xa7c8, 0xa7c7)
    ∷ (0xa7ca, 0xa7c9)
    ∷ (0xa7f6, 0xa7f5)
    ∷ (0xab53, 0xa7b3)
    ∷ (0xab70, 0x13a0)
    ∷ (0xab71, 0x13a1)
    ∷ (0xab72, 0x13a2)
    ∷ (0xab73, 0x13a3)
    ∷ (0xab74, 0x13a4)
    ∷ (0xab75, 0x13a5)
    ∷ (0xab76, 0x13a6)
    ∷ (0xab77, 0x13a7)
    ∷ (0xab78, 0x13a8)
    ∷ (0xab79, 0x13a9)
    ∷ (0xab7a, 0x13aa)
    ∷ (0xab7b, 0x13ab)
    ∷ (0xab7c, 0x13ac)
    ∷ (0xab7d, 0x13ad)
    ∷ (0xab7e, 0x13ae)
    ∷ (0xab7f, 0x13af)
    ∷ (0xab80, 0x13b0)
    ∷ (0xab81, 0x13b1)
    ∷ (0xab82, 0x13b2)
    ∷ (0xab83, 0x13b3)
    ∷ (0xab84, 0x13b4)
    ∷ (0xab85, 0x13b5)
    ∷ (0xab86, 0x13b6)
    ∷ (0xab87, 0x13b7)
    ∷ (0xab88, 0x13b8)
    ∷ (0xab89, 0x13b9)
    ∷ (0xab8a, 0x13ba)
    ∷ (0xab8b, 0x13bb)
    ∷ (0xab8c, 0x13bc)
    ∷ (0xab8d, 0x13bd)
    ∷ (0xab8e, 0x13be)
    ∷ (0xab8f, 0x13bf)
    ∷ (0xab90, 0x13c0)
    ∷ (0xab91, 0x13c1)
    ∷ (0xab92, 0x13c2)
    ∷ (0xab93, 0x13c3)
    ∷ (0xab94, 0x13c4)
    ∷ (0xab95, 0x13c5)
    ∷ (0xab96, 0x13c6)
    ∷ (0xab97, 0x13c7)
    ∷ (0xab98, 0x13c8)
    ∷ (0xab99, 0x13c9)
    ∷ (0xab9a, 0x13ca)
    ∷ (0xab9b, 0x13cb)
    ∷ (0xab9c, 0x13cc)
    ∷ (0xab9d, 0x13cd)
    ∷ (0xab9e, 0x13ce)
    ∷ (0xab9f, 0x13cf)
    ∷ (0xaba0, 0x13d0)
    ∷ (0xaba1, 0x13d1)
    ∷ (0xaba2, 0x13d2)
    ∷ (0xaba3, 0x13d3)
    ∷ (0xaba4, 0x13d4)
    ∷ (0xaba5, 0x13d5)
    ∷ (0xaba6, 0x13d6)
    ∷ (0xaba7, 0x13d7)
    ∷ (0xaba8, 0x13d8)
    ∷ (0xaba9, 0x13d9)
    ∷ (0xabaa, 0x13da)
    ∷ (0xabab, 0x13db)
    ∷ (0xabac, 0x13dc)
    ∷ (0xabad, 0x13dd)
    ∷ (0xabae, 0x13de)
    ∷ (0xabaf, 0x13df)
    ∷ (0xabb0, 0x13e0)
    ∷ (0xabb1, 0x13e1)
    ∷ (0xabb2, 0x13e2)
    ∷ (0xabb3, 0x13e3)
    ∷ (0xabb4, 0x13e4)
    ∷ (0xabb5, 0x13e5)
    ∷ (0xabb6, 0x13e6)
    ∷ (0xabb7, 0x13e7)
    ∷ (0xabb8, 0x13e8)
    ∷ (0xabb9, 0x13e9)
    ∷ (0xabba, 0x13ea)
    ∷ (0xabbb, 0x13eb)
    ∷ (0xabbc, 0x13ec)
    ∷ (0xabbd, 0x13ed)
    ∷ (0xabbe, 0x13ee)
    ∷ (0xabbf, 0x13ef)
    ∷ (0xff41, 0xff21)
    ∷ (0xff42, 0xff22)
    ∷ (0xff43, 0xff23)
    ∷ (0xff44, 0xff24)
    ∷ (0xff45, 0xff25)
    ∷ (0xff46, 0xff26)
    ∷ (0xff47, 0xff27)
    ∷ (0xff48, 0xff28)
    ∷ (0xff49, 0xff29)
    ∷ (0xff4a, 0xff2a)
    ∷ (0xff4b, 0xff2b)
    ∷ (0xff4c, 0xff2c)
    ∷ (0xff4d, 0xff2d)
    ∷ (0xff4e, 0xff2e)
    ∷ (0xff4f, 0xff2f)
    ∷ (0xff50, 0xff30)
    ∷ (0xff51, 0xff31)
    ∷ (0xff52, 0xff32)
    ∷ (0xff53, 0xff33)
    ∷ (0xff54, 0xff34)
    ∷ (0xff55, 0xff35)
    ∷ (0xff56, 0xff36)
    ∷ (0xff57, 0xff37)
    ∷ (0xff58, 0xff38)
    ∷ (0xff59, 0xff39)
    ∷ (0xff5a, 0xff3a)
    ∷ (0x10428, 0x10400)
    ∷ (0x10429, 0x10401)
    ∷ (0x1042a, 0x10402)
    ∷ (0x1042b, 0x10403)
    ∷ (0x1042c, 0x10404)
    ∷ (0x1042d, 0x10405)
    ∷ (0x1042e, 0x10406)
    ∷ (0x1042f, 0x10407)
    ∷ (0x10430, 0x10408)
    ∷ (0x10431, 0x10409)
    ∷ (0x10432, 0x1040a)
    ∷ (0x10433, 0x1040b)
    ∷ (0x10434, 0x1040c)
    ∷ (0x10435, 0x1040d)
    ∷ (0x10436, 0x1040e)
    ∷ (0x10437, 0x1040f)
    ∷ (0x10438, 0x10410)
    ∷ (0x10439, 0x10411)
    ∷ (0x1043a, 0x10412)
    ∷ (0x1043b, 0x10413)
    ∷ (0x1043c, 0x10414)
    ∷ (0x1043d, 0x10415)
    ∷ (0x1043e, 0x10416)
    ∷ (0x1043f, 0x10417)
    ∷ (0x10440, 0x10418)
    ∷ (0x10441, 0x10419)
    ∷ (0x10442, 0x1041a)
    ∷ (0x10443, 0x1041b)
    ∷ (0x10444, 0x1041c)
    ∷ (0x10445, 0x1041d)
    ∷ (0x10446, 0x1041e)
    ∷ (0x10447, 0x1041f)
    ∷ (0x10448, 0x10420)
    ∷ (0x10449, 0x10421)
    ∷ (0x1044a, 0x10422)
    ∷ (0x1044b, 0x10423)
    ∷ (0x1044c, 0x10424)
    ∷ (0x1044d, 0x10425)
    ∷ (0x1044e, 0x10426)
    ∷ (0x1044f, 0x10427)
    ∷ (0x104d8, 0x104b0)
    ∷ (0x104d9, 0x104b1)
    ∷ (0x104da, 0x104b2)
    ∷ (0x104db, 0x104b3)
    ∷ (0x104dc, 0x104b4)
    ∷ (0x104dd, 0x104b5)
    ∷ (0x104de, 0x104b6)
    ∷ (0x104df, 0x104b7)
    ∷ (0x104e0, 0x104b8)
    ∷ (0x104e1, 0x104b9)
    ∷ (0x104e2, 0x104ba)
    ∷ (0x104e3, 0x104bb)
    ∷ (0x104e4, 0x104bc)
    ∷ (0x104e5, 0x104bd)
    ∷ []
