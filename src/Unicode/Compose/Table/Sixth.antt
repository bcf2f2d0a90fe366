-- ===== src/Unicode/Compose/Table/Sixth.antt =====
-- Rows of `table` (lib/unicode.c).
use netatalk_client.Base.{ℕ, List, [], ◌∷◌}

abbrev pub rows_sixth : List (ℕ × ℕ)
rows_sixth =
    (0x0D4C, 0x0D460D57)
    ∷ (0x0D4B, 0x0D470D3E)
    ∷ (0x0DDA, 0x0DD90DCA)
    ∷ (0x0DDC, 0x0DD90DCF)
    ∷ (0x0DDE, 0x0DD90DDF)
    ∷ (0x0DDD, 0x0DDC0DCA)
    ∷ (0x0F69, 0x0F400FB5)
    ∷ (0x0F43, 0x0F420FB7)
    ∷ (0x0F4D, 0x0F4C0FB7)
    ∷ (0x0F52, 0x0F510FB7)
    ∷ (0x0F57, 0x0F560FB7)
    ∷ (0x0F5C, 0x0F5B0FB7)
    ∷ (0x0F73, 0x0F710F72)
    ∷ (0x0F75, 0x0F710F74)
    ∷ (0x0F81, 0x0F710F80)
    ∷ (0x0FB9, 0x0F900FB5)
    ∷ (0x0F93, 0x0F920FB7)
    ∷ (0x0F9D, 0x0F9C0FB7)
    ∷ (0x0FA2, 0x0FA10FB7)
    ∷ (0x0FA7, 0x0FA60FB7)
    ∷ (0x0FAC, 0x0FAB0FB7)
    ∷ (0x0F76, 0x0FB20F80)
    ∷ (0x0F78, 0x0FB30F80)
    ∷ (0x1026, 0x1025102E)
    ∷ (0x1B06, 0x1B051B35)
    ∷ (0x1B08, 0x1B071B35)
    ∷ (0x1B0A, 0x1B091B35)
    ∷ (0x1B0C, 0x1B0B1B35)
    ∷ (0x1B0E, 0x1B0D1B35)
    ∷ (0x1B12, 0x1B111B35)
    ∷ (0x1B3B, 0x1B3A1B35)
    ∷ (0x1B3D, 0x1B3C1B35)
    ∷ (0x1B40, 0x1B3E1B35)
    ∷ (0x1B41, 0x1B3F1B35)
    ∷ (0x1B43, 0x1B421B35)
    ∷ (0x1E38, 0x1E360304)
    ∷ (0x1E39, 0x1E370304)
    ∷ (0x1E5C, 0x1E5A0304)
    ∷ (0x1E5D, 0x1E5B0304)
    ∷ (0x1E68, 0x1E620307)
    ∷ (0x1E69, 0x1E630307)
    ∷ (0x1EAC, 0x1EA00302)
    ∷ (0x1EB6, 0x1EA00306)
    ∷ (0x1EAD, 0x1EA10302)
    ∷ (0x1EB7, 0x1EA10306)
    ∷ (0x1EC6, 0x1EB80302)
    ∷ (0x1EC7, 0x1EB90302)
    ∷ (0x1ED8, 0x1ECC0302)
    ∷ (0x1ED9, 0x1ECD0302)
    ∷ (0x1F02, 0x1F000300)
    ∷ (0x1F04, 0x1F000301)
    ∷ (0x1F06, 0x1F000342)
    ∷ (0x1F80, 0x1F000345)
    ∷ (0x1F03, 0x1F010300)
    ∷ (0x1F05, 0x1F010301)
    ∷ (0x1F07, 0x1F010342)
    ∷ (0x1F81, 0x1F010345)
    ∷ (0x1F82, 0x1F020345)
    ∷ (0x1F83, 0x1F030345)
    ∷ (0x1F84, 0x1F040345)
    ∷ (0x1F85, 0x1F050345)
    ∷ (0x1F86, 0x1F060345)
    ∷ (0x1F87, 0x1F070345)
    ∷ (0x1F0A, 0x1F080300)
    ∷ (0x1F0C, 0x1F080301)
    ∷ (0x1F0E, 0x1F080342)
    ∷ (0x1F88, 0x1F080345)
    ∷ (0x1F0B, 0x1F090300)
    ∷ (0x1F0D, 0x1F090301)
    ∷ (0x1F0F, 0x1F090342)
    ∷ (0x1F89, 0x1F090345)
    ∷ (0x1F8A, 0x1F0A0345)
    ∷ (0x1F8B, 0x1F0B0345)
    ∷ (0x1F8C, 0x1F0C0345)
    ∷ (0x1F8D, 0x1F0D0345)
    ∷ (0x1F8E, 0x1F0E0345)
    ∷ (0x1F8F, 0x1F0F0345)
    ∷ (0x1F12, 0x1F100300)
    ∷ (0x1F14, 0x1F100301)
    ∷ (0x1F13, 0x1F110300)
    ∷ (0x1F15, 0x1F110301)
    ∷ (0x1F1A, 0x1F180300)
    ∷ (0x1F1C, 0x1F180301)
    ∷ (0x1F1B, 0x1F190300)
    ∷ (0x1F1D, 0x1F190301)
    ∷ (0x1F22, 0x1F200300)
    ∷ (0x1F24, 0x1F200301)
    ∷ (0x1F26, 0x1F200342)
    ∷ (0x1F90, 0x1F200345)
    ∷ (0x1F23, 0x1F210300)
    ∷ (0x1F25, 0x1F210301)
    ∷ (0x1F27, 0x1F210342)
    ∷ (0x1F91, 0x1F210345)
    ∷ (0x1F92, 0x1F220345)
    ∷ (0x1F93, 0x1F230345)
    ∷ (0x1F94, 0x1F240345)
    ∷ (0x1F95, 0x1F250345)
    ∷ (0x1F96, 0x1F260345)
    ∷ (0x1F97, 0x1F270345)
    ∷ (0x1F2A, 0x1F280300)
    ∷ (0x1F2C, 0x1F280301)
    ∷ (0x1F2E, 0x1F280342)
    ∷ (0x1F98, 0x1F280345)
    ∷ (0x1F2B, 0x1F290300)
    ∷ (0x1F2D, 0x1F290301)
    ∷ (0x1F2F, 0x1F290342)
    ∷ (0x1F99, 0x1F290345)
    ∷ (0x1F9A, 0x1F2A0345)
    ∷ (0x1F9B, 0x1F2B0345)
    ∷ (0x1F9C, 0x1F2C0345)
    ∷ (0x1F9D, 0x1F2D0345)
    ∷ (0x1F9E, 0x1F2E0345)
    ∷ (0x1F9F, 0x1F2F0345)
    ∷ (0x1F32, 0x1F300300)
    ∷ (0x1F34, 0x1F300301)
    ∷ (0x1F36, 0x1F300342)
    ∷ (0x1F33, 0x1F310300)
    ∷ (0x1F35, 0x1F310301)
    ∷ (0x1F37, 0x1F310342)
    ∷ (0x1F3A, 0x1F380300)
    ∷ (0x1F3C, 0x1F380301)
    ∷ (0x1F3E, 0x1F380342)
    ∷ (0x1F3B, 0x1F390300)
    ∷ (0x1F3D, 0x1F390301)
    ∷ (0x1F3F, 0x1F390342)
    ∷ (0x1F42, 0x1F400300)
    ∷ (0x1F44, 0x1F400301)
    ∷ (0x1F43, 0x1F410300)
    ∷ (0x1F45, 0x1F410301)
    ∷ (0x1F4A, 0x1F480300)
    ∷ (0x1F4C, 0x1F480301)
    ∷ (0x1F4B, 0x1F490300)
    ∷ (0x1F4D, 0x1F490301)
    ∷ (0x1F52, 0x1F500300)
    ∷ (0x1F54, 0x1F500301)
    ∷ (0x1F56, 0x1F500342)
    ∷ (0x1F53, 0x1F510300)
    ∷ (0x1F55, 0x1F510301)
    ∷ (0x1F57, 0x1F510342)
    ∷ (0x1F5B, 0x1F590300)
    ∷ (0x1F5D, 0x1F590301)
    ∷ (0x1F5F, 0x1F590342)
    ∷ []
