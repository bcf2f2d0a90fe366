-- ===== src/Unicode/Compose/Table/Fourth.antt =====
-- Rows of `table` (lib/unicode.c).
use netatalk_client.Base.{ℕ, List, [], ◌∷◌}

abbrev pub rows_fourth : List (ℕ × ℕ)
rows_fourth =
    (0x01D6, 0x00FC0304)
    ∷ (0x01DA, 0x00FC030C)
    ∷ (0x1EB0, 0x01020300)
    ∷ (0x1EAE, 0x01020301)
    ∷ (0x1EB4, 0x01020303)
    ∷ (0x1EB2, 0x01020309)
    ∷ (0x1EB1, 0x01030300)
    ∷ (0x1EAF, 0x01030301)
    ∷ (0x1EB5, 0x01030303)
    ∷ (0x1EB3, 0x01030309)
    ∷ (0x1E14, 0x01120300)
    ∷ (0x1E16, 0x01120301)
    ∷ (0x1E15, 0x01130300)
    ∷ (0x1E17, 0x01130301)
    ∷ (0x1E50, 0x014C0300)
    ∷ (0x1E52, 0x014C0301)
    ∷ (0x1E51, 0x014D0300)
    ∷ (0x1E53, 0x014D0301)
    ∷ (0x1E64, 0x015A0307)
    ∷ (0x1E65, 0x015B0307)
    ∷ (0x1E66, 0x01600307)
    ∷ (0x1E67, 0x01610307)
    ∷ (0x1E78, 0x01680301)
    ∷ (0x1E79, 0x01690301)
    ∷ (0x1E7A, 0x016A0308)
    ∷ (0x1E7B, 0x016B0308)
    ∷ (0x1E9B, 0x017F0307)
    ∷ (0x1EDC, 0x01A00300)
    ∷ (0x1EDA, 0x01A00301)
    ∷ (0x1EE0, 0x01A00303)
    ∷ (0x1EDE, 0x01A00309)
    ∷ (0x1EE2, 0x01A00323)
    ∷ (0x1EDD, 0x01A10300)
    ∷ (0x1EDB, 0x01A10301)
    ∷ (0x1EE1, 0x01A10303)
    ∷ (0x1EDF, 0x01A10309)
    ∷ (0x1EE3, 0x01A10323)
    ∷ (0x1EEA, 0x01AF0300)
    ∷ (0x1EE8, 0x01AF0301)
    ∷ (0x1EEE, 0x01AF0303)
    ∷ (0x1EEC, 0x01AF0309)
    ∷ (0x1EF0, 0x01AF0323)
    ∷ (0x1EEB, 0x01B00300)
    ∷ (0x1EE9, 0x01B00301)
    ∷ (0x1EEF, 0x01B00303)
    ∷ (0x1EED, 0x01B00309)
    ∷ (0x1EF1, 0x01B00323)
    ∷ (0x01EE, 0x01B7030C)
    ∷ (0x01EC, 0x01EA0304)
    ∷ (0x01ED, 0x01EB0304)
    ∷ (0x01E0, 0x02260304)
    ∷ (0x01E1, 0x02270304)
    ∷ (0x1E1C, 0x02280306)
    ∷ (0x1E1D, 0x02290306)
    ∷ (0x0230, 0x022E0304)
    ∷ (0x0231, 0x022F0304)
    ∷ (0x01EF, 0x0292030C)
    ∷ (0x0344, 0x03080301)
    ∷ (0x1FBA, 0x03910300)
    ∷ (0x0386, 0x03910301)
    ∷ (0x1FB9, 0x03910304)
    ∷ (0x1FB8, 0x03910306)
    ∷ (0x1F08, 0x03910313)
    ∷ (0x1F09, 0x03910314)
    ∷ (0x1FBC, 0x03910345)
    ∷ (0x1FC8, 0x03950300)
    ∷ (0x0388, 0x03950301)
    ∷ (0x1F18, 0x03950313)
    ∷ (0x1F19, 0x03950314)
    ∷ (0x1FCA, 0x03970300)
    ∷ (0x0389, 0x03970301)
    ∷ (0x1F28, 0x03970313)
    ∷ (0x1F29, 0x03970314)
    ∷ (0x1FCC, 0x03970345)
    ∷ (0x1FDA, 0x03990300)
    ∷ (0x038A, 0x03990301)
    ∷ (0x1FD9, 0x03990304)
    ∷ (0x1FD8, 0x03990306)
    ∷ (0x03AA, 0x03990308)
    ∷ (0x1F38, 0x03990313)
    ∷ (0x1F39, 0x03990314)
    ∷ (0x1FF8, 0x039F0300)
    ∷ (0x038C, 0x039F0301)
    ∷ (0x1F48, 0x039F0313)
    ∷ (0x1F49, 0x039F0314)
    ∷ (0x1FEC, 0x03A10314)
    ∷ (0x1FEA, 0x03A50300)
    ∷ (0x038E, 0x03A50301)
    ∷ (0x1FE9, 0x03A50304)
    ∷ (0x1FE8, 0x03A50306)
    ∷ (0x03AB, 0x03A50308)
    ∷ (0x1F59, 0x03A50314)
    ∷ (0x1FFA, 0x03A90300)
    ∷ (0x038F, 0x03A90301)
    ∷ (0x1F68, 0x03A90313)
    ∷ (0x1F69, 0x03A90314)
    ∷ (0x1FFC, 0x03A90345)
    ∷ (0x1FB4, 0x03AC0345)
    ∷ (0x1FC4, 0x03AE0345)
    ∷ (0x1F70, 0x03B10300)
    ∷ (0x03AC, 0x03B10301)
    ∷ (0x1FB1, 0x03B10304)
    ∷ (0x1FB0, 0x03B10306)
    ∷ (0x1F00, 0x03B10313)
    ∷ (0x1F01, 0x03B10314)
    ∷ (0x1FB6, 0x03B10342)
    ∷ (0x1FB3, 0x03B10345)
    ∷ (0x1F72, 0x03B50300)
    ∷ (0x03AD, 0x03B50301)
    ∷ (0x1F10, 0x03B50313)
    ∷ (0x1F11, 0x03B50314)
    ∷ (0x1F74, 0x03B70300)
    ∷ (0x03AE, 0x03B70301)
    ∷ (0x1F20, 0x03B70313)
    ∷ (0x1F21, 0x03B70314)
    ∷ (0x1FC6, 0x03B70342)
    ∷ (0x1FC3, 0x03B70345)
    ∷ (0x1F76, 0x03B90300)
    ∷ (0x03AF, 0x03B90301)
    ∷ (0x1FD1, 0x03B90304)
    ∷ (0x1FD0, 0x03B90306)
    ∷ (0x03CA, 0x03B90308)
    ∷ (0x1F30, 0x03B90313)
    ∷ (0x1F31, 0x03B90314)
    ∷ (0x1FD6, 0x03B90342)
    ∷ (0x1F78, 0x03BF0300)
    ∷ (0x03CC, 0x03BF0301)
    ∷ (0x1F40, 0x03BF0313)
    ∷ (0x1F41, 0x03BF0314)
    ∷ (0x1FE4, 0x03C10313)
    ∷ (0x1FE5, 0x03C10314)
    ∷ (0x1F7A, 0x03C50300)
    ∷ (0x03CD, 0x03C50301)
    ∷ (0x1FE1, 0x03C50304)
    ∷ (0x1FE0, 0x03C50306)
    ∷ (0x03CB, 0x03C50308)
    ∷ (0x1F50, 0x03C50313)
    ∷ (0x1F51, 0x03C50314)
    ∷ (0x1FE6, 0x03C50342)
    ∷ (0x1F7C, 0x03C90300)
    ∷ (0x03CE, 0x03C90301)
    ∷ (0x1F60, 0x03C90313)
    ∷ []
