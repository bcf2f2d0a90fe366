-- ===== src/Unicode/Compose/Table/Fifth.antt =====
-- Rows of `table` (lib/unicode.c).
use netatalk_client.Base.{ℕ, List, [], ◌∷◌}

abbrev pub rows_fifth : List (ℕ × ℕ)
rows_fifth =
    (0x1F61, 0x03C90314)
    ∷ (0x1FF6, 0x03C90342)
    ∷ (0x1FF3, 0x03C90345)
    ∷ (0x1FD2, 0x03CA0300)
    ∷ (0x0390, 0x03CA0301)
    ∷ (0x1FD7, 0x03CA0342)
    ∷ (0x1FE2, 0x03CB0300)
    ∷ (0x03B0, 0x03CB0301)
    ∷ (0x1FE7, 0x03CB0342)
    ∷ (0x1FF4, 0x03CE0345)
    ∷ (0x03D3, 0x03D20301)
    ∷ (0x03D4, 0x03D20308)
    ∷ (0x0407, 0x04060308)
    ∷ (0x04D0, 0x04100306)
    ∷ (0x04D2, 0x04100308)
    ∷ (0x0403, 0x04130301)
    ∷ (0x0400, 0x04150300)
    ∷ (0x04D6, 0x04150306)
    ∷ (0x0401, 0x04150308)
    ∷ (0x04C1, 0x04160306)
    ∷ (0x04DC, 0x04160308)
    ∷ (0x04DE, 0x04170308)
    ∷ (0x040D, 0x04180300)
    ∷ (0x04E2, 0x04180304)
    ∷ (0x0419, 0x04180306)
    ∷ (0x04E4, 0x04180308)
    ∷ (0x040C, 0x041A0301)
    ∷ (0x04E6, 0x041E0308)
    ∷ (0x04EE, 0x04230304)
    ∷ (0x040E, 0x04230306)
    ∷ (0x04F0, 0x04230308)
    ∷ (0x04F2, 0x0423030B)
    ∷ (0x04F4, 0x04270308)
    ∷ (0x04F8, 0x042B0308)
    ∷ (0x04EC, 0x042D0308)
    ∷ (0x04D1, 0x04300306)
    ∷ (0x04D3, 0x04300308)
    ∷ (0x0453, 0x04330301)
    ∷ (0x0450, 0x04350300)
    ∷ (0x04D7, 0x04350306)
    ∷ (0x0451, 0x04350308)
    ∷ (0x04C2, 0x04360306)
    ∷ (0x04DD, 0x04360308)
    ∷ (0x04DF, 0x04370308)
    ∷ (0x045D, 0x04380300)
    ∷ (0x04E3, 0x04380304)
    ∷ (0x0439, 0x04380306)
    ∷ (0x04E5, 0x04380308)
    ∷ (0x045C, 0x043A0301)
    ∷ (0x04E7, 0x043E0308)
    ∷ (0x04EF, 0x04430304)
    ∷ (0x045E, 0x04430306)
    ∷ (0x04F1, 0x04430308)
    ∷ (0x04F3, 0x0443030B)
    ∷ (0x04F5, 0x04470308)
    ∷ (0x04F9, 0x044B0308)
    ∷ (0x04ED, 0x044D0308)
    ∷ (0x0457, 0x04560308)
    ∷ (0x0476, 0x0474030F)
    ∷ (0x0477, 0x0475030F)
    ∷ (0x04DA, 0x04D80308)
    ∷ (0x04DB, 0x04D90308)
    ∷ (0x04EA, 0x04E80308)
    ∷ (0x04EB, 0x04E90308)
    ∷ (0xFB2E, 0x05D005B7)
    ∷ (0xFB2F, 0x05D005B8)
    ∷ (0xFB30, 0x05D005BC)
    ∷ (0xFB31, 0x05D105BC)
    ∷ (0xFB4C, 0x05D105BF)
    ∷ (0xFB32, 0x05D205BC)
    ∷ (0xFB33, 0x05D305BC)
    ∷ (0xFB34, 0x05D405BC)
    ∷ (0xFB4B, 0x05D505B9)
    ∷ (0xFB35, 0x05D505BC)
    ∷ (0xFB36, 0x05D605BC)
    ∷ (0xFB38, 0x05D805BC)
    ∷ (0xFB1D, 0x05D905B4)
    ∷ (0xFB39, 0x05D905BC)
    ∷ (0xFB3A, 0x05DA05BC)
    ∷ (0xFB3B, 0x05DB05BC)
    ∷ (0xFB4D, 0x05DB05BF)
    ∷ (0xFB3C, 0x05DC05BC)
    ∷ (0xFB3E, 0x05DE05BC)
    ∷ (0xFB40, 0x05E005BC)
    ∷ (0xFB41, 0x05E105BC)
    ∷ (0xFB43, 0x05E305BC)
    ∷ (0xFB44, 0x05E405BC)
    ∷ (0xFB4E, 0x05E405BF)
    ∷ (0xFB46, 0x05E605BC)
    ∷ (0xFB47, 0x05E705BC)
    ∷ (0xFB48, 0x05E805BC)
    ∷ (0xFB49, 0x05E905BC)
    ∷ (0xFB2A, 0x05E905C1)
    ∷ (0xFB2B, 0x05E905C2)
    ∷ (0xFB4A, 0x05EA05BC)
    ∷ (0xFB1F, 0x05F205B7)
    ∷ (0x0622, 0x06270653)
    ∷ (0x0623, 0x06270654)
    ∷ (0x0625, 0x06270655)
    ∷ (0x0624, 0x06480654)
    ∷ (0x0626, 0x064A0654)
    ∷ (0x06C2, 0x06C10654)
    ∷ (0x06D3, 0x06D20654)
    ∷ (0x06C0, 0x06D50654)
    ∷ (0x0958, 0x0915093C)
    ∷ (0x0959, 0x0916093C)
    ∷ (0x095A, 0x0917093C)
    ∷ (0x095B, 0x091C093C)
    ∷ (0x095C, 0x0921093C)
    ∷ (0x095D, 0x0922093C)
    ∷ (0x0929, 0x0928093C)
    ∷ (0x095E, 0x092B093C)
    ∷ (0x095F, 0x092F093C)
    ∷ (0x0931, 0x0930093C)
    ∷ (0x0934, 0x0933093C)
    ∷ (0x09DC, 0x09A109BC)
    ∷ (0x09DD, 0x09A209BC)
    ∷ (0x09DF, 0x09AF09BC)
    ∷ (0x09CB, 0x09C709BE)
    ∷ (0x09CC, 0x09C709D7)
    ∷ (0x0A59, 0x0A160A3C)
    ∷ (0x0A5A, 0x0A170A3C)
    ∷ (0x0A5B, 0x0A1C0A3C)
    ∷ (0x0A5E, 0x0A2B0A3C)
    ∷ (0x0A33, 0x0A320A3C)
    ∷ (0x0A36, 0x0A380A3C)
    ∷ (0x0B5C, 0x0B210B3C)
    ∷ (0x0B5D, 0x0B220B3C)
    ∷ (0x0B4B, 0x0B470B3E)
    ∷ (0x0B48, 0x0B470B56)
    ∷ (0x0B4C, 0x0B470B57)
    ∷ (0x0B94, 0x0B920BD7)
    ∷ (0x0BCA, 0x0BC60BBE)
    ∷ (0x0BCC, 0x0BC60BD7)
    ∷ (0x0BCB, 0x0BC70BBE)
    ∷ (0x0C48, 0x0C460C56)
    ∷ (0x0CC0, 0x0CBF0CD5)
    ∷ (0x0CCA, 0x0CC60CC2)
    ∷ (0x0CC7, 0x0CC60CD5)
    ∷ (0x0CC8, 0x0CC60CD6)
    ∷ (0x0CCB, 0x0CCA0CD5)
    ∷ (0x0D4A, 0x0D460D3E)
    ∷ []
