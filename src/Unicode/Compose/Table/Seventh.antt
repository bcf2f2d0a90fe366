-- ===== src/Unicode/Compose/Table/Seventh.antt =====
-- Rows of `table` (lib/unicode.c).
use netatalk_client.Base.{ℕ, List, [], ◌∷◌}

abbrev pub rows_seventh : List (ℕ × ℕ)
rows_seventh =
    (0x1F62, 0x1F600300)
    ∷ (0x1F64, 0x1F600301)
    ∷ (0x1F66, 0x1F600342)
    ∷ (0x1FA0, 0x1F600345)
    ∷ (0x1F63, 0x1F610300)
    ∷ (0x1F65, 0x1F610301)
    ∷ (0x1F67, 0x1F610342)
    ∷ (0x1FA1, 0x1F610345)
    ∷ (0x1FA2, 0x1F620345)
    ∷ (0x1FA3, 0x1F630345)
    ∷ (0x1FA4, 0x1F640345)
    ∷ (0x1FA5, 0x1F650345)
    ∷ (0x1FA6, 0x1F660345)
    ∷ (0x1FA7, 0x1F670345)
    ∷ (0x1F6A, 0x1F680300)
    ∷ (0x1F6C, 0x1F680301)
    ∷ (0x1F6E, 0x1F680342)
    ∷ (0x1FA8, 0x1F680345)
    ∷ (0x1F6B, 0x1F690300)
    ∷ (0x1F6D, 0x1F690301)
    ∷ (0x1F6F, 0x1F690342)
    ∷ (0x1FA9, 0x1F690345)
    ∷ (0x1FAA, 0x1F6A0345)
    ∷ (0x1FAB, 0x1F6B0345)
    ∷ (0x1FAC, 0x1F6C0345)
    ∷ (0x1FAD, 0x1F6D0345)
    ∷ (0x1FAE, 0x1F6E0345)
    ∷ (0x1FAF, 0x1F6F0345)
    ∷ (0x1FB2, 0x1F700345)
    ∷ (0x1FC2, 0x1F740345)
    ∷ (0x1FF2, 0x1F7C0345)
    ∷ (0x1FB7, 0x1FB60345)
    ∷ (0x1FCD, 0x1FBF0300)
    ∷ (0x1FCE, 0x1FBF0301)
    ∷ (0x1FCF, 0x1FBF0342)
    ∷ (0x1FC7, 0x1FC60345)
    ∷ (0x1FF7, 0x1FF60345)
    ∷ (0x1FDD, 0x1FFE0300)
    ∷ (0x1FDE, 0x1FFE0301)
    ∷ (0x1FDF, 0x1FFE0342)
    ∷ (0x219A, 0x21900338)
    ∷ (0x219B, 0x21920338)
    ∷ (0x21AE, 0x21940338)
    ∷ (0x21CD, 0x21D00338)
    ∷ (0x21CF, 0x21D20338)
    ∷ (0x21CE, 0x21D40338)
    ∷ (0x2204, 0x22030338)
    ∷ (0x2209, 0x22080338)
    ∷ (0x220C, 0x220B0338)
    ∷ (0x2224, 0x22230338)
    ∷ (0x2226, 0x22250338)
    ∷ (0x2241, 0x223C0338)
    ∷ (0x2244, 0x22430338)
    ∷ (0x2247, 0x22450338)
    ∷ (0x2249, 0x22480338)
    ∷ (0x226D, 0x224D0338)
    ∷ (0x2262, 0x22610338)
    ∷ (0x2270, 0x22640338)
    ∷ (0x2271, 0x22650338)
    ∷ (0x2274, 0x22720338)
    ∷ (0x2275, 0x22730338)
    ∷ (0x2278, 0x22760338)
    ∷ (0x2279, 0x22770338)
    ∷ (0x2280, 0x227A0338)
    ∷ (0x2281, 0x227B0338)
    ∷ (0x22E0, 0x227C0338)
    ∷ (0x22E1, 0x227D0338)
    ∷ (0x2284, 0x22820338)
    ∷ (0x2285, 0x22830338)
    ∷ (0x2288, 0x22860338)
    ∷ (0x2289, 0x22870338)
    ∷ (0x22E2, 0x22910338)
    ∷ (0x22E3, 0x22920338)
    ∷ (0x22AC, 0x22A20338)
    ∷ (0x22AD, 0x22A80338)
    ∷ (0x22AE, 0x22A90338)
    ∷ (0x22AF, 0x22AB0338)
    ∷ (0x22EA, 0x22B20338)
    ∷ (0x22EB, 0x22B30338)
    ∷ (0x22EC, 0x22B40338)
    ∷ (0x22ED, 0x22B50338)
    ∷ (0x2ADC, 0x2ADD0338)
    ∷ (0x3094, 0x30463099)
    ∷ (0x304C, 0x304B3099)
    ∷ (0x304E, 0x304D3099)
    ∷ (0x3050, 0x304F3099)
    ∷ (0x3052, 0x30513099)
    ∷ (0x3054, 0x30533099)
    ∷ (0x3056, 0x30553099)
    ∷ (0x3058, 0x30573099)
    ∷ (0x305A, 0x30593099)
    ∷ (0x305C, 0x305B3099)
    ∷ (0x305E, 0x305D3099)
    ∷ (0x3060, 0x305F3099)
    ∷ (0x3062, 0x30613099)
    ∷ (0x3065, 0x30643099)
    ∷ (0x3067, 0x30663099)
    ∷ (0x3069, 0x30683099)
    ∷ (0x3070, 0x306F3099)
    ∷ (0x3071, 0x306F309A)
    ∷ (0x3073, 0x30723099)
    ∷ (0x3074, 0x3072309A)
    ∷ (0x3076, 0x30753099)
    ∷ (0x3077, 0x3075309A)
    ∷ (0x3079, 0x30783099)
    ∷ (0x307A, 0x3078309A)
    ∷ (0x307C, 0x307B3099)
    ∷ (0x307D, 0x307B309A)
    ∷ (0x309E, 0x309D3099)
    ∷ (0x30F4, 0x30A63099)
    ∷ (0x30AC, 0x30AB3099)
    ∷ (0x30AE, 0x30AD3099)
    ∷ (0x30B0, 0x30AF3099)
    ∷ (0x30B2, 0x30B13099)
    ∷ (0x30B4, 0x30B33099)
    ∷ (0x30B6, 0x30B53099)
    ∷ (0x30B8, 0x30B73099)
    ∷ (0x30BA, 0x30B93099)
    ∷ (0x30BC, 0x30BB3099)
    ∷ (0x30BE, 0x30BD3099)
    ∷ (0x30C0, 0x30BF3099)
    ∷ (0x30C2, 0x30C13099)
    ∷ (0x30C5, 0x30C43099)
    ∷ (0x30C7, 0x30C63099)
    ∷ (0x30C9, 0x30C83099)
    ∷ (0x30D0, 0x30CF3099)
    ∷ (0x30D1, 0x30CF309A)
    ∷ (0x30D3, 0x30D23099)
    ∷ (0x30D4, 0x30D2309A)
    ∷ (0x30D6, 0x30D53099)
    ∷ (0x30D7, 0x30D5309A)
    ∷ (0x30D9, 0x30D83099)
    ∷ (0x30DA, 0x30D8309A)
    ∷ (0x30DC, 0x30DB3099)
    ∷ (0x30DD, 0x30DB309A)
    ∷ (0x30F7, 0x30EF3099)
    ∷ (0x30F8, 0x30F03099)
    ∷ (0x30F9, 0x30F13099)
    ∷ (0x30FA, 0x30F23099)
    ∷ (0x30FE, 0x30FD3099)
    ∷ (0xFB2C, 0xFB4905C1)
    ∷ (0xFB2D, 0xFB4905C2)
    ∷ []
