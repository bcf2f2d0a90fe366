-- ===== src/Unicode/Compose/Table/Third.antt =====
-- Rows of `table` (lib/unicode.c).
use netatalk_client.Base.{ℕ, List, [], ◌∷◌}

abbrev pub rows_third : List (ℕ × ℕ)
rows_third =
    (0x1E49, 0x006E0331)
    ∷ (0x00F2, 0x006F0300)
    ∷ (0x00F3, 0x006F0301)
    ∷ (0x00F4, 0x006F0302)
    ∷ (0x00F5, 0x006F0303)
    ∷ (0x014D, 0x006F0304)
    ∷ (0x014F, 0x006F0306)
    ∷ (0x022F, 0x006F0307)
    ∷ (0x00F6, 0x006F0308)
    ∷ (0x1ECF, 0x006F0309)
    ∷ (0x0151, 0x006F030B)
    ∷ (0x01D2, 0x006F030C)
    ∷ (0x020D, 0x006F030F)
    ∷ (0x020F, 0x006F0311)
    ∷ (0x01A1, 0x006F031B)
    ∷ (0x1ECD, 0x006F0323)
    ∷ (0x01EB, 0x006F0328)
    ∷ (0x1E55, 0x00700301)
    ∷ (0x1E57, 0x00700307)
    ∷ (0x0155, 0x00720301)
    ∷ (0x1E59, 0x00720307)
    ∷ (0x0159, 0x0072030C)
    ∷ (0x0211, 0x0072030F)
    ∷ (0x0213, 0x00720311)
    ∷ (0x1E5B, 0x00720323)
    ∷ (0x0157, 0x00720327)
    ∷ (0x1E5F, 0x00720331)
    ∷ (0x015B, 0x00730301)
    ∷ (0x015D, 0x00730302)
    ∷ (0x1E61, 0x00730307)
    ∷ (0x0161, 0x0073030C)
    ∷ (0x1E63, 0x00730323)
    ∷ (0x0219, 0x00730326)
    ∷ (0x015F, 0x00730327)
    ∷ (0x1E6B, 0x00740307)
    ∷ (0x1E97, 0x00740308)
    ∷ (0x0165, 0x0074030C)
    ∷ (0x1E6D, 0x00740323)
    ∷ (0x021B, 0x00740326)
    ∷ (0x0163, 0x00740327)
    ∷ (0x1E71, 0x0074032D)
    ∷ (0x1E6F, 0x00740331)
    ∷ (0x00F9, 0x00750300)
    ∷ (0x00FA, 0x00750301)
    ∷ (0x00FB, 0x00750302)
    ∷ (0x0169, 0x00750303)
    ∷ (0x016B, 0x00750304)
    ∷ (0x016D, 0x00750306)
    ∷ (0x00FC, 0x00750308)
    ∷ (0x1EE7, 0x00750309)
    ∷ (0x016F, 0x0075030A)
    ∷ (0x0171, 0x0075030B)
    ∷ (0x01D4, 0x0075030C)
    ∷ (0x0215, 0x0075030F)
    ∷ (0x0217, 0x00750311)
    ∷ (0x01B0, 0x0075031B)
    ∷ (0x1EE5, 0x00750323)
    ∷ (0x1E73, 0x00750324)
    ∷ (0x0173, 0x00750328)
    ∷ (0x1E77, 0x0075032D)
    ∷ (0x1E75, 0x00750330)
    ∷ (0x1E7D, 0x00760303)
    ∷ (0x1E7F, 0x00760323)
    ∷ (0x1E81, 0x00770300)
    ∷ (0x1E83, 0x00770301)
    ∷ (0x0175, 0x00770302)
    ∷ (0x1E87, 0x00770307)
    ∷ (0x1E85, 0x00770308)
    ∷ (0x1E98, 0x0077030A)
    ∷ (0x1E89, 0x00770323)
    ∷ (0x1E8B, 0x00780307)
    ∷ (0x1E8D, 0x00780308)
    ∷ (0x1EF3, 0x00790300)
    ∷ (0x00FD, 0x00790301)
    ∷ (0x0177, 0x00790302)
    ∷ (0x1EF9, 0x00790303)
    ∷ (0x0233, 0x00790304)
    ∷ (0x1E8F, 0x00790307)
    ∷ (0x00FF, 0x00790308)
    ∷ (0x1EF7, 0x00790309)
    ∷ (0x1E99, 0x0079030A)
    ∷ (0x1EF5, 0x00790323)
    ∷ (0x017A, 0x007A0301)
    ∷ (0x1E91, 0x007A0302)
    ∷ (0x017C, 0x007A0307)
    ∷ (0x017E, 0x007A030C)
    ∷ (0x1E93, 0x007A0323)
    ∷ (0x1E95, 0x007A0331)
    ∷ (0x1FED, 0x00A80300)
    ∷ (0x0385, 0x00A80301)
    ∷ (0x1FC1, 0x00A80342)
    ∷ (0x1EA6, 0x00C20300)
    ∷ (0x1EA4, 0x00C20301)
    ∷ (0x1EAA, 0x00C20303)
    ∷ (0x1EA8, 0x00C20309)
    ∷ (0x01DE, 0x00C40304)
    ∷ (0x01FA, 0x00C50301)
    ∷ (0x01FC, 0x00C60301)
    ∷ (0x01E2, 0x00C60304)
    ∷ (0x1E08, 0x00C70301)
    ∷ (0x1EC0, 0x00CA0300)
    ∷ (0x1EBE, 0x00CA0301)
    ∷ (0x1EC4, 0x00CA0303)
    ∷ (0x1EC2, 0x00CA0309)
    ∷ (0x1E2E, 0x00CF0301)
    ∷ (0x1ED2, 0x00D40300)
    ∷ (0x1ED0, 0x00D40301)
    ∷ (0x1ED6, 0x00D40303)
    ∷ (0x1ED4, 0x00D40309)
    ∷ (0x1E4C, 0x00D50301)
    ∷ (0x022C, 0x00D50304)
    ∷ (0x1E4E, 0x00D50308)
    ∷ (0x022A, 0x00D60304)
    ∷ (0x01FE, 0x00D80301)
    ∷ (0x01DB, 0x00DC0300)
    ∷ (0x01D7, 0x00DC0301)
    ∷ (0x01D5, 0x00DC0304)
    ∷ (0x01D9, 0x00DC030C)
    ∷ (0x1EA7, 0x00E20300)
    ∷ (0x1EA5, 0x00E20301)
    ∷ (0x1EAB, 0x00E20303)
    ∷ (0x1EA9, 0x00E20309)
    ∷ (0x01DF, 0x00E40304)
    ∷ (0x01FB, 0x00E50301)
    ∷ (0x01FD, 0x00E60301)
    ∷ (0x01E3, 0x00E60304)
    ∷ (0x1E09, 0x00E70301)
    ∷ (0x1EC1, 0x00EA0300)
    ∷ (0x1EBF, 0x00EA0301)
    ∷ (0x1EC5, 0x00EA0303)
    ∷ (0x1EC3, 0x00EA0309)
    ∷ (0x1E2F, 0x00EF0301)
    ∷ (0x1ED3, 0x00F40300)
    ∷ (0x1ED1, 0x00F40301)
    ∷ (0x1ED7, 0x00F40303)
    ∷ (0x1ED5, 0x00F40309)
    ∷ (0x1E4D, 0x00F50301)
    ∷ (0x022D, 0x00F50304)
    ∷ (0x1E4F, 0x00F50308)
    ∷ (0x022B, 0x00F60304)
    ∷ (0x01FF, 0x00F80301)
    ∷ (0x01DC, 0x00FC0300)
    ∷ (0x01D8, 0x00FC0301)
    ∷ []
