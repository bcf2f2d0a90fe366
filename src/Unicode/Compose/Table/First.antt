-- ===== src/Unicode/Compose/Table/First.antt =====
-- Rows of `table` (lib/unicode.c).
use netatalk_client.Base.{ℕ, List, [], ◌∷◌}

abbrev pub rows_first : List (ℕ × ℕ)
rows_first =
    (0x00C0, 0x00410300)
    ∷ (0x00C1, 0x00410301)
    ∷ (0x00C2, 0x00410302)
    ∷ (0x00C3, 0x00410303)
    ∷ (0x0100, 0x00410304)
    ∷ (0x0102, 0x00410306)
    ∷ (0x0226, 0x00410307)
    ∷ (0x00C4, 0x00410308)
    ∷ (0x1EA2, 0x00410309)
    ∷ (0x00C5, 0x0041030A)
    ∷ (0x01CD, 0x0041030C)
    ∷ (0x0200, 0x0041030F)
    ∷ (0x0202, 0x00410311)
    ∷ (0x1EA0, 0x00410323)
    ∷ (0x1E00, 0x00410325)
    ∷ (0x0104, 0x00410328)
    ∷ (0x1E02, 0x00420307)
    ∷ (0x1E04, 0x00420323)
    ∷ (0x1E06, 0x00420331)
    ∷ (0x0106, 0x00430301)
    ∷ (0x0108, 0x00430302)
    ∷ (0x010A, 0x00430307)
    ∷ (0x010C, 0x0043030C)
    ∷ (0x00C7, 0x00430327)
    ∷ (0x1E0A, 0x00440307)
    ∷ (0x010E, 0x0044030C)
    ∷ (0x1E0C, 0x00440323)
    ∷ (0x1E10, 0x00440327)
    ∷ (0x1E12, 0x0044032D)
    ∷ (0x1E0E, 0x00440331)
    ∷ (0x00C8, 0x00450300)
    ∷ (0x00C9, 0x00450301)
    ∷ (0x00CA, 0x00450302)
    ∷ (0x1EBC, 0x00450303)
    ∷ (0x0112, 0x00450304)
    ∷ (0x0114, 0x00450306)
    ∷ (0x0116, 0x00450307)
    ∷ (0x00CB, 0x00450308)
    ∷ (0x1EBA, 0x00450309)
    ∷ (0x011A, 0x0045030C)
    ∷ (0x0204, 0x0045030F)
    ∷ (0x0206, 0x00450311)
    ∷ (0x1EB8, 0x00450323)
    ∷ (0x0228, 0x00450327)
    ∷ (0x0118, 0x00450328)
    ∷ (0x1E18, 0x0045032D)
    ∷ (0x1E1A, 0x00450330)
    ∷ (0x1E1E, 0x00460307)
    ∷ (0x01F4, 0x00470301)
    ∷ (0x011C, 0x00470302)
    ∷ (0x1E20, 0x00470304)
    ∷ (0x011E, 0x00470306)
    ∷ (0x0120, 0x00470307)
    ∷ (0x01E6, 0x0047030C)
    ∷ (0x0122, 0x00470327)
    ∷ (0x0124, 0x00480302)
    ∷ (0x1E22, 0x00480307)
    ∷ (0x1E26, 0x00480308)
    ∷ (0x021E, 0x0048030C)
    ∷ (0x1E24, 0x00480323)
    ∷ (0x1E28, 0x00480327)
    ∷ (0x1E2A, 0x0048032E)
    ∷ (0x00CC, 0x00490300)
    ∷ (0x00CD, 0x00490301)
    ∷ (0x00CE, 0x00490302)
    ∷ (0x0128, 0x00490303)
    ∷ (0x012A, 0x00490304)
    ∷ (0x012C, 0x00490306)
    ∷ (0x0130, 0x00490307)
    ∷ (0x00CF, 0x00490308)
    ∷ (0x1EC8, 0x00490309)
    ∷ (0x01CF, 0x0049030C)
    ∷ (0x0208, 0x0049030F)
    ∷ (0x020A, 0x00490311)
    ∷ (0x1ECA, 0x00490323)
    ∷ (0x012E, 0x00490328)
    ∷ (0x1E2C, 0x00490330)
    ∷ (0x0134, 0x004A0302)
    ∷ (0x1E30, 0x004B0301)
    ∷ (0x01E8, 0x004B030C)
    ∷ (0x1E32, 0x004B0323)
    ∷ (0x0136, 0x004B0327)
    ∷ (0x1E34, 0x004B0331)
    ∷ (0x0139, 0x004C0301)
    ∷ (0x013D, 0x004C030C)
    ∷ (0x1E36, 0x004C0323)
    ∷ (0x013B, 0x004C0327)
    ∷ (0x1E3C, 0x004C032D)
    ∷ (0x1E3A, 0x004C0331)
    ∷ (0x1E3E, 0x004D0301)
    ∷ (0x1E40, 0x004D0307)
    ∷ (0x1E42, 0x004D0323)
    ∷ (0x01F8, 0x004E0300)
    ∷ (0x0143, 0x004E0301)
    ∷ (0x00D1, 0x004E0303)
    ∷ (0x1E44, 0x004E0307)
    ∷ (0x0147, 0x004E030C)
    ∷ (0x1E46, 0x004E0323)
    ∷ (0x0145, 0x004E0327)
    ∷ (0x1E4A, 0x004E032D)
    ∷ (0x1E48, 0x004E0331)
    ∷ (0x00D2, 0x004F0300)
    ∷ (0x00D3, 0x004F0301)
    ∷ (0x00D4, 0x004F0302)
    ∷ (0x00D5, 0x004F0303)
    ∷ (0x014C, 0x004F0304)
    ∷ (0x014E, 0x004F0306)
    ∷ (0x022E, 0x004F0307)
    ∷ (0x00D6, 0x004F0308)
    ∷ (0x1ECE, 0x004F0309)
    ∷ (0x0150, 0x004F030B)
    ∷ (0x01D1, 0x004F030C)
    ∷ (0x020C, 0x004F030F)
    ∷ (0x020E, 0x004F0311)
    ∷ (0x01A0, 0x004F031B)
    ∷ (0x1ECC, 0x004F0323)
    ∷ (0x01EA, 0x004F0328)
    ∷ (0x1E54, 0x00500301)
    ∷ (0x1E56, 0x00500307)
    ∷ (0x0154, 0x00520301)
    ∷ (0x1E58, 0x00520307)
    ∷ (0x0158, 0x0052030C)
    ∷ (0x0210, 0x0052030F)
    ∷ (0x0212, 0x00520311)
    ∷ (0x1E5A, 0x00520323)
    ∷ (0x0156, 0x00520327)
    ∷ (0x1E5E, 0x00520331)
    ∷ (0x015A, 0x00530301)
    ∷ (0x015C, 0x00530302)
    ∷ (0x1E60, 0x00530307)
    ∷ (0x0160, 0x0053030C)
    ∷ (0x1E62, 0x00530323)
    ∷ (0x0218, 0x00530326)
    ∷ (0x015E, 0x00530327)
    ∷ (0x1E6A, 0x00540307)
    ∷ (0x0164, 0x0054030C)
    ∷ (0x1E6C, 0x00540323)
    ∷ (0x021A, 0x00540326)
    ∷ (0x0162, 0x00540327)
    ∷ (0x1E70, 0x0054032D)
    ∷ (0x1E6E, 0x00540331)
    ∷ (0x00D9, 0x00550300)
    ∷ (0x00DA, 0x00550301)
    ∷ []
