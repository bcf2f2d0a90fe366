-- ===== src/Unicode/Compose/Table/Second.antt =====
-- Rows of `table` (lib/unicode.c).
use netatalk_client.Base.{ℕ, List, [], ◌∷◌}

abbrev pub rows_second : List (ℕ × ℕ)
rows_second =
    (0x00DB, 0x00550302)
    ∷ (0x0168, 0x00550303)
    ∷ (0x016A, 0x00550304)
    ∷ (0x016C, 0x00550306)
    ∷ (0x00DC, 0x00550308)
    ∷ (0x1EE6, 0x00550309)
    ∷ (0x016E, 0x0055030A)
    ∷ (0x0170, 0x0055030B)
    ∷ (0x01D3, 0x0055030C)
    ∷ (0x0214, 0x0055030F)
    ∷ (0x0216, 0x00550311)
    ∷ (0x01AF, 0x0055031B)
    ∷ (0x1EE4, 0x00550323)
    ∷ (0x1E72, 0x00550324)
    ∷ (0x0172, 0x00550328)
    ∷ (0x1E76, 0x0055032D)
    ∷ (0x1E74, 0x00550330)
    ∷ (0x1E7C, 0x00560303)
    ∷ (0x1E7E, 0x00560323)
    ∷ (0x1E80, 0x00570300)
    ∷ (0x1E82, 0x00570301)
    ∷ (0x0174, 0x00570302)
    ∷ (0x1E86, 0x00570307)
    ∷ (0x1E84, 0x00570308)
    ∷ (0x1E88, 0x00570323)
    ∷ (0x1E8A, 0x00580307)
    ∷ (0x1E8C, 0x00580308)
    ∷ (0x1EF2, 0x00590300)
    ∷ (0x00DD, 0x00590301)
    ∷ (0x0176, 0x00590302)
    ∷ (0x1EF8, 0x00590303)
    ∷ (0x0232, 0x00590304)
    ∷ (0x1E8E, 0x00590307)
    ∷ (0x0178, 0x00590308)
    ∷ (0x1EF6, 0x00590309)
    ∷ (0x1EF4, 0x00590323)
    ∷ (0x0179, 0x005A0301)
    ∷ (0x1E90, 0x005A0302)
    ∷ (0x017B, 0x005A0307)
    ∷ (0x017D, 0x005A030C)
    ∷ (0x1E92, 0x005A0323)
    ∷ (0x1E94, 0x005A0331)
    ∷ (0x00E0, 0x00610300)
    ∷ (0x00E1, 0x00610301)
    ∷ (0x00E2, 0x00610302)
    ∷ (0x00E3, 0x00610303)
    ∷ (0x0101, 0x00610304)
    ∷ (0x0103, 0x00610306)
    ∷ (0x0227, 0x00610307)
    ∷ (0x00E4, 0x00610308)
    ∷ (0x1EA3, 0x00610309)
    ∷ (0x00E5, 0x0061030A)
    ∷ (0x01CE, 0x0061030C)
    ∷ (0x0201, 0x0061030F)
    ∷ (0x0203, 0x00610311)
    ∷ (0x1EA1, 0x00610323)
    ∷ (0x1E01, 0x00610325)
    ∷ (0x0105, 0x00610328)
    ∷ (0x1E03, 0x00620307)
    ∷ (0x1E05, 0x00620323)
    ∷ (0x1E07, 0x00620331)
    ∷ (0x0107, 0x00630301)
    ∷ (0x0109, 0x00630302)
    ∷ (0x010B, 0x00630307)
    ∷ (0x010D, 0x0063030C)
    ∷ (0x00E7, 0x00630327)
    ∷ (0x1E0B, 0x00640307)
    ∷ (0x010F, 0x0064030C)
    ∷ (0x1E0D, 0x00640323)
    ∷ (0x1E11, 0x00640327)
    ∷ (0x1E13, 0x0064032D)
    ∷ (0x1E0F, 0x00640331)
    ∷ (0x00E8, 0x00650300)
    ∷ (0x00E9, 0x00650301)
    ∷ (0x00EA, 0x00650302)
    ∷ (0x1EBD, 0x00650303)
    ∷ (0x0113, 0x00650304)
    ∷ (0x0115, 0x00650306)
    ∷ (0x0117, 0x00650307)
    ∷ (0x00EB, 0x00650308)
    ∷ (0x1EBB, 0x00650309)
    ∷ (0x011B, 0x0065030C)
    ∷ (0x0205, 0x0065030F)
    ∷ (0x0207, 0x00650311)
    ∷ (0x1EB9, 0x00650323)
    ∷ (0x0229, 0x00650327)
    ∷ (0x0119, 0x00650328)
    ∷ (0x1E19, 0x0065032D)
    ∷ (0x1E1B, 0x00650330)
    ∷ (0x1E1F, 0x00660307)
    ∷ (0x01F5, 0x00670301)
    ∷ (0x011D, 0x00670302)
    ∷ (0x1E21, 0x00670304)
    ∷ (0x011F, 0x00670306)
    ∷ (0x0121, 0x00670307)
    ∷ (0x01E7, 0x0067030C)
    ∷ (0x0123, 0x00670327)
    ∷ (0x0125, 0x00680302)
    ∷ (0x1E23, 0x00680307)
    ∷ (0x1E27, 0x00680308)
    ∷ (0x021F, 0x0068030C)
    ∷ (0x1E25, 0x00680323)
    ∷ (0x1E29, 0x00680327)
    ∷ (0x1E2B, 0x0068032E)
    ∷ (0x1E96, 0x00680331)
    ∷ (0x00EC, 0x00690300)
    ∷ (0x00ED, 0x00690301)
    ∷ (0x00EE, 0x00690302)
    ∷ (0x0129, 0x00690303)
    ∷ (0x012B, 0x00690304)
    ∷ (0x012D, 0x00690306)
    ∷ (0x00EF, 0x00690308)
    ∷ (0x1EC9, 0x00690309)
    ∷ (0x01D0, 0x0069030C)
    ∷ (0x0209, 0x0069030F)
    ∷ (0x020B, 0x00690311)
    ∷ (0x1ECB, 0x00690323)
    ∷ (0x012F, 0x00690328)
    ∷ (0x1E2D, 0x00690330)
    ∷ (0x0135, 0x006A0302)
    ∷ (0x01F0, 0x006A030C)
    ∷ (0x1E31, 0x006B0301)
    ∷ (0x01E9, 0x006B030C)
    ∷ (0x1E33, 0x006B0323)
    ∷ (0x0137, 0x006B0327)
    ∷ (0x1E35, 0x006B0331)
    ∷ (0x013A, 0x006C0301)
    ∷ (0x013E, 0x006C030C)
    ∷ (0x1E37, 0x006C0323)
    ∷ (0x013C, 0x006C0327)
    ∷ (0x1E3D, 0x006C032D)
    ∷ (0x1E3B, 0x006C0331)
    ∷ (0x1E3F, 0x006D0301)
    ∷ (0x1E41, 0x006D0307)
    ∷ (0x1E43, 0x006D0323)
    ∷ (0x01F9, 0x006E0300)
    ∷ (0x0144, 0x006E0301)
    ∷ (0x00F1, 0x006E0303)
    ∷ (0x1E45, 0x006E0307)
    ∷ (0x0148, 0x006E030C)
    ∷ (0x1E47, 0x006E0323)
    ∷ (0x0146, 0x006E0327)
    ∷ (0x1E4B, 0x006E032D)
    ∷ []
