-- ===== src/Unicode/Tests.antt =====
-- Conversions of text, and characters taken apart and put together.
use netatalk_client.Base.{
  ◌≡◌, ◌↔◌, refl, true, none, some, [], ◌∷◌, ◌++◌, length, arith, ltb, if◌then◌else◌,
}
use netatalk_client.Unicode.{
  utf8_to_ucs2, ucs2_to_utf8, utf8_loop, mb_str_len, mb_str_loop, mb_char_len, leading_ones,
  decode_char, is_continuation, str16len,
}
use netatalk_client.Unicode.RoundTrip.{encoded, utf8_to_ucs2-ucs2_to_utf8}
use netatalk_client.Unicode.Compose.{composed, ucs2_precompose, ucs2_decompose}
use netatalk_client.Unicode.Compose.Search.{find_pattern, ucs2_precompose-find_pattern}
use netatalk_client.Unicode.Compose.Table.{table, rows, dummy_row, length-rows, rows_sorted}
use netatalk_client.Unicode.Compose.Inverse.{ucs2_decompose-ucs2_precompose}

-- A character that is not in two bytes, one whose code is too long, and one that is cut off.
broken_codes :
    utf8_to_ucs2 true (0xF0 ∷ 0x9F ∷ 0x98 ∷ 0x80 ∷ 0xC1 ∷ 0x81 ∷ 0x41 ∷ 0xE2 ∷ 0x82 ∷ [])
    ≡ (some (b'~' ∷ b'*' ∷ b'A' ∷ []), 7)
unfolding utf8_to_ucs2 utf8_loop mb_str_len mb_str_loop mb_char_len leading_ones decode_char
    is_continuation
broken_codes = refl

stops_at_zero : (str16len (7 ∷ 8 ∷ 0 ∷ 9 ∷ []) ≡ 2) × (str16len (7 ∷ 8 ∷ []) ≡ 2)
unfolding str16len
stops_at_zero = (refl, refl)

utf8_to_ucs2-ucs2_to_utf8_example :
    (ucs2_to_utf8 (0x41 ∷ 0xE4 ∷ 0x20AC ∷ []) 20 ≡ (
      if ltb (length (encoded (0x41 ∷ 0xE4 ∷ 0x20AC ∷ []))) 20
      then some (encoded (0x41 ∷ 0xE4 ∷ 0x20AC ∷ []))
      else none))
    × (utf8_to_ucs2 true (encoded (0x41 ∷ 0xE4 ∷ 0x20AC ∷ []) ++ (0 ∷ 99 ∷ []))
        ≡ (some (0x41 ∷ 0xE4 ∷ 0x20AC ∷ []), length (encoded (0x41 ∷ 0xE4 ∷ 0x20AC ∷ []))))
utf8_to_ucs2-ucs2_to_utf8_example =
    utf8_to_ucs2-ucs2_to_utf8 (0x41 ∷ 0xE4 ∷ 0x20AC ∷ []) (99 ∷ []) 20 (omega arith)

ucs2_precompose-find_pattern_example :
    ucs2_precompose (dummy_row ∷ rows) 0x75 0x308 ≡ find_pattern rows 0x750308
ucs2_precompose-find_pattern_example =
    ucs2_precompose-find_pattern dummy_row rows 0x75 0x308 rows_sorted length-rows

ucs2_decompose-ucs2_precompose_example :
    (ucs2_decompose table 0xFC ≡ some (0x75, 0x308))
    ↔ (ucs2_precompose table 0x75 0x308 ≡ composed 0xFC)
ucs2_decompose-ucs2_precompose_example =
    ucs2_decompose-ucs2_precompose 0xFC 0x75 0x308 (omega arith) (omega arith)
