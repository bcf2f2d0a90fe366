-- ===== src/Unicode/RoundTrip.antt =====
-- `UTF8toUCS2` reads what `UCS2toUTF8` has written (lib/unicode.c).
use mathlib.Core.List.{append_assoc}
use netatalk_client.Base.{
  inr, inl, Bool-cases, ℕ, zero, suc, ◌+◌, ◌-◌, ◌*◌, ◌/◌, ◌%◌, ◌^◌, ◌≤◌, ◌<◌, ◌≡◌, refl, sym, ◌∙◌,
  true, none, some, List, [], ◌∷◌, ◌++◌, length, drop, All, arith, get_or, length-append,
  drop-append_at, ltb, if◌then◌else◌,
}
use netatalk_client.Unicode.{
  leading_ones, mb_char_len, mb_str_loop, mb_str_len, is_continuation, decode_char, utf8_loop,
  utf8_to_ucs2, bytes_needed, encode_char, behind_bytes, ucs2_loop, ucs2_to_utf8,
}

mb_char_len_ascii : (b : ℕ) → 0 < b → b < 128 → mb_char_len b ≡ 1
unfolding mb_char_len leading_ones
mb_char_len_ascii b h k = ground arith

mb_char_len_two : (b : ℕ) → 192 ≤ b → b < 224 → mb_char_len b ≡ 2
unfolding mb_char_len leading_ones
mb_char_len_two b h k = ground arith

mb_char_len_three : (b : ℕ) → 224 ≤ b → b < 240 → mb_char_len b ≡ 3
unfolding mb_char_len leading_ones
mb_char_len_three b h k = ground arith

-- A character that is not 0, and its code.
abbrev pub IsChar : ℕ → Type 0
IsChar c = (0 < c) × (c < 2 ^ 16)

length-encode_char : (c : ℕ) → length (encode_char c) ≡ bytes_needed c
unfolding encode_char bytes_needed
length-encode_char c = ground arith

mb_char_len-encode_char :
    (c : ℕ) (rest : List ℕ)
    → IsChar c
    → mb_char_len (get_or (encode_char c ++ rest) 0 0) ≡ bytes_needed c
unfolding encode_char bytes_needed
mb_char_len-encode_char c rest (h, k) = ground (
  arith,
  mb_char_len_ascii (c % 256),
  mb_char_len_two (192 + c / 256 % 8 * 4 + c % 256 / 64),
  mb_char_len_three (224 + c / 256 / 16),
)

decode_char-encode_char :
    (c : ℕ) (rest : List ℕ) → IsChar c → decode_char (bytes_needed c) (encode_char c ++ rest) ≡ c
unfolding encode_char bytes_needed decode_char is_continuation
decode_char-encode_char c rest (h, k) = ground arith

-- The codes of all characters.
abbrev pub encoded : List ℕ → List ℕ
encoded [] = []
encoded (c ∷ chars) = encode_char c ++ encoded chars

-- What is left behind the code of the first character.
drop-encoded : (c : ℕ) (rest : List ℕ) → drop (bytes_needed c) (encode_char c ++ rest) ≡ rest
drop-encoded c rest =
    drop-append_at (bytes_needed c) (encode_char c) rest (sym (length-encode_char c))

bytes_needed_pos : (c : ℕ) → 0 < bytes_needed c
unfolding bytes_needed
bytes_needed_pos c = ground arith

mb_str_loop-encoded :
    (fuel : ℕ) (chars rest : List ℕ)
    → All IsChar chars
    → length chars ≤ fuel
    → mb_str_loop fuel (encoded chars ++ (0 ∷ rest)) ≡ length chars
unfolding mb_str_loop
mb_str_loop-encoded zero [] rest h k = refl
mb_str_loop-encoded zero (c ∷ chars) rest h k = absurd (omega arith)
mb_str_loop-encoded (suc fuel) [] rest h k = unfold mb_char_len in refl
mb_str_loop-encoded (suc fuel) (c ∷ chars) rest (hc, h) k =
    rw
      (
        append_assoc (encode_char c) (encoded chars) (0 ∷ rest),
        mb_char_len-encode_char c (encoded chars ++ (0 ∷ rest)) hc,
        drop-encoded c (encoded chars ++ (0 ∷ rest)),
        mb_str_loop-encoded fuel chars rest h (omega arith),
      )
      (ground (
        arith,
        bytes_needed_pos c,
        length-append (encode_char c) (encoded chars ++ (0 ∷ rest)),
        length-encode_char c,
      ))

utf8_loop-encoded :
    (chars rest : List ℕ)
    → All IsChar chars
    → utf8_loop (length chars) (encoded chars ++ (0 ∷ rest)) ≡ (chars, length (encoded chars))
unfolding utf8_loop
utf8_loop-encoded [] rest h = refl
utf8_loop-encoded (c ∷ chars) rest (hc, h) =
    rw
      (
        append_assoc (encode_char c) (encoded chars) (0 ∷ rest),
        mb_char_len-encode_char c (encoded chars ++ (0 ∷ rest)) hc,
        drop-encoded c (encoded chars ++ (0 ∷ rest)),
        utf8_loop-encoded chars rest h,
        decode_char-encode_char c (encoded chars ++ (0 ∷ rest)) hc,
      )
      (ground (
        arith,
        bytes_needed_pos c,
        length-append (encode_char c) (encoded chars ++ (0 ∷ rest)),
        length-append (encode_char c) (encoded chars),
        length-encode_char c,
      ))

length-encoded : (chars : List ℕ) → length chars ≤ length (encoded chars)
length-encoded [] = omega arith
length-encoded (c ∷ chars) = omega (
  arith,
  length-append (encode_char c) (encoded chars),
  length-encode_char c,
  bytes_needed_pos c,
  length-encoded chars,
)

ucs2_loop-encoded :
    (chars : List ℕ) (room : ℕ)
    → All IsChar chars
    → 0 < room
    → ucs2_loop chars room
      ≡ (if ltb (length (encoded chars)) room then some (encoded chars) else none)
unfolding ucs2_loop behind_bytes
ucs2_loop-encoded [] room h k = ground arith
ucs2_loop-encoded (c ∷ chars) room (hc, h) k = elim (Bool-cases (ltb room (bytes_needed c + 1))) [
  | inl l ↦
      ground (arith, l, hc.0, length-append (encode_char c) (encoded chars), length-encode_char c)
  | inr l ↦ ground (
    arith,
    l,
    hc.0,
    ucs2_loop-encoded chars (room - bytes_needed c) h (ground (arith)),
    length-append (encode_char c) (encoded chars),
    length-encode_char c,
  )
]

ucs2_to_utf8-encoded :
    (chars : List ℕ) (room : ℕ)
    → All IsChar chars
    → ucs2_to_utf8 chars room
      ≡ (if ltb (length (encoded chars)) room then some (encoded chars) else none)
unfolding ucs2_to_utf8
ucs2_to_utf8-encoded chars zero h = ground arith
ucs2_to_utf8-encoded chars (suc n) h = ucs2_loop-encoded chars (suc n) h (omega arith)

utf8_to_ucs2_nonempty :
    (bytes : List ℕ)
    → 0 < length bytes
    → utf8_to_ucs2 true bytes
      ≡ (some (utf8_loop (mb_str_len bytes) bytes).0, (utf8_loop (mb_str_len bytes) bytes).1)
unfolding utf8_to_ucs2
utf8_to_ucs2_nonempty [] h = absurd (omega arith)
utf8_to_ucs2_nonempty (b ∷ bytes) h = refl

mb_str_len-encoded :
    (chars rest : List ℕ)
    → All IsChar chars
    → mb_str_len (encoded chars ++ (0 ∷ rest)) ≡ length chars
unfolding mb_str_len
mb_str_len-encoded chars rest h =
    mb_str_loop-encoded (length (encoded chars ++ (0 ∷ rest))) chars rest h
      (omega (arith, length-append (encoded chars) (0 ∷ rest), length-encoded chars))

-- `UCS2toUTF8` of characters that are 16 bits wide and not 0 gives their codes if `dest` has room for
-- them and a zero, and -1 otherwise. With memory, `UTF8toUCS2` of the codes, a zero and any bytes behind
-- it gives the characters back, and has consumed the codes.
pub utf8_to_ucs2-ucs2_to_utf8 :
    (chars rest : List ℕ) (room : ℕ)
    → All IsChar chars
    → (ucs2_to_utf8 chars room
        ≡ (if ltb (length (encoded chars)) room then some (encoded chars) else none))
      × (utf8_to_ucs2 true (encoded chars ++ (0 ∷ rest)) ≡ (some chars, length (encoded chars)))
utf8_to_ucs2-ucs2_to_utf8 chars rest room h = (
  ucs2_to_utf8-encoded chars room h,
  utf8_to_ucs2_nonempty (encoded chars ++ (0 ∷ rest))
        (omega (arith, length-append (encoded chars) (0 ∷ rest)))
      ∙ rw (mb_str_len-encoded chars rest h, utf8_loop-encoded chars rest h) refl,
)
