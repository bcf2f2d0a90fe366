-- ===== src/Unicode.antt =====
-- Text as UTF-8 and as 16-bit characters (lib/unicode.c).
pub mod RoundTrip
pub mod Compose
mod Tests
use netatalk_client.Base.{
  ℕ, zero, suc, ◌+◌, ◌-◌, ◌*◌, ◌/◌, ◌%◌, ◌^◌, Bool, true, false, not, ◌&&◌, ◌||◌, Option, none,
  some, List, [], ◌∷◌, ◌++◌, length, drop, ◌==◌, ltb, if◌then◌else◌, get_or,
}

-- `str16len`, of the `max_len` characters at the pointer.
unfoldable pub str16len : List ℕ → ℕ
str16len [] = 0
str16len (c ∷ chars) = let rest = str16len chars in if c == 0 then 0 else suc rest

-- How many of the highest bits of a byte are set, from bit `n - 1` down.
unfoldable pub leading_ones : ℕ → ℕ → ℕ
leading_ones c zero = 0
leading_ones c (suc n) = let rest = leading_ones c n in if c / 2 ^ n % 2 == 1 then suc rest else 0

-- `mbCharLen`, of the byte at the pointer.
unfoldable pub mb_char_len : ℕ → ℕ
mb_char_len c =
    let count = leading_ones c 8 in
    if c == 0 then 0 else if count == 0 then 1 else if count == 1 then 0 else count

-- `mbStrLen`, of the `max_bytes` bytes at the pointer. The loop ends, since each round takes a byte or
-- more off `bytes`, and has as much fuel as there are bytes.
unfoldable pub mb_str_loop : ℕ → List ℕ → ℕ
mb_str_loop zero bytes = 0
mb_str_loop (suc fuel) bytes =
    let clen = mb_char_len (get_or bytes 0 0) in
    let rest = mb_str_loop fuel (drop clen bytes) in
    if clen == 0 || ltb (length bytes) clen then 0 else suc rest

unfoldable pub mb_str_len : List ℕ → ℕ
mb_str_len bytes = mb_str_loop (length bytes) bytes

-- `(b & 0xC0) == 0x80`
unfoldable pub is_continuation : ℕ → Bool
is_continuation b = b / 64 % 4 == 2

-- The character of `clen` bytes. A code that is too long or broken is '*', and a character above 0xFFFF
-- is '~'.
unfoldable pub decode_char : ℕ → List ℕ → ℕ
decode_char clen bytes =
    let b0 = get_or bytes 0 0 in
    let b1 = get_or bytes 1 0 in
    let b2 = get_or bytes 2 0 in
    let two = b1 % 64 + b0 % 32 * 64 in
    let three = b2 % 64 + b1 % 64 * 64 + b0 % 16 * 4096 in
    if clen == 1
    then b0
    else if clen == 2
    then (if ltb 127 two && is_continuation b1 then two else b'*')
    else if clen == 3
    then (if ltb 2047 three && is_continuation b1 && is_continuation b2 then three else b'*')
    else b'~'

-- The loop of `UTF8toUCS2`: at most `n` characters, and the number of bytes that they take.
unfoldable pub utf8_loop : ℕ → List ℕ → List ℕ × ℕ
utf8_loop zero bytes = ([], 0)
utf8_loop (suc n) bytes =
    let clen = mb_char_len (get_or bytes 0 0) in
    let (chars, used) = utf8_loop n (drop clen bytes) in
    if clen == 0 || ltb (length bytes) clen
    then ([], 0)
    else (decode_char clen bytes ∷ chars, clen + used)

-- `UTF8toUCS2` of the `max_bytes` bytes at the pointer: the string without its last zero, and
-- `bytes_consumed`. `memory` says whether `malloc` succeeds; without it, or without bytes, the result is
-- NULL. The bytes of the characters are not swapped, since `testINTEL` is 0.
unfoldable pub utf8_to_ucs2 : Bool → List ℕ → Option (List ℕ) × ℕ
utf8_to_ucs2 memory [] = (none, 0)
utf8_to_ucs2 memory (b ∷ bytes) =
    let (chars, used) = utf8_loop (mb_str_len (b ∷ bytes)) (b ∷ bytes) in
    if memory then (some chars, used) else (none, 0)

-- `bytes_needed`
unfoldable pub bytes_needed : ℕ → ℕ
bytes_needed c = if ltb c 128 then 1 else if ltb c 2048 then 2 else 3

-- The bytes of one character, from its low byte `c % 256` and its high byte `c / 256`, as a
-- little-endian machine has them. The parts of each sum have no bit in common.
unfoldable pub encode_char : ℕ → List ℕ
encode_char c =
    if ltb c 128
    then (c % 256) ∷ []
    else if ltb c 2048
    then (192 + c / 256 % 8 * 4 + c % 256 / 64) ∷ (128 + c % 64) ∷ []
    else (224 + c / 256 / 16) ∷ (128 + c / 256 % 16 * 4 + c % 256 / 64) ∷ (128 + c % 64) ∷ []

-- With bytes before them.
unfoldable pub behind_bytes : List ℕ → Option (List ℕ) → Option (List ℕ)
behind_bytes front none = none
behind_bytes front (some bytes) = some (front ++ bytes)

-- The loop of `UCS2toUTF8`, where `room` bytes of `dest` are left.
unfoldable pub ucs2_loop : List ℕ → ℕ → Option (List ℕ)
ucs2_loop [] room = some []
ucs2_loop (c ∷ chars) room =
    let rest = ucs2_loop chars (room - bytes_needed c) in
    if c == 0
    then some []
    else if ltb room (bytes_needed c + 1)
    then none
    else behind_bytes (encode_char c) rest

-- `UCS2toUTF8` of the `max_chars` characters at the pointer: the bytes in front of the last zero, or
-- `none` for -1, where `dest` has the empty string.
unfoldable pub ucs2_to_utf8 : List ℕ → ℕ → Option (List ℕ)
ucs2_to_utf8 chars zero = none
ucs2_to_utf8 chars (suc n) = ucs2_loop chars (suc n)
