-- ===== src/Pascal.antt =====
-- lib/utils.c: strings with a length in front (Pascal strings), as AFP packets carry them.
-- Memory is a list of bytes with an offset; `none` stands for a read outside of it. A destination
-- of `max_len` bytes is a list of that length, and a C string is the list of its bytes before the
-- NUL.
pub mod RoundTrip
mod Tests
use netatalk_client.Base.{
  ℕ, zero, suc, ◌+◌, ◌-◌, ◌%◌, ◌^◌, min, Bool, true, false, Option, none, some, List, [], ◌∷◌, ◌++◌,
  leb, ◌==◌, if◌then◌else◌, length, take, replicate, get_elem?, slice?, to_be16, be16_at, ◌||◌,
}

infixl 5 ◌>>=◌
abbrev pub ◌>>=◌ {ℓ κ} : {A : Type ℓ} {B : Type κ} → Option A → (A → Option B) → Option B
none >>= f = none
some a >>= f = f a

-- `memset(dest, 0, max_len); memcpy(dest, bytes, length bytes)`
unfoldable pub zero_fill : ℕ → List ℕ → List ℕ
zero_fill max_len bytes = bytes ++ replicate (max_len - length bytes) 0

-- The C string at the start of a buffer.
unfoldable pub c_string : List ℕ → List ℕ
c_string [] = []
c_string (b ∷ bs) = let rest = c_string bs in if b == 0 then [] else b ∷ rest

-- The bytes that are copied: one stays for the NUL.
unfoldable pub copied : ℕ → ℕ → ℕ
copied n max_len = if leb max_len n then max_len - 1 else n

-- The new destination, and the length that the packet names.
unfoldable pub copy_from_pascal : List ℕ → List ℕ → ℕ → ℕ → Option (List ℕ × ℕ)
unfolding copied zero_fill slice?
copy_from_pascal dest mem at max_len = if max_len == 0 then some (dest, 0) else do
  n ← get_elem? mem at
  text ← slice? mem (at + 1) (copied n max_len)
  some (zero_fill max_len text, n)

-- Here an empty string leaves the destination as it was.
unfoldable pub copy_from_pascal_two : List ℕ → List ℕ → ℕ → ℕ → Option (List ℕ × ℕ)
unfolding copied zero_fill slice? be16_at
copy_from_pascal_two dest mem at max_len = if max_len == 0 then some (dest, 0) else do
  head ← slice? mem at 2
  let n = be16_at head 0
  if n == 0
      then some (dest, 0)
      else do text ← slice? mem (at + 2) (copied n max_len); some (zero_fill max_len text, n)

-- The bytes that are written, and the returned length.
unfoldable pub copy_to_pascal : List ℕ → List ℕ × ℕ
copy_to_pascal src = let n = min (length src) 255 in (n ∷ take n src, n)

-- `(unsigned short) strlen(src)`: the length wraps. A null source writes a zero length, and the
-- value returned then is 2.
unfoldable pub copy_to_pascal_two : Option (List ℕ) → List ℕ × ℕ
unfolding to_be16
copy_to_pascal_two none = (0 ∷ 0 ∷ [], 2)
copy_to_pascal_two (some src) = let n = length src % 2 ^ 16 in (to_be16 n ++ take n src, n)
