-- ===== src/Base/Bytes.antt =====
-- Bytes and big-endian words: `htons`, `htonl`, `ntohs`, `ntohl` on byte lists.
use Prim.Native.Nat.{ℕ, ◌+◌, ◌*◌, ◌/◌, ◌%◌, ◌^◌, ◌<◌}
use mathlib.Core.Path.{◌≡◌, refl}
use mathlib.Core.List.{List, [], ◌∷◌, ◌++◌}
use native.Mathlib.Omega.{arith}
use netatalk_client.Base.Lists.{get_or, All, length}

abbrev pub IsByte : ℕ → Type 0
IsByte b = b < 256

abbrev pub IsU16 : ℕ → Type 0
IsU16 n = n < 2 ^ 16

abbrev pub IsU32 : ℕ → Type 0
IsU32 n = n < 2 ^ 32

-- The bytes of a 16-bit and of a 32-bit number, most significant first.
unfoldable pub to_be16 : ℕ → List ℕ
to_be16 n = (n / 256 % 256) ∷ (n % 256) ∷ []

unfoldable pub to_be32 : ℕ → List ℕ
to_be32 n = (n / 2 ^ 24 % 256) ∷ (n / 2 ^ 16 % 256) ∷ (n / 256 % 256) ∷ (n % 256) ∷ []

-- The numbers that stand at an offset. Past the end a byte reads 0.
unfoldable pub be16_at : List ℕ → ℕ → ℕ
be16_at buf i = get_or buf i 0 * 256 + get_or buf (i + 1) 0

unfoldable pub be32_at : List ℕ → ℕ → ℕ
be32_at buf i =
    get_or buf i 0 * 2 ^ 24
    + get_or buf (i + 1) 0 * 2 ^ 16
    + get_or buf (i + 2) 0 * 256
    + get_or buf (i + 3) 0

pub be16-to_be16 : (n : ℕ) (rest : List ℕ) → IsU16 n → be16_at (to_be16 n ++ rest) 0 ≡ n
unfolding be16_at to_be16
be16-to_be16 n rest h = omega arith

pub be32-to_be32 : (n : ℕ) (rest : List ℕ) → IsU32 n → be32_at (to_be32 n ++ rest) 0 ≡ n
unfolding be32_at to_be32
be32-to_be32 n rest h = omega arith

pub to_be16-IsByte : (n : ℕ) → All IsByte (to_be16 n)
unfolding to_be16
to_be16-IsByte n = omega arith

pub to_be32-IsByte : (n : ℕ) → All IsByte (to_be32 n)
unfolding to_be32
to_be32-IsByte n = omega arith

pub be16_self : (n : ℕ) → IsU16 n → be16_at (to_be16 n) 0 ≡ n
unfolding be16_at to_be16
be16_self n h = omega arith

pub length-to_be16 : (n : ℕ) → length (to_be16 n) ≡ 2
unfolding to_be16
length-to_be16 n = refl

pub length-to_be32 : (n : ℕ) → length (to_be32 n) ≡ 4
unfolding to_be32
length-to_be32 n = refl
