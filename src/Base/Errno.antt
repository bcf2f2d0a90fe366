-- ===== src/Base/Errno.antt =====
-- The negative errno values that the library returns, and results that carry one.
use Prim.Native.Nat.{ℕ}

-- `other_errno` is what a system call leaves in `errno`.
pub data Errno : Type 0 where
  einval enametoolong enomem eio enoattr e2big enotsup efbig : Errno
  other_errno : ℕ → Errno

pub data Result {ℓ} (A : Type ℓ) : Type ℓ where
  ok : A → Result A
  err : Errno → Result A

infixl 5 ◌>>=◌
abbrev pub ◌>>=◌ {ℓ κ} : {A : Type ℓ} {B : Type κ} → Result A → (A → Result B) → Result B
ok a >>= f = f a
err e >>= f = err e
