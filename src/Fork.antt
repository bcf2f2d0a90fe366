-- ===== src/Fork.antt =====
-- lib/lowlevel.c: reading and writing an open fork in the quanta of the connection, and its locks.
-- What the server does is the argument `server`, over a state of its own. Offsets are below 2^63 and
-- sizes of a read at most INT_MAX, so that the sums of the loops do not wrap. `spent` is a loop that
-- its fuel did not bring to an end.
pub mod Serve
pub mod Read
pub mod Write
pub mod Limits
mod Tests
use netatalk_client.Base.{
  ◌&&◌, not, ℕ, zero, suc, ◌+◌, ◌-◌, ◌%◌, ◌^◌, min, ℤ, pos, negsuc, Bool, true, false, Option, none,
  some, List, [], ◌∷◌, ◌++◌, ◌==◌, ltb, if◌then◌else◌, ◌||◌, length, take, drop,
}

-- The AFP results that these functions tell apart.
pub data AfpResult : Type 0 where
  no_err access_denied lock_err misc_err param_err eof_err disk_full no_more_locks vol_locked :
      AfpResult
  bitmap_err other_err : AfpResult

pub data ForkError : Type 0 where
  ebadf einval eio ebusy eacces efbig enospc : ForkError

-- The calls for one fork: `FPByteRangeLock`, `FPRead` and `FPWrite`, with or without `Ext`, and the flush
-- of the file's other dirty forks. A read gives what has come into the buffer, a write the offset
-- behind what was written.
pub record ForkServer (S : Type 0) : Type 0 where
  pub lock : ℕ → ℕ → S → AfpResult × S
  pub unlock : ℕ → ℕ → S → AfpResult × S
  pub read : ℕ → ℕ → S → (AfpResult × List ℕ) × S
  pub write : ℕ → List ℕ → S → (AfpResult × ℕ) × S
  pub flush : S → S

-- What the functions read of the volume and its server. `ext` says that the AFP version is 3.0 or
-- later.
pub record ForkVolume : Type 0 where
  pub no_locking : Bool
  pub ext : Bool
  pub rx_quantum : ℕ
  pub tx_quantum : ℕ

pub data ReadEnd (S : Type 0) : Type 0 where
  finished : List ℕ → Bool → S → ReadEnd S
  refused : ForkError → S → ReadEnd S
  spent : S → ReadEnd S

-- `bytes_read` has what is in the caller's buffer, and `eof`.
pub data ReadOutcome (S : Type 0) : Type 0 where
  bytes_read : List ℕ → Bool → S → ReadOutcome S
  read_failed : ForkError → S → ReadOutcome S
  read_spent : S → ReadOutcome S

-- `stored` is 0, and every outcome has `totalwritten`. The fork is dirty after `stored` if anything was
-- written.
pub data WriteOutcome (S : Type 0) : Type 0 where
  stored : ℕ → S → WriteOutcome S
  write_failed : ForkError → ℕ → S → WriteOutcome S
  write_spent : S → WriteOutcome S

abbrev pub int_max : ℕ
int_max = 2147483647

unfoldable pub ok_result : AfpResult → Bool
ok_result no_err = true
ok_result r = false

-- A lock that another user holds, or that the server has no room for, is tried again.
unfoldable pub retried : AfpResult → Bool
retried lock_err = true
retried no_more_locks = true
retried r = false

-- The `switch` of `ll_read`. A result that it does not list is handled as none.
unfoldable pub read_error : AfpResult → Option ForkError
read_error access_denied = some eacces
read_error lock_err = some ebusy
read_error misc_err = some eio
read_error param_err = some eio
read_error r = none

unfoldable pub is_eof : AfpResult → Bool
is_eof eof_err = true
is_eof r = false

-- The `switch` of `ll_write`.
unfoldable pub write_error : AfpResult → Option ForkError
write_error no_err = none
write_error access_denied = some eacces
write_error disk_full = some enospc
write_error lock_err = some einval
write_error misc_err = some einval
write_error param_err = some einval
write_error r = some eio

-- The offset and the answer are 32 bits wide where the version is below 3.0.
unfoldable pub narrow : ForkVolume → ℕ → ℕ
narrow v n = if v.ext then n else n % 2 ^ 32

module _ {S : Type 0} (server : ForkServer S) where
  -- `false` is -1.
  unfoldable pub ll_handle_unlocking : ForkVolume → ℕ → ℕ → S → Bool × S
  ll_handle_unlocking v at n s =
      if v.no_locking then (true, s) else (let (r, t) = server.unlock at n s in (ok_result r, t))

  -- After the last try there is no lock, and none is reported missing.
  unfoldable pub lock_tries : ℕ → ℕ → ℕ → S → Bool × S
  lock_tries zero at n s = (true, s)
  lock_tries (suc tries) at n s =
      let (r, t) = server.lock at n s in
      let again = lock_tries tries at n t in
      if ok_result r then (true, t) else if retried r then again else (false, t)

  unfoldable pub ll_handle_locking : ForkVolume → ℕ → ℕ → S → Bool × S
  ll_handle_locking v at n s = if v.no_locking then (true, s) else lock_tries 10 at n s

  -- What follows an answer to a read: the error that the result is, whether it is the end of the file,
  -- and the bytes. `more` is the rest of the loop.
  unfoldable pub after_read :
      (ℕ → ℕ → List ℕ → S → ReadEnd S)
      → ℕ
      → ℕ
      → List ℕ
      → Option ForkError
      → Bool
      → List ℕ
      → S
      → ReadEnd S
  after_read more at left got (some e) eof bytes t = refused e t
  after_read more at left got none true bytes t = finished (got ++ bytes) true t
  after_read more at left got none false [] t = finished got false t
  after_read more at left got none false (b ∷ bytes) t =
      more (at + length (b ∷ bytes)) (left - length (b ∷ bytes)) (got ++ (b ∷ bytes)) t

  -- `left` is what `totalsize` lacks of `size`.
  unfoldable pub read_loop : ForkVolume → ℕ → ℕ → ℕ → List ℕ → S → ReadEnd S
  read_loop v fuel at zero got s = finished got false s
  read_loop v zero at (suc left) got s = spent s
  read_loop v (suc fuel) at (suc left) got s =
      if not v.ext && ltb 4294967295 at
      then refused efbig s
      else (let ((r, bytes), t) = server.read at (min v.rx_quantum (suc left)) s in
          after_read (read_loop v fuel) at (suc left) got (read_error r) (is_eof r) bytes t)

  unfoldable pub unlock_read : ForkVolume → ℕ → ℕ → ReadEnd S → ReadOutcome S
  unlock_read v at n (finished bytes eof s) =
      let (unlocked, t) = ll_handle_unlocking v at n s in
      if unlocked then bytes_read bytes eof t else read_failed eio (ll_handle_unlocking v at n t).1
  unlock_read v at n (refused e s) = read_failed e (ll_handle_unlocking v at n s).1
  unlock_read v at n (spent s) = read_spent s

  -- With the lock, if it could be had.
  unfoldable pub read_locked : ForkVolume → ℕ → ℕ → Bool × S → ReadOutcome S
  read_locked v at n (false, s) = read_failed ebusy s
  read_locked v at n (true, s) = unlock_read v at n (read_loop v n at n [] s)

  -- `ll_read` of an open fork.
  unfoldable pub ll_read : ForkVolume → ℕ → ℤ → S → ReadOutcome S
  ll_read v zero offset s = bytes_read [] false s
  ll_read v (suc n) (negsuc m) s = read_failed einval s
  ll_read v (suc n) (pos at) s =
      let size = min (suc n) int_max in
      let t = server.flush s in
      if v.rx_quantum == 0
      then read_failed eio t
      else read_locked v at size (ll_handle_locking v at size t)

  -- What follows an answer to a write of `chunk` bytes at `at`: the error that the result is, and the
  -- offset that the server answered.
  unfoldable pub after_write :
      (ℕ → ℕ → S → WriteOutcome S) → ℕ → ℕ → ℕ → Option ForkError → ℕ → S → WriteOutcome S
  after_write more at chunk total (some e) reply t = write_failed e total t
  after_write more at chunk total none reply t =
      if ltb reply at
      then write_failed eio total t
      else let written = reply - at in
        if written == 0 || ltb chunk written
        then write_failed eio total t
        else more written (total + written) t

  -- The list is what is still to be written, from offset `at` on.
  unfoldable pub write_loop : ForkVolume → ℕ → ℕ → List ℕ → ℕ → S → WriteOutcome S
  write_loop v fuel at [] total s = stored total s
  write_loop v zero at (b ∷ left) total s = write_spent s
  write_loop v (suc fuel) at (b ∷ left) total s =
      let chunk = take v.tx_quantum (b ∷ left) in
      let ((r, reply), t) = server.write (narrow v at) chunk s in
      after_write (λ k total' u. write_loop v fuel (at + k) (drop k (b ∷ left)) total' u) at
        (length chunk) total (write_error r) (narrow v reply) t

  unfoldable pub unlock_write : ForkVolume → ℕ → ℕ → WriteOutcome S → WriteOutcome S
  unlock_write v at n (stored total s) =
      let (unlocked, t) = ll_handle_unlocking v at n s in
      if unlocked then stored total t else write_failed eio total (ll_handle_unlocking v at n t).1
  unlock_write v at n (write_failed e total s) =
      write_failed e total (ll_handle_unlocking v at n s).1
  unlock_write v at n (write_spent s) = write_spent s

  unfoldable pub write_locked : ForkVolume → ℕ → List ℕ → Bool × S → WriteOutcome S
  write_locked v at bytes (false, s) = write_failed ebusy 0 s
  write_locked v at bytes (true, s) =
      unlock_write v at (length bytes) (write_loop v (length bytes) at bytes 0 s)

  -- `ll_write` to an open fork, at an offset that is not negative.
  unfoldable pub ll_write : ForkVolume → ℕ → List ℕ → S → WriteOutcome S
  ll_write v at bytes s =
      if v.tx_quantum == 0
      then write_failed eio 0 s
      else write_locked v at bytes (ll_handle_locking v at (length bytes) s)
