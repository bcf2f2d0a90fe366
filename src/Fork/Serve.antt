-- ===== src/Fork/Serve.antt =====
-- What AFP promises of a server that holds a fork, for the functions of lib/lowlevel.c that read and
-- write one, and how the calls around the data treat it.
use netatalk_client.Base.{
  ℕ, ◌+◌, ◌-◌, ◌≤◌, ◌≡◌, refl, true, List, length, take, drop, write_at, arith, zero, suc,
}
use netatalk_client.Fork.{
  AfpResult, no_err, is_eof, ForkServer, ForkVolume, ll_handle_locking, ll_handle_unlocking,
  lock_tries,
}

-- `content s` is the fork in state `s`. A read gives bytes from its offset on, at most as many as were
-- asked for, whatever else it answers; `eof_err` says that the bytes reach the end. A write without an error has written up to the
-- offset that it answers. The remaining calls leave the data alone.
pub record IsLawful {S : Type 0} (server : ForkServer S) (content : S → List ℕ) : Type 0 where
  pub lock_keeps : (at n : ℕ) (s : S) → content (server.lock at n s).1 ≡ content s
  pub unlock_keeps : (at n : ℕ) (s : S) → content (server.unlock at n s).1 ≡ content s
  pub flush_keeps : (s : S) → content (server.flush s) ≡ content s
  pub read_keeps : (at n : ℕ) (s : S) → content (server.read at n s).1 ≡ content s
  pub read_slice :
      (at n : ℕ) (s : S) (r : AfpResult) (bytes : List ℕ)
      → (server.read at n s).0 ≡ (r, bytes)
      → (bytes ≡ take (length bytes) (drop at (content s))) × (length bytes ≤ n)
  pub read_eof :
      (at n : ℕ) (s : S) (r : AfpResult) (bytes : List ℕ)
      → (server.read at n s).0 ≡ (r, bytes)
      → is_eof r ≡ true
      → length (content s) ≤ at + length bytes
  pub write_stores :
      (at : ℕ) (chunk : List ℕ) (s : S) (reply : ℕ)
      → (server.write at chunk s).0 ≡ (no_err, reply)
      → at ≤ length (content s)
      → (at ≤ reply)
        × ((reply ≤ at + length chunk)
            × (content (server.write at chunk s).1
                ≡ write_at at (take (reply - at) chunk) (content s)))

module _ {S : Type 0} (server : ForkServer S) (content : S → List ℕ) where
  pub ll_handle_unlocking_keeps :
      (law : IsLawful server content) (v : ForkVolume) (at n : ℕ) (s : S)
      → content (ll_handle_unlocking server v at n s).1 ≡ content s
  unfolding ll_handle_unlocking
  ll_handle_unlocking_keeps law v at n s = ground (arith, law.unlock_keeps at n s)

  pub lock_tries_keeps :
      (law : IsLawful server content) (tries at n : ℕ) (s : S)
      → content (lock_tries server tries at n s).1 ≡ content s
  unfolding lock_tries
  lock_tries_keeps law zero at n s = refl
  lock_tries_keeps law (suc tries) at n s =
      ground (arith, law.lock_keeps at n s, lock_tries_keeps law tries at n (server.lock at n s).1)

  pub ll_handle_locking_keeps :
      (law : IsLawful server content) (v : ForkVolume) (at n : ℕ) (s : S)
      → content (ll_handle_locking server v at n s).1 ≡ content s
  unfolding ll_handle_locking
  ll_handle_locking_keeps law v at n s = ground (arith, lock_tries_keeps law 10 at n s)
