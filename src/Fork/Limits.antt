-- ===== src/Fork/Limits.antt =====
-- `ll_read` and `ll_write` (lib/lowlevel.c): that their loops end, that what was written is read back,
-- and what an offset does that the version of the protocol does not have.
use netatalk_client.Base.{
  ℕ, zero, suc, ◌+◌, ◌-◌, ◌≤◌, ◌<◌, ◌%◌, ◌^◌, ◌≡◌, Bool, true, false, Option, none, some, List, [],
  ◌∷◌, length, take, drop, write_at, arith, if-split, if-both, ◌==◌, ◌||◌, ◌&&◌, ltb, not, pos,
  length-drop, ℤ, negsuc,
}
use netatalk_client.Fork.{
  ll_handle_locking, ll_handle_unlocking, no_err, ForkError, eio, ForkServer, ForkVolume, ReadEnd,
  finished, refused, spent, ReadOutcome, bytes_read, read_failed, read_spent, after_read, read_loop,
  unlock_read, read_locked, ll_read, WriteOutcome, stored, write_failed, write_spent, after_write,
  write_loop, unlock_write, write_locked, ll_write, write_error, narrow,
}
use netatalk_client.Fork.Serve.{IsLawful}

module _ {S : Type 0} (server : ForkServer S) where
  abbrev IsLoopEnd : ReadEnd S → Type 0
  IsLoopEnd (finished bytes eof t) = Unit
  IsLoopEnd (refused e t) = Unit
  IsLoopEnd (spent t) = ⊥

  -- A read, or a write, that its fuel brought to an end.
  abbrev pub IsReadEnd : ReadOutcome S → Type 0
  IsReadEnd (bytes_read bytes eof t) = Unit
  IsReadEnd (read_failed e t) = Unit
  IsReadEnd (read_spent t) = ⊥

  abbrev pub IsWriteEnd : WriteOutcome S → Type 0
  IsWriteEnd (stored n t) = Unit
  IsWriteEnd (write_failed e n t) = Unit
  IsWriteEnd (write_spent t) = ⊥

  after_read-IsLoopEnd :
      (more : ℕ → ℕ → List ℕ → S → ReadEnd S) (at left : ℕ) (got : List ℕ) (o : Option ForkError)
      (e : Bool) (bytes : List ℕ) (t : S)
      → ((at' left' : ℕ) (got' : List ℕ) → left' ≤ left - 1 → IsLoopEnd (more at' left' got' t))
      → IsLoopEnd (after_read server more at left got o e bytes t)
  unfolding after_read
  after_read-IsLoopEnd more at left got (some x) e bytes t ih = tt
  after_read-IsLoopEnd more at left got none true bytes t ih = tt
  after_read-IsLoopEnd more at left got none false [] t ih = tt
  after_read-IsLoopEnd more at left got none false (b ∷ bytes) t ih =
      ih (at + length (b ∷ bytes)) (left - length (b ∷ bytes)) _ (omega arith)

  read_loop-IsLoopEnd :
      (v : ForkVolume) (fuel at left : ℕ) (got : List ℕ) (s : S)
      → left ≤ fuel
      → IsLoopEnd (read_loop server v fuel at left got s)
  unfolding read_loop
  read_loop-IsLoopEnd v zero at zero got s h = tt
  read_loop-IsLoopEnd v (suc fuel) at zero got s h = tt
  read_loop-IsLoopEnd v zero at (suc left) got s h = absurd (omega arith)
  read_loop-IsLoopEnd v (suc fuel) at (suc left) got s h =
      if-both IsLoopEnd (not v.ext && ltb 4294967295 at) _ _ tt (
        after_read-IsLoopEnd (read_loop server v fuel) at (suc left) got _ _ _ _
          (λ at' left' got' l. read_loop-IsLoopEnd v fuel at' left' got' _ (omega arith)))

  unlock_read-IsReadEnd :
      (v : ForkVolume) (at n : ℕ) (e : ReadEnd S)
      → IsLoopEnd e
      → IsReadEnd (unlock_read server v at n e)
  unfolding unlock_read
  unlock_read-IsReadEnd v at n (finished bytes eof s) h =
      if-both IsReadEnd (ll_handle_unlocking server v at n s).0 _ _ tt tt
  unlock_read-IsReadEnd v at n (refused e s) h = tt
  unlock_read-IsReadEnd v at n (spent s) h = h

  read_locked-IsReadEnd :
      (v : ForkVolume) (at n : ℕ) (locked : Bool) (s : S)
      → IsReadEnd (read_locked server v at n (locked, s))
  unfolding read_locked
  read_locked-IsReadEnd v at n false s = tt
  read_locked-IsReadEnd v at n true s =
      unlock_read-IsReadEnd v at n _ (read_loop-IsLoopEnd v n at n [] s (omega arith))

  ll_read-IsReadEnd :
      (v : ForkVolume) (n : ℕ) (offset : ℤ) (s : S) → IsReadEnd (ll_read server v n offset s)
  unfolding ll_read
  ll_read-IsReadEnd v zero offset s = tt
  ll_read-IsReadEnd v (suc n) (negsuc m) s = tt
  ll_read-IsReadEnd v (suc n) (pos at) s =
      if-both IsReadEnd (v.rx_quantum == 0) _ _ tt (read_locked-IsReadEnd v at _ _ _)

  after_write-IsWriteEnd :
      (more : ℕ → ℕ → S → WriteOutcome S) (at chunk total : ℕ) (o : Option ForkError) (reply : ℕ)
      (t : S)
      → ((k total' : ℕ) → 0 < k → IsWriteEnd (more k total' t))
      → IsWriteEnd (after_write server more at chunk total o reply t)
  unfolding after_write
  after_write-IsWriteEnd more at chunk total (some x) reply t ih = tt
  after_write-IsWriteEnd more at chunk total none reply t ih =
      if-both IsWriteEnd (ltb reply at) _ _ tt (
        if-split IsWriteEnd (reply - at == 0 || ltb chunk (reply - at)) _ _ (λ d. tt)
          (λ d. ih (reply - at) _ (ground arith)))

  write_loop-IsWriteEnd :
      (v : ForkVolume) (fuel at : ℕ) (left : List ℕ) (total : ℕ) (s : S)
      → length left ≤ fuel
      → IsWriteEnd (write_loop server v fuel at left total s)
  unfolding write_loop
  write_loop-IsWriteEnd v zero at [] total s h = tt
  write_loop-IsWriteEnd v (suc fuel) at [] total s h = tt
  write_loop-IsWriteEnd v zero at (b ∷ left) total s h = absurd (omega arith)
  write_loop-IsWriteEnd v (suc fuel) at (b ∷ left) total s h =
      after_write-IsWriteEnd
        (λ k total' u. write_loop server v fuel (at + k) (drop k (b ∷ left)) total' u) at _ total _
        _ _
        (λ k total' hk.
          write_loop-IsWriteEnd v fuel (at + k) (drop k (b ∷ left)) total' _
            (omega (arith, length-drop k (b ∷ left))))

  unlock_write-IsWriteEnd :
      (v : ForkVolume) (at n : ℕ) (w : WriteOutcome S)
      → IsWriteEnd w
      → IsWriteEnd (unlock_write server v at n w)
  unfolding unlock_write
  unlock_write-IsWriteEnd v at n (stored k s) h =
      if-both IsWriteEnd (ll_handle_unlocking server v at n s).0 _ _ tt tt
  unlock_write-IsWriteEnd v at n (write_failed e k s) h = tt
  unlock_write-IsWriteEnd v at n (write_spent s) h = h

  write_locked-IsWriteEnd :
      (v : ForkVolume) (at : ℕ) (bytes : List ℕ) (locked : Bool) (s : S)
      → IsWriteEnd (write_locked server v at bytes (locked, s))
  unfolding write_locked
  write_locked-IsWriteEnd v at bytes false s = tt
  write_locked-IsWriteEnd v at bytes true s =
      unlock_write-IsWriteEnd v at (length bytes) _
        (write_loop-IsWriteEnd v (length bytes) at bytes 0 s (omega arith))

  -- Whatever the server answers, `ll_read` of any number of bytes at any offset ends, and `ll_write`
  -- of any bytes at an offset that is not negative ends: every round of either loop makes progress or
  -- is the last one.
  pub ll_read-ll_write_end :
      (v : ForkVolume) (n : ℕ) (offset : ℤ) (at : ℕ) (bytes : List ℕ) (s : S)
      → IsReadEnd (ll_read server v n offset s) × IsWriteEnd (ll_write server v at bytes s)
  unfolding ll_write
  ll_read-ll_write_end v n offset at bytes s = (
    ll_read-IsReadEnd v n offset s,
    if-both IsWriteEnd (v.tx_quantum == 0) _ _ tt (write_locked-IsWriteEnd v at bytes _ _),
  )

module _ {S : Type 0} (server : ForkServer S) (content : S → List ℕ) where
  write_loop_wraps :
      (v : ForkVolume) (fuel at b : ℕ) (bytes : List ℕ) (reply : ℕ) (s : S)
      → v.ext ≡ false
      → 2 ^ 32 ≤ at
      → (server.write (at % 2 ^ 32) (take v.tx_quantum (b ∷ bytes)) s).0 ≡ (no_err, reply)
      → write_loop server v (suc fuel) at (b ∷ bytes) 0 s
        ≡ write_failed eio 0 (server.write (at % 2 ^ 32) (take v.tx_quantum (b ∷ bytes)) s).1
  unfolding write_loop after_write write_error narrow
  write_loop_wraps v fuel at b bytes reply s he ha hr = rw (he, hr) (ground arith)

  -- Without locks `ll_write` is its loop.
  ll_write_failed :
      (v : ForkVolume) (at : ℕ) (bytes : List ℕ) (e : ForkError) (n : ℕ) (s t : S)
      → v.no_locking ≡ true
      → 0 < v.tx_quantum
      → write_loop server v (length bytes) at bytes 0 s ≡ write_failed e n t
      → ll_write server v at bytes s ≡ write_failed e n t
  unfolding ll_write ll_handle_locking write_locked unlock_write ll_handle_unlocking
  ll_write_failed v at bytes e n s t hl hq h = ground arith

  -- On a version below 3.0, at an offset of 2^32 or more, `ll_write` of one byte or more gives EIO with
  -- nothing written, but the fork afterwards is as it was with a front of the bytes put at the offset
  -- modulo 2^32, as many as the server's answer to the first write says. The server keeps what AFP
  -- promises and answers that write without an error, the volume has no locks, the quantum is not 0,
  -- and the offset modulo 2^32 is within the fork.
  pub ll_write_wraps :
      (law : IsLawful server content) (v : ForkVolume) (at b : ℕ) (bytes : List ℕ) (reply : ℕ)
      (s : S)
      → v.no_locking ≡ true
      → v.ext ≡ false
      → 0 < v.tx_quantum
      → 2 ^ 32 ≤ at
      → at % 2 ^ 32 ≤ length (content s)
      → (server.write (at % 2 ^ 32) (take v.tx_quantum (b ∷ bytes)) s).0 ≡ (no_err, reply)
      → (t : S) × ((ll_write server v at (b ∷ bytes) s ≡ write_failed eio 0 t)
          × (content t
              ≡ write_at
                  (at % 2 ^ 32)
                  (take (reply - at % 2 ^ 32) (take v.tx_quantum (b ∷ bytes)))
                  (content s)))
  ll_write_wraps law v at b bytes reply s hl he hq ha hc hr =
      (t, (ended, (law.write_stores (at % 2 ^ 32) chunk s reply hr hc).1.1))
    where
      chunk : List ℕ
      chunk = take v.tx_quantum (b ∷ bytes)

      t : S
      t = (server.write (at % 2 ^ 32) chunk s).1

      ended : ll_write server v at (b ∷ bytes) s ≡ write_failed eio 0 t
      ended =
          ll_write_failed v at (b ∷ bytes) eio 0 s t hl hq
            (write_loop_wraps v (length bytes) at b bytes reply s he ha hr)
