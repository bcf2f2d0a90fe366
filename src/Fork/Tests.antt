-- ===== src/Fork/Tests.antt =====
-- A server that holds a fork as a list of bytes, and runs of `ll_read` and `ll_write` with it.
use netatalk_client.Base.{
  take_same, ℕ, ◌+◌, ◌-◌, ◌≤◌, min, ◌≡◌, refl, ap, sym, Bool, true, false, List, [], ◌∷◌, length,
  take, drop, write_at, arith, if◌then◌else◌, ltb, pos, length-take, length-drop, inr,
}
use netatalk_client.Fork.{
  write_error, retried, narrow, ok_result, ll_handle_unlocking, lock_tries, ll_handle_locking,
  unlock_write, after_write, write_loop, write_locked, AfpResult, no_err, eof_err, ForkServer,
  ForkVolume, stored, write_failed, eio, ll_read, ll_write, read_error, is_eof,
}
use netatalk_client.Fork.Serve.{IsLawful}
use netatalk_client.Fork.Write.{IsWritten, ll_write-IsWritten}
use netatalk_client.Fork.Limits.{ll_write_wraps, ll_read-ll_write_end, IsReadEnd, IsWriteEnd}

-- It takes at most two bytes of a write, and meets the end of the file where fewer bytes are left.
abbrev two_at_once : ForkServer (List ℕ)
two_at_once = record {
  lock = λ at n s. (no_err, s);
  unlock = λ at n s. (no_err, s);
  read = λ at n s. ((if ltb (length s) (at + n) then eof_err else no_err, take n (drop at s)), s);
  write = λ at chunk s. ((no_err, at + length (take 2 chunk)), write_at at (take 2 chunk) s);
  flush = λ s. s;
}

abbrev volume : Bool → Bool → ForkVolume
volume no_locking ext = record {
  no_locking = no_locking;
  ext = ext;
  rx_quantum = 4;
  tx_quantum = 3;
}

two_at_once_read :
    (at n : ℕ) (s : List ℕ) (r : AfpResult) (bytes : List ℕ)
    → (two_at_once.read at n s).0 ≡ (r, bytes)
    → ((if ltb (length s) (at + n) then eof_err else no_err) ≡ r) × (take n (drop at s) ≡ bytes)
two_at_once_read at n s r bytes h =
    (ap (λ (x : AfpResult × List ℕ). x.0) h, ap (λ (x : AfpResult × List ℕ). x.1) h)

bytes_taken :
    (at n : ℕ) (s bytes : List ℕ)
    → take n (drop at s) ≡ bytes
    → (bytes ≡ take (length bytes) (drop at s)) × ((length bytes ≡ min n (length s - at)))
bytes_taken at n s bytes h = rw (sym h) (
  take_same n (length (take n (drop at s))) (drop at s) (omega (arith, length-take n (drop at s))),
  omega (arith, length-take n (drop at s), length-drop at s),
)

stores :
    (at : ℕ) (chunk s : List ℕ) (reply : ℕ)
    → at + length (take 2 chunk) ≡ reply
    → (at ≤ reply)
      × ((reply ≤ at + length chunk)
          × (write_at at (take 2 chunk) s ≡ write_at at (take (reply - at) chunk) s))
stores at chunk s reply h = (
  omega arith,
  (
    omega (arith, length-take 2 chunk),
    ap (λ (xs : List ℕ). write_at at xs s)
        (take_same 2 (reply - at) chunk (omega (arith, length-take 2 chunk))),
  ),
)

two_at_once-IsLawful : IsLawful two_at_once (λ s. s)
unfolding is_eof read_error
two_at_once-IsLawful = record {
  lock_keeps = λ at n s. refl;
  unlock_keeps = λ at n s. refl;
  flush_keeps = λ s. refl;
  read_keeps = λ at n s. refl;
  read_slice = λ at n s r bytes h. (
    (bytes_taken at n s bytes (two_at_once_read at n s r bytes h).1).0,
    omega (arith, (bytes_taken at n s bytes (two_at_once_read at n s r bytes h).1).1),
  );
  read_eof = λ at n s r bytes h e.
      ground (arith, two_at_once_read at n s r bytes h, bytes_taken at n s bytes);
  write_stores =
      λ at chunk s reply h hc. stores at chunk s reply (ap (λ (x : AfpResult × ℕ). x.1) h);
}

abbrev old_bytes : List ℕ
old_bytes = 1 ∷ 2 ∷ 3 ∷ 4 ∷ []

abbrev new_bytes : List ℕ
new_bytes = 11 ∷ 12 ∷ 13 ∷ 14 ∷ 15 ∷ []

overwritten :
    ll_write two_at_once (volume false true) 2 new_bytes old_bytes ≡ stored 5 (1 ∷ 2 ∷ new_bytes)
unfolding ll_write write_locked write_loop after_write unlock_write ll_handle_locking lock_tries
    ll_handle_unlocking narrow write_error ok_result retried
overwritten = refl

ll_write-IsWritten_example :
    IsWritten two_at_once
      (λ s. s)
      old_bytes
      2
      new_bytes
      0
      (ll_write two_at_once (volume false false) 2 new_bytes old_bytes)
ll_write-IsWritten_example =
    ll_write-IsWritten two_at_once (λ s. s) two_at_once-IsLawful (volume false false) 2 new_bytes
      old_bytes (inr (omega arith)) (omega arith)

ll_read-ll_write_end_example :
    IsReadEnd two_at_once (ll_read two_at_once (volume false true) 9 (pos 1) old_bytes)
    × IsWriteEnd two_at_once (ll_write two_at_once (volume false true) 2 new_bytes old_bytes)
ll_read-ll_write_end_example =
    ll_read-ll_write_end two_at_once (volume false true) 9 (pos 1) 2 new_bytes old_bytes

ll_write_wraps_example :
    (t : List ℕ) × ((ll_write two_at_once
          (volume true false)
          4294967297
          (11 ∷ 12 ∷ 13 ∷ [])
          old_bytes
        ≡ write_failed eio 0 t)
      × (t ≡ write_at 1 (11 ∷ 12 ∷ []) old_bytes))
ll_write_wraps_example =
    ll_write_wraps two_at_once (λ s. s) two_at_once-IsLawful (volume true false) 4294967297 11
      (12 ∷ 13 ∷ []) 3 old_bytes refl refl (omega arith) (omega arith) (omega arith) refl
