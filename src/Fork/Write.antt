-- ===== src/Fork/Write.antt =====
-- `ll_write` (lib/lowlevel.c) against the content of the fork.
use mathlib.Core.Path.{subst}
use native.Mathlib.Nat.{add-zero}
use netatalk_client.Base.{
  if-both, take-append-drop, ℕ, zero, suc, ◌+◌, ◌-◌, ◌≤◌, ◌<◌, ◌^◌, ◌≡◌, refl, ap, sym, ◌∙◌, Bool,
  true, false, Option, none, List, [], ◌∷◌, length, take, drop, write_at, arith, ◌⊎◌, inl, inr,
  ◌==◌, ◌||◌, ltb, take-take, length-take, length-drop, write_at-write_at, length-write_at,
  if-split, some,
}
use netatalk_client.Fork.{
  ll_handle_unlocking, ll_handle_locking, no_err, AfpResult, ForkError, ForkServer, ForkVolume,
  WriteOutcome, stored, write_failed, write_spent, after_write, write_loop, unlock_write,
  write_locked, ll_write, write_error, narrow,
}
use netatalk_client.Fork.Serve.{IsLawful, ll_handle_locking_keeps, ll_handle_unlocking_keeps}

-- The version of the protocol has offsets as large as `n`.
abbrev pub HasOffset : ForkVolume → ℕ → Type 0
HasOffset v n = (v.ext ≡ true) ⊎ (n < 2 ^ 32)

module _ {S : Type 0} (server : ForkServer S) (content : S → List ℕ) where
  -- What a write of `bytes` at `at` is, of a fork with the content `c`, where `total` bytes went before.
  abbrev pub IsWritten : List ℕ → ℕ → List ℕ → ℕ → WriteOutcome S → Type 0
  IsWritten c at bytes total (stored n t) =
      (n ≡ total + length bytes) × (content t ≡ write_at at bytes c)
  IsWritten c at bytes total (write_failed e n t) = n ≤ total + length bytes
  IsWritten c at bytes total (write_spent t) = ⊥

  rest-IsWritten :
      (c c' : List ℕ) (at total k : ℕ) (left : List ℕ) (w : WriteOutcome S)
      → at ≤ length c
      → k ≤ length left
      → c' ≡ write_at at (take k left) c
      → IsWritten c' (at + k) (drop k left) (total + k) w
      → IsWritten c at left total w
  rest-IsWritten c c' at total k left (stored n u) h hk e (hn, hc) = (
    omega (arith, length-drop k left),
    hc ∙ ap (write_at (at + k) (drop k left)) e ∙ write_at-write_at at k left c h hk,
  )
  rest-IsWritten c c' at total k left (write_failed x n u) h hk e hn =
      omega (arith, length-drop k left)
  rest-IsWritten c c' at total k left (write_spent u) h hk e hn = hn

  after_write-IsWritten :
      (c : List ℕ) (more : ℕ → ℕ → S → WriteOutcome S) (at q total : ℕ) (left : List ℕ)
      (o : Option ForkError) (reply : ℕ) (t : S)
      → ((k : ℕ) (total' : ℕ)
          → 0 < k
          → k ≤ length left
          → content t ≡ write_at at (take k left) c
          → IsWritten (content t) (at + k) (drop k left) total' (more k total' t))
      → at ≤ length c
      → (o ≡ none → content t ≡ write_at at (take (reply - at) (take q left)) c)
      → IsWritten c at left total
          (after_write server more at (length (take q left)) total o reply t)
  unfolding after_write
  after_write-IsWritten c more at q total left (some x) reply t ih h law = omega arith
  after_write-IsWritten c more at q total left none reply t ih h law =
      if-split (IsWritten c at left total) (ltb reply at) _ _ (λ b. omega arith)
        (λ b.
          if-split (IsWritten c at left total)
            (reply - at == 0 || ltb (length (take q left)) (reply - at)) _ _ (λ d. omega arith)
            (λ d.
              rest-IsWritten c (content t) at total k left _ h (omega (arith, bounds d)) (kept d)
                (ih k (total + k) (omega (arith, bounds d)) (omega (arith, bounds d)) (kept d))))
    where
      k : ℕ
      k = reply - at

      bounds :
          (k == 0 || ltb (length (take q left)) k) ≡ false → (0 < k) × ((k ≤ q) × (k ≤ length left))
      bounds d =
          (ground arith, (ground (arith, length-take q left), ground (arith, length-take q left)))

      kept :
          (k == 0 || ltb (length (take q left)) k) ≡ false → content t ≡ write_at at (take k left) c
      kept d =
          law refl
          ∙ ap (λ (xs : List ℕ). write_at at xs c)
              (take-take k q left ∙ ap (λ (n : ℕ). take n left) (omega (arith, bounds d)))

  narrow_self : (v : ForkVolume) (m n : ℕ) → HasOffset v n → m ≤ n → narrow v m ≡ m
  unfolding narrow
  narrow_self v m n (inl h) hm = rw h refl
  narrow_self v m n (inr h) hm = ground arith

  same_offset : (v : ForkVolume) (m n : ℕ) → m ≡ n → HasOffset v m → HasOffset v n
  same_offset v m n e h = rw (sym e) h

  no_write_error : (r : AfpResult) → write_error r ≡ none → r ≡ no_err
  unfolding write_error
  no_write_error r h = ground arith

  nothing_written : (at : ℕ) (c : List ℕ) → write_at at [] c ≡ c
  nothing_written at c = rw (add-zero at, take-append-drop at c)

  write_loop-IsWritten :
      (law : IsLawful server content) (v : ForkVolume) (fuel at : ℕ) (left : List ℕ) (total : ℕ)
      (s : S)
      → HasOffset v (at + length left)
      → length left ≤ fuel
      → at ≤ length (content s)
      → IsWritten (content s) at left total (write_loop server v fuel at left total s)
  unfolding write_loop
  write_loop-IsWritten law v zero at [] total s fit hf h =
      (sym (add-zero total), sym (nothing_written at (content s)))
  write_loop-IsWritten law v (suc fuel) at [] total s fit hf h =
      (sym (add-zero total), sym (nothing_written at (content s)))
  write_loop-IsWritten law v zero at (b ∷ left) total s fit hf h = absurd (omega arith)
  write_loop-IsWritten law v (suc fuel) at (b ∷ left) total s fit hf h =
      after_write-IsWritten (content s)
        (λ k total' u. write_loop server v fuel (at + k) (drop k (b ∷ left)) total' u) at
        v.tx_quantum total (b ∷ left) (write_error answer.0.0) (narrow v answer.0.1) answer.1
        (λ k total' hk hl e.
          write_loop-IsWritten law v fuel (at + k) (drop k (b ∷ left)) total' answer.1
            (same_offset v (at + length (b ∷ left)) _ (omega (arith, length-drop k (b ∷ left))) fit)
            (omega (arith, length-drop k (b ∷ left)))
            (omega (
              arith,
              ap (λ (xs : List ℕ). length xs) e,
              length-write_at at (take k (b ∷ left)) (content s) h,
              length-take k (b ∷ left),
            )))
        h answered
    where
      chunk : List ℕ
      chunk = take v.tx_quantum (b ∷ left)

      answer : (AfpResult × ℕ) × S
      answer = server.write (narrow v at) chunk s

      here : narrow v at ≡ at
      here = narrow_self v at (at + length (b ∷ left)) fit (omega arith)

      answered :
          write_error answer.0.0 ≡ none
          → content answer.1 ≡ write_at at (take (narrow v answer.0.1 - at) chunk) (content s)
      answered e =
          written.1.1
          ∙ ap (λ (i : ℕ). write_at i (take (answer.0.1 - i) chunk) (content s)) here
          ∙ ap (λ (m : ℕ). write_at at (take (m - at) chunk) (content s))
              (sym (
                narrow_self v answer.0.1 (at + length (b ∷ left)) fit
                  (omega (arith, written.1.0, here, length-take v.tx_quantum (b ∷ left)))))
        where
          written :
              (narrow v at ≤ answer.0.1)
              × ((answer.0.1 ≤ narrow v at + length chunk)
                  × (content answer.1
                      ≡ write_at (narrow v at) (take (answer.0.1 - narrow v at) chunk) (content s)))
          written =
              law.write_stores (narrow v at) chunk s answer.0.1
                (ap (λ (r : AfpResult). (r, answer.0.1)) (no_write_error answer.0.0 e))
                (omega (arith, here, h))

  unlock_write-IsWritten :
      (law : IsLawful server content) (v : ForkVolume) (at n : ℕ) (c bytes : List ℕ)
      (w : WriteOutcome S)
      → IsWritten c at bytes 0 w
      → IsWritten c at bytes 0 (unlock_write server v at n w)
  unfolding unlock_write
  unlock_write-IsWritten law v at n c bytes (stored k s) (hk, hc) =
      if-both (IsWritten c at bytes 0) (ll_handle_unlocking server v at n s).0 _ _
        (hk, ll_handle_unlocking_keeps server content law v at n s ∙ hc) (omega (arith, hk))
  unlock_write-IsWritten law v at n c bytes (write_failed e k s) h = h
  unlock_write-IsWritten law v at n c bytes (write_spent s) h = h

  write_locked-IsWritten :
      (law : IsLawful server content) (v : ForkVolume) (at : ℕ) (bytes : List ℕ) (locked : Bool)
      (s : S)
      → HasOffset v (at + length bytes)
      → at ≤ length (content s)
      → IsWritten (content s) at bytes 0 (write_locked server v at bytes (locked, s))
  unfolding write_locked
  write_locked-IsWritten law v at bytes false s fit h = omega arith
  write_locked-IsWritten law v at bytes true s fit h =
      unlock_write-IsWritten law v at (length bytes) (content s) bytes _
        (write_loop-IsWritten law v (length bytes) at bytes 0 s fit (omega arith) h)

  -- With a server that keeps what AFP promises, `ll_write` at an offset within the fork ends, if the
  -- version has offsets as large as where the bytes end. If it gives 0 it has written every byte, and
  -- the fork is what it was with the bytes put over it from the offset on. Otherwise `totalwritten`
  -- is at most the number of bytes.
  pub ll_write-IsWritten :
      (law : IsLawful server content) (v : ForkVolume) (at : ℕ) (bytes : List ℕ) (s : S)
      → HasOffset v (at + length bytes)
      → at ≤ length (content s)
      → IsWritten (content s) at bytes 0 (ll_write server v at bytes s)
  unfolding ll_write
  ll_write-IsWritten law v at bytes s fit h =
      if-both (IsWritten (content s) at bytes 0) (v.tx_quantum == 0) _ _ (omega arith) (
        subst (λ c. IsWritten c at bytes 0 (write_locked server v at bytes locked)) kept
          (write_locked-IsWritten law v at bytes locked.0 locked.1 fit
            (omega (arith, h, ap (λ (c : List ℕ). length c) kept))))
    where
      locked : Bool × S
      locked = ll_handle_locking server v at (length bytes) s

      kept : content locked.1 ≡ content s
      kept = ll_handle_locking_keeps server content law v at (length bytes) s
