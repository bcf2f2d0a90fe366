-- ===== src/Ipc/Framing.antt =====
-- A response that the daemon sends is the one that the client receives, with its log
-- (daemon/daemon_client.c, daemon/stateless.c).
use netatalk_client.Base.{
  ℕ, zero, suc, ◌+◌, ◌-◌, ◌^◌, ◌≡◌, ◌<◌, ◌≤◌, refl, ap, sym, ◌∙◌, true, some, List, [], ◌∷◌, ◌++◌,
  arith, length, take, drop, ltb, ==_self, ==_ne, to_be32, be32_at, min, IsU32, length-append,
  length-drop, le→ltb_false, Bool-cases, inl, inr, take-append-drop, ltb_false→le, All,
}
use mathlib.Core.Path.{subst}
use mathlib.Core.List.{append_assoc, append-nil}
use netatalk_client.Ipc.{
  Record, PutResult, put, put_interrupted, put_failed, put_loop, framed, send_command, GetResult,
  got, get_interrupted, not_ready, get_failed, Response, response, judge_length, after_get,
  get_loop, content_length, dispatch_response_logs, dispatch_behind, dispatch_loop, log_buffer_size,
  response_room,
}
use netatalk_client.Ipc.Logs.{
  log_bytes, log_messages, log_messages-log_all, log_all_fit, dispatch_loop-log_bytes, AreRecords,
}
use netatalk_client.Ipc.Framed.{
  be32_at-append, length-framed, length_at, content_length-framed, sized_part, log_part, Fetches,
}

put_loop-sent :
    (sent left : List ℕ) (results : List PutResult)
    → (put_loop sent left results).0 ≡ true
    → (put_loop sent left results).1 ≡ sent ++ left
unfolding put_loop
put_loop-sent sent [] results h = sym (append-nil sent)
put_loop-sent sent (b ∷ left) [] h = cc
put_loop-sent sent (b ∷ left) (put zero ∷ results) h = cc
put_loop-sent sent (b ∷ left) (put (suc k) ∷ results) h =
    put_loop-sent (sent ++ take (suc k) (b ∷ left)) (drop (suc k) (b ∷ left)) results h
    ∙ append_assoc sent (take (suc k) (b ∷ left)) (drop (suc k) (b ∷ left))
    ∙ ap (λ t. sent ++ t) (take-append-drop (suc k) (b ∷ left))
put_loop-sent sent (b ∷ left) (put_interrupted ∷ results) h =
    put_loop-sent sent (b ∷ left) results h
put_loop-sent sent (b ∷ left) (put_failed ∷ results) h = cc

-- A stream with its length in bytes 4 to 7, in the bounds of the client.
pub record IsFrame (frame : List ℕ) : Type 0 where
  pub sized : be32_at frame 4 ≡ length frame
  pub low : 16 ≤ length frame
  pub high : length frame ≤ response_room

module _ (frame : List ℕ) (h : IsFrame frame) where
  after_get_whole : (more : Response) → after_get frame more ≡ response frame
  unfolding after_get judge_length
  after_get_whole more =
      rw
        (
          h.sized,
          le→ltb_false (length frame) 8 (omega (arith, h.low)),
          le→ltb_false (length frame) 16 h.low,
          le→ltb_false response_room (length frame) h.high,
          ==_self (length frame),
        )
        refl

  after_get_part :
      (received stream : List ℕ) (more : Response)
      → received ++ stream ≡ frame
      → 0 < length stream
      → after_get received more ≡ more
  unfolding after_get judge_length
  after_get_part received stream more e p = elim (Bool-cases (ltb (length received) 8)) [
    | inl few ↦ rw few refl
    | inr many ↦
        rw
          (
            many,
            sym (be32_at-append received stream (ltb_false→le _ _ many))
                ∙ ap (λ (t : List ℕ). be32_at t 4) e
                ∙ h.sized,
            le→ltb_false (length frame) 16 h.low,
            le→ltb_false response_room (length frame) h.high,
            ==_ne (length received) (length frame) (omega (arith, longer)),
            le→ltb_false (length frame) (length received) (omega (arith, longer)),
          )
          refl
  ]
    where
      longer : length frame ≡ length received + length stream
      longer = ap length (sym e) ∙ length-append received stream

  after_get-prefix :
      (received stream : List ℕ) (more : Response)
      → received ++ stream ≡ frame
      → (0 < length stream → more ≡ response frame)
      → after_get received more ≡ response frame
  after_get-prefix received [] more e rest =
      ap (λ (t : List ℕ). after_get t more) (sym (append-nil received) ∙ e) ∙ after_get_whole more
  after_get-prefix received (b ∷ stream) more e rest =
      after_get_part received (b ∷ stream) more e (omega arith) ∙ rest (omega arith)

  get_loop-frame :
      (received stream : List ℕ) (results : List GetResult)
      → received ++ stream ≡ frame
      → 0 < length stream
      → Fetches (length stream) results
      → get_loop received stream results ≡ response frame
  unfolding get_loop
  get_loop-frame received stream [] e p fetches = absurd (omega arith)
  get_loop-frame received stream (got k ∷ results) e p (positive, fetches) =
      let n = min (min k (response_room - length received)) (length stream) in
      rw (==_ne n 0 (omega (arith, longer, h.high))) (
        after_get-prefix (received ++ take n stream) (drop n stream) _
          (append_assoc received (take n stream) (drop n stream)
            ∙ ap (λ t. received ++ t) (take-append-drop n stream)
            ∙ e)
          (λ q.
            get_loop-frame (received ++ take n stream) (drop n stream) results
              (append_assoc received (take n stream) (drop n stream)
                ∙ ap (λ t. received ++ t) (take-append-drop n stream)
                ∙ e)
              q
              (subst (λ i. Fetches i results)
                (omega (arith, longer, h.high, q, length-drop n stream)) fetches)))
    where
      longer : length frame ≡ length received + length stream
      longer = ap length (sym e) ∙ length-append received stream
  get_loop-frame received stream (get_interrupted ∷ results) e p fetches =
      get_loop-frame received stream results e p fetches
  get_loop-frame received stream (not_ready ∷ results) e p fetches =
      get_loop-frame received stream results e p fetches
  get_loop-frame received stream (get_failed ∷ results) e p fetches = absurd fetches

module _ (bytes log : List ℕ) (header : 8 ≤ length bytes)
    (room : length bytes + 4104 ≤ response_room) (small : length log ≤ log_buffer_size) where
  send_command-framed :
      (puts : List PutResult)
      → (send_command true bytes log puts).0 ≡ true
      → (send_command true bytes log puts).1 ≡ framed bytes log
  send_command-framed puts sent =
      ap (λ r. r.1) loop
      ∙ put_loop-sent [] (framed bytes log) puts (sym (ap (λ r. r.0) loop) ∙ sent)
    where
      loop : send_command true bytes log puts ≡ put_loop [] (framed bytes log) puts
      loop =
          unfold send_command in
          rw
            (
              le→ltb_false (length bytes) 8 header,
              le→ltb_false log_buffer_size (length log) small,
              le→ltb_false (2 ^ 32 - 1 - length log - 8) (length bytes) (omega arith),
            )
            refl

  framed-IsFrame : IsFrame (framed bytes log)
  framed-IsFrame = record {
    sized = length_at bytes log header (omega arith) ∙ sym (length-framed bytes log header);
    low = omega (arith, length-framed bytes log header);
    high = omega (arith, length-framed bytes log header);
  }

  dispatch-framed :
      (records : List Record)
      → log ≡ log_bytes records
      → AreRecords records
      → dispatch_response_logs (framed bytes log) ≡ some records
  unfolding dispatch_response_logs dispatch_behind
  dispatch-framed records e h =
      ap (dispatch_behind (framed bytes log)) (content_length-framed bytes log header small)
      ∙ ap
          (λ (i : ℕ).
            dispatch_loop (length (framed bytes log))
              (take i (drop (length bytes) (framed bytes log))))
          same
      ∙ ap (dispatch_loop (length (framed bytes log))) (log_part bytes log header ∙ e)
      ∙ dispatch_loop-log_bytes (length (framed bytes log)) records
          (omega (arith, length-framed bytes log header, ap length e)) h
    where
      same : length (framed bytes log) - 8 - length bytes ≡ length log
      same = omega (arith, length-framed bytes log header)

-- A response that the daemon's `send_command` has written whole is the one that the client receives,
-- however the stream is cut into writes and reads that make progress: with its length put into the
-- header, with the length of the content that the daemon gave, and with a record of each message that
-- was logged since the log was last empty, whole and in their order. The records of these messages take
-- less than the 4096 bytes of the log, the daemon has memory for the response, the content has a header
-- and leaves room for a full log in the client's buffer, and the levels have 32 bits.
pub dispatch-send_command :
    (bytes : List ℕ) (messages : List Record) (puts : List PutResult) (gets : List GetResult)
    → 8 ≤ length bytes
    → length bytes + 4104 ≤ response_room
    → All (λ (r : Record). IsU32 r.0) messages
    → length (log_bytes messages) < 4096
    → (send_command true bytes (log_messages messages []) puts).0 ≡ true
    → Fetches (length bytes + length (log_messages messages []) + 8) gets
    → let log = log_messages messages [] in
      let sent = (send_command true bytes log puts).1 in
      (get_loop [] sent gets ≡ response sent)
      × (content_length sent ≡ some (length bytes))
      × (take (length bytes) sent
          ≡ take 4 bytes ++ (to_be32 (length bytes + length log + 8) ++ drop 8 bytes))
      × (dispatch_response_logs sent ≡ some messages)
dispatch-send_command bytes messages puts gets header room levels fit sent_all fetches =
    let log = log_messages messages [] in
    let e = log_messages-log_all messages [] ∙ ap log_bytes (log_all_fit messages [] fit) in
    let kept : AreRecords messages = (levels, omega (arith, fit)) in
    let small : length log ≤ log_buffer_size = omega (arith, ap length e, kept.1) in
    rw (send_command-framed bytes log header room small puts sent_all) (
      get_loop-frame (framed bytes log) (framed-IsFrame bytes log header room small) []
          (framed bytes log) gets refl (omega (arith, length-framed bytes log header))
          (subst (λ i. Fetches i gets) (sym (length-framed bytes log header)) fetches),
      content_length-framed bytes log header small,
      sized_part bytes log header,
      dispatch-framed bytes log header room small messages e kept,
    )
