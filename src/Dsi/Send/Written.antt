-- ===== src/Dsi/Send/Written.antt =====
-- The loop of `write` calls of `afpc_dsi_send_with_reply`.
use netatalk_client.Base.{
  take-append-drop, ◌∙◌, sym, ap, ℕ, ◌-◌, ◌<◌, ◌≡◌, refl, arith, List, [], ◌∷◌, ◌++◌, length, take,
  drop, length-drop,
}
use mathlib.Core.List.{append-nil, append_assoc}
use netatalk_client.Dsi.Send.{
  WriteResult, wrote, interrupted, broken, failed, WriteEnd, complete, peer_closed, write_error,
  write_loop,
}

-- Results that bring the loop on: every `write` takes a byte at least, and there are enough of them.
abbrev pub Progress : ℕ → List WriteResult → Type 0
Progress n [] = n ≡ 0
Progress n (wrote k ∷ results) = (0 < k) × Progress (n - k) results
Progress n (interrupted ∷ results) = Progress n results
Progress n (broken ∷ results) = ⊥
Progress n (failed ∷ results) = ⊥

joined :
    (sent : List ℕ) (k : ℕ) (left : List ℕ) → (sent ++ take k left) ++ drop k left ≡ sent ++ left
joined sent k left = append_assoc sent (take k left) (drop k left) ∙ rw (take-append-drop k left)

write_loop_sends :
    (sent left : List ℕ) (results : List WriteResult)
    → Progress (length left) results
    → write_loop sent left results ≡ complete (sent ++ left)
unfolding write_loop
write_loop_sends sent [] results h = ap complete (sym (append-nil sent))
write_loop_sends sent (b ∷ left) [] h = absurd (omega (arith, h))
write_loop_sends sent (b ∷ left) (wrote k ∷ results) (positive, h) =
    write_loop_sends (sent ++ take k (b ∷ left)) (drop k (b ∷ left)) results
      (rw (length-drop k (b ∷ left)) h)
    ∙ ap complete (joined sent k (b ∷ left))
write_loop_sends sent (b ∷ left) (interrupted ∷ results) h =
    write_loop_sends sent (b ∷ left) results h
write_loop_sends sent (b ∷ left) (broken ∷ results) h = absurd h
write_loop_sends sent (b ∷ left) (failed ∷ results) h = absurd h

abbrev pub sent_by : WriteEnd → List ℕ
sent_by (complete sent) = sent
sent_by (peer_closed sent) = sent
sent_by (write_error sent) = sent
sent_by (WriteEnd.blocked sent) = sent

write_loop_front :
    (sent left : List ℕ) (results : List WriteResult)
    → (unsent : List ℕ) × (sent_by (write_loop sent left results) ++ unsent ≡ sent ++ left)
unfolding write_loop
write_loop_front sent [] results = ([], ap (λ l. l ++ []) refl)
write_loop_front sent (b ∷ left) [] = (b ∷ left, refl)
write_loop_front sent (b ∷ left) (wrote k ∷ results) =
    let (unsent, e) = write_loop_front (sent ++ take k (b ∷ left)) (drop k (b ∷ left)) results in
    (unsent, e ∙ joined sent k (b ∷ left))
write_loop_front sent (b ∷ left) (interrupted ∷ results) = write_loop_front sent (b ∷ left) results
write_loop_front sent (b ∷ left) (broken ∷ results) = (b ∷ left, refl)
write_loop_front sent (b ∷ left) (failed ∷ results) = (b ∷ left, refl)

write_loop_complete :
    (sent left bytes : List ℕ) (results : List WriteResult)
    → write_loop sent left results ≡ complete bytes
    → bytes ≡ sent ++ left
unfolding write_loop
write_loop_complete sent [] bytes results e = ground (arith, e, append-nil sent)
write_loop_complete sent (b ∷ left) bytes [] e = cc
write_loop_complete sent (b ∷ left) bytes (wrote k ∷ results) e =
    write_loop_complete (sent ++ take k (b ∷ left)) (drop k (b ∷ left)) bytes results e
    ∙ joined sent k (b ∷ left)
write_loop_complete sent (b ∷ left) bytes (interrupted ∷ results) e =
    write_loop_complete sent (b ∷ left) bytes results e
write_loop_complete sent (b ∷ left) bytes (broken ∷ results) e = cc
write_loop_complete sent (b ∷ left) bytes (failed ∷ results) e = cc

-- The loop of writes, whatever `write` answers: what went out when it stops is the front of the
-- message, and all of it where it ends as complete. It does end so where every call is interrupted
-- or takes a byte or more, until nothing is left.
pub write_loop_exact :
    (message : List ℕ) (results : List WriteResult)
    → ((unsent : List ℕ) × (sent_by (write_loop [] message results) ++ unsent ≡ message))
      × (((bytes : List ℕ) → write_loop [] message results ≡ complete bytes → bytes ≡ message)
          × (Progress (length message) results → write_loop [] message results ≡ complete message))
write_loop_exact message results = (
  write_loop_front [] message results,
  (λ bytes e. write_loop_complete [] message bytes results e, write_loop_sends [] message results),
)
