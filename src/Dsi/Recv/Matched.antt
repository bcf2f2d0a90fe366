-- ===== src/Dsi/Recv/Matched.antt =====
-- A call of the receiver whose read completes a packet, by the request that the packet answers.
use netatalk_client.Base.{
  ℤ, ℕ, ◌≤◌, ◌≡◌, sym, ◌∙◌, arith, inl, inr, ltb, true, false, none, some, List, Bool-cases, int32,
}
use netatalk_client.Server.{Server, Request}
use netatalk_client.Dsi.Header.{requestid_of, error_of}
use netatalk_client.Dsi.Queue.{find_request}
use netatalk_client.Dsi.Recv.{
  recv, got_enough, matched, match_request, dispatch, process_reply, count_runt, set_return_code,
  unmatched, answers, Match,
}
use netatalk_client.Dsi.Recv.Buffer.{
  RecvEnv, Outcome, store_read, count_received, change_request, is_read,
}
use netatalk_client.Dsi.Recv.Complete.{
  IsWhole, IsReply, Completes, SameHeader, store_read-SameHeader, recv_bare, whole_packet_filled,
  whole_packet_lem, process_packet_reply,
}

pub match_request_same :
    (s : Server) (r : Request)
    → find_request (requestid_of s.incoming.buffer) s.command_requests ≡ some r
    → r.connection_generation ≡ s.connection_generation
    → match_request s
      ≡ answers
          (set_return_code (int32 (error_of s.incoming.buffer)) r)
          (change_request r.address (set_return_code (int32 (error_of s.incoming.buffer))) s)
unfolding match_request matched
match_request_same s r found same = rw found (ground (arith, same))

module _ (env : RecvEnv) (s : Server) (bytes : List ℕ) (c : Completes env s bytes)
    (k : IsReply (store_read bytes s).incoming.buffer) where
  -- What the matching came to is the same before the last bytes of a payload as behind them.
  recv_matched :
      (m : Server → Match)
      → match_request (store_read bytes s) ≡ m (store_read bytes s)
      → (16 ≤ s.incoming.data_read → match_request s ≡ m s)
      → (handled : Server → Outcome)
      → ((h : IsWhole (store_read bytes s).incoming)
          → dispatch env (m (store_read bytes s)) ≡ handled (store_read bytes s))
      → (ltb s.incoming.data_read 16 ≡ false → dispatch env (m s) ≡ handled (store_read bytes s))
      → recv env s ≡ handled (store_read bytes s)
  unfolding got_enough recv
  recv_matched m after before handled bare filled =
      elim (Bool-cases (ltb s.incoming.data_read 16)) [
        | inl h ↦ recv_bare env s bytes c h ∙ rw after (bare c.whole)
        | inr h ↦ rw (h, before (ground (arith, h))) (filled h)
      ]

  pub same_header :
      16 ≤ s.incoming.data_read → SameHeader (store_read bytes s).incoming.buffer s.incoming.buffer
  same_header = store_read-SameHeader bytes s c.bounded

  -- A reply to a request, to be handled with the packet whole.
  pub recv_found :
      (r : Request)
      → find_request (requestid_of (store_read bytes s).incoming.buffer) s.command_requests ≡ some r
      → r.connection_generation ≡ s.connection_generation
      → is_read r ≡ false
      → let rc : ℤ = int32 (error_of (store_read bytes s).incoming.buffer) in
        recv env s
        ≡ process_reply env
            (some (set_return_code rc r))
            false
            (change_request r.address (set_return_code rc) (store_read bytes s))
  unfolding dispatch is_read change_request set_return_code store_read count_received
  recv_found r found same no_read =
      recv_matched
        (λ u. answers (set_return_code rc r) (change_request r.address (set_return_code rc) u))
        (match_request_same (store_read bytes s) r found same)
        (λ h.
          rw (same_header h).error_code
            (match_request_same s r (rw (sym (same_header h).requestid) found) same))
        (λ u.
          process_reply env (some (set_return_code rc r)) false
            (change_request r.address (set_return_code rc) u))
        (λ w. rw no_read (
          whole_packet_lem env (some (set_return_code rc r)) false _ w
          ∙ process_packet_reply env (some (set_return_code rc r)) false _ k))
        (λ h. rw no_read (
          whole_packet_filled env (change_request r.address (set_return_code rc) s) bytes
            (record { bounded = c.bounded; came = c.came; no_more = c.no_more; whole = c.whole }) h
            (some (set_return_code rc r)) false k))
    where
      rc : ℤ
      rc = int32 (error_of (store_read bytes s).incoming.buffer)

  -- A reply that is dropped.
  pub recv_dropped :
      match_request (store_read bytes s) ≡ unmatched true (count_runt (store_read bytes s))
      → (16 ≤ s.incoming.data_read → match_request s ≡ unmatched true (count_runt s))
      → recv env s ≡ process_reply env none true (count_runt (store_read bytes s))
  unfolding dispatch count_runt store_read count_received
  recv_dropped after before =
      recv_matched (λ u. unmatched true (count_runt u)) after before
        (λ u. process_reply env none true (count_runt u))
        (λ w. whole_packet_lem env none true _ w ∙ process_packet_reply env none true _ k)
        (λ h.
          whole_packet_filled env (count_runt s) bytes
            (record { bounded = c.bounded; came = c.came; no_more = c.no_more; whole = c.whole }) h
            none true k)

  -- A packet for which there is no request, though none was expected either.
  pub recv_unknown :
      match_request (store_read bytes s) ≡ unmatched false (store_read bytes s)
      → (16 ≤ s.incoming.data_read → match_request s ≡ unmatched false s)
      → recv env s ≡ process_reply env none false (store_read bytes s)
  unfolding dispatch
  recv_unknown after before =
      recv_matched (λ u. unmatched false u) after before (λ u. process_reply env none false u)
        (λ w. whole_packet_lem env none false _ w ∙ process_packet_reply env none false _ k)
        (λ h. whole_packet_filled env s bytes c h none false k)
