-- ===== src/Dsi/Recv/Answer.antt =====
-- The reply to a request that its sender waits for.
use netatalk_client.Base.{
  ℕ, ◌≡◌, ◌≢◌, refl, ◌∙◌, arith, ℤ, pos, negsuc, zero, suc, ap, int32, is_zero, true, false, some,
  List, if◌then◌else◌,
}
use netatalk_client.Server.{Server, Request}
use netatalk_client.Dsi.Header.{requestid_of, error_of}
use netatalk_client.Dsi.Queue.{find_request, request_at, update_request}
use netatalk_client.Dsi.Queue.Pending.{Distinct}
use netatalk_client.Dsi.Queue.Lookup.{
  Keeps, request_at-update_request, request_at-update_request_other, find_request-request_at,
}
use netatalk_client.Dsi.Recv.{
  count_received, store_read, recv, process_reply, record_result, reply_result, note_result,
  set_return_code,
}
use netatalk_client.Dsi.Recv.Buffer.{
  store_read, count_received, RecvEnv, signal_done, change_request, out, set_data_read, is_read,
  again,
}
use netatalk_client.Dsi.Recv.Complete.{IsWhole, IsReply, Completes, after_processing_whole}
use netatalk_client.Dsi.Recv.Matched.{recv_found}

-- A request after its reply: the server's error code, or else what the handler returned.
abbrev pub woken : ℤ → ℤ → Request → Request
woken error rc r = record r {
  return_code = if is_zero error then rc else error;
  wait = pos 0;
  done_waiting = true;
}

-- The three writes through the request's pointer.
abbrev written : ℤ → ℤ → ℕ → List Request → List Request
written error rc a ps =
    update_request a signal_done
      (update_request a (note_result rc) (update_request a (set_return_code error) ps))

pub note_result-Keeps : (rc : ℤ) → Keeps (note_result rc)
unfolding note_result
note_result-Keeps rc p = ground arith

pub signal_done-Keeps : Keeps signal_done
unfolding signal_done
signal_done-Keeps p = refl

pub set_return_code-Keeps : (error : ℤ) → Keeps (set_return_code error)
unfolding set_return_code
set_return_code-Keeps error p = refl

woken_lem :
    (error rc : ℤ) (r : Request)
    → signal_done (note_result rc (set_return_code error r)) ≡ woken error rc r
unfolding signal_done note_result set_return_code
woken_lem error (pos zero) r = ground arith
woken_lem error (pos (suc n)) r = ground arith
woken_lem error (negsuc n) r = ground arith

written_request :
    (error rc : ℤ) (ps : List Request) (r : Request)
    → request_at r.address ps ≡ some r
    → request_at r.address (written error rc r.address ps) ≡ some (woken error rc r)
written_request error rc ps r h =
    request_at-update_request r.address signal_done _ _ signal_done-Keeps (
      request_at-update_request r.address (note_result rc) _ _ (note_result-Keeps rc) (
        request_at-update_request r.address (set_return_code error) ps r
          (set_return_code-Keeps error) h))
    ∙ ap some (woken_lem error rc r)

written_other :
    (error rc : ℤ) (a b : ℕ) (ps : List Request)
    → a ≢ b
    → request_at b (written error rc a ps) ≡ request_at b ps
written_other error rc a b ps ne =
    request_at-update_request_other a b signal_done _ signal_done-Keeps ne
    ∙ (request_at-update_request_other a b (note_result rc) _ (note_result-Keeps rc) ne
        ∙ request_at-update_request_other a b (set_return_code error) ps
            (set_return_code-Keeps error) ne)

-- What is left of the server when the receiver has handled the reply.
abbrev afterwards : ℤ → ℤ → ℕ → Server → Server
afterwards error rc a s =
    set_data_read 0 (record s { command_requests = written error rc a s.command_requests })

pub reply_result_handler :
    (env : RecvEnv) (r : Request) (s : Server) (h : ℕ)
    → r.reply_handler ≡ some h
    → reply_result env r s ≡ some (env.handle h s.incoming.buffer, s)
unfolding reply_result
reply_result_handler env r s h handler = ground (arith, handler)

out_waiting :
    (r : Request) (s : Server)
    → is_zero r.wait ≡ false
    → out (some r) s ≡ again (change_request r.address signal_done s)
unfolding out
out_waiting r s waits = ground (arith, waits)

process_reply_handler :
    (env : RecvEnv) (r : Request) (s : Server) (h : ℕ)
    → IsWhole s.incoming
    → r.reply_handler ≡ some h
    → is_zero r.wait ≡ false
    → process_reply env (some r) false s
      ≡ again (
          change_request r.address signal_done (
            set_data_read 0
              (change_request r.address (note_result (env.handle h s.incoming.buffer)) s)))
unfolding process_reply record_result change_request
process_reply_handler env r s h w handler waits =
    ap (record_result r) (reply_result_handler env r s h handler)
    ∙ (after_processing_whole (some r)
          (change_request r.address (note_result (env.handle h s.incoming.buffer)) s) w
        ∙ out_waiting r _ waits)

answer_handled :
    (env : RecvEnv) (s : Server) (bytes : List ℕ) (r : Request) (h : ℕ)
    → Completes env s bytes
    → IsReply (store_read bytes s).incoming.buffer
    → find_request (requestid_of (store_read bytes s).incoming.buffer) s.command_requests ≡ some r
    → r.connection_generation ≡ s.connection_generation
    → is_read r ≡ false
    → r.reply_handler ≡ some h
    → is_zero r.wait ≡ false
    → recv env s
      ≡ again (
          afterwards
            (int32 (error_of (store_read bytes s).incoming.buffer))
            (env.handle h (store_read bytes s).incoming.buffer)
            r.address
            (store_read bytes s))
unfolding change_request set_return_code set_data_read
answer_handled env s bytes r h c k found same no_read handler waits =
    recv_found env s bytes c k r found same no_read
    ∙ process_reply_handler env r' s' h c.whole handler waits
  where
    error : ℤ
    error = int32 (error_of (store_read bytes s).incoming.buffer)

    r' : Request
    r' = set_return_code error r

    s' : Server
    s' = change_request r.address (set_return_code error) (store_read bytes s)

-- The call of the receiver whose read completes a DSICommand or DSIWrite packet that answers a request
-- of this connection which is no read, gave a handler and is waited for. The receive buffer is in
-- bounds, the read gives no more than it is asked for, and no two requests share an address. Then the
-- receiver returns 0, the buffer is free for the next packet, the request's sender is woken with the
-- server's error code, or with what the handler returned for the whole packet where that code is 0,
-- and no other request changes.
pub recv_answered :
    (env : RecvEnv) (s : Server) (bytes : List ℕ) (r : Request) (h : ℕ)
    → Completes env s bytes
    → IsReply (store_read bytes s).incoming.buffer
    → Distinct s.command_requests
    → find_request (requestid_of (store_read bytes s).incoming.buffer) s.command_requests ≡ some r
    → r.connection_generation ≡ s.connection_generation
    → is_read r ≡ false
    → r.reply_handler ≡ some h
    → is_zero r.wait ≡ false
    → (t : Server) × (recv env s ≡ again t)
      × (t.incoming.data_read ≡ 0)
      × (request_at r.address t.command_requests
          ≡ some (
              woken
                (int32 (error_of (store_read bytes s).incoming.buffer))
                (env.handle h (store_read bytes s).incoming.buffer)
                r))
      × ((b : ℕ)
          → r.address ≢ b
          → request_at b t.command_requests ≡ request_at b s.command_requests)
unfolding set_data_read store_read count_received
recv_answered env s bytes r h c k d found same no_read handler waits = (
  afterwards error rc r.address (store_read bytes s),
  answer_handled env s bytes r h c k found same no_read handler waits,
  refl,
  written_request error rc s.command_requests r
      (find_request-request_at _ s.command_requests r d found),
  λ b ne. written_other error rc r.address b s.command_requests ne,
)
  where
    error : ℤ
    error = int32 (error_of (store_read bytes s).incoming.buffer)

    rc : ℤ
    rc = env.handle h (store_read bytes s).incoming.buffer
