-- ===== src/Dsi/Recv/Duplicate.antt =====
-- A second reply to a request whose sender was woken and has not yet resumed.
use netatalk_client.Base.{
  ℕ, ◌≡◌, refl, ◌∙◌, ap, arith, ℤ, int32, is_zero, true, false, none, some, List, [], ◌∷◌,
}
use netatalk_client.Server.{Server, Request}
use netatalk_client.Dsi.Header.{requestid_of, error_of}
use netatalk_client.Dsi.Queue.{
  find_request, request_at, update_request, without, taken_off, remove_from_request_queue,
}
use netatalk_client.Dsi.Queue.Pending.{Distinct, Fresh}
use netatalk_client.Dsi.Queue.Lookup.{Keeps, request_at-update_request, find_request-request_at}
use netatalk_client.Dsi.Send.{finish, freed, return_code_at}
use netatalk_client.Dsi.Recv.{
  count_received, store_read, recv, process_reply, record_result, note_result, set_return_code,
}
use netatalk_client.Dsi.Recv.Buffer.{
  store_read, count_received, RecvEnv, change_request, out, set_data_read, is_read, again,
}
use netatalk_client.Dsi.Recv.Complete.{IsWhole, IsReply, Completes, after_processing_whole}
use netatalk_client.Dsi.Recv.Matched.{recv_found}
use netatalk_client.Dsi.Recv.Answer.{reply_result_handler, note_result-Keeps, set_return_code-Keeps}

Fresh-request_at : (a : ℕ) (ps : List Request) → Fresh a ps → request_at a ps ≡ none
unfolding request_at
Fresh-request_at a [] f = refl
Fresh-request_at a (p ∷ ps) (fp, f) = ground (arith, fp, Fresh-request_at a ps f)

request_at-without : (a : ℕ) (ps : List Request) → Distinct ps → request_at a (without a ps) ≡ none
unfolding request_at without
request_at-without a [] d = refl
request_at-without a (p ∷ ps) (fresh, d) =
    ground (arith, Fresh-request_at p.address ps fresh, request_at-without a ps d)

Fresh-update_request :
    (a b : ℕ) (f : Request → Request) (ps : List Request)
    → Keeps f
    → Fresh b ps
    → Fresh b (update_request a f ps)
unfolding update_request
Fresh-update_request a b f [] keep h = tt
Fresh-update_request a b f (p ∷ ps) keep h =
    ground (arith, keep p, h, Fresh-update_request a b f ps keep h.1)

Distinct-update_request :
    (a : ℕ) (f : Request → Request) (ps : List Request)
    → Keeps f
    → Distinct ps
    → Distinct (update_request a f ps)
unfolding update_request
Distinct-update_request a f [] keep d = tt
Distinct-update_request a f (p ∷ ps) keep d = ground (
  arith,
  keep p,
  d,
  Distinct-update_request a f ps keep d.1,
  Fresh-update_request a p.address f ps keep d.0,
)

out_done :
    (r p : Request) (s : Server)
    → is_zero r.wait ≡ true
    → s.still_valid ≡ true
    → request_at r.address s.command_requests ≡ some p
    → out (some r) s ≡ again (taken_off r.address s)
unfolding out remove_from_request_queue
out_done r p s done valid found = ground (arith, done, valid, found)

finish-taken_off :
    (a : ℕ) (s : Server)
    → Distinct s.command_requests
    → request_at a s.detached ≡ none
    → finish a (taken_off a s) ≡ freed
unfolding finish return_code_at taken_off
finish-taken_off a s d off = ground (arith, request_at-without a s.command_requests d, off)

-- The server as the receiver leaves it before the request is freed.
abbrev noted : ℤ → ℤ → ℕ → Server → Server
noted error rc a s =
    set_data_read 0 (change_request a (note_result rc) (change_request a (set_return_code error) s))

process_reply_done :
    (env : RecvEnv) (r p : Request) (s : Server) (h : ℕ)
    → IsWhole s.incoming
    → r.reply_handler ≡ some h
    → is_zero r.wait ≡ true
    → s.still_valid ≡ true
    → request_at r.address s.command_requests ≡ some p
    → process_reply env (some r) false s
      ≡ again (
          taken_off r.address (
            set_data_read 0
              (change_request r.address (note_result (env.handle h s.incoming.buffer)) s)))
unfolding process_reply record_result change_request set_data_read
process_reply_done env r p s h w handler done valid found =
    ap (record_result r) (reply_result_handler env r s h handler)
    ∙ (after_processing_whole (some r) (change_request r.address (note_result rc) s) w
        ∙ out_done r (note_result rc p) _ done valid (
            request_at-update_request r.address (note_result rc) s.command_requests p
              (note_result-Keeps rc) found))
  where
    rc : ℤ
    rc = env.handle h s.incoming.buffer

duplicate_handled :
    (env : RecvEnv) (s : Server) (bytes : List ℕ) (r : Request) (h : ℕ)
    → Completes env s bytes
    → IsReply (store_read bytes s).incoming.buffer
    → Distinct s.command_requests
    → find_request (requestid_of (store_read bytes s).incoming.buffer) s.command_requests ≡ some r
    → r.connection_generation ≡ s.connection_generation
    → is_read r ≡ false
    → r.reply_handler ≡ some h
    → is_zero r.wait ≡ true
    → s.still_valid ≡ true
    → recv env s
      ≡ again (
          taken_off r.address (
            noted
              (int32 (error_of (store_read bytes s).incoming.buffer))
              (env.handle h (store_read bytes s).incoming.buffer)
              r.address
              (store_read bytes s)))
unfolding change_request set_return_code set_data_read store_read count_received
duplicate_handled env s bytes r h c k d found same no_read handler done valid =
    recv_found env s bytes c k r found same no_read
    ∙ process_reply_done env r' r' s' h c.whole handler done valid (
        request_at-update_request r.address (set_return_code error) s.command_requests r
          (set_return_code-Keeps error) (find_request-request_at _ s.command_requests r d found))
  where
    error : ℤ
    error = int32 (error_of (store_read bytes s).incoming.buffer)

    r' : Request
    r' = set_return_code error r

    s' : Server
    s' = change_request r.address (set_return_code error) (store_read bytes s)

noted-Distinct :
    (error rc : ℤ) (a : ℕ) (s : Server)
    → Distinct s.command_requests
    → Distinct (noted error rc a s).command_requests
unfolding change_request set_data_read
noted-Distinct error rc a s d =
    Distinct-update_request a (note_result rc) _ (note_result-Keeps rc) (
      Distinct-update_request a (set_return_code error) s.command_requests
        (set_return_code-Keeps error) d)

-- The call of the receiver whose read completes a DSICommand or DSIWrite packet that answers a request
-- of this connection which is no read and gave a handler, and whose `wait` is 0 already, since an
-- earlier reply has woken its sender, which has not resumed. The receive buffer is in bounds, the read
-- gives no more than it is asked for, the server is valid, no two requests share an address, and none
-- that a flush took off has this one's. Then the receiver returns 0 and has freed the request, so that
-- the sender, when it resumes, reads freed memory.
pub recv_duplicate :
    (env : RecvEnv) (s : Server) (bytes : List ℕ) (r : Request) (h : ℕ)
    → Completes env s bytes
    → IsReply (store_read bytes s).incoming.buffer
    → Distinct s.command_requests
    → request_at r.address s.detached ≡ none
    → find_request (requestid_of (store_read bytes s).incoming.buffer) s.command_requests ≡ some r
    → r.connection_generation ≡ s.connection_generation
    → is_read r ≡ false
    → r.reply_handler ≡ some h
    → is_zero r.wait ≡ true
    → s.still_valid ≡ true
    → (t : Server) × (recv env s ≡ again t) × (finish r.address t ≡ freed)
unfolding change_request set_data_read store_read count_received
recv_duplicate env s bytes r h c k d off found same no_read handler done valid = (
  taken_off r.address (noted error rc r.address (store_read bytes s)),
  duplicate_handled env s bytes r h c k d found same no_read handler done valid,
  finish-taken_off r.address (noted error rc r.address (store_read bytes s))
      (noted-Distinct error rc r.address (store_read bytes s) d) off,
)
  where
    error : ℤ
    error = int32 (error_of (store_read bytes s).incoming.buffer)

    rc : ℤ
    rc = env.handle h (store_read bytes s).incoming.buffer
