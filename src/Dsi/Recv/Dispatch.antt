-- ===== src/Dsi/Recv/Dispatch.antt =====
-- To whom the receiver gives a packet: the request that it answers, or nobody.
use netatalk_client.Base.{sym, ℕ, ◌≡◌, ◌≢◌, ◌⊎◌, refl, false, none, some, List, ◌==◌}
use netatalk_client.Server.{Server, Request}
use netatalk_client.Dsi.Header.{flags_of, requestid_of}
use netatalk_client.Dsi.Queue.{find_request}
use netatalk_client.Dsi.Recv.{unmatched, recv, matched, match_request, process_reply}
use netatalk_client.Dsi.Recv.Buffer.{RecvEnv, fault, store_read, count_received}
use netatalk_client.Dsi.Recv.Complete.{IsReply, Completes, SameHeader}
use netatalk_client.Dsi.Recv.Matched.{recv_unknown, same_header}

-- A packet that no request waits for.
abbrev pub IsUnexpected : Server → Type 0
IsUnexpected s =
    find_request (requestid_of s.incoming.buffer) s.command_requests ≡ none
    × ((flags_of s.incoming.buffer == 1) ≡ false)

match_request_unexpected : (s : Server) → IsUnexpected s → match_request s ≡ unmatched false s
unfolding match_request matched
match_request_unexpected s (e, f) = rw (e, f) refl

IsUnexpected-before :
    (bytes : List ℕ) (s : Server)
    → SameHeader (store_read bytes s).incoming.buffer s.incoming.buffer
    → IsUnexpected (store_read bytes s)
    → IsUnexpected s
unfolding store_read count_received
IsUnexpected-before bytes s same (e, f) = (rw (sym same.requestid) e, rw (sym same.flags) f)

-- The call of the receiver whose read completes a packet that is not marked as a reply, whose command
-- is DSICommand or DSIWrite and whose request id is that of no request reads a request through a null
-- pointer, whatever the packet's payload is and whether that read brings the header or what follows.
-- The receive buffer is in bounds, and the read gives no more than it is asked for.
pub recv_unexpected :
    (env : RecvEnv) (s : Server) (bytes : List ℕ)
    → Completes env s bytes
    → IsReply (store_read bytes s).incoming.buffer
    → IsUnexpected (store_read bytes s)
    → recv env s ≡ fault
unfolding process_reply
recv_unexpected env s bytes c k u =
    recv_unknown env s bytes c k (match_request_unexpected (store_read bytes s) u) (λ h.
      match_request_unexpected s (IsUnexpected-before bytes s (same_header env s bytes c k h) u))

-- A reply to nobody, or to a request of an earlier connection.
abbrev pub IsRunt : Server → Type 0
IsRunt s =
    ((find_request (requestid_of s.incoming.buffer) s.command_requests ≡ none)
      × (flags_of s.incoming.buffer ≡ 1))
    ⊎ ((r : Request) × (find_request (requestid_of s.incoming.buffer) s.command_requests ≡ some r)
        × (r.connection_generation ≢ s.connection_generation))
