-- ===== src/Dsi/Recv/Tests.antt =====
-- Runs of `afpc_dsi_recv`, and the theorems about it at concrete inputs.
use netatalk_client.Base.{
  be32_at, be16_at, ℕ, ◌≡◌, ◌≢◌, inl, refl, arith, pos, true, false, none, some, List, [], ◌∷◌,
  take, length-take, int32, ◌==◌,
}
use netatalk_client.Server.{Server, Request}
use netatalk_client.Server.Bounds.{IsBounded}
use netatalk_client.Server.Samples.{server_with, waiting, waiting_too, reply_packet, request_packet}
use netatalk_client.Dsi.Header.{requestid_of, error_of, length_of, command_of, flags_of}
use netatalk_client.Dsi.Queue.{find_request, request_at}
use netatalk_client.Dsi.Recv.{recv}
use netatalk_client.Dsi.Recv.Buffer.{
  store_read, count_received, bytes_read, RecvEnv, got, fault, is_read, again,
}
use netatalk_client.Dsi.Recv.Outcomes.{Leaves, IsSound}
use netatalk_client.Dsi.Recv.Bounds.{recv-IsBounded}
use netatalk_client.Dsi.Recv.Complete.{IsReply, Completes}
use netatalk_client.Dsi.Recv.Dispatch.{recv_unexpected}
use netatalk_client.Dsi.Send.{finish, freed}
use netatalk_client.Dsi.Recv.Duplicate.{recv_duplicate}
use netatalk_client.Dsi.Recv.Answer.{recv_answered, woken}

abbrev payload : List ℕ
payload = 170 ∷ 187 ∷ []

abbrev env : RecvEnv
env = record {
  read = λ n. got (take n payload);
  read_reply = λ n. got [];
  handle = λ h packet. pos 5;
  afp_reply = λ c packet. pos 0;
  alloc = λ n. true;
  thread_started = true;
  tickle = record { address = some 9; writes = []; reconnect = λ s. (false, s) };
  printable = record { from_utf8 = λ old s. s; from_legacy = λ old s. s };
}

env-IsSound : IsSound env
env-IsSound = record { reads = λ n. omega (arith, length-take n payload); reconnects = λ s b. b }

-- The header of a reply is there; two more bytes come.
abbrev half_read : Server
half_read = server_with reply_packet 16 (waiting ∷ [])

half_read-IsBounded : IsBounded half_read.incoming
half_read-IsBounded = record { whole = refl; within = omega arith; header_fits = omega arith }

recv-IsBounded_example : Leaves (recv env half_read)
recv-IsBounded_example =
    recv-IsBounded env half_read env-IsSound half_read-IsBounded (λ r found read. omega arith)

-- One byte of the payload is there; `read` brings the other one.
abbrev last_byte : List ℕ
last_byte = 187 ∷ []

abbrev env_last : RecvEnv
env_last = record env { read = λ n. got (take n last_byte) }

abbrev nearly : List ℕ → List Request → Server
nearly packet requests = server_with packet 17 requests

reply-Completes :
    (requests : List Request) → Completes env_last (nearly reply_packet requests) last_byte
unfolding length_of be32_at store_read count_received bytes_read
reply-Completes requests = record {
  bounded = record { whole = refl; within = omega arith; header_fits = omega arith };
  came = refl;
  no_more = omega arith;
  whole = record { all_read = refl; in_buffer = omega arith; no_wrap = omega arith };
}

request-Completes :
    (requests : List Request) → Completes env_last (nearly request_packet requests) last_byte
unfolding length_of be32_at store_read count_received bytes_read
request-Completes requests = record {
  bounded = record { whole = refl; within = omega arith; header_fits = omega arith };
  came = refl;
  no_more = omega arith;
  whole = record { all_read = refl; in_buffer = omega arith; no_wrap = omega arith };
}

abbrev reply_there : List Request → List ℕ
reply_there requests = (store_read last_byte (nearly reply_packet requests)).incoming.buffer

abbrev request_there : List Request → List ℕ
request_there requests = (store_read last_byte (nearly request_packet requests)).incoming.buffer

command_answered : (requests : List Request) → IsReply (reply_there requests)
unfolding command_of store_read count_received
command_answered requests = inl refl

command_asked : (requests : List Request) → IsReply (request_there requests)
unfolding command_of store_read count_received
command_asked requests = inl refl

found_waiting :
    find_request
      (requestid_of (reply_there (waiting ∷ waiting_too ∷ [])))
      (waiting ∷ waiting_too ∷ [])
    ≡ some waiting
unfolding find_request requestid_of be16_at store_read count_received
found_waiting = refl

recv_answered_example :
    (t : Server) × (recv env_last (nearly reply_packet (waiting ∷ waiting_too ∷ [])) ≡ again t)
    × (t.incoming.data_read ≡ 0)
    × (request_at 1 t.command_requests
        ≡ some
            (woken (int32 (error_of (reply_there (waiting ∷ waiting_too ∷ [])))) (pos 5) waiting))
    × ((b : ℕ)
        → 1 ≢ b
        → request_at b t.command_requests ≡ request_at b (waiting ∷ waiting_too ∷ []))
unfolding store_read count_received
recv_answered_example =
    recv_answered env_last (nearly reply_packet (waiting ∷ waiting_too ∷ [])) last_byte waiting 0
      (reply-Completes (waiting ∷ waiting_too ∷ [])) (command_answered (waiting ∷ waiting_too ∷ []))
      (((λ e. omega (arith, e)), tt), (tt, tt)) found_waiting refl waiting_no_read refl refl
  where
    waiting_no_read : is_read waiting ≡ false
    waiting_no_read = unfold is_read in refl

no_request :
    find_request (requestid_of (request_there (waiting_too ∷ []))) (waiting_too ∷ []) ≡ none
unfolding find_request requestid_of be16_at store_read count_received
no_request = refl

unmarked : (flags_of (request_there (waiting_too ∷ [])) == 1) ≡ false
unfolding flags_of store_read count_received
unmarked = refl

recv_unexpected_example : recv env_last (nearly request_packet (waiting_too ∷ [])) ≡ fault
unfolding store_read count_received
recv_unexpected_example =
    recv_unexpected env_last (nearly request_packet (waiting_too ∷ [])) last_byte
      (request-Completes (waiting_too ∷ [])) (command_asked (waiting_too ∷ []))
      (no_request, unmarked)

abbrev woken_up : Request
woken_up = record waiting { wait = pos 0; done_waiting = true }

found_woken_up :
    find_request (requestid_of (reply_there (woken_up ∷ []))) (woken_up ∷ []) ≡ some woken_up
unfolding find_request requestid_of be16_at store_read count_received
found_woken_up = refl

recv_duplicate_example :
    (t : Server) × (recv env_last (nearly reply_packet (woken_up ∷ [])) ≡ again t)
    × (finish 1 t ≡ freed)
unfolding store_read count_received
recv_duplicate_example =
    recv_duplicate env_last (nearly reply_packet (woken_up ∷ [])) last_byte woken_up 0
      (reply-Completes (woken_up ∷ [])) (command_answered (woken_up ∷ [])) (tt, tt)
      (unfold request_at in refl) found_woken_up refl (unfold is_read in refl) refl refl refl
