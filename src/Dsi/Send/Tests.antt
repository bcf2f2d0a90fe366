-- ===== src/Dsi/Send/Tests.antt =====
-- Runs of `afpc_dsi_send_with_reply`, and the theorems about it at concrete inputs.
use netatalk_client.Base.{ℕ, ◌≡◌, refl, pos, none, some, List, [], ◌∷◌, ◌++◌}
use netatalk_client.Server.{Server}
use netatalk_client.Server.Samples.{server_with, waiting, waiting_too, request_packet}
use netatalk_client.Dsi.Send.{Message, WriteResult, wrote, interrupted, write_loop, complete}
use netatalk_client.Dsi.Send.Written.{write_loop_exact, sent_by, Progress}

abbrev results : List WriteResult
results = wrote 2 ∷ interrupted ∷ wrote 1 ∷ []

in_two_writes : write_loop [] (4 ∷ 5 ∷ 6 ∷ []) results ≡ complete (4 ∷ 5 ∷ 6 ∷ [])
unfolding write_loop
in_two_writes = refl

write_loop_exact_example :
    ((unsent : List ℕ) × (sent_by (write_loop [] (4 ∷ 5 ∷ 6 ∷ []) results) ++ unsent
        ≡ 4 ∷ 5 ∷ 6 ∷ []))
    × (((bytes : List ℕ)
          → write_loop [] (4 ∷ 5 ∷ 6 ∷ []) results ≡ complete bytes
          → bytes ≡ 4 ∷ 5 ∷ 6 ∷ [])
        × (Progress 3 results → write_loop [] (4 ∷ 5 ∷ 6 ∷ []) results ≡ complete (4 ∷ 5 ∷ 6 ∷ [])))
write_loop_exact_example = write_loop_exact (4 ∷ 5 ∷ 6 ∷ []) results

abbrev queued : Server
queued = server_with request_packet 0 (waiting_too ∷ waiting ∷ [])

abbrev message : Message
message = record {
  message = request_packet;
  wait = pos 5;
  subcommand = 23;
  other = none;
  reply_handler = some 0;
  stream_buffer = none;
}
