-- ===== src/Ipc/Tests.antt =====
-- Responses that are sent and received, and the theorems on them at concrete bytes.
use netatalk_client.Base.{
  ℕ, ◌+◌, ◌≡◌, refl, true, some, List, [], ◌∷◌, ◌++◌, arith, length, take, drop, replicate, to_be32,
  codes,
}
use netatalk_client.Ipc.{
  Record, put, put_interrupted, send_command, got, get_interrupted, not_ready, response, get_loop,
  content_length, dispatch_response_logs, append_record, log_for_client,
}
use netatalk_client.Ipc.Logs.{log_bytes, log_messages}
use netatalk_client.Ipc.Framing.{dispatch-send_command}
use netatalk_client.Ipc.Loss.{log_messages_lost}

abbrev content : List ℕ
content = 0 ∷ 0 ∷ 0 ∷ 0 ∷ 0 ∷ 0 ∷ 0 ∷ 0 ∷ 7 ∷ []

abbrev two_messages : List Record
two_messages = (3, codes "one") ∷ (5, codes "two") ∷ []

sent_whole :
    (send_command true content
      (log_messages two_messages [])
      (put 20 ∷ put_interrupted ∷ put 99 ∷ [])).0
    ≡ true
unfolding send_command log_for_client append_record to_be32
sent_whole = refl

dispatch-send_command_example :
    let log = log_messages two_messages [] in
    let sent = (send_command true content log (put 20 ∷ put_interrupted ∷ put 99 ∷ [])).1 in
    (get_loop [] sent (got 3 ∷ not_ready ∷ got 9 ∷ get_interrupted ∷ got 99 ∷ []) ≡ response sent)
    × (content_length sent ≡ some (length content))
    × (take (length content) sent
        ≡ take 4 content ++ (to_be32 (length content + length log + 8) ++ drop 8 content))
    × (dispatch_response_logs sent ≡ some two_messages)
unfolding log_for_client append_record to_be32
dispatch-send_command_example =
    dispatch-send_command content two_messages (put 20 ∷ put_interrupted ∷ put 99 ∷ [])
      (got 3 ∷ not_ready ∷ got 9 ∷ get_interrupted ∷ got 99 ∷ []) (omega arith) (omega arith)
      (omega arith) (omega arith) sent_whole (omega arith)

log_messages_lost_example :
    log_messages
      ((3, replicate 4080 65) ∷ (5, codes "next") ∷ [])
      (log_bytes ((4, codes "first") ∷ []))
    ≡ log_bytes ((5, take 4088 (codes "next")) ∷ [])
unfolding to_be32
log_messages_lost_example =
    log_messages_lost (log_bytes ((4, codes "first") ∷ [])) (3, replicate 4080 65) (5, codes "next")
      (omega arith) (omega arith)
