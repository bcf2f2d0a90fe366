-- ===== src/Ipc/Loss.antt =====
-- Messages that the log of a client loses (`daemon_log_for_client` of daemon/daemon.c).
use netatalk_client.Base.{
  ℕ, ◌-◌, ◌≡◌, ◌<◌, ◌≤◌, sym, List, [], ◌∷◌, ◌++◌, arith, length, take, length-append, length-take,
  lt→ltb, le→leb, lt→leb_false, length-to_be32, to_be32,
}
use netatalk_client.Ipc.{Record, record_bytes, append_record, log_for_client, log_buffer_size}
use netatalk_client.Ipc.Logs.{log_bytes, log_messages}
use mathlib.Core.List.{append-nil}

filled :
    (level : ℕ) (message log : List ℕ)
    → length log < 4088
    → 4088 - length log ≤ length message
    → length (log_for_client level message log) ≡ log_buffer_size
unfolding log_for_client append_record
filled level message log room long =
    rw
      (
        lt→leb_false log_buffer_size (length log) (omega arith),
        lt→ltb 8 (log_buffer_size - length log) (omega arith),
      )
      (omega (
        arith,
        length-append log (record_bytes (level, cut)),
        length-append (to_be32 level) (to_be32 (length cut) ++ cut),
        length-append (to_be32 (length cut)) cut,
        length-to_be32 level,
        length-to_be32 (length cut),
        length-take (log_buffer_size - length log - 8) message,
      ))
  where
    cut : List ℕ
    cut = take (log_buffer_size - length log - 8) message

emptied :
    (level : ℕ) (message log : List ℕ)
    → length log ≡ log_buffer_size
    → log_for_client level message log ≡ log_bytes ((level, take 4088 message) ∷ [])
unfolding log_for_client append_record
emptied level message log full =
    rw (le→leb log_buffer_size (length log) (omega arith)) (sym (append-nil _))

-- A message that does not fit what is left of a client's log is cut and fills the buffer, and the
-- next message then takes the place of all that were logged before: of the log, the long message and
-- the next one only the next one is left, cut to 4088 bytes. More than 8 bytes were left for the long
-- message.
pub log_messages_lost :
    (log : List ℕ) (long next : Record)
    → length log < 4088
    → 4088 - length log ≤ length long.1
    → log_messages (long ∷ next ∷ []) log ≡ log_bytes ((next.0, take 4088 next.1) ∷ [])
log_messages_lost log (level, message) (level', message') room h =
    emptied level' message' (log_for_client level message log) (filled level message log room h)
