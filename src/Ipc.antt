-- ===== src/Ipc.antt =====
-- A response of the daemon and its log records, from `daemon_log_for_client` (daemon/daemon.c) and
-- `send_command` (daemon/daemon_client.c) to `afp_sl_read_framed_response` and
-- `afp_sl_dispatch_response_logs` in the client (daemon/stateless.c).
-- Both ends run on one host, whose byte order does not matter; here the most significant byte comes
-- first. The header is the result, three bytes of padding and the length.
pub mod Logs
pub mod Framed
pub mod Framing
pub mod Loss
mod Tests
use netatalk_client.Base.{
  ℕ, zero, suc, ◌+◌, ◌-◌, ◌^◌, Bool, true, false, not, ◌&&◌, ◌||◌, Option, none, some, List, [],
  ◌∷◌, ◌++◌, length, take, drop, write_at, ltb, leb, ◌==◌, if◌then◌else◌, to_be32, be32_at, min,
}

abbrev pub log_buffer_size : ℕ
log_buffer_size = 4096

abbrev pub log_magic : ℕ
log_magic = 0x4146504c

-- `sizeof(connection.data)`
abbrev pub response_room : ℕ
response_room = 70855

-- A level, as the 32 bits of its `int32_t`, and a message.
abbrev pub Record : Type 0
Record = ℕ × List ℕ

abbrev pub record_bytes : Record → List ℕ
record_bytes (level, message) = to_be32 level ++ (to_be32 (length message) ++ message)

-- The last part of `daemon_log_for_client`, for a log with room left.
unfoldable pub append_record : ℕ → List ℕ → List ℕ → List ℕ
append_record level message log =
    let available = log_buffer_size - length log in
    if ltb 8 available then log ++ record_bytes (level, take (available - 8) message) else log

-- `daemon_log_for_client` for a client. `outgoing_string` is the list of the bytes in use.
unfoldable pub log_for_client : ℕ → List ℕ → List ℕ → List ℕ
unfolding append_record
log_for_client level message log =
    append_record level message (if leb log_buffer_size (length log) then [] else log)

-- What a `write` to the client's socket answers.
pub data PutResult : Type 0 where
  put : ℕ → PutResult
  put_interrupted : PutResult
  put_failed : PutResult

-- The loop of `send_command`: whether all was written, and what was.
unfoldable pub put_loop : List ℕ → List ℕ → List PutResult → Bool × List ℕ
put_loop sent [] results = (true, sent)
put_loop sent (b ∷ left) [] = (false, sent)
put_loop sent (b ∷ left) (put zero ∷ results) = (false, sent)
put_loop sent (b ∷ left) (put (suc k) ∷ results) =
    put_loop (sent ++ take (suc k) (b ∷ left)) (drop (suc k) (b ∷ left)) results
put_loop sent (b ∷ left) (put_interrupted ∷ results) = put_loop sent (b ∷ left) results
put_loop sent (b ∷ left) (put_failed ∷ results) = (false, sent)

abbrev pub footer : ℕ → List ℕ
footer log_len = to_be32 log_magic ++ to_be32 log_len

-- The response that `send_command` puts together, with its length in the header.
unfoldable pub framed : List ℕ → List ℕ → List ℕ
framed bytes log =
    write_at 4 (to_be32 (length bytes + length log + 8)) (bytes ++ (log ++ footer (length log)))

-- `send_command` of the daemon
unfoldable pub send_command : Bool → List ℕ → List ℕ → List PutResult → Bool × List ℕ
unfolding put_loop framed
send_command alloc bytes log results =
    if ltb (length bytes) 8
    then (false, [])
    else if ltb log_buffer_size (length log)
    then (false, [])
    else if ltb (2 ^ 32 - 1 - length log - 8) (length bytes)
    then (false, [])
    else if not alloc
    then (false, [])
    else put_loop [] (framed bytes log) results

-- What `select` and then `read` of the client answer. `got k` is a `read` that could give `k` bytes,
-- fewer where the buffer or the stream ends; no bytes mean that the daemon closed the connection.
pub data GetResult : Type 0 where
  got : ℕ → GetResult
  get_interrupted : GetResult
  not_ready : GetResult
  get_failed : GetResult

pub data Response : Type 0 where
  response : List ℕ → Response
  bad_response : Response
  still_waiting : Response

-- What is received has grown. `expected` is the length in the header once that is there.
unfoldable pub judge_length : List ℕ → ℕ → Response → Response
judge_length received expected more =
    if ltb expected 16
    then bad_response
    else if ltb response_room expected
    then bad_response
    else if length received == expected
    then response received
    else if ltb expected (length received)
    then bad_response
    else more

unfoldable pub after_get : List ℕ → Response → Response
unfolding judge_length
after_get received more =
    if ltb (length received) 8 then more else judge_length received (be32_at received 4) more

-- The loop of `afp_sl_read_framed_response` on the bytes that the daemon has written.
unfoldable pub get_loop : List ℕ → List ℕ → List GetResult → Response
unfolding after_get
get_loop received stream [] = still_waiting
get_loop received stream (got k ∷ results) =
    let n = min (min k (response_room - length received)) (length stream) in
    let rest = get_loop (received ++ take n stream) (drop n stream) results in
    if n == 0 then bad_response else after_get (received ++ take n stream) rest
get_loop received stream (get_interrupted ∷ results) = get_loop received stream results
get_loop received stream (not_ready ∷ results) = get_loop received stream results
get_loop received stream (get_failed ∷ results) = bad_response

-- `afp_sl_response_content_length`
unfoldable pub content_length : List ℕ → Option ℕ
content_length bytes =
    let room = length bytes - 8 in
    let log_len = be32_at (drop room bytes) 4 in
    if ltb (length bytes) 8
    then none
    else if not (be32_at (drop room bytes) 0 == log_magic)
        || ltb log_buffer_size log_len
        || ltb room log_len
    then none
    else some (room - log_len)

abbrev pub with_record : Record → Option (List Record) → Option (List Record)
with_record r none = none
with_record r (some records) = some (r ∷ records)

-- The loop of `afp_sl_dispatch_response_logs` on the bytes of the log that are left, with the records
-- that it logs. Every round takes 8 bytes at least.
unfoldable pub dispatch_loop : ℕ → List ℕ → Option (List Record)
dispatch_loop fuel [] = some []
dispatch_loop zero (b ∷ log) = none
dispatch_loop (suc fuel) (b ∷ log) =
    let size = be32_at (b ∷ log) 4 in
    let room = length (b ∷ log) - 8 in
    let rest = dispatch_loop fuel (drop size (drop 8 (b ∷ log))) in
    if ltb (length (b ∷ log)) 8
    then none
    else if ltb log_buffer_size size || ltb room size
    then none
    else with_record (be32_at (b ∷ log) 0, take size (drop 8 (b ∷ log))) rest

unfoldable pub dispatch_behind : List ℕ → Option ℕ → Option (List Record)
unfolding dispatch_loop
dispatch_behind bytes none = none
dispatch_behind bytes (some n) =
    dispatch_loop (length bytes) (take (length bytes - 8 - n) (drop n bytes))

-- `afp_sl_dispatch_response_logs`
unfoldable pub dispatch_response_logs : List ℕ → Option (List Record)
unfolding dispatch_behind content_length
dispatch_response_logs bytes = dispatch_behind bytes (content_length bytes)
