-- ===== src/Dsi/Send.antt =====
-- `afpc_dsi_send_with_reply` of lib/dsi.c, in the parts between which other threads run: what it does
-- until the message is written, and what it does once it has waited for the reply.
-- What the system calls answer is an argument: the results of the successive `write` calls, whether
-- `malloc` gives memory, and what `afp_server_reconnect` returns with the server it leaves.
pub mod Bounds
pub mod Resumed
pub mod Written
mod Tests
use netatalk_client.Base.{
  ℕ, zero, ◌+◌, ◌-◌, ◌%◌, ◌^◌, ℤ, pos, negsuc, is_zero, is_negative, Bool, true, false, Option,
  none, some, List, [], ◌∷◌, ◌++◌, ◌==◌, leb, if◌then◌else◌, length, take, drop, write_at, to_be32,
}
use netatalk_client.Server.{
  Server, Request, RxBuffer, Stats, ConnectState, connected, disconnected, connecting,
}
use netatalk_client.Dsi.Header.{Header, encode, requestid_of, setup_header, header_size}
use netatalk_client.Dsi.Queue.{
  enqueue, remove_from_request_queue, request_at, update_request, minus_eio,
}

-- `wrote k` is a return value k. `broken` is EPIPE or EBADF.
pub data WriteResult : Type 0 where
  wrote : ℕ → WriteResult
  interrupted broken failed : WriteResult

-- How the loop of writes ends, and the bytes that went out. `blocked` is no end: the last `write`
-- has not returned.
pub data WriteEnd : Type 0 where
  complete : List ℕ → WriteEnd
  peer_closed write_error blocked : List ℕ → WriteEnd

-- `total_written` is the length of `sent`.
unfoldable pub write_loop : List ℕ → List ℕ → List WriteResult → WriteEnd
write_loop sent [] results = complete sent
write_loop sent (b ∷ left) [] = blocked sent
write_loop sent (b ∷ left) (wrote k ∷ results) =
    write_loop (sent ++ take k (b ∷ left)) (drop k (b ∷ left)) results
write_loop sent (b ∷ left) (interrupted ∷ results) = write_loop sent (b ∷ left) results
write_loop sent (b ∷ left) (broken ∷ results) = peer_closed sent
write_loop sent (b ∷ left) (failed ∷ results) = write_error sent

-- What the caller hands over. `message` begins with a header.
pub record Message : Type 0 where
  pub message : List ℕ
  pub wait : ℤ
  pub subcommand : ℕ
  pub other : Option RxBuffer
  pub reply_handler : Option ℕ
  pub stream_buffer : Option RxBuffer

-- The answers of the system. `address` is where `malloc` puts the new request.
pub record SendEnv : Type 0 where
  pub address : Option ℕ
  pub writes : List WriteResult
  pub reconnect : Server → Bool × Server

-- `submitted` still waits for its reply, `writing` for a `write`; `returned` has left the function.
-- `freed` is a use of freed memory.
pub data Submit : Type 0 where
  returned : ℤ → Server → Submit
  submitted : ℕ → Server → Submit
  writing : ℕ → Server → Submit
  freed : Submit

-- `header->length = htonl(size - sizeof(struct dsi_header))`
unfoldable pub with_length : List ℕ → List ℕ
unfolding to_be32
with_length message =
    write_at 8 (to_be32 ((length message + 2 ^ 32 - header_size) % 2 ^ 32)) message

-- DSI_DEFAULT_TIMEOUT stands for the server's own.
unfoldable pub timeout_of : Server → ℤ → ℤ
timeout_of s (pos n) = if n == 5 then s.dsi_default_timeout else pos n
timeout_of s (negsuc n) = negsuc n

-- Whether there is a connection for the request to go over, and the server then.
unfoldable pub ensure_connected : SendEnv → Server → Bool × Server
ensure_connected env s = elim s.connect_state [
  | disconnected ↦
      (if s.suspended
        then (false, s)
        else if s.reconnect_in_progress
        then (false, s)
        else env.reconnect s)
  | connected ↦ (true, s)
  | connecting ↦ (true, s)
]

unfoldable pub new_request : ℕ → Message → ℤ → Server → Request
unfolding requestid_of
new_request a m wait s = record {
  address = a;
  requestid = requestid_of m.message;
  subcommand = m.subcommand;
  other = m.other;
  wait = wait;
  done_waiting = false;
  ignore_replies = false;
  return_code = pos 0;
  connection_generation = s.connection_generation;
  reply_handler = m.reply_handler;
  stream_buffer = m.stream_buffer;
}

-- `out:` with the value that is returned.
unfoldable pub remove_and_return : ℤ → ℕ → Server → Submit
unfolding remove_from_request_queue
remove_and_return rc a s = elim (remove_from_request_queue a s) [
  | none ↦ freed
  | some (_, t) ↦ returned rc t
]

-- `rc = new_request->return_code`, wherever the request stands.
unfoldable pub return_code_at : ℕ → Server → Option ℤ
unfolding request_at
return_code_at a s = elim (request_at a s.command_requests) [
  | some p ↦ some p.return_code
  | none ↦ elim (request_at a s.detached) [ some p ↦ some p.return_code | none ↦ none ]
]

-- A sender that has waited long enough, or does not wait.
unfoldable pub finish : ℕ → Server → Submit
unfolding return_code_at remove_and_return
finish a s = elim (return_code_at a s) [ none ↦ freed | some rc ↦ remove_and_return rc a s ]

abbrev pub etimedout : ℕ
etimedout = 110

-- The reply did not come in time.
unfoldable pub time_out : ℕ → Server → Submit
unfolding remove_and_return
time_out a s = remove_and_return (pos etimedout) a s

-- Behind the writes.
unfoldable pub after_write : ℕ → ℤ → ℕ → WriteEnd → Server → Submit
unfolding finish remove_and_return
after_write a wait size (complete sent) s =
    let t = record s { stats = record s.stats { tx_bytes = (s.stats.tx_bytes + size) % 2 ^ 64 } } in
    if is_zero wait then finish a t else submitted a t
after_write a wait size (peer_closed sent) s =
    remove_and_return (negsuc 0) a (record s { connect_state = disconnected })
after_write a wait size (write_error sent) s = remove_and_return (negsuc 0) a s
after_write a wait size (blocked sent) s = writing a s

-- With a connection: the descriptor, the memory, the queue, the writes.
unfoldable pub submit_on : SendEnv → Message → ℤ → Server → Submit
unfolding new_request enqueue write_loop with_length after_write
submit_on env m wait s = if is_negative s.fd then returned minus_eio s else elim env.address [
  | none ↦ returned (negsuc 0) s
  | some a ↦
      after_write a wait (length m.message) (write_loop [] (with_length m.message) env.writes)
        (enqueue (new_request a m wait s) s)
]

-- -EIO where no connection could be had.
unfoldable pub submit_if : SendEnv → Message → ℤ → Bool × Server → Submit
unfolding submit_on
submit_if env m wait (true, t) = submit_on env m wait t
submit_if env m wait (false, t) = returned minus_eio t

unfoldable pub submit : SendEnv → Message → Server → Submit
unfolding submit_if timeout_of ensure_connected
submit env m s =
    if s.still_valid
    then submit_if env m (timeout_of s m.wait) (ensure_connected env s)
    else returned (negsuc 0) s

-- `afpc_dsi_incoming_tickle` and `afpc_dsi_sendtickle`: a header alone, and no wait.
abbrev pub tickle_command : ℕ
tickle_command = 5

abbrev pub tickle_message : Header → Message
tickle_message h = record {
  message = encode h;
  wait = pos 0;
  subcommand = tickle_command;
  other = none;
  reply_handler = none;
  stream_buffer = none;
}

unfoldable pub send_tickle : SendEnv → Server → Submit
unfolding submit encode setup_header
send_tickle env s =
    let (ids, h) = setup_header s.ids tickle_command in
    submit env (tickle_message h) (record s { ids = ids })
