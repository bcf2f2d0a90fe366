-- ===== src/Dsi/Recv/Buffer.antt =====
-- What the receiver of lib/dsi.c is given, what a call comes to, and its receive buffer.
use netatalk_client.Base.{
  ℕ, ◌+◌, ◌-◌, ◌%◌, ◌^◌, ℤ, pos, is_zero, Bool, true, Option, none, some, List, [], ◌∷◌, ◌==◌, ltb,
  if◌then◌else◌, length, take, drop, write_at, ◌&&◌, ◌||◌,
}
use netatalk_client.Server.{Server, Request}
use netatalk_client.Dsi.Header.{length_of, header_size}
use netatalk_client.Dsi.Queue.{update_request, remove_from_request_queue}
use netatalk_client.Dsi.Status.{Printable}
use netatalk_client.Dsi.Send.{SendEnv}

-- What a chain of `read` calls gives. `got []` is the end of the file.
pub data ReadResult : Type 0 where
  got : List ℕ → ReadResult
  interrupted : ReadResult → ReadResult
  failed : ReadResult

-- `read` is asked for a number of bytes; `read_reply` serves the read inside the reply handler of an
-- afpRead. `handle` is the handler that the sender of a request gave, and `afp_reply` the one of its
-- AFP command: the return value for the packet in the buffer. `alloc` is `malloc`.
pub record RecvEnv : Type 0 where
  pub read : ℕ → ReadResult
  pub read_reply : ℕ → ReadResult
  pub handle : ℕ → List ℕ → ℤ
  pub afp_reply : ℕ → List ℕ → ℤ
  pub alloc : ℕ → Bool
  pub thread_started : Bool
  pub tickle : SendEnv
  pub printable : Printable

-- `again` returns 0, `stop` returns -1, `fault` is an access through a null or a freed pointer or
-- outside of the receive buffer. `blocked` waits in a `write`.
pub data Outcome : Type 0 where
  again stop blocked : Server → Outcome
  fault : Outcome

abbrev pub afp_read : ℕ
afp_read = 27

abbrev pub afp_read_ext : ℕ
afp_read_ext = 60

unfoldable pub is_read : Request → Bool
is_read r = r.subcommand == afp_read || r.subcommand == afp_read_ext

-- `read` again while it is interrupted; `none` is an error or the end of the file.
unfoldable pub bytes_read : ReadResult → Option (List ℕ)
bytes_read (got []) = none
bytes_read (got (b ∷ bs)) = some (b ∷ bs)
bytes_read (interrupted r) = bytes_read r
bytes_read failed = none

unfoldable pub count_received : ℕ → Server → Server
count_received n s = record s {
  stats = record s.stats { rx_bytes = (s.stats.rx_bytes + n) % 2 ^ 64 };
}

-- Bytes that a read put behind what the buffer already holds.
unfoldable pub store_read : List ℕ → Server → Server
store_read bytes s = count_received (length bytes) (record s {
  incoming = record s.incoming {
    buffer = write_at s.incoming.data_read bytes s.incoming.buffer;
    data_read = s.incoming.data_read + length bytes;
  };
})

unfoldable pub set_data_read : ℕ → Server → Server
set_data_read n s = record s { incoming = record s.incoming { data_read = n } }

-- `memmove(buffer, buffer + from, n)`
unfoldable pub shift_buffer : ℕ → ℕ → Server → Server
shift_buffer from n s = record s {
  incoming = record s.incoming {
    buffer = write_at 0 (take n (drop from s.incoming.buffer)) s.incoming.buffer;
    data_read = n;
  };
}

unfoldable pub change_request : ℕ → (Request → Request) → Server → Server
change_request a f s = record s { command_requests = update_request a f s.command_requests }

-- A header and nothing behind it.
unfoldable pub is_bare : Server → Bool
is_bare s = s.incoming.data_read == header_size && length_of s.incoming.buffer == 0

-- `out:`
unfoldable pub signal_done : Request → Request
signal_done p = record p { wait = pos 0; done_waiting = true }

unfoldable pub out : Option Request → Server → Outcome
out none s = again s
out (some r) s =
    if is_zero r.wait
    then (elim (remove_from_request_queue r.address s) [ none ↦ fault | some (_, t) ↦ again t ])
    else again (change_request r.address signal_done s)

-- `after_processing:`. What follows the packet in the buffer is the start of the next one.
unfoldable pub after_processing : Option Request → Server → Outcome
after_processing request s =
    let size = length_of s.incoming.buffer + header_size in
    let packet_size = size % 2 ^ 32 in
    if s.incoming.data_read == size
    then out request (set_data_read 0 s)
    else if ltb s.incoming.data_read packet_size
    then stop s
    else out request (shift_buffer packet_size (s.incoming.data_read - packet_size) s)
