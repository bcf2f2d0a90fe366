-- ===== src/Dsi/Recv.antt =====
-- `afpc_dsi_recv` of lib/dsi.c, with `afpc_dsi_command_reply`: one call of the receiver, which reads
-- once from the socket and handles the packet if it is whole. Each label of the source is a function.
-- What the system and the callbacks answer is the argument `env`.
pub mod Buffer
mod Answer
mod Complete
mod Matched
mod Duplicate
pub mod Bounds
pub mod Dispatch
mod Outcomes
mod Packet
mod Tests
use netatalk_client.Base.{
  ℕ, zero, ◌+◌, ◌-◌, ◌%◌, ◌^◌, min, ℤ, pos, negsuc, int32, is_zero, Bool, true, false, Option, none,
  some, List, [], ◌∷◌, ◌++◌, ◌==◌, ltb, if◌then◌else◌, length, take, drop, write_at, not, ◌&&◌,
  ◌||◌,
}
use netatalk_client.Server.{Server, Request, RxBuffer, Stats, Incoming, AttentionContext}
use netatalk_client.Loop.{loop_disconnect}
use netatalk_client.Dsi.Header.{
  flags_of, command_of, requestid_of, error_of, length_of, header_size,
}
use netatalk_client.Dsi.Queue.{find_request, update_request, remove_from_request_queue}
use netatalk_client.Dsi.Session.{opensession_reply}
use netatalk_client.Dsi.Status.{getstatus_reply, Printable}
use netatalk_client.Dsi.Send.{SendEnv, send_tickle, Submit, returned, submitted, writing, freed}
use netatalk_client.Dsi.Recv.Buffer.{
  RecvEnv, Outcome, fault, is_read, bytes_read, count_received, store_read, set_data_read,
  shift_buffer, change_request, is_bare, out, after_processing, stop, blocked, again,
}

-- The room that is left in the caller's buffer.
unfoldable pub room_left : RxBuffer → ℕ
room_left b = (b.maxsize + 2 ^ 32 - b.size) % 2 ^ 32

-- `afpc_dsi_command_reply`. `none` is an access through a null pointer.
unfoldable pub command_reply : RecvEnv → Request → Server → Option (ℤ × Server)
command_reply env r s =
    if ltb s.incoming.data_read header_size
    then some (negsuc 0, s)
    else if r.subcommand == 0
    then some (negsuc 0, s)
    else if is_read r
    then (elim r.other [
      | none ↦ none
      | some b ↦ elim (bytes_read (env.read_reply (room_left b))) [
        | none ↦ some (negsuc 0, s)
        | some bytes ↦ some (
          env.afp_reply r.subcommand s.incoming.buffer,
          set_data_read (s.incoming.data_read + length bytes) (count_received (length bytes) s),
        )
      ]
    ])
    else some (env.afp_reply r.subcommand s.incoming.buffer, s)

unfoldable pub reply_result : RecvEnv → Request → Server → Option (ℤ × Server)
reply_result env r s = elim r.reply_handler [
  | some h ↦ some (env.handle h s.incoming.buffer, s)
  | none ↦ command_reply env r s
]

-- A handler's error becomes the request's, unless the server reported one.
unfoldable pub note_result : ℤ → Request → Request
note_result rc p =
    if not (is_zero rc) && is_zero p.return_code then record p { return_code = rc } else p

unfoldable pub record_result : Request → Option (ℤ × Server) → Outcome
record_result r none = fault
record_result r (some (rc, s)) =
    after_processing (some r) (change_request r.address (note_result rc) s)

-- A DSIWrite or DSICommand reply. The request is read through a null pointer where there is none and
-- the packet was not taken for a runt.
unfoldable pub process_reply : RecvEnv → Option Request → Bool → Server → Outcome
process_reply env request true s = after_processing request s
process_reply env none false s = fault
process_reply env (some r) false s = record_result r (reply_result env r s)

-- `pthread_create`, with the packet in the thread's argument.
unfoldable pub start_attention : Bool → Server → Server
start_attention true s = record s {
  attentions =
      s.attentions
      ++ (record {
        generation = s.connection_generation;
        packet = take s.incoming.data_read s.incoming.buffer;
      }
          ∷ []);
}
start_attention false s = s

unfoldable pub process_attention : RecvEnv → Option Request → Server → Outcome
process_attention env request s =
    if env.alloc (16 + s.incoming.data_read)
    then after_processing request (start_attention env.thread_started s)
    else stop s

unfoldable pub process_tickle : RecvEnv → Option Request → Submit → Outcome
process_tickle env request (returned rc t) = after_processing request t
process_tickle env request (submitted a t) = after_processing request t
process_tickle env request (writing a t) = blocked t
process_tickle env request freed = fault

-- `process_packet:`
unfoldable pub process_packet : RecvEnv → Option Request → Bool → Server → Outcome
process_packet env request runt s =
    let command = command_of s.incoming.buffer in
    if command == 1
    then after_processing request (loop_disconnect s)
    else if command == 3
    then (elim (getstatus_reply env.printable s) [
      | none ↦ fault
      | some t ↦ after_processing request t
    ])
    else if command == 4
    then after_processing request (opensession_reply s)
    else if command == 5
    then process_tickle env request (send_tickle env.tickle s)
    else if command == 6 || command == 2
    then process_reply env request runt s
    else if command == 8
    then process_attention env request s
    else stop s

-- A packet that is no answer to a read goes into the buffer.
unfoldable pub whole_packet : RecvEnv → Option Request → Bool → Server → Outcome
whole_packet env request runt s =
    let payload = length_of s.incoming.buffer in
    let payload_read = s.incoming.data_read - header_size in
    let room = (s.incoming.bufsize + 2 ^ 64 - header_size) % 2 ^ 64 in
    if is_bare s
    then process_packet env request runt s
    else if ltb room payload
    then stop s
    else if ltb payload payload_read
    then stop s
    else if payload == payload_read
    then process_packet env request runt s
    else elim (bytes_read
        (env.read (min (payload - payload_read) (s.incoming.bufsize - s.incoming.data_read)))) [
          | none ↦ stop s
          | some bytes ↦
              let t = store_read bytes s in
              if ltb t.incoming.data_read (length_of t.incoming.buffer + header_size)
              then again t
              else if runt
              then after_processing request t
              else process_packet env request runt t
        ]

-- The buffer of a read.
unfoldable pub rx_buffer : Request → Option RxBuffer
rx_buffer r = elim r.stream_buffer [ some b ↦ some b | none ↦ r.other ]

-- `buf->size += ret` through the pointer that `rx_buffer` chose.
unfoldable pub grow : List ℕ → RxBuffer → RxBuffer
grow bytes b = record b { size = (b.size + length bytes) % 2 ^ 32; bytes = b.bytes ++ bytes }

unfoldable pub grow_request : List ℕ → Request → Request
grow_request bytes r = elim r.stream_buffer [
  | some b ↦ record r { stream_buffer = some (grow bytes b) }
  | none ↦ record r { other = elim r.other [ some b ↦ some (grow bytes b) | none ↦ none ] }
]

-- All of a read is there. What stands behind the header in the buffer, if anything, is moved to its
-- front and then taken for the packet.
unfoldable pub read_complete : RecvEnv → Request → Server → Outcome
read_complete env r s =
    if s.incoming.data_read == header_size
    then out (some r) (set_data_read 0 s)
    else if ltb s.incoming.data_read header_size
    then stop s
    else let n = s.incoming.data_read - header_size in
      if env.alloc n
      then process_packet env (some r) false (shift_buffer header_size n s)
      else stop s

-- The data of an afpRead or afpReadExt go straight to the request's buffer.
unfoldable pub read_data : RecvEnv → Request → Server → Outcome
read_data env r s = elim (rx_buffer r) [
  | none ↦ fault
  | some b ↦
      let payload = length_of s.incoming.buffer in
      let newmax = (b.maxsize + 2 ^ 32 - b.size) % 2 ^ 32 in
      let left = (payload + 2 ^ 32 - b.size) % 2 ^ 32 in
      if is_bare s
      then out (some r) (set_data_read 0 s)
      else if b.maxsize == 0
      then stop s
      else elim (bytes_read (env.read (if ltb left newmax then left else newmax))) [
        | none ↦ stop s
        | some bytes ↦
            let t =
              change_request r.address (grow_request bytes) (count_received (length bytes) s) in
            if payload == (grow bytes b).size
            then read_complete env (grow_request bytes r) t
            else again t
      ]
]

-- The packet's request, if it is one of this connection. A reply that has none is a runt.
pub data Match : Type 0 where
  answers : Request → Server → Match
  unmatched : Bool → Server → Match

unfoldable pub count_runt : Server → Server
count_runt s = record s {
  stats = record s.stats { runt_packets = (s.stats.runt_packets + 1) % 2 ^ 64 };
}

unfoldable pub set_return_code : ℤ → Request → Request
set_return_code rc p = record p { return_code = rc }

unfoldable pub matched : Option Request → Server → Match
matched none s =
    if flags_of s.incoming.buffer == 1 then unmatched true (count_runt s) else unmatched false s
matched (some r) s =
    if r.connection_generation == s.connection_generation
    then (let rc = int32 (error_of s.incoming.buffer) in
        answers (set_return_code rc r) (change_request r.address (set_return_code rc) s))
    else unmatched true (count_runt s)

unfoldable pub match_request : Server → Match
match_request s = matched (find_request (requestid_of s.incoming.buffer) s.command_requests) s

unfoldable pub dispatch : RecvEnv → Match → Outcome
dispatch env (answers r s) =
    if is_read r then read_data env r s else whole_packet env (some r) false s
dispatch env (unmatched runt s) = whole_packet env none runt s

-- `gotenough:`
unfoldable pub got_enough : RecvEnv → Server → Outcome
got_enough env s = dispatch env (match_request s)

-- Until the header is there.
unfoldable pub recv_header : RecvEnv → Server → Outcome
recv_header env s = elim (bytes_read (env.read (header_size - s.incoming.data_read))) [
  | none ↦ stop s
  | some bytes ↦ let t = store_read bytes s in if is_bare t then got_enough env t else again t
]

unfoldable pub recv : RecvEnv → Server → Outcome
recv env s = if ltb s.incoming.data_read header_size then recv_header env s else got_enough env s
