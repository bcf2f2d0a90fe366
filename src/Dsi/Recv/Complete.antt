-- ===== src/Dsi/Recv/Complete.antt =====
-- The read that completes a packet: from the call in which it comes to the packet's handling.
use netatalk_client.Base.{
  zero, suc, ◌&&◌, ◌%◌, suc, ℕ, ◌+◌, ◌-◌, ◌^◌, ◌<◌, ◌≤◌, ◌≡◌, ◌⊎◌, refl, ap, ◌∙◌, arith, ltb, Bool,
  true, false, Option, some, List, [], ◌∷◌, ◌++◌, ◌==◌, length, take, drop, write_at, get_or,
  get_or-append, length-take, if◌then◌else◌, min, be16_at, be32_at,
}
use netatalk_client.Server.{Server, Request, Incoming}
use netatalk_client.Server.Bounds.{IsBounded}
use netatalk_client.Dsi.Header.{
  header_size, flags_of, command_of, requestid_of, error_of, length_of,
}
use netatalk_client.Dsi.Recv.{
  recv, recv_header, got_enough, whole_packet, process_packet, process_reply,
}
use netatalk_client.Dsi.Recv.Buffer.{
  ReadResult, got, interrupted, failed, RecvEnv, set_data_read, after_processing, out, is_bare,
  store_read, bytes_read, count_received,
}

-- The packet in the buffer is all there, and nothing behind it.
pub record IsWhole (i : Incoming) : Type 0 where
  pub all_read : i.data_read ≡ header_size + length_of i.buffer
  pub in_buffer : i.data_read ≤ i.bufsize
  pub no_wrap : i.bufsize < 2 ^ 32

-- DSICommand or DSIWrite.
abbrev pub IsReply : List ℕ → Type 0
IsReply buf = (command_of buf ≡ 2) ⊎ (command_of buf ≡ 6)

pub whole_packet_lem :
    (env : RecvEnv) (request : Option Request) (runt : Bool) (s : Server)
    → IsWhole s.incoming
    → whole_packet env request runt s ≡ process_packet env request runt s
unfolding whole_packet is_bare
whole_packet_lem env request runt s w = ground (arith, w.all_read, w.in_buffer, w.no_wrap)

pub process_packet_reply :
    (env : RecvEnv) (request : Option Request) (runt : Bool) (s : Server)
    → IsReply s.incoming.buffer
    → process_packet env request runt s ≡ process_reply env request runt s
unfolding process_packet
process_packet_reply env request runt s c = ground (arith, c)

pub after_processing_whole :
    (request : Option Request) (s : Server)
    → IsWhole s.incoming
    → after_processing request s ≡ out request (set_data_read 0 s)
unfolding after_processing
after_processing_whole request s w = ground (arith, w.all_read)

-- What the receiver asks for: the rest of the header, or else the rest of the packet.
abbrev pub missing : Server → ℕ
missing s =
    if ltb s.incoming.data_read 16
    then 16 - s.incoming.data_read
    else 16 + length_of s.incoming.buffer - s.incoming.data_read

-- The buffer is in bounds, and `read` gives `bytes`, no more than it is asked for, which make the
-- packet in the buffer whole.
pub record Completes (env : RecvEnv) (s : Server) (bytes : List ℕ) : Type 0 where
  pub bounded : IsBounded s.incoming
  pub came : bytes_read (env.read (missing s)) ≡ some bytes
  pub no_more : length bytes ≤ missing s
  pub whole : IsWhole (store_read bytes s).incoming

bytes_read-pos : (r : ReadResult) (bytes : List ℕ) → bytes_read r ≡ some bytes → 0 < length bytes
unfolding bytes_read
bytes_read-pos (got []) bytes h = cc
bytes_read-pos (got (b ∷ bs)) bytes h = ground (arith, h)
bytes_read-pos (interrupted r) bytes h = bytes_read-pos r bytes h
bytes_read-pos failed bytes h = cc

-- A write behind a byte leaves it.
get_or-write_at :
    (i at : ℕ) (d buf : List ℕ)
    → i < at
    → at ≤ length buf
    → get_or (write_at at d buf) i 0 ≡ get_or buf i 0
get_or-write_at i at d buf h k =
    get_or-append (take at buf) (d ++ drop (at + length d) buf) i 0
      (omega (arith, length-take at buf))
    ∙ get_or-take i at buf h
  where
    get_or-take : (i at : ℕ) (buf : List ℕ) → i < at → get_or (take at buf) i 0 ≡ get_or buf i 0
    get_or-take i zero buf h = absurd (omega arith)
    get_or-take i (suc at) [] h = refl
    get_or-take zero (suc at) (b ∷ buf) h = refl
    get_or-take (suc i) (suc at) (b ∷ buf) h = get_or-take i at buf (omega arith)

-- The header stays what it is when bytes come behind it.
pub record SameHeader (b c : List ℕ) : Type 0 where
  pub flags : flags_of b ≡ flags_of c
  pub requestid : requestid_of b ≡ requestid_of c
  pub error_code : error_of b ≡ error_of c
  pub packet_length : length_of b ≡ length_of c

pub store_read-SameHeader :
    (bytes : List ℕ) (s : Server)
    → IsBounded s.incoming
    → 16 ≤ s.incoming.data_read
    → SameHeader (store_read bytes s).incoming.buffer s.incoming.buffer
unfolding store_read count_received flags_of requestid_of error_of length_of be16_at be32_at
store_read-SameHeader bytes s b h = record {
  flags = kept 0 (omega arith);
  requestid = rw (kept 2 (omega arith), kept 3 (omega arith)) refl;
  error_code =
      rw (kept 4 (omega arith), kept 5 (omega arith), kept 6 (omega arith), kept 7 (omega arith))
        refl;
  packet_length =
      rw (kept 8 (omega arith), kept 9 (omega arith), kept 10 (omega arith), kept 11 (omega arith))
        refl;
}
  where
    kept :
        (i : ℕ)
        → i < 16
        → get_or (write_at s.incoming.data_read bytes s.incoming.buffer) i 0
          ≡ get_or s.incoming.buffer i 0
    kept i k =
        get_or-write_at i s.incoming.data_read bytes s.incoming.buffer (omega (arith, h))
          (omega (arith, b.whole, b.within))

-- A packet whose header completes it.
pub recv_bare :
    (env : RecvEnv) (s : Server) (bytes : List ℕ)
    → Completes env s bytes
    → ltb s.incoming.data_read 16 ≡ true
    → recv env s ≡ got_enough env (store_read bytes s)
unfolding recv recv_header is_bare store_read count_received
recv_bare env s bytes c h = rw (h, recv_header, came_header, bare) refl
  where
    came_header : bytes_read (env.read (header_size - s.incoming.data_read)) ≡ some bytes
    came_header = ap (λ (n : ℕ). bytes_read (env.read n)) (ground (arith, h)) ∙ c.came

    bare : is_bare (store_read bytes s) ≡ true
    bare = ground (arith, c.whole.all_read, c.no_more, h)

-- A packet whose payload ends with the read.
module _ (env : RecvEnv) (s : Server) (bytes : List ℕ) (c : Completes env s bytes)
    (h : ltb s.incoming.data_read 16 ≡ false) where
  packet_end : 16 + length_of s.incoming.buffer ≡ s.incoming.data_read + length bytes
  unfolding store_read count_received
  packet_end = omega (
    arith,
    c.whole.all_read,
    (store_read-SameHeader bytes s c.bounded (ground (arith, h))).packet_length,
  )

  came_rest :
      bytes_read (
        env.read (
          min
            (length_of s.incoming.buffer - (s.incoming.data_read - header_size))
            (s.incoming.bufsize - s.incoming.data_read)))
      ≡ some bytes
  unfolding store_read count_received
  came_rest =
      ap (λ (n : ℕ). bytes_read (env.read n)) (ground (arith, h, packet_end, c.whole.in_buffer))
      ∙ c.came

  some_bytes : 0 < length bytes
  some_bytes = bytes_read-pos (env.read (missing s)) bytes c.came

  filled :
      (request : Option Request) (runt : Bool)
      → whole_packet env request runt s ≡ (
          if runt
          then after_processing request (store_read bytes s)
          else process_packet env request runt (store_read bytes s))
  unfolding whole_packet is_bare
  filled request runt = rw (e1, e2, e3, e4, came_rest, e5) refl
    where
      e1 : (s.incoming.data_read == header_size && length_of s.incoming.buffer == 0) ≡ false
      e1 = ground (arith, h, packet_end, some_bytes)

      e2 :
          ltb ((s.incoming.bufsize + 2 ^ 64 - header_size) % 2 ^ 64) (length_of s.incoming.buffer)
          ≡ false
      e2 =
          unfold store_read count_received in
          ground (arith, h, packet_end, c.whole.in_buffer, c.whole.no_wrap)

      e3 : ltb (length_of s.incoming.buffer) (s.incoming.data_read - header_size) ≡ false
      e3 = ground (arith, h, packet_end)

      e4 : (length_of s.incoming.buffer == s.incoming.data_read - header_size) ≡ false
      e4 = ground (arith, h, packet_end, some_bytes)

      e5 :
          ltb
            (store_read bytes s).incoming.data_read
            (length_of (store_read bytes s).incoming.buffer + header_size)
          ≡ false
      e5 = ground (arith, c.whole.all_read)

  pub whole_packet_filled :
      (request : Option Request) (runt : Bool)
      → IsReply (store_read bytes s).incoming.buffer
      → whole_packet env request runt s ≡ process_reply env request runt (store_read bytes s)
  whole_packet_filled request true k = filled request true ∙ unfold process_reply in refl
  whole_packet_filled request false k =
      filled request false ∙ process_packet_reply env request false (store_read bytes s) k
