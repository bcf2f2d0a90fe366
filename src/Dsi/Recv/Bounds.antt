-- ===== src/Dsi/Recv/Bounds.antt =====
-- The receiver never writes past its buffer, whatever the server sends and however it is cut up.
use netatalk_client.Base.{
  ℕ, ◌+◌, ◌-◌, ◌%◌, ◌^◌, ◌≤◌, ◌<◌, ◌≡◌, refl, arith, ℤ, true, false, Option, none, some, List, ◌==◌,
  ltb, if◌then◌else◌, length, Bool-cases, Option-cases, inl, inr, int32,
}
use netatalk_client.Server.Bounds.{IsBounded}
use netatalk_client.Server.{Server, Request, RxBuffer}
use netatalk_client.Dsi.Header.{error_of, flags_of, requestid_of, header_size, length_of}
use netatalk_client.Dsi.Queue.{find_request}
use netatalk_client.Dsi.Recv.{
  recv_header, recv, set_return_code, matched, count_runt, grow, answers, match_request, rx_buffer,
  grow_request, dispatch, read_complete, read_data, got_enough, whole_packet,
}
use netatalk_client.Dsi.Recv.Buffer.{
  is_read, RecvEnv, bytes_read, store_read, count_received, set_data_read, change_request, is_bare,
  again, stop,
}
use netatalk_client.Dsi.Recv.Outcomes.{
  IsSound, store_read-IsBounded, set_data_read-IsBounded, out-Leaves, Leaves,
}
use netatalk_client.Dsi.Recv.Packet.{bytes_read-length, whole_packet-Leaves}

-- The header of a read has nothing behind it.
read_complete-Leaves :
    (env : RecvEnv) (r : Request) (s : Server)
    → IsBounded s.incoming
    → s.incoming.data_read ≤ 16
    → Leaves (read_complete env r s)
unfolding read_complete
read_complete-Leaves env r s b h = ground (
  arith,
  b,
  h,
  out-Leaves (some r) (set_data_read 0 s) (set_data_read-IsBounded 0 s (omega arith) b),
)

data_arrived-Leaves :
    (env : RecvEnv) (r : Request) (b : RxBuffer) (s : Server) (arrived : Option (List ℕ))
    → IsBounded s.incoming
    → s.incoming.data_read ≤ 16
    → Leaves (elim arrived [
      | none ↦ stop s
      | some bytes ↦
          let t = change_request r.address (grow_request bytes) (count_received (length bytes) s) in
          if length_of s.incoming.buffer == (grow bytes b).size
          then read_complete env (grow_request bytes r) t
          else again t
    ])
unfolding change_request count_received
data_arrived-Leaves env r b s none bounded h = bounded
data_arrived-Leaves env r b s (some bytes) bounded h = ground (
  arith,
  bounded,
  read_complete-Leaves env (grow_request bytes r)
      (change_request r.address (grow_request bytes) (count_received (length bytes) s)) bounded h,
)

abbrev asked : RxBuffer → Server → ℕ
asked b s =
    let newmax = (b.maxsize + 2 ^ 32 - b.size) % 2 ^ 32 in
    let left = (length_of s.incoming.buffer + 2 ^ 32 - b.size) % 2 ^ 32 in
    if ltb left newmax then left else newmax

read_data-Leaves :
    (env : RecvEnv) (r : Request) (s : Server)
    → IsBounded s.incoming
    → s.incoming.data_read ≤ 16
    → Leaves (read_data env r s)
unfolding read_data
read_data-Leaves env r s bounded h = elim (Option-cases (rx_buffer r)) [
  | inl e ↦ rw (read_data, e) tt
  | inr (b, e) ↦
      rw (read_data, e)
        (ground (
          arith,
          bounded,
          out-Leaves (some r) (set_data_read 0 s)
              (set_data_read-IsBounded 0 s (omega arith) bounded),
          data_arrived-Leaves env r b s (bytes_read (env.read (asked b s))) bounded h,
        ))
]

-- A read's reply is taken for what it is when its header has come, and before anything else has.
abbrev pub ReadsHeaderAlone : Server → Type 0
ReadsHeaderAlone s =
    (r : Request)
    → find_request (requestid_of s.incoming.buffer) s.command_requests ≡ some r
    → is_read r ≡ true
    → s.incoming.data_read ≤ 16

answered-Leaves :
    (env : RecvEnv) (r : Request) (s : Server)
    → IsSound env
    → IsBounded s.incoming
    → (is_read r ≡ true → s.incoming.data_read ≤ 16)
    → Leaves (dispatch env (answers r s))
unfolding dispatch
answered-Leaves env r s sound b h = elim (Bool-cases (is_read r)) [
  | inl e ↦ rw e (read_data-Leaves env r s b (h e))
  | inr e ↦ rw e (whole_packet-Leaves env (some r) false s sound b (λ q eq. cc))
]

none-no_read : (r : Request) → ◌≡◌ {A = Option Request} none (some r) → is_read r ≡ false
none-no_read r e = cc

matched-Leaves :
    (env : RecvEnv) (found : Option Request) (s : Server)
    → IsSound env
    → IsBounded s.incoming
    → ((r : Request) → found ≡ some r → is_read r ≡ true → s.incoming.data_read ≤ 16)
    → Leaves (dispatch env (matched found s))
unfolding matched count_runt dispatch whole_packet change_request set_return_code is_read
matched-Leaves env none s sound b h = elim (Bool-cases (flags_of s.incoming.buffer == 1)) [
  | inl e ↦ rw (e, dispatch) (whole_packet-Leaves env none true (count_runt s) sound b none-no_read)
  | inr e ↦ rw (e, dispatch) (whole_packet-Leaves env none false s sound b none-no_read)
]
matched-Leaves env (some r) s sound b h =
    elim (Bool-cases (r.connection_generation == s.connection_generation)) [
      | inl e ↦ simp e (
          answered-Leaves env (set_return_code rc r)
            (change_request r.address (set_return_code rc) s) sound b (h r refl))
      | inr e ↦
          simp (e, dispatch) (whole_packet-Leaves env none true (count_runt s) sound b none-no_read)
    ]
  where
    rc : ℤ
    rc = int32 (error_of s.incoming.buffer)

got_enough-Leaves :
    (env : RecvEnv) (s : Server)
    → IsSound env
    → IsBounded s.incoming
    → ReadsHeaderAlone s
    → Leaves (got_enough env s)
unfolding got_enough match_request
got_enough-Leaves env s sound b h = matched-Leaves env _ s sound b h

bare-short : (s : Server) → is_bare s ≡ true → s.incoming.data_read ≤ 16
unfolding is_bare
bare-short s h = ground arith

header-Leaves :
    (env : RecvEnv) (s : Server) (bytes : List ℕ)
    → IsSound env
    → IsBounded (store_read bytes s).incoming
    → Leaves (
        if is_bare (store_read bytes s)
        then got_enough env (store_read bytes s)
        else again (store_read bytes s))
header-Leaves env s bytes sound b = elim (Bool-cases (is_bare (store_read bytes s))) [
  | inl e ↦ rw e (
      got_enough-Leaves env (store_read bytes s) sound b
        (λ r found read. bare-short (store_read bytes s) e))
  | inr e ↦ rw e b
]

recv_header-Leaves :
    (env : RecvEnv) (s : Server)
    → IsSound env
    → IsBounded s.incoming
    → s.incoming.data_read < 16
    → Leaves (recv_header env s)
unfolding recv_header
recv_header-Leaves env s sound b h =
    elim (Option-cases (bytes_read (env.read (header_size - s.incoming.data_read)))) [
      | inl e ↦ rw (e, recv_header) b
      | inr (bytes, e) ↦
          rw (e, recv_header)
            (header-Leaves env s bytes sound (
              store_read-IsBounded bytes s
                (omega (
                  arith,
                  h,
                  b.header_fits,
                  sound.reads (header_size - s.incoming.data_read),
                  bytes_read-length (env.read (header_size - s.incoming.data_read)) bytes e,
                ))
                b))
    ]

-- One call of the receiver, whatever arrives: if the receive buffer is an array of `bufsize` bytes,
-- `bufsize` is 16 or more and `data_read` is at most `bufsize`, then the same holds of every server
-- that the call leaves, whether it returns 0 or -1 or waits. It takes for granted that `read` gives
-- no more than it is asked for, that a reconnection keeps these bounds, and that the reply to an
-- afpRead or afpReadExt is found with nothing behind its header.
pub recv-IsBounded :
    (env : RecvEnv) (s : Server)
    → IsSound env
    → IsBounded s.incoming
    → ReadsHeaderAlone s
    → Leaves (recv env s)
unfolding recv
recv-IsBounded env s sound b h =
    ground (arith, recv_header-Leaves env s sound b, got_enough-Leaves env s sound b h)
