-- ===== src/Dsi/Recv/Packet.antt =====
-- The receive buffer stays in bounds through the handling of a packet that is no answer to a read.
use netatalk_client.Base.{
  ℕ, ◌+◌, ◌-◌, ◌≤◌, ◌≡◌, refl, arith, min, ℤ, Bool, true, false, Option, none, some, List, [], ◌∷◌,
  ltb, if◌then◌else◌, length, Option-cases, inl, inr,
}
use netatalk_client.Server.Bounds.{IsBounded}
use netatalk_client.Dsi.Send.Bounds.{Sends, send_tickle-Sends}
use netatalk_client.Server.{Server, Request}
use netatalk_client.Loop.{loop_disconnect, disconnect_live}
use netatalk_client.Dsi.Header.{header_size, length_of}
use netatalk_client.Dsi.Queue.{fail_request_queue}
use netatalk_client.Dsi.Session.{opensession_reply, set_terms}
use netatalk_client.Dsi.Status.{getstatus_reply, Printable}
use netatalk_client.Dsi.Send.{Submit, returned, submitted, writing, freed, send_tickle}
use netatalk_client.Dsi.Recv.{
  start_attention, whole_packet, process_attention, process_reply, process_packet, command_reply,
  note_result, record_result, process_tickle, reply_result, opensession_reply, getstatus_reply,
}
use netatalk_client.Dsi.Recv.Buffer.{
  is_read, interrupted, got, ReadResult, failed, RecvEnv, fault, bytes_read, store_read,
  change_request, after_processing, again, stop,
}
use netatalk_client.Dsi.Recv.Outcomes.{
  IsSound, store_read-IsBounded, after_processing-Leaves, Leaves, read_length,
}

pub bytes_read-length :
    (r : ReadResult) (bytes : List ℕ) → bytes_read r ≡ some bytes → length bytes ≤ read_length r
unfolding bytes_read
bytes_read-length (got []) bytes h = cc
bytes_read-length (got (b ∷ bs)) bytes h = ground (arith, h)
bytes_read-length (interrupted r) bytes h = bytes_read-length r bytes h
bytes_read-length failed bytes h = cc

pub opensession_reply-incoming : (s : Server) → (opensession_reply s).incoming ≡ s.incoming
unfolding opensession_reply set_terms
opensession_reply-incoming s = refl

pub getstatus_reply-incoming :
    (printable : Printable) (s t : Server)
    → getstatus_reply printable s ≡ some t
    → t.incoming ≡ s.incoming
unfolding getstatus_reply
getstatus_reply-incoming printable s t h = ground arith

pub loop_disconnect-IsBounded :
    (s : Server) → IsBounded s.incoming → IsBounded (loop_disconnect s).incoming
unfolding loop_disconnect disconnect_live fail_request_queue
loop_disconnect-IsBounded s b = ground (arith, b)

pub loop_disconnected-Leaves :
    (request : Option Request) (s : Server)
    → IsBounded s.incoming
    → Leaves (after_processing request (loop_disconnect s))
loop_disconnected-Leaves request s b =
    after_processing-Leaves request (loop_disconnect s) (loop_disconnect-IsBounded s b)

pub status-Leaves :
    (printable : Printable) (request : Option Request) (s : Server)
    → IsBounded s.incoming
    → Leaves
        (elim (getstatus_reply printable s) [ none ↦ fault | some t ↦ after_processing request t ])
status-Leaves printable request s b = elim (Option-cases (getstatus_reply printable s)) [
  | inl e ↦ rw e tt
  | inr (t, e) ↦
      rw e (after_processing-Leaves request t (rw (getstatus_reply-incoming printable s t e) b))
]

pub process_tickle-Leaves :
    (env : RecvEnv) (request : Option Request) (r : Submit)
    → Sends r
    → Leaves (process_tickle env request r)
unfolding process_tickle
process_tickle-Leaves env request (returned rc t) b = after_processing-Leaves request t b
process_tickle-Leaves env request (submitted a t) b = after_processing-Leaves request t b
process_tickle-Leaves env request (writing a t) b = b
process_tickle-Leaves env request freed b = tt

-- Nothing of a handler changes the buffer, if the request is no read.
pub record_result-Leaves :
    (r : Request) (result : Option (ℤ × Server)) (s : Server)
    → IsBounded s.incoming
    → ((rc : ℤ) (t : Server) → result ≡ some (rc, t) → t.incoming ≡ s.incoming)
    → Leaves (record_result r result)
unfolding record_result change_request
record_result-Leaves r none s b h = tt
record_result-Leaves r (some (rc, t)) s b h =
    after_processing-Leaves (some r) (change_request r.address (note_result rc) t)
      (rw (h rc t refl) b)

pub reply_result-incoming :
    (env : RecvEnv) (r : Request) (s t : Server) (rc : ℤ)
    → is_read r ≡ false
    → reply_result env r s ≡ some (rc, t)
    → t.incoming ≡ s.incoming
unfolding reply_result command_reply
reply_result-incoming env r s t rc no_read h = ground arith

pub process_reply-Leaves :
    (env : RecvEnv) (request : Option Request) (runt : Bool) (s : Server)
    → IsBounded s.incoming
    → ((r : Request) → request ≡ some r → is_read r ≡ false)
    → Leaves (process_reply env request runt s)
unfolding process_reply
process_reply-Leaves env request true s b h = after_processing-Leaves request s b
process_reply-Leaves env none false s b h = tt
process_reply-Leaves env (some r) false s b h =
    record_result-Leaves r (reply_result env r s) s b
      (λ rc t e. reply_result-incoming env r s t rc (h r refl) e)

pub start_attention-incoming : (b : Bool) (s : Server) → (start_attention b s).incoming ≡ s.incoming
unfolding start_attention
start_attention-incoming true s = refl
start_attention-incoming false s = refl

pub process_attention-Leaves :
    (env : RecvEnv) (request : Option Request) (s : Server)
    → IsBounded s.incoming
    → Leaves (process_attention env request s)
unfolding process_attention
process_attention-Leaves env request s b = ground (
  arith,
  b,
  after_processing-Leaves request (start_attention env.thread_started s)
      (rw (start_attention-incoming env.thread_started s) b),
)

pub process_packet-Leaves :
    (env : RecvEnv) (request : Option Request) (runt : Bool) (s : Server)
    → IsSound env
    → IsBounded s.incoming
    → ((r : Request) → request ≡ some r → is_read r ≡ false)
    → Leaves (process_packet env request runt s)
unfolding process_packet
process_packet-Leaves env request runt s sound b h = ground (
  arith,
  b,
  loop_disconnected-Leaves request s b,
  status-Leaves env.printable request s b,
  after_processing-Leaves request (opensession_reply s) (rw (opensession_reply-incoming s) b),
  process_tickle-Leaves env request (send_tickle env.tickle s)
      (send_tickle-Sends env.tickle s sound.reconnects b),
  process_reply-Leaves env request runt s b h,
  process_attention-Leaves env request s b,
)

pub filled-Leaves :
    (env : RecvEnv) (request : Option Request) (runt : Bool) (s : Server) (n : ℕ)
    → IsSound env
    → IsBounded s.incoming
    → n ≤ s.incoming.bufsize - s.incoming.data_read
    → ((r : Request) → request ≡ some r → is_read r ≡ false)
    → Leaves (elim (bytes_read (env.read n)) [
      | none ↦ stop s
      | some bytes ↦
          let t = store_read bytes s in
          if ltb t.incoming.data_read (length_of t.incoming.buffer + header_size)
          then again t
          else if runt
          then after_processing request t
          else process_packet env request runt t
    ])
filled-Leaves env request runt s n sound b h no_read =
    elim (Option-cases (bytes_read (env.read n))) [
      | inl e ↦ rw e b
      | inr (bytes, e) ↦ rw e (
          let c : IsBounded (store_read bytes s).incoming =
            store_read-IsBounded bytes s
              (omega (arith, h, b.within, sound.reads n, bytes_read-length (env.read n) bytes e))
              b in
          ground (
            arith,
            c,
            after_processing-Leaves request (store_read bytes s) c,
            process_packet-Leaves env request runt (store_read bytes s) sound c no_read,
          ))
    ]

pub whole_packet-Leaves :
    (env : RecvEnv) (request : Option Request) (runt : Bool) (s : Server)
    → IsSound env
    → IsBounded s.incoming
    → ((r : Request) → request ≡ some r → is_read r ≡ false)
    → Leaves (whole_packet env request runt s)
unfolding whole_packet
whole_packet-Leaves env request runt s sound b no_read = ground (
  arith,
  b,
  process_packet-Leaves env request runt s sound b no_read,
  filled-Leaves env request runt s
      (min (length_of s.incoming.buffer - (s.incoming.data_read - header_size))
        (s.incoming.bufsize - s.incoming.data_read))
      sound b (omega arith) no_read,
)
