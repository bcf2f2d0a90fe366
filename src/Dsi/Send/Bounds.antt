-- ===== src/Dsi/Send/Bounds.antt =====
-- What a sender does to the receive buffer: nothing but what a reconnection does.
use netatalk_client.Base.{
  is_negative, ℕ, ◌+◌, ◌%◌, ◌^◌, ◌≡◌, arith, ℤ, negsuc, Bool, true, false, Option, none, some, [],
  length, Bool-cases, Option-cases, inl, inr,
}
use netatalk_client.Server.Bounds.{IsBounded}
use netatalk_client.Server.{disconnected, Server}
use netatalk_client.Dsi.Header.{setup_header}
use netatalk_client.Dsi.Queue.{enqueue, remove_from_request_queue}
use netatalk_client.Dsi.Send.{
  tickle_message, tickle_command, new_request, with_length, timeout_of, write_loop, write_error,
  peer_closed, complete, return_code_at, WriteEnd, SendEnv, Submit, returned, submitted, writing,
  freed, Message, submit, submit_if, submit_on, ensure_connected, after_write, finish,
  remove_and_return, send_tickle,
}

-- Taking a request off the queue leaves the buffer alone.
pub remove-incoming :
    (a : ℕ) (s t : Server) (rc : ℤ)
    → remove_from_request_queue a s ≡ some (rc, t)
    → t.incoming ≡ s.incoming
unfolding remove_from_request_queue
remove-incoming a s t rc h = ground arith

-- A reconnection keeps the buffer in bounds.
abbrev pub Reconnects : SendEnv → Type 0
Reconnects env = (s : Server) → IsBounded s.incoming → IsBounded (env.reconnect s).1.incoming

-- Every server that a sender leaves has its buffer in bounds.
abbrev pub Sends : Submit → Type 0
Sends (returned rc s) = IsBounded s.incoming
Sends (submitted a s) = IsBounded s.incoming
Sends (writing a s) = IsBounded s.incoming
Sends freed = Unit {0}

remove_and_return-Sends :
    (rc : ℤ) (a : ℕ) (s : Server) → IsBounded s.incoming → Sends (remove_and_return rc a s)
unfolding remove_and_return
remove_and_return-Sends rc a s b = elim (Option-cases (remove_from_request_queue a s)) [
  | inl e ↦ rw (e, remove_and_return) tt
  | inr ((_, t), e) ↦ rw (e, remove_and_return) (rw (remove-incoming a s t _ e) b)
]

finish-Sends : (a : ℕ) (s : Server) → IsBounded s.incoming → Sends (finish a s)
unfolding finish
finish-Sends a s b = elim (Option-cases (return_code_at a s)) [
  | inl e ↦ rw (e, finish) tt
  | inr (rc, e) ↦ rw (e, finish) (remove_and_return-Sends rc a s b)
]

after_write-Sends :
    (a : ℕ) (wait : ℤ) (size : ℕ) (e : WriteEnd) (s : Server)
    → IsBounded s.incoming
    → Sends (after_write a wait size e s)
unfolding after_write
after_write-Sends a wait size (complete sent) s b = ground (
  arith,
  b,
  finish-Sends a
      (record s { stats = record s.stats { tx_bytes = (s.stats.tx_bytes + size) % 2 ^ 64 } }) b,
)
after_write-Sends a wait size (peer_closed sent) s b =
    remove_and_return-Sends (negsuc 0) a (record s { connect_state = disconnected }) b
after_write-Sends a wait size (write_error sent) s b = remove_and_return-Sends (negsuc 0) a s b
after_write-Sends a wait size (WriteEnd.blocked sent) s b = b

addressed-Sends :
    (env : SendEnv) (m : Message) (wait : ℤ) (s : Server) (address : Option ℕ)
    → IsBounded s.incoming
    → Sends (elim address [
      | none ↦ returned (negsuc 0) s
      | some a ↦
          after_write a wait
            (length m.message)
            (write_loop [] (with_length m.message) env.writes)
            (enqueue (new_request a m wait s) s)
    ])
unfolding enqueue
addressed-Sends env m wait s none b = b
addressed-Sends env m wait s (some a) b = after_write-Sends a wait (length m.message) _ _ b

submit_on-Sends :
    (env : SendEnv) (m : Message) (wait : ℤ) (s : Server)
    → IsBounded s.incoming
    → Sends (submit_on env m wait s)
unfolding submit_on
submit_on-Sends env m wait s b = elim (Bool-cases (is_negative s.fd)) [
  | inl e ↦ simp e b
  | inr e ↦ simp e (addressed-Sends env m wait s env.address b)
]

submit_if-Sends :
    (env : SendEnv) (m : Message) (wait : ℤ) (p : Bool × Server)
    → IsBounded p.1.incoming
    → Sends (submit_if env m wait p)
unfolding submit_if
submit_if-Sends env m wait (true, t) b = submit_on-Sends env m wait t b
submit_if-Sends env m wait (false, t) b = b

ensure_connected-IsBounded :
    (env : SendEnv) (s : Server)
    → Reconnects env
    → IsBounded s.incoming
    → IsBounded (ensure_connected env s).1.incoming
unfolding ensure_connected
ensure_connected-IsBounded env s reconnects b = ground (arith, b, reconnects s b)

submit-Sends :
    (env : SendEnv) (m : Message) (s : Server)
    → Reconnects env
    → IsBounded s.incoming
    → Sends (submit env m s)
unfolding submit
submit-Sends env m s reconnects b = elim (Bool-cases s.still_valid) [
  | inl e ↦ simp e (
      submit_if-Sends env m (timeout_of s m.wait) (ensure_connected env s)
        (ensure_connected-IsBounded env s reconnects b))
  | inr e ↦ simp e b
]

pub send_tickle-Sends :
    (env : SendEnv) (s : Server) → Reconnects env → IsBounded s.incoming → Sends (send_tickle env s)
unfolding send_tickle
send_tickle-Sends env s reconnects b =
    let (ids, h) = setup_header s.ids tickle_command in
    submit-Sends env (tickle_message h) (record s { ids = ids }) reconnects b
