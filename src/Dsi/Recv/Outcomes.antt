-- ===== src/Dsi/Recv/Outcomes.antt =====
-- The receive buffer stays in bounds through the steps that fill, shift and empty it.
use netatalk_client.Base.{
  ℕ, ◌+◌, ◌-◌, ◌%◌, ◌^◌, ◌≤◌, ◌≡◌, arith, is_zero, Option, none, some, List, ◌++◌, length,
  length-append, length-take, length-drop, take, drop, write_at, Bool-cases, Option-cases, inl, inr,
}
use netatalk_client.Server.Bounds.{IsBounded}
use netatalk_client.Dsi.Send.Bounds.{remove-incoming, Reconnects}
use netatalk_client.Server.{Server, Request}
use netatalk_client.Dsi.Header.{header_size, length_of}
use netatalk_client.Dsi.Queue.{remove_from_request_queue}
use netatalk_client.Dsi.Recv.Buffer.{
  interrupted, got, ReadResult, failed, RecvEnv, Outcome, fault, store_read, count_received,
  set_data_read, shift_buffer, change_request, out, after_processing, again, stop, blocked,
}

-- Every server that an outcome leaves has its buffer in bounds.
abbrev pub Leaves : Outcome → Type 0
Leaves (again s) = IsBounded s.incoming
Leaves (stop s) = IsBounded s.incoming
Leaves (blocked s) = IsBounded s.incoming
Leaves fault = Unit {0}

abbrev pub read_length : ReadResult → ℕ
read_length (got bytes) = length bytes
read_length (interrupted r) = read_length r
read_length failed = 0

-- The system gives no more than it is asked for, and a reconnection keeps the buffer in bounds.
pub record IsSound (env : RecvEnv) : Type 0 where
  pub reads : (n : ℕ) → read_length (env.read n) ≤ n
  pub reconnects : Reconnects env.tickle

pub length-write_at :
    {A : Type 0} (at : ℕ) (bytes buf : List A)
    → at + length bytes ≤ length buf
    → length (write_at at bytes buf) ≡ length buf
length-write_at at bytes buf h = omega (
  arith,
  length-append (take at buf) (bytes ++ drop (at + length bytes) buf),
  length-append bytes (drop (at + length bytes) buf),
  length-take at buf,
  length-drop (at + length bytes) buf,
)

pub store_read-IsBounded :
    (bytes : List ℕ) (s : Server)
    → s.incoming.data_read + length bytes ≤ s.incoming.bufsize
    → IsBounded s.incoming
    → IsBounded (store_read bytes s).incoming
unfolding store_read count_received
store_read-IsBounded bytes s h b = record {
  whole = omega (arith, b.whole, length-write_at s.incoming.data_read bytes s.incoming.buffer);
  within = h;
  header_fits = b.header_fits;
}

pub shift_buffer-IsBounded :
    (from n : ℕ) (s : Server)
    → n ≤ s.incoming.bufsize
    → IsBounded s.incoming
    → IsBounded (shift_buffer from n s).incoming
unfolding shift_buffer
shift_buffer-IsBounded from n s h b = record {
  whole = omega (
    arith,
    b.whole,
    length-take n (drop from s.incoming.buffer),
    length-write_at 0 (take n (drop from s.incoming.buffer)) s.incoming.buffer,
  );
  within = h;
  header_fits = b.header_fits;
}

pub set_data_read-IsBounded :
    (n : ℕ) (s : Server)
    → n ≤ s.incoming.bufsize
    → IsBounded s.incoming
    → IsBounded (set_data_read n s).incoming
unfolding set_data_read
set_data_read-IsBounded n s h b = record {
  whole = b.whole;
  within = h;
  header_fits = b.header_fits;
}

pub out_removed :
    (a : ℕ) (s : Server)
    → IsBounded s.incoming
    → Leaves (elim (remove_from_request_queue a s) [ none ↦ fault | some (_, t) ↦ again t ])
out_removed a s b = elim (Option-cases (remove_from_request_queue a s)) [
  | inl e ↦ rw e tt
  | inr ((rc, t), e) ↦ rw e (rw (remove-incoming a s t rc e) b)
]

pub out-Leaves :
    (request : Option Request) (s : Server) → IsBounded s.incoming → Leaves (out request s)
unfolding out change_request
out-Leaves none s b = b
out-Leaves (some r) s b = elim (Bool-cases (is_zero r.wait)) [
  | inl z ↦ rw z (out_removed r.address s b)
  | inr z ↦ rw z b
]

pub shifted-Leaves :
    (n : ℕ) (request : Option Request) (s : Server)
    → IsBounded s.incoming
    → Leaves (out request (shift_buffer n (s.incoming.data_read - n) s))
shifted-Leaves n request s b =
    out-Leaves request (shift_buffer n (s.incoming.data_read - n) s)
      (shift_buffer-IsBounded n (s.incoming.data_read - n) s (omega (arith, b.within)) b)

pub after_processing-Leaves :
    (request : Option Request) (s : Server)
    → IsBounded s.incoming
    → Leaves (after_processing request s)
unfolding after_processing
after_processing-Leaves request s b = ground (
  arith,
  out-Leaves request (set_data_read 0 s) (set_data_read-IsBounded 0 s (omega arith) b),
  shifted-Leaves ((length_of s.incoming.buffer + header_size) % 2 ^ 32) request s b,
  b,
)
