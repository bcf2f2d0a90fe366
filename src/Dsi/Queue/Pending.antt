-- ===== src/Dsi/Queue/Pending.antt =====
-- The queue's invariant: `requests_pending` counts the queue, and no two requests share an address.
use netatalk_client.Base.{
  Option-cases, ◌⊎◌, ℕ, suc, ◌+◌, ◌^◌, ◌<◌, ◌≡◌, ◌≢◌, refl, sym, ap, ◌∙◌, ℤ, some, List, [], ◌∷◌,
  ◌++◌, map, arith, length, length-append, All, All-append, Bool-cases, inl, inr,
}
use netatalk_client.Server.{Server, Request}
use netatalk_client.Dsi.Queue.{
  taken_off, let_go, request_at, without, enqueue, remove_from_request_queue, flush_request_queue,
  fail_request_queue, failed_with,
}

abbrev pub Fresh : ℕ → List Request → Type 0
Fresh a = All (λ p. p.address ≢ a)

abbrev pub Distinct : List Request → Type 0
Distinct [] = Unit {0}
Distinct (p ∷ ps) = Fresh p.address ps × Distinct ps

pub record IsQueue (s : Server) : Type 0 where
  pub counted : s.stats.requests_pending ≡ length s.command_requests
  pub small : length s.command_requests < 2 ^ 64
  pub distinct : Distinct s.command_requests

length-without :
    (a : ℕ) (ps : List Request) (p : Request)
    → request_at a ps ≡ some p
    → length ps ≡ suc (length (without a ps))
unfolding request_at without
length-without a [] p h = cc
length-without a (q ∷ ps) p h = ground (arith, length-without a ps p)

Fresh-without : (b a : ℕ) (ps : List Request) → Fresh b ps → Fresh b (without a ps)
unfolding without
Fresh-without b a [] h = tt
Fresh-without b a (q ∷ ps) h = ground (arith, Fresh-without b a ps h.1)

Distinct-without : (a : ℕ) (ps : List Request) → Distinct ps → Distinct (without a ps)
unfolding without
Distinct-without a [] h = tt
Distinct-without a (q ∷ ps) h =
    ground (arith, Distinct-without a ps h.1, Fresh-without q.address a ps h.0)

Distinct-snoc :
    (r : Request) (ps : List Request) → Fresh r.address ps → Distinct ps → Distinct (ps ++ (r ∷ []))
Distinct-snoc r [] f d = (tt, tt)
Distinct-snoc r (q ∷ ps) (fq, f) (dq, d) = (
  All-append (λ p. p.address ≢ q.address) ps (r ∷ []) dq ((λ e. fq (sym e)), tt),
  Distinct-snoc r ps f d,
)

-- A change that keeps every address.
Fresh-map :
    (f : Request → Request)
    → ((p : Request) → (f p).address ≡ p.address)
    → (a : ℕ) (ps : List Request) → Fresh a ps
    → Fresh a (map f ps)
Fresh-map f keep a [] h = tt
Fresh-map f keep a (p ∷ ps) (hp, h) = (λ e. hp (sym (keep p) ∙ e), Fresh-map f keep a ps h)

Distinct-map :
    (f : Request → Request)
    → ((p : Request) → (f p).address ≡ p.address)
    → (ps : List Request) → Distinct ps
    → Distinct (map f ps)
Distinct-map f keep [] h = tt
Distinct-map f keep (p ∷ ps) (hp, h) =
    (rw (keep p) (Fresh-map f keep p.address ps hp), Distinct-map f keep ps h)

length-map_requests : (f : Request → Request) (ps : List Request) → length (map f ps) ≡ length ps
length-map_requests f [] = refl
length-map_requests f (p ∷ ps) = ap suc (length-map_requests f ps)

enqueue-IsQueue :
    (r : Request) (s : Server)
    → Fresh r.address s.command_requests
    → length s.command_requests + 1 < 2 ^ 64
    → IsQueue s
    → IsQueue (enqueue r s)
unfolding enqueue
enqueue-IsQueue r s f room q = record {
  counted = omega (arith, q.counted, length-append s.command_requests (r ∷ []));
  small = omega (arith, length-append s.command_requests (r ∷ []));
  distinct = Distinct-snoc r s.command_requests f q.distinct;
}

taken_off-IsQueue :
    (a : ℕ) (s : Server) (p : Request)
    → request_at a s.command_requests ≡ some p
    → IsQueue s
    → IsQueue (taken_off a s)
unfolding taken_off
taken_off-IsQueue a s p found q = record {
  counted = omega (arith, q.counted, q.small, length-without a s.command_requests p found);
  small = omega (arith, q.small, length-without a s.command_requests p found);
  distinct = Distinct-without a s.command_requests q.distinct;
}

let_go-IsQueue : (a : ℕ) (s : Server) → IsQueue s → IsQueue (let_go a s)
unfolding let_go
let_go-IsQueue a s q = record { counted = q.counted; small = q.small; distinct = q.distinct }

remove_cases :
    (a : ℕ) (s t : Server) (rc : ℤ)
    → remove_from_request_queue a s ≡ some (rc, t)
    → (((p : Request) × (request_at a s.command_requests ≡ some p)) × (t ≡ taken_off a s))
      ⊎ ((t ≡ let_go a s) ⊎ (t ≡ s))
unfolding remove_from_request_queue
remove_cases a s t rc h = elim (Option-cases (request_at a s.command_requests)) [
  | inl e ↦ inr (ground (arith, e, h))
  | inr (p, e) ↦ elim (Bool-cases s.still_valid) [
    | inl v ↦ inl ((p, e), ground (arith, e, h, v))
    | inr v ↦ inr (inr (ground (arith, e, h, v)))
  ]
]

remove-IsQueue :
    (a : ℕ) (s t : Server) (rc : ℤ)
    → remove_from_request_queue a s ≡ some (rc, t)
    → IsQueue s
    → IsQueue t
remove-IsQueue a s t rc h q = elim (remove_cases a s t rc h) [
  | inl ((p, found), e) ↦ rw e (taken_off-IsQueue a s p found q)
  | inr (inl e) ↦ rw e (let_go-IsQueue a s q)
  | inr (inr e) ↦ rw e q
]

flush-IsQueue : (s : Server) → IsQueue s → IsQueue (flush_request_queue s)
unfolding flush_request_queue
flush-IsQueue s q = elim (Bool-cases s.still_valid) [
  | inl v ↦
      rw v
        (record { counted = omega (arith, q.counted, q.small); small = omega arith; distinct = tt })
  | inr v ↦ simp v q
]

fail-IsQueue : (error : ℤ) (s : Server) → IsQueue s → IsQueue (fail_request_queue error s)
unfolding fail_request_queue
fail-IsQueue error s q = elim (Bool-cases s.still_valid) [
  | inl v ↦ simp v (record {
    counted = omega (arith, q.counted, length-map_requests (failed_with error) s.command_requests);
    small = omega (arith, q.small, length-map_requests (failed_with error) s.command_requests);
    distinct = Distinct-map (failed_with error) (λ p. refl) s.command_requests q.distinct;
  })
  | inr v ↦ simp v q
]

-- The critical sections in which the code changes the queue. `malloc` gives a new request an address
-- that no queued one has.
pub data QueueStep : Server → Server → Type 0 where
  added :
      (r : Request) (s : Server)
      → Fresh r.address s.command_requests
      → length s.command_requests + 1 < 2 ^ 64
      → QueueStep s (enqueue r s)
  removed :
      (a : ℕ) (s t : Server) (rc : ℤ) → remove_from_request_queue a s ≡ some (rc, t) → QueueStep s t
  flushed_all : (s : Server) → QueueStep s (flush_request_queue s)
  failed_all : (error : ℤ) (s : Server) → QueueStep s (fail_request_queue error s)

pub data QueueRun (s : Server) : Server → Type 0 where
  here : QueueRun s s
  next : {t u : Server} → QueueRun s t → QueueStep t u → QueueRun s u

step-IsQueue : {s t : Server} → QueueStep s t → IsQueue s → IsQueue t
step-IsQueue (added r s f room) q = enqueue-IsQueue r s f room q
step-IsQueue (removed a s t rc h) q = remove-IsQueue a s t rc h q
step-IsQueue (flushed_all s) q = flush-IsQueue s q
step-IsQueue (failed_all error s) q = fail-IsQueue error s q

-- If `requests_pending` is the number of queued requests and no two of them share an address, the same
-- holds after any run of requests being added, removed, flushed and failed, in any order.
pub run-IsQueue : (s t : Server) → IsQueue s → QueueRun s t → IsQueue t
run-IsQueue s t q here = q
run-IsQueue s t q (next r st) = step-IsQueue st (run-IsQueue s _ q r)
