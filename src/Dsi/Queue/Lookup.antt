-- ===== src/Dsi/Queue/Lookup.antt =====
-- Requests found by their address, and what a write through a request's pointer changes.
use netatalk_client.Base.{ℕ, ◌≡◌, ◌≢◌, refl, some, List, [], ◌∷◌, arith}
use netatalk_client.Server.{Request}
use netatalk_client.Dsi.Queue.{find_request, request_at, update_request}
use netatalk_client.Dsi.Queue.Pending.{Distinct, Fresh}

-- A change of a request that is not its address.
abbrev pub Keeps : (Request → Request) → Type 0
Keeps f = (p : Request) → (f p).address ≡ p.address

pub request_at-update_request :
    (a : ℕ) (f : Request → Request) (ps : List Request) (p : Request)
    → Keeps f
    → request_at a ps ≡ some p
    → request_at a (update_request a f ps) ≡ some (f p)
unfolding request_at update_request
request_at-update_request a f [] p keep h = cc
request_at-update_request a f (q ∷ ps) p keep h =
    ground (arith, keep q, request_at-update_request a f ps p keep)

pub request_at-update_request_other :
    (a b : ℕ) (f : Request → Request) (ps : List Request)
    → Keeps f
    → a ≢ b
    → request_at b (update_request a f ps) ≡ request_at b ps
unfolding request_at update_request
request_at-update_request_other a b f [] keep ne = refl
request_at-update_request_other a b f (q ∷ ps) keep ne =
    ground (arith, keep q, request_at-update_request_other a b f ps keep ne)

Fresh-find_request :
    (id a : ℕ) (ps : List Request) (r : Request)
    → Fresh a ps
    → find_request id ps ≡ some r
    → r.address ≢ a
unfolding find_request
Fresh-find_request id a [] r f h = cc
Fresh-find_request id a (q ∷ ps) r (fq, f) h = ground (arith, fq, h, Fresh-find_request id a ps r f)

pub find_request-request_at :
    (id : ℕ) (ps : List Request) (r : Request)
    → Distinct ps
    → find_request id ps ≡ some r
    → request_at r.address ps ≡ some r
unfolding find_request request_at
find_request-request_at id [] r d h = cc
find_request-request_at id (q ∷ ps) r (fresh, d) h =
    ground (arith, h, find_request-request_at id ps r d, Fresh-find_request id q.address ps r fresh)
