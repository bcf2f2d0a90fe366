-- ===== src/Dsi/Queue.antt =====
-- The request queue of lib/dsi.c: finding, adding, removing, flushing and failing requests.
pub mod Lookup
pub mod Pending
mod Tests
use netatalk_client.Base.{
  ℕ, ℤ, pos, negsuc, ◌+◌, ◌-◌, ◌%◌, ◌^◌, Bool, true, false, Option, none, some, List, [], ◌∷◌, ◌++◌,
  map, ◌==◌, if◌then◌else◌, not, ◌&&◌, length,
}
use netatalk_client.Server.{Server, Request, Stats}

-- -EIO on Linux
abbrev pub minus_eio : ℤ
minus_eio = negsuc 4

-- `afpc_dsi_find_request`: the first live request with this id.
unfoldable pub find_request : ℕ → List Request → Option Request
find_request id [] = none
find_request id (p ∷ ps) =
    if not p.ignore_replies && id == p.requestid then some p else find_request id ps

-- The request at an address.
unfoldable pub request_at : ℕ → List Request → Option Request
request_at a [] = none
request_at a (p ∷ ps) = if p.address == a then some p else request_at a ps

unfoldable pub without : ℕ → List Request → List Request
without a [] = []
without a (p ∷ ps) = let rest = without a ps in if p.address == a then ps else p ∷ rest

-- A write through a request's pointer.
unfoldable pub update_request : ℕ → (Request → Request) → List Request → List Request
update_request a f [] = []
update_request a f (p ∷ ps) =
    let rest = update_request a f ps in if p.address == a then f p ∷ ps else p ∷ rest

-- `requests_pending--` and `++` on a uint64_t.
unfoldable pub fewer_pending : ℕ → Stats → Stats
fewer_pending n st = record st { requests_pending = (st.requests_pending + 2 ^ 64 - n) % 2 ^ 64 }

unfoldable pub enqueue : Request → Server → Server
enqueue r s = record s {
  command_requests = s.command_requests ++ (r ∷ []);
  stats = record s.stats { requests_pending = (s.stats.requests_pending + 1) % 2 ^ 64 };
}

-- The two ways in which a request is freed.
unfoldable pub taken_off : ℕ → Server → Server
unfolding without fewer_pending
taken_off a s = record s {
  command_requests = without a s.command_requests;
  stats = fewer_pending 1 s.stats;
}

unfoldable pub let_go : ℕ → Server → Server
unfolding without
let_go a s = record s { detached = without a s.detached }

-- `afpc_dsi_remove_from_request_queue`. `none` is a use of freed memory: the request stands neither
-- in the queue nor among those that a flush took off it.
unfoldable pub remove_from_request_queue : ℕ → Server → Option (ℤ × Server)
unfolding request_at taken_off let_go
remove_from_request_queue a s =
    if s.still_valid
    then (elim (request_at a s.command_requests) [
      | some p ↦ some (pos 0, taken_off a s)
      | none ↦ elim (request_at a s.detached) [
        | none ↦ none
        | some p ↦ if p.ignore_replies then some (pos 0, let_go a s) else some (negsuc 0, s)
      ]
    ])
    else some (negsuc 0, s)

-- What a flush leaves in each request.
unfoldable pub flushed : Request → Request
flushed p = record p { ignore_replies = true; return_code = minus_eio; done_waiting = true }

unfoldable pub flush_request_queue : Server → Server
unfolding flushed fewer_pending
flush_request_queue s =
    if s.still_valid
    then record s {
      command_requests = [];
      detached = s.detached ++ map flushed s.command_requests;
      stats = fewer_pending (length s.command_requests) s.stats;
    }
    else s

unfoldable pub failed_with : ℤ → Request → Request
failed_with error p = record p { return_code = error; done_waiting = true }

unfoldable pub fail_request_queue : ℤ → Server → Server
unfolding failed_with
fail_request_queue error s =
    if s.still_valid
    then record s { command_requests = map (failed_with error) s.command_requests }
    else s
