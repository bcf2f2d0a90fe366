-- ===== src/Dsi/Send/Resumed.antt =====
-- What a sender returns when a request was flushed, failed or answered while it waited.
use netatalk_client.Base.{ℕ, ◌≡◌, arith, true, some}
use netatalk_client.Server.{Server, Request}
use netatalk_client.Dsi.Queue.{request_at, taken_off, remove_from_request_queue}
use netatalk_client.Dsi.Send.{returned, finish, return_code_at, remove_and_return}

pub finish_queued :
    (s : Server) (a : ℕ) (p : Request)
    → s.still_valid ≡ true
    → request_at a s.command_requests ≡ some p
    → finish a s ≡ returned p.return_code (taken_off a s)
unfolding finish return_code_at remove_and_return remove_from_request_queue
finish_queued s a p valid found = ground (arith, valid, found)
