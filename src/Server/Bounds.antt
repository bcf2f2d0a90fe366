-- ===== src/Server/Bounds.antt =====
-- The receive buffer of `struct afp_server` in bounds.
use netatalk_client.Base.{◌≡◌, ◌≤◌, length}
use netatalk_client.Server.{Incoming}

pub record IsBounded (i : Incoming) : Type 0 where
  pub whole : length i.buffer ≡ i.bufsize
  pub within : i.data_read ≤ i.bufsize
  pub header_fits : 16 ≤ i.bufsize
