-- ===== src/Server.antt =====
-- lib/afp_internal.h, lib/dsi.h: `struct afp_server`, `struct dsi_request` and
-- `struct afp_rx_buffer`, the state that the DSI layer and the event loop work on.
-- A request's `address` is its pointer. A mutex, a condition variable and the list links of a
-- request have no field: the queue is a list, and each step below is one critical section.
pub mod Bounds
pub mod Samples
use netatalk_client.Base.{ℕ, ℤ, Bool, true, false, Option, none, some, List}

pub data ConnectState : Type 0 where
  connected disconnected connecting : ConnectState

-- `bytes` is what has been read into `data`, `size` bytes of `maxsize`.
pub record RxBuffer : Type 0 where
  pub size : ℕ
  pub maxsize : ℕ
  pub bytes : List ℕ

-- `other` is the caller's buffer of an afpRead or afpReadExt, and `none` where it is NULL.
-- `reply_handler` names the handler that the caller gave, if any.
pub record Request : Type 0 where
  pub address : ℕ
  pub requestid : ℕ
  pub subcommand : ℕ
  pub other : Option RxBuffer
  pub wait : ℤ
  pub done_waiting : Bool
  pub ignore_replies : Bool
  pub return_code : ℤ
  pub connection_generation : ℕ
  pub reply_handler : Option ℕ
  pub stream_buffer : Option RxBuffer

pub record Stats : Type 0 where
  pub runt_packets : ℕ
  pub rx_bytes : ℕ
  pub tx_bytes : ℕ
  pub requests_pending : ℕ

-- The receive buffer holds `bufsize` bytes, of which the first `data_read` belong to the packet that
-- is being received.
pub record Incoming : Type 0 where
  pub buffer : List ℕ
  pub data_read : ℕ
  pub bufsize : ℕ

-- The request ids, and what the server said of its replay cache.
pub record RequestIds : Type 0 where
  pub lastrequestid : ℕ
  pub expectedrequestid : ℕ
  pub supports_replay_cache : Bool
  pub replay_cache_size : ℕ

-- What the server's status reply says of it. Each text is the whole array of the C struct.
pub record Status : Type 0 where
  pub machine_type : List ℕ
  pub versions : List ℕ
  pub supported_uams : ℕ
  pub icon : List ℕ
  pub flags : ℕ
  pub server_name : List ℕ
  pub signature : List ℕ
  pub server_name_utf8 : List ℕ
  pub server_name_printable : List ℕ

-- The argument of a thread that was started for an attention packet.
pub record AttentionContext : Type 0 where
  pub generation : ℕ
  pub packet : List ℕ

-- `detached` holds the requests that a flush took off the queue and whose sender has not yet come
-- back. `attentions` are the threads started for attention packets, oldest first. `dtrefnums` has
-- the `dtrefnum` of each volume. `still_valid` says whether the server list holds this server.
pub record Server : Type 0 where
  pub incoming : Incoming
  pub ids : RequestIds
  pub stats : Stats
  pub status : Status
  pub command_requests : List Request
  pub detached : List Request
  pub attentions : List AttentionContext
  pub dtrefnums : List ℕ
  pub connection_generation : ℕ
  pub connect_state : ConnectState
  pub fd : ℤ
  pub tx_quantum : ℕ
  pub attention_len : ℕ
  pub attention_quantum : ℕ
  pub dsi_default_timeout : ℤ
  pub need_resume : Bool
  pub suspended : Bool
  pub reconnect_in_progress : Bool
  pub still_valid : Bool
