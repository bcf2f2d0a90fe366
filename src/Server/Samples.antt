-- ===== src/Server/Samples.antt =====
-- Servers, requests and a packet for the tests.
use netatalk_client.Base.{ℕ, pos, true, false, none, some, List, [], ◌∷◌, length}
use netatalk_client.Server.{Server, Request, connected}

abbrev pub waiting : Request
waiting = record {
  address = 1;
  requestid = 7;
  subcommand = 23;
  other = none;
  wait = pos 5;
  done_waiting = false;
  ignore_replies = false;
  return_code = pos 0;
  connection_generation = 3;
  reply_handler = some 0;
  stream_buffer = none;
}

abbrev pub waiting_too : Request
waiting_too = record waiting { address = 2; requestid = 8 }

-- The reply with id 7 to a DSICommand, and a packet with its id that is no reply.
abbrev pub reply_packet : List ℕ
reply_packet =
    1 ∷ 2 ∷ 0 ∷ 7 ∷ 0 ∷ 0 ∷ 0 ∷ 9 ∷ 0 ∷ 0 ∷ 0 ∷ 2 ∷ 0 ∷ 0 ∷ 0 ∷ 0 ∷ 170 ∷ 187 ∷ 0 ∷ 0 ∷ []

abbrev pub request_packet : List ℕ
request_packet =
    0 ∷ 2 ∷ 0 ∷ 7 ∷ 0 ∷ 0 ∷ 0 ∷ 9 ∷ 0 ∷ 0 ∷ 0 ∷ 2 ∷ 0 ∷ 0 ∷ 0 ∷ 0 ∷ 170 ∷ 187 ∷ 0 ∷ 0 ∷ []

abbrev pub server_with : List ℕ → ℕ → List Request → Server
server_with buffer data_read requests = record {
  incoming = record { buffer = buffer; data_read = data_read; bufsize = length buffer };
  ids = record {
    lastrequestid = 65534;
    expectedrequestid = 65534;
    supports_replay_cache = true;
    replay_cache_size = 32;
  };
  stats = record {
    runt_packets = 0;
    rx_bytes = 0;
    tx_bytes = 0;
    requests_pending = length requests;
  };
  status = record {
    machine_type = [];
    versions = [];
    supported_uams = 0;
    icon = [];
    flags = 0;
    server_name = [];
    signature = [];
    server_name_utf8 = [];
    server_name_printable = [];
  };
  command_requests = requests;
  detached = [];
  attentions = [];
  dtrefnums = [];
  connection_generation = 3;
  connect_state = connected;
  fd = pos 4;
  tx_quantum = 0;
  attention_len = 0;
  attention_quantum = 0;
  dsi_default_timeout = pos 5;
  need_resume = false;
  suspended = false;
  reconnect_in_progress = false;
  still_valid = true;
}
