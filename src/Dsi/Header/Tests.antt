-- ===== src/Dsi/Header/Tests.antt =====
-- Runs of lib/dsi.c's header code, and its theorems at concrete inputs.
use netatalk_client.Base.{arith, ◌<◌, ◌≢◌, ◌≡◌, refl, true}
use netatalk_client.Server.{RequestIds}
use netatalk_client.Dsi.Header.{requestid_of, next_id, Header}
use netatalk_client.Dsi.Header.Ids.{nth_header, setup_many_distinct}

abbrev at_top : RequestIds
at_top = record {
  lastrequestid = 65535;
  expectedrequestid = 0;
  supports_replay_cache = true;
  replay_cache_size = 32;
}

wraps_to_one : next_id at_top ≡ 1
unfolding next_id
wraps_to_one = refl

abbrev tickle : Header
tickle = record {
  flags = 1;
  command = 5;
  requestid = 258;
  error_code = 4294967291;
  packet_length = 6;
  reserved = 0;
}

setup_many_distinct_example :
    (requestid_of (nth_header at_top 0) ≢ requestid_of (nth_header at_top 3))
    × (at_top.supports_replay_cache ≡ true → 0 < requestid_of (nth_header at_top 0))
setup_many_distinct_example =
    setup_many_distinct at_top 0 3 (omega arith) (omega arith) (omega arith)
