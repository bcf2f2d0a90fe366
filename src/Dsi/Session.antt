-- ===== src/Dsi/Session.antt =====
-- `afpc_dsi_opensession_reply` of lib/dsi.c: the options of the server's OpenSession reply.
pub mod Options
mod Tests
use netatalk_client.Base.{
  ℕ, zero, suc, ◌-◌, ◌^◌, Bool, true, false, List, [], ◌∷◌, ◌==◌, ltb, if◌then◌else◌, ◌&&◌, length,
  take, drop, be32_at,
}
use netatalk_client.Server.{Server, RequestIds}
use netatalk_client.Dsi.Header.{header_size}

-- `kServerReplayCacheSize`
abbrev pub replay_cache_option : ℕ
replay_cache_option = 2

-- `DSI_DEFAULT_TX_QUANTUM`
abbrev pub default_tx_quantum : ℕ
default_tx_quantum = 65536

-- What the options set.
pub record SessionTerms : Type 0 where
  pub tx_quantum : ℕ
  pub supports_replay_cache : Bool
  pub replay_cache_size : ℕ

-- One option of a type, a length and that many bytes.
unfoldable pub apply_option : ℕ → List ℕ → SessionTerms → SessionTerms
unfolding be32_at
apply_option kind content o =
    if kind == 0 && length content == 4
    then record o { tx_quantum = be32_at content 0 }
    else if kind == replay_cache_option && length content == 4
    then record o { supports_replay_cache = true; replay_cache_size = be32_at content 0 }
    else o

-- The loop over what `data_read` leaves behind the header. It stops where no type and length are
-- left, and at an option that says it is longer than the packet.
unfoldable pub options_loop : ℕ → List ℕ → SessionTerms → SessionTerms
unfolding apply_option
options_loop zero rest o = o
options_loop (suc fuel) (kind ∷ n ∷ rest) o =
    let more = options_loop fuel (drop n rest) (apply_option kind (take n rest) o) in
    if ltb (length rest) n then o else more
options_loop (suc fuel) rest o = o

-- What stands before the options are read.
unfoldable pub initial_terms : Server → SessionTerms
initial_terms s = record {
  tx_quantum = 0;
  supports_replay_cache = s.ids.supports_replay_cache;
  replay_cache_size = s.ids.replay_cache_size;
}

-- The server's fields afterwards, with the default for a quantum of 0.
unfoldable pub set_terms : SessionTerms → Server → Server
set_terms o s = record s {
  tx_quantum = if o.tx_quantum == 0 then default_tx_quantum else o.tx_quantum;
  ids = record s.ids {
    supports_replay_cache = o.supports_replay_cache;
    replay_cache_size = o.replay_cache_size;
  };
}

-- Each round takes two bytes at least, so the length of the packet is enough fuel.
unfoldable pub opensession_reply : Server → Server
unfolding options_loop initial_terms set_terms
opensession_reply s =
    let packet = drop header_size (take s.incoming.data_read s.incoming.buffer) in
    set_terms (options_loop (length packet) packet (initial_terms s)) s
