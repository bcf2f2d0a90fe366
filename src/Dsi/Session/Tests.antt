-- ===== src/Dsi/Session/Tests.antt =====
-- The OpenSession reply at a concrete packet.
use netatalk_client.Base.{arith, to_be32, inr, true, ℕ, ◌≡◌, refl, List, [], ◌∷◌, ◌++◌}
use netatalk_client.Server.{Server}
use netatalk_client.Server.Samples.{server_with}
use netatalk_client.Dsi.Session.{opensession_reply}
use netatalk_client.Dsi.Session.Options.{
  SessionOption, quantum, other, agreed, opensession_reply-options,
}

abbrev header : List ℕ
header = 1 ∷ 4 ∷ 0 ∷ 7 ∷ 0 ∷ 0 ∷ 0 ∷ 0 ∷ 0 ∷ 0 ∷ 0 ∷ 6 ∷ 0 ∷ 0 ∷ 0 ∷ 0 ∷ []

-- A quantum of 0x100, an unknown option, and a type without a length behind them.
abbrev options : List SessionOption
options = quantum 256 ∷ other 77 (5 ∷ []) ∷ []

abbrev option_bytes : List ℕ
option_bytes = 0 ∷ 4 ∷ 0 ∷ 0 ∷ 1 ∷ 0 ∷ 77 ∷ 1 ∷ 5 ∷ []

abbrev server : Server
server = server_with (header ++ ((option_bytes ++ (2 ∷ [])) ++ (99 ∷ []))) 26 []

opensession_reply-options_example :
    opensession_reply server
    ≡ agreed
        (record { tx_quantum = 256; supports_replay_cache = true; replay_cache_size = 32 })
        server
unfolding to_be32
opensession_reply-options_example =
    opensession_reply-options server header options (2 ∷ []) (99 ∷ []) refl
      (omega arith, (inr (omega arith), tt)) tt refl refl
