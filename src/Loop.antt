-- ===== src/Loop.antt =====
-- lib/loop.c: `loop_disconnect`. The select set of the event loop and the closing of the descriptor
-- have no state here; `fd` says whether one is open.
use netatalk_client.Base.{negsuc, Bool, true, false, map}
use netatalk_client.Server.{Server, ConnectState, connected, disconnected, connecting}
use netatalk_client.Dsi.Queue.{fail_request_queue, minus_eio}

unfoldable pub is_live : ConnectState → Bool
is_live connected = true
is_live connecting = true
is_live disconnected = false

-- What is left of a connection that was live.
unfoldable pub disconnect_live : Server → Server
unfolding fail_request_queue
disconnect_live s =
    let t = fail_request_queue minus_eio s in
    record t {
      dtrefnums = map (λ d. 0) t.dtrefnums;
      incoming = record t.incoming { data_read = 0 };
      attention_len = 0;
      fd = negsuc 0;
      connect_state = disconnected;
      need_resume = true;
    }

unfoldable pub loop_disconnect : Server → Server
unfolding is_live disconnect_live
loop_disconnect s = elim (is_live s.connect_state) [ true ↦ disconnect_live s | false ↦ s ]
