-- ===== src/Dsi.antt =====
-- lib/dsi.c: the DSI transport. Each child models a part: headers and request ids, the request
-- queue, the session options, the status reply, sending, and receiving.
pub mod Header
pub mod Queue
pub mod Session
pub mod Status
pub mod Send
pub mod Recv
