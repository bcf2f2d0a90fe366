-- ===== src/Lib.antt =====
-- Netatalk Client: a model of the AFP client library's core and what holds of it.
--
-- The library talks AFP over DSI. A caller builds a packet behind a DSI header and hands it to
-- `afpc_dsi_send_with_reply` (lib/dsi.c), which queues a request, writes the packet and waits. The event
-- loop (lib/loop.c) calls `afpc_dsi_recv` whenever the socket has data; it finds the request that a
-- packet answers, runs its handler and wakes its sender. A lost connection fails or flushes the queue.
-- Above this layer names are paths (lib/path.c) in AFP's Pascal strings (lib/utils.c), and a path becomes
-- a directory id through a cache (lib/did.c). The server's status names versions and authentication
-- methods (lib/uams_def.c, lib/afp.c). A URL names a server, a user and a path (lib/afp_url.c). The daemon
-- serves programs over a socket (daemon/daemon_client.c, daemon/stateless.c), and keeps metadata in
-- AppleDouble files beside local files (daemon/metadata.c).
--
-- The files:
-- Base and its children: lists, bytes, C strings and C's `int` over the native numbers, and errno values.
-- Server: `struct afp_server`, `struct dsi_request` and `struct afp_rx_buffer` (lib/afp_internal.h,
-- lib/dsi.h); Server/Bounds the receive buffer's bounds; Server/Samples data for the tests.
-- Dsi/Header: `afpc_dsi_setup_header` and the header on the wire (lib/dsi.c, lib/dsi_protocol.h).
-- Dsi/Queue: `afpc_dsi_find_request`, `afpc_dsi_remove_from_request_queue`,
-- `afpc_dsi_flush_request_queue` and `afpc_dsi_fail_request_queue`.
-- Dsi/Send: `afpc_dsi_send_with_reply` and `afpc_dsi_sendtickle`, as `submit` up to the wait and `finish`
-- or `time_out` behind it.
-- Dsi/Recv: `afpc_dsi_recv` and `afpc_dsi_command_reply`; a function for each label of the source.
-- Dsi/Session: `afpc_dsi_opensession_reply`. Dsi/Status: `afpc_dsi_getstatus_reply` with the parsers of
-- versions and methods.
-- Loop: `loop_disconnect` (lib/loop.c).
-- Path: lib/path.c. Pascal: the four Pascal string functions of lib/utils.c. Text: `copy_path`,
-- `unixpath_to_afppath`, `sanitize_text` and the log levels of the same file. Uams: lib/uams_def.c and
-- `pick_uam` of lib/afp.c; Uams/Registry: lib/uams.c.
-- Did: the cache of lib/did.c; Did/Resolve: `is_dir` and `get_dirid`.
-- Forklist: lib/forklist.c.
-- Fork: `ll_read` and `ll_write` with their locks (lib/lowlevel.c); Fork/Serve what AFP promises of a server,
-- over a state of its own.
-- Metadata: daemon/metadata.c. Metadata/Name the names and modes; Metadata/Items `load_ea_items` and
-- `save_ea_items` as bytes; Metadata/Store `netatalk_list`, `netatalk_get`, `netatalk_set` and
-- `netatalk_remove` on the AppleDouble files of one file; Metadata/Sidecar the Finder info and resource fork in
-- them, from `read_ad_info` to `ad_resource_write`.
-- Reply: `parse_reply_block` (lib/proto_replyblock.c). Dates: the dates of lib/proto_server.c.
-- Users: lib/users.c and lib/map_def.c.
-- Url: `parse_url` of lib/afp_url.c, a function for each part of a URL; Url/Scan its searches.
-- Ipc: a response of the daemon and its log records, from `daemon_log_for_client` and `send_command`
-- (daemon/daemon.c, daemon/daemon_client.c) to `afp_sl_read_framed_response` and
-- `afp_sl_dispatch_response_logs` (daemon/stateless.c).
-- Unicode: lib/unicode.c; Unicode/Compose the composition of characters, and in Unicode/Compose/Table its
-- table.
--
-- State is passed explicitly: an operation takes a `Server`, a path or a cache and gives the next one.
-- What the system answers is an argument: the results of `read` and `write`, of `malloc` and `strndup`,
-- the clock, a reconnection, the handlers of the callers, character set conversion, the calls on the
-- files beside a file, and the server's answers to FPGetFileDirParms, FPGetUserInfo, FPMapID and the reads,
-- writes and locks of a fork. A request's address stands for its pointer; memory that was freed or a read
-- outside of a buffer is a value of its own (`fault`, `freed`, `outside`, `none`). A function that holds
-- a mutex is one step, and `submit` and `finish` are two, since other threads run while a sender waits.
-- `submit` is a run in which no other thread takes a step between its critical sections: the queueing, the
-- writes and a removal.
-- Machine integers wrap where the source's do, at the width of the C type.
--
-- Loops are structural: over the list of `write` results, the queue, the cache, the components of a path
-- or the number of names in a packet. Fuel is the number of bytes of the packet in the option loop of the
-- OpenSession reply, whose rounds take two at least; the number of bytes to move in `ll_read` and
-- `ll_write`; and the number of bytes of the text in `mbStrLen`: every round takes one at least. The fuel of
-- `parse_url` counts the calls of `escape_strrchr`; one is enough for a search that ends.
-- The fuel of `dispatch_loop` is the number of bytes of the response, and every round takes eight.
--
-- Not modelled: the body of the thread that an attention packet starts, the select loop and signals,
-- the waiting on a condition variable, the AFP messages above DSI but for reply blocks, the file
-- operations of lib/midlevel.c and the others of lib/lowlevel.c, code pages, the entry points and the
-- transfers of daemon/metadata.c,
-- the cryptographic exchanges, which are libgcrypt's, the daemon's commands, clients and start, and the
-- programs in fuse, cmdline and discovery, which use the library.
pub mod Base
pub mod Path
pub mod Pascal
pub mod Text
pub mod Server
pub mod Uams
pub mod Loop
pub mod Dsi
pub mod Did
pub mod Forklist
pub mod Fork
pub mod Metadata
pub mod Unicode
pub mod Dates
pub mod Reply
pub mod Users
pub mod Url
pub mod Ipc
