-- ===== src/Dsi/Header.antt =====
-- `afpc_dsi_setup_header` of lib/dsi.c, and `struct dsi_header` of lib/dsi_protocol.h on the wire.
pub mod Ids
mod Tests
use netatalk_client.Base.{
  ℕ, ◌+◌, ◌-◌, Bool, true, false, List, [], ◌∷◌, ◌++◌, ◌==◌, if◌then◌else◌, to_be16, to_be32,
  be16_at, be32_at, get_or, length, write_at,
}
use netatalk_client.Server.{RequestIds}

-- `sizeof(struct dsi_header)`
abbrev pub header_size : ℕ
header_size = 16

-- The fields in the host's order.
pub record Header : Type 0 where
  pub flags : ℕ
  pub command : ℕ
  pub requestid : ℕ
  pub error_code : ℕ
  pub packet_length : ℕ
  pub reserved : ℕ

unfoldable pub encode : Header → List ℕ
unfolding to_be16 to_be32
encode h =
    h.flags
    ∷ h.command
    ∷ (to_be16 h.requestid
        ++ (to_be32 h.error_code ++ (to_be32 h.packet_length ++ to_be32 h.reserved)))

-- The fields of the header at the front of a buffer.
unfoldable pub flags_of : List ℕ → ℕ
flags_of buf = get_or buf 0 0

unfoldable pub command_of : List ℕ → ℕ
command_of buf = get_or buf 1 0

unfoldable pub requestid_of : List ℕ → ℕ
unfolding be16_at
requestid_of buf = be16_at buf 2

unfoldable pub error_of : List ℕ → ℕ
unfolding be32_at
error_of buf = be32_at buf 4

unfoldable pub length_of : List ℕ → ℕ
unfolding be32_at
length_of buf = be32_at buf 8

-- The id of the next request. With a replay cache 0 is skipped.
unfoldable pub next_id : RequestIds → ℕ
next_id ids =
    if ids.lastrequestid == 65535
    then (if ids.supports_replay_cache then 1 else 0)
    else ids.lastrequestid + 1

unfoldable pub setup_header : RequestIds → ℕ → RequestIds × Header
unfolding next_id
setup_header ids command =
    let n = next_id ids in
    (
      record ids { lastrequestid = n; expectedrequestid = n },
      record {
        flags = 0;
        command = command;
        requestid = n;
        error_code = 0;
        packet_length = 0;
        reserved = 0;
      },
    )
