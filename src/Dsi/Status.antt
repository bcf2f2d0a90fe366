-- ===== src/Dsi/Status.antt =====
-- `afpc_dsi_getstatus_reply` of lib/dsi.c, with `afpc_dsi_parse_versions` and `afpc_dsi_parse_uams`.
-- The reply is read out of the receive buffer by offsets that the server chooses; `none` is a read
-- outside of the buffer. The buffer comes from `malloc`, so its address is even. The conversions of
-- the server's name into printable form are the argument `printable`.
use netatalk_client.Base.{
  ℕ, zero, suc, ◌+◌, ◌-◌, ◌%◌, Bool, Option, none, some, List, [], ◌∷◌, ◌++◌, ◌==◌, ltb,
  if◌then◌else◌, bit_or, codes, str_eq, length, replicate, slice?, be16_at, get_elem?,
}
use netatalk_client.Server.{Server, Status}
use netatalk_client.Pascal.{copy_from_pascal, c_string, ◌>>=◌}
use netatalk_client.Uams.{uam_string_to_bitmap, bit_set}

-- `afp_versions` of lib/afp.c
abbrev pub afp_versions : List (List ℕ × ℕ)
afp_versions =
    (codes "AFPVersion 1.1", 11)
    ∷ (codes "AFPVersion 2.0", 20)
    ∷ (codes "AFPVersion 2.1", 21)
    ∷ (codes "AFP2.2", 22)
    ∷ (codes "AFPX03", 30)
    ∷ (codes "AFP3.1", 31)
    ∷ (codes "AFP3.2", 32)
    ∷ (codes "AFP3.3", 33)
    ∷ (codes "AFP3.4", 34)
    ∷ []

abbrev pub max_versions : ℕ
max_versions = 10

abbrev pub max_uams : ℕ
max_uams = 10

-- The number of a version name, if the table has it.
version_number : List (List ℕ × ℕ) → List ℕ → Option ℕ
unfolding str_eq
version_number [] name = none
version_number ((av_name, av_number) ∷ rest) name =
    if str_eq av_name name then some av_number else version_number rest name

add_known : Option ℕ → List ℕ → List ℕ
add_known none found = found
add_known (some v) found = found ++ (v ∷ [])

-- `n` names from `at` on; the numbers of those that are known, in their order.
versions_loop : ℕ → List ℕ → ℕ → List ℕ → Option (List ℕ)
unfolding copy_from_pascal c_string version_number add_known
versions_loop zero mem at found = some found
versions_loop (suc n) mem at found = do
  (name, len) ← copy_from_pascal [] mem at 33
  versions_loop n mem (at + (len + 1) % 256)
      (add_known (version_number afp_versions (c_string name)) found)

-- `min(msg[0], limit)`
clipped : ℕ → ℕ → ℕ
clipped n limit = if ltb limit n then limit else n

unfoldable pub parse_versions : List ℕ → ℕ → Option (List ℕ)
unfolding versions_loop clipped
parse_versions mem at = do
  n ← get_elem? mem at
  found ← versions_loop (clipped n max_versions) mem (at + 1) []
  some (found ++ replicate (max_versions - length found) 0)

uams_loop : ℕ → List ℕ → ℕ → ℕ → Option ℕ
unfolding copy_from_pascal c_string uam_string_to_bitmap
uams_loop zero mem at uams = some uams
uams_loop (suc n) mem at uams = do
  (name, len) ← copy_from_pascal [] mem at 24
  uams_loop n mem (at + (len + 1) % 256) (bit_or uams (uam_string_to_bitmap (c_string name)))

unfoldable pub parse_uams : List ℕ → ℕ → Option ℕ
unfolding uams_loop clipped
parse_uams mem at = do n ← get_elem? mem at; uams_loop (clipped n max_uams) mem (at + 1) 0

-- A 16-bit number of the packet.
u16? : List ℕ → ℕ → Option ℕ
unfolding slice? be16_at
u16? mem at = do b ← slice? mem at 2; some (be16_at b 0)

-- `p++` where `p` is odd
even_up : ℕ → ℕ
even_up p = p + p % 2

-- The UTF-8 name, one byte further where the first try finds it empty.
utf8_name : List ℕ → List ℕ → ℕ → Option (List ℕ)
unfolding copy_from_pascal
utf8_name old mem at = do
  (name, len) ← copy_from_pascal old mem (at + 1) 255
  if len == 0
      then (do (again, _) ← copy_from_pascal name mem (at + 2) 255; some again)
      else some name

-- The flag bits that say which offsets the variable part holds.
abbrev supports_tcp : ℕ → Bool
supports_tcp flags = bit_set flags 5

abbrev supports_directory_services : ℕ → Bool
supports_directory_services flags = bit_set flags 8

abbrev supports_utf8_name : ℕ → Bool
supports_utf8_name flags = bit_set flags 9

-- How the two conversions fill `server_name_printable`, from what it held and the UTF-8 name or the
-- other.
pub record Printable : Type 0 where
  pub from_utf8 : List ℕ → List ℕ → List ℕ
  pub from_legacy : List ℕ → List ℕ → List ℕ

read_icon : List ℕ → ℕ → List ℕ → Option (List ℕ)
unfolding slice?
read_icon mem offset old = if offset == 0 then some old else slice? mem (16 + offset) 256

-- The names at the end of the reply. `p` is where the offsets stand.
read_name : Printable → List ℕ → ℕ → Status → Option Status
unfolding bit_set u16? utf8_name c_string
read_name printable mem p st =
    if supports_utf8_name st.flags
    then (do
      offset ← u16? mem p
      name ← utf8_name st.server_name_utf8 mem (16 + offset)
      some (record st {
        server_name_utf8 = name;
        server_name_printable = printable.from_utf8 st.server_name_printable (c_string name);
      }))
    else some (record st {
      server_name_printable =
          printable.from_legacy st.server_name_printable (c_string st.server_name);
    })

-- Where the offsets behind the signature's stand.
name_offset_at : ℕ → ℕ → ℕ
unfolding bit_set
name_offset_at p flags =
    p
    + 2
    + (if supports_tcp flags then 2 else 0)
    + (if supports_directory_services flags then 2 else 0)

read_status : Printable → List ℕ → Status → Option Status
unfolding copy_from_pascal u16? parse_versions parse_uams read_icon slice? read_name name_offset_at
    even_up
read_status printable mem st = do
  machine_offset ← u16? mem 16
  version_offset ← u16? mem 18
  uams_offset ← u16? mem 20
  icon_offset ← u16? mem 22
  flags ← u16? mem 24
  (machine_type, _) ← copy_from_pascal st.machine_type mem (16 + machine_offset) 17
  versions ← parse_versions mem (16 + version_offset)
  uams ← parse_uams mem (16 + uams_offset)
  icon ← read_icon mem icon_offset st.icon
  (server_name, n) ← copy_from_pascal st.server_name mem 26 33
  let p = even_up (26 + n + 1)
  signature_offset ← u16? mem p
  signature ← slice? mem (16 + signature_offset) 16
  read_name printable mem (name_offset_at p flags) (record st {
    machine_type = machine_type;
    versions = versions;
    supported_uams = uams;
    icon = icon;
    flags = flags;
    server_name = server_name;
    signature = signature;
  })

-- A reply that is shorter than the fixed part changes nothing.
unfoldable pub getstatus_reply : Printable → Server → Option Server
unfolding read_status
getstatus_reply printable s = if ltb s.incoming.data_read 34 then some s else do
  status ← read_status printable s.incoming.buffer s.status
  some (record s { status = status })
