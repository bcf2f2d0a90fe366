-- ===== src/Users.antt =====
-- User and group ids on the server and on the client (lib/users.c, lib/map_def.c).
mod Detected
mod Tests
use netatalk_client.Base.{
  ℕ, ◌/◌, ◌%◌, Bool, true, false, not, Option, none, some, List, [], ◌∷◌, ◌==◌, if◌then◌else◌,
  str_eq, str_case_eq, codes,
}

-- `AFP_MAPPING_*`
pub data Mapping : Type 0 where
  mapping_unknown mapping_common mapping_loginids mapping_name : Mapping

-- What the functions use of a volume, its server and `passwd`. `no_network_user_ids` is a bit of
-- `attributes`.
pub record UserVolume : Type 0 where
  pub mapping : Mapping
  pub no_network_user_ids : Bool
  pub server_uid : ℕ
  pub server_gid : ℕ
  pub server_gid_valid : Bool
  pub pw_uid : ℕ
  pub pw_gid : ℕ
  pub pw_name : List ℕ

-- The answers of the server to FPGetUserInfo and FPMapID: `none` is an error. `stale` is what the
-- array `name` has before the last of them.
pub record UserAnswers : Type 0 where
  pub user_id : Option ℕ
  pub primary_group : Option ℕ
  pub name_of : ℕ → Option (List ℕ)
  pub stale : List ℕ

-- `translate_uidgid_to_server`. `none` is -1.
unfoldable pub translate_uidgid_to_server : UserVolume → ℕ × ℕ → Option (ℕ × ℕ)
translate_uidgid_to_server v ids = elim v.mapping [
  | mapping_common ↦ some ids
  | mapping_loginids ↦ some (v.server_uid, v.server_gid)
  | _ ↦ none
]

-- `translate_uidgid_to_client`
unfoldable pub translate_uidgid_to_client : UserVolume → ℕ × ℕ → Option (ℕ × ℕ)
translate_uidgid_to_client v ids = elim v.mapping [
  | mapping_common ↦ some ids
  | mapping_loginids ↦ some (v.pw_uid, v.pw_gid)
  | _ ↦ none
]

-- The name of the user with the id on the server. It keeps what it had if the call fails.
unfoldable pub mapped_name : UserAnswers → ℕ → List ℕ
mapped_name answers id = elim (answers.name_of id) [ some name ↦ name | none ↦ answers.stale ]

unfoldable pub with_group : Option ℕ → UserVolume → UserVolume
with_group none v = v
with_group (some gid) v = record v { server_gid_valid = true; server_gid = gid }

-- Behind the answers with the ids.
unfoldable pub compare_names : UserAnswers → UserVolume → UserVolume
compare_names answers v =
    if not (v.server_uid == v.pw_uid)
    then v
    else if str_eq (mapped_name answers v.pw_uid) v.pw_name
    then record v { mapping = mapping_common }
    else v

-- The algorithm behind the first two tests.
unfoldable pub ask_server : UserAnswers → UserVolume → UserVolume
ask_server answers v = elim answers.user_id [
  | none ↦ v
  | some uid ↦
      compare_names answers (with_group answers.primary_group (record v { server_uid = uid }))
]

-- `afp_detect_mapping`, which always returns 0.
unfoldable pub afp_detect_mapping : UserAnswers → UserVolume → UserVolume
afp_detect_mapping answers v = elim v.mapping [
  | mapping_unknown ↦
      (if v.no_network_user_ids
        then record v { mapping = mapping_loginids }
        else ask_server answers (record v { mapping = mapping_loginids; server_gid_valid = false }))
  | _ ↦ v
]

-- `afp_map_strings`, up to the empty one, by `get_mapping_name`.
unfoldable pub get_mapping_name : Mapping → List ℕ
get_mapping_name mapping_unknown = codes "Unknown"
get_mapping_name mapping_common = codes "Common user directory"
get_mapping_name mapping_loginids = codes "Login ids"
get_mapping_name mapping_name = codes "Name mapped"

-- `map_string_to_num`
unfoldable pub map_string_to_num : List ℕ → Mapping
map_string_to_num name =
    if str_case_eq name (codes "common")
    then mapping_common
    else if str_case_eq name (codes "loginids")
    then mapping_loginids
    else if str_case_eq name (codes "name")
    then mapping_name
    else if str_case_eq name (codes "Common user directory")
    then mapping_common
    else if str_case_eq name (codes "Login ids")
    then mapping_loginids
    else if str_case_eq name (codes "Name mapped")
    then mapping_name
    else mapping_unknown
