-- ===== src/Users/Detected.antt =====
-- What `afp_detect_mapping` (lib/users.c) decides, and that ids can be translated behind it.
use netatalk_client.Base.{ℕ, ◌≡◌, ◌≢◌, ◌⊎◌, false, none, some, arith, str_eq→eq}
use netatalk_client.Users.{
  mapping_unknown, mapping_common, mapping_loginids, UserVolume, UserAnswers,
  translate_uidgid_to_server, translate_uidgid_to_client, mapped_name, with_group, compare_names,
  ask_server, afp_detect_mapping,
}

-- Of a volume without a mapping, `afp_detect_mapping` finds that the users are common or goes by the ids
-- of the login, and finds them common only if the volume has network user ids, the server has
-- answered the user's id with that of the local user, and its name for this id, or what was in the
-- array before if the server refused to tell, is the local one. Ids can be translated to the server
-- and back afterwards.
pub afp_detect_mapping_lem :
    (answers : UserAnswers) (v : UserVolume) (ids : ℕ × ℕ)
    → v.mapping ≡ mapping_unknown
    → (((afp_detect_mapping answers v).mapping ≡ mapping_loginids)
        ⊎ (((afp_detect_mapping answers v).mapping ≡ mapping_common)
            × ((v.no_network_user_ids ≡ false)
                × ((answers.user_id ≡ some v.pw_uid)
                    × (mapped_name answers v.pw_uid ≡ v.pw_name)))))
      × ((translate_uidgid_to_server (afp_detect_mapping answers v) ids ≢ none)
          × (translate_uidgid_to_client (afp_detect_mapping answers v) ids ≢ none))
unfolding afp_detect_mapping ask_server compare_names with_group translate_uidgid_to_server
    translate_uidgid_to_client
afp_detect_mapping_lem answers v ids h =
    ground (arith, h, str_eq→eq (mapped_name answers v.pw_uid) v.pw_name)
