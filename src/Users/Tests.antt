-- ===== src/Users/Tests.antt =====
-- Mappings of users at concrete answers.
use netatalk_client.Base.{
  ◌≡◌, ◌≢◌, ◌⊎◌, refl, true, false, none, some, [], codes, str_eq, str_case_eq, to_lower,
}
use netatalk_client.Users.{
  mapping_unknown, mapping_common, mapping_loginids, UserVolume, UserAnswers,
  translate_uidgid_to_server, translate_uidgid_to_client, mapped_name, with_group, compare_names,
  ask_server, afp_detect_mapping, map_string_to_num, get_mapping_name,
}
use netatalk_client.Users.Detected.{afp_detect_mapping_lem}

abbrev new_volume : UserVolume
new_volume = record {
  mapping = mapping_unknown;
  no_network_user_ids = false;
  server_uid = 0;
  server_gid = 0;
  server_gid_valid = true;
  pw_uid = 501;
  pw_gid = 20;
  pw_name = codes "ann";
}

abbrev knows_ann : UserAnswers
knows_ann = record {
  user_id = some 501;
  primary_group = some 99;
  name_of = λ id. some (codes "ann");
  stale = [];
}

finds_common_users : (afp_detect_mapping knows_ann new_volume).mapping ≡ mapping_common
unfolding afp_detect_mapping ask_server compare_names with_group mapped_name str_eq
finds_common_users = refl

-- The name that was in the array decides where the server gives none.
takes_the_stale_name :
    (afp_detect_mapping
      (record knows_ann { name_of = λ id. none; stale = codes "ann" })
      new_volume).mapping
    ≡ mapping_common
unfolding afp_detect_mapping ask_server compare_names with_group mapped_name str_eq
takes_the_stale_name = refl

reads_back_a_mapping :
    (map_string_to_num (get_mapping_name mapping_loginids) ≡ mapping_loginids)
    × (map_string_to_num (codes "LOGINIDS") ≡ mapping_loginids)
unfolding map_string_to_num get_mapping_name str_case_eq str_eq to_lower
reads_back_a_mapping = (refl, refl)

afp_detect_mapping_lem_example :
    (((afp_detect_mapping knows_ann new_volume).mapping ≡ mapping_loginids)
      ⊎ (((afp_detect_mapping knows_ann new_volume).mapping ≡ mapping_common)
          × ((new_volume.no_network_user_ids ≡ false)
              × ((knows_ann.user_id ≡ some 501) × (mapped_name knows_ann 501 ≡ codes "ann")))))
    × ((translate_uidgid_to_server (afp_detect_mapping knows_ann new_volume) (501, 20) ≢ none)
        × (translate_uidgid_to_client (afp_detect_mapping knows_ann new_volume) (501, 20) ≢ none))
afp_detect_mapping_lem_example = afp_detect_mapping_lem knows_ann new_volume (501, 20) refl
