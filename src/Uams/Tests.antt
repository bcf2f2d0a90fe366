-- ===== src/Uams/Tests.antt =====
-- Runs of the authentication methods' names, and the choice at concrete masks.
use netatalk_client.Base.{◌≡◌, refl, pos, negsuc, some, codes}
use netatalk_client.Base.{true, false, str_eq}
use netatalk_client.Uams.Registry.{
  find_uam_by_name, find_by_full_name, init_uams, register_uam, afp_dopasswd, find_uam_by_bitmap,
  call_not_supported,
}
use netatalk_client.Uams.{
  resolve_uam_shorthand, uam_string_to_bitmap, uam_bitmap_to_string, pick_uam,
}

alias_found : uam_string_to_bitmap (codes "DHX") ≡ 16
unfolding uam_string_to_bitmap
alias_found = refl

top_name : uam_bitmap_to_string 20 ≡ some (codes "DHCAST128")
unfolding uam_bitmap_to_string
top_name = refl

highest_common : pick_uam 84 22 ≡ pos 16
unfolding pick_uam
highest_common = refl

none_common : pick_uam 2 4 ≡ negsuc 0
unfolding pick_uam
none_common = refl

dhx2_missing : find_uam_by_name (codes "dhx2") (init_uams false).1 ≡ 0
unfolding find_uam_by_name find_by_full_name init_uams register_uam resolve_uam_shorthand
    uam_string_to_bitmap str_eq
dhx2_missing = refl

no_password_change : afp_dopasswd (λ f. pos 0) 256 (init_uams true).1 ≡ call_not_supported
unfolding afp_dopasswd find_uam_by_bitmap init_uams register_uam uam_string_to_bitmap
no_password_change = refl
