-- ===== src/Metadata/Name.antt =====
-- The names and kinds of local metadata (daemon/metadata.c, lib/xattr.h).
use netatalk_client.Base.{
  ℕ, ◌≡◌, refl, Bool, false, not, ◌&&◌, ◌||◌, Option, none, some, List, [], ◌∷◌, length, take, ◌==◌,
  ltb, leb, if◌then◌else◌, str_eq, codes, str_eq→eq, arith,
}

-- `enum afp_metadata_mode`
pub data MetadataMode : Type 0 where
  metadata_auto metadata_netatalk metadata_xattr metadata_macos metadata_none : MetadataMode

-- `afp_metadata_mode_name`, of one of the five modes.
unfoldable pub afp_metadata_mode_name : MetadataMode → List ℕ
afp_metadata_mode_name metadata_auto = codes "auto"
afp_metadata_mode_name metadata_netatalk = codes "netatalk"
afp_metadata_mode_name metadata_xattr = codes "xattr"
afp_metadata_mode_name metadata_macos = codes "macos"
afp_metadata_mode_name metadata_none = codes "none"

-- `afp_metadata_mode_parse`. `none` is -EINVAL.
unfoldable pub afp_metadata_mode_parse : List ℕ → Option MetadataMode
afp_metadata_mode_parse name =
    if str_eq name (codes "auto")
    then some metadata_auto
    else if str_eq name (codes "netatalk")
    then some metadata_netatalk
    else if str_eq name (codes "xattr")
    then some metadata_xattr
    else if str_eq name (codes "macos")
    then some metadata_macos
    else if str_eq name (codes "none")
    then some metadata_none
    else none

-- `strncmp(name, prefix, length prefix) == 0`
unfoldable pub has_prefix : List ℕ → List ℕ → Bool
has_prefix prefix name = str_eq (take (length prefix) name) prefix

-- `afp_xattr_strip_user_prefix`
unfoldable pub strip_prefix : List ℕ → List ℕ → List ℕ → List ℕ
strip_prefix name [] stripped = stripped
strip_prefix name (p ∷ prefix) [] = name
strip_prefix name (p ∷ prefix) (c ∷ stripped) =
    let rest = strip_prefix name prefix stripped in if c == p then rest else name

unfoldable pub strip_user_prefix : List ℕ → List ℕ
strip_user_prefix name = strip_prefix name (codes "user.") name

-- `metadata_name_filtered`
unfoldable pub metadata_name_filtered : List ℕ → Bool
metadata_name_filtered name =
    let stripped = strip_user_prefix name in
    has_prefix (codes "org.netatalk.Metadata") stripped
    || str_eq stripped (codes "com.apple.finder.copy.source")
    || str_eq stripped (codes "com.apple.metadata:kMDItemResumableCopy")
    || has_prefix (codes "com.apple.finder.copy.checkpoint#") stripped

unfoldable pub has_slash : List ℕ → Bool
has_slash [] = false
has_slash (c ∷ name) = c == b'/' || has_slash name

-- `metadata_name_valid`
unfoldable pub metadata_name_valid : List ℕ → Bool
metadata_name_valid name = ltb 0 (length name) && leb (length name) 255 && not (has_slash name)

read_as :
    (text : List ℕ) (mode : MetadataMode)
    → afp_metadata_mode_parse text ≡ some mode
    → text ≡ afp_metadata_mode_name mode
unfolding afp_metadata_mode_parse afp_metadata_mode_name
read_as text mode h = ground (
  arith,
  str_eq→eq text (codes "auto"),
  str_eq→eq text (codes "netatalk"),
  str_eq→eq text (codes "xattr"),
  str_eq→eq text (codes "macos"),
  str_eq→eq text (codes "none"),
)

-- A mode is read back from its name, and a text is read as a mode only if it is the name of it.
pub mode_parse-mode_name :
    (mode : MetadataMode) (text : List ℕ)
    → (afp_metadata_mode_parse (afp_metadata_mode_name mode) ≡ some mode)
      × (afp_metadata_mode_parse text ≡ some mode → text ≡ afp_metadata_mode_name mode)
unfolding afp_metadata_mode_parse afp_metadata_mode_name str_eq
mode_parse-mode_name metadata_auto text = (refl, read_as text metadata_auto)
mode_parse-mode_name metadata_netatalk text = (refl, read_as text metadata_netatalk)
mode_parse-mode_name metadata_xattr text = (refl, read_as text metadata_xattr)
mode_parse-mode_name metadata_macos text = (refl, read_as text metadata_macos)
mode_parse-mode_name metadata_none text = (refl, read_as text metadata_none)
