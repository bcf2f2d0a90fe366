-- ===== src/Url/Parts.antt =====
-- The parts of a URL and its text, and how the volume and path are parsed (lib/afp_url.c).
use netatalk_client.Base.{
  ℕ, suc, ◌+◌, ◌≡◌, ◌<◌, ◌≤◌, refl, ◌∙◌, Bool, true, Option, none, some, List, [], ◌∷◌, ◌++◌, arith,
  length, take_all, codes, length-append,
}
use netatalk_client.Base.Errno.{ok}
use netatalk_client.Path.{AfpcPath, slash, join, joined, separator, separator_len}
use netatalk_client.Path.Join.{join-joined}
use netatalk_client.Url.Data.{Url, parsed, escape_url}
use netatalk_client.Url.Scan.{find_char}
use netatalk_client.Url.Escape.{Lacks, find_char-append, double, digit_text}
use netatalk_client.Url.{parse_secondpart, volume_split, without_slash}

-- `user[;AUTH=uamname][:password]`, as it was before each `@` was doubled.
pub record UserParts : Type 0 where
  pub name : List ℕ
  pub uam : Option (List ℕ)
  pub password : Option (List ℕ)

abbrev pub VolumeAndPath : Type 0
VolumeAndPath = List ℕ × List ℕ

pub record UrlParts : Type 0 where
  pub user : Option UserParts
  pub server : List ℕ
  pub port_digits : List ℕ
  pub second : Option VolumeAndPath

abbrev pub uam_text : Option (List ℕ) → List ℕ
uam_text none = []
uam_text (some uam) = codes ";AUTH=" ++ uam

abbrev pub password_text : Option (List ℕ) → List ℕ
password_text none = []
password_text (some password) = b':' ∷ double b'@' password

abbrev pub user_text : UserParts → List ℕ
user_text u = (u.name ++ uam_text u.uam) ++ password_text u.password

abbrev pub port_text : List ℕ → List ℕ
port_text [] = []
port_text (d ∷ s) = b':' ∷ digit_text (d ∷ s)

abbrev pub host_text : UrlParts → List ℕ
host_text p = p.server ++ port_text p.port_digits

abbrev pub authority_text : UrlParts → Option UserParts → List ℕ
authority_text p none = host_text p
authority_text p (some u) = user_text u ++ (b'@' ∷ host_text p)

abbrev pub second_text : Option VolumeAndPath → List ℕ
second_text none = []
second_text (some (volume, path)) = slash ∷ (volume ++ (slash ∷ path))

abbrev pub url_text : UrlParts → List ℕ
url_text p = codes "afp://" ++ (authority_text p p.user ++ second_text p.second)

-- Which parts can be written in a URL.
abbrev pub IsVolumeAndPath : Option VolumeAndPath → Type 0
IsVolumeAndPath none = Unit
IsVolumeAndPath (some (volume, path)) =
    Lacks slash volume
    × (length volume ≤ 254)
    × (0 < length path)
    × (length path < 65535)
    × (without_slash (volume ++ (slash ∷ path)) ≡ volume ++ (slash ∷ path))

abbrev pub with_second : Option VolumeAndPath → Url → Url
with_second none url = url
with_second (some (volume, path)) url = record url {
  volumename = volume;
  path = record { bytes = some (slash ∷ path); len = suc (length path) };
}

abbrev pub second_part : Option VolumeAndPath → Option (List ℕ)
second_part none = none
second_part (some (volume, path)) = some (volume ++ (slash ∷ path))

joined_root : (path : List ℕ) → 0 < length path → joined (slash ∷ []) path ≡ slash ∷ path
unfolding joined separator separator_len
joined_root path h = refl

module _ (alloc : ℕ → Bool) (gives : (n : ℕ) → alloc n ≡ true) where
  join_root :
      (dest : AfpcPath) (path : List ℕ)
      → 0 < length path
      → length path < 65535
      → join alloc dest (some (slash ∷ [])) (some path) 65535
        ≡ (ok tt, record { bytes = some (slash ∷ path); len = suc (length path) })
  join_root dest path h k =
      join-joined alloc dest (slash ∷ []) path 65535 gives (omega arith) (omega arith) (omega arith)
      ∙ rw (joined_root path h) (ground arith)

  volume_split-text :
      (url : Url) (volume path : List ℕ)
      → IsVolumeAndPath (some (volume, path))
      → volume_split alloc url
          (volume ++ (slash ∷ path))
          (find_char slash (volume ++ (slash ∷ path)))
        ≡ parsed (escape_url (with_second (some (volume, path)) url))
  unfolding volume_split
  volume_split-text url volume path (hv, lv, np, lp, e) =
      rw (
        find_char-append slash volume path hv,
        take_all 254 volume lv,
        join_root url.path path np lp,
      )

  some_secondpart :
      (url : Url) (s : List ℕ)
      → 0 < length s
      → without_slash s ≡ s
      → parse_secondpart alloc url (some s) ≡ volume_split alloc url s (find_char slash s)
  unfolding parse_secondpart
  some_secondpart url [] h e = elim h [ ]
  some_secondpart url (c ∷ s) h e = rw (gives (length (c ∷ s) + 1), e)

  pub parse_secondpart-text :
      (url : Url) (second : Option VolumeAndPath)
      → IsVolumeAndPath second
      → parse_secondpart alloc url (second_part second)
        ≡ parsed (escape_url (with_second second url))
  parse_secondpart-text url none h = unfold parse_secondpart in refl
  parse_secondpart-text url (some (volume, path)) h =
      some_secondpart url (volume ++ (slash ∷ path))
        (omega (arith, length-append volume (slash ∷ path))) h.4
      ∙ volume_split-text url volume path h
