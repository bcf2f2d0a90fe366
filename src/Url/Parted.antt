-- ===== src/Url/Parted.antt =====
-- The parts that a URL can be written with, and what its fields hold then (lib/afp_url.c).
use netatalk_client.Base.{
  ℕ, ◌+◌, ◌≡◌, ◌≢◌, ◌<◌, ◌≤◌, refl, ap, sym, ◌∙◌, Option, none, some, List, [], ◌∷◌, ◌++◌, arith,
  length, All-append, codes,
}
use netatalk_client.Url.Data.{Url, escape_url, cleared}
use netatalk_client.Url.Scan.{escape_string}
use netatalk_client.Url.Escape.{
  Lacks, OtherHead, double, double_same, double-append, escape_string-double, IsDigits, digit_text,
}
use netatalk_client.Url.Parts.{
  UserParts, UrlParts, VolumeAndPath, uam_text, password_text, user_text, port_text, authority_text,
  IsVolumeAndPath, with_second,
}
use netatalk_client.Url.Stages.{IsPort, port_number}
use netatalk_client.Url.User.{IsPlain, IsUam, IsUser, or_empty, doubled_or_empty}

-- Parts that a URL can be written with.
pub record IsUrl (p : UrlParts) : Type 0 where
  pub user_fits : (u : UserParts) → p.user ≡ some u → IsUser u
  pub plain : IsPlain p.server
  pub not_empty : 0 < length p.server
  pub short : length p.server ≤ 254
  pub no_literal : OtherHead b'[' p.server
  pub port_fits : IsPort p.port_digits
  pub authority_fits : length (authority_text p p.user) < 255
  pub second_fits : IsVolumeAndPath p.second

-- The fields that the user's part sets.
abbrev pub name_of : Option UserParts → List ℕ
name_of none = []
name_of (some u) = u.name

abbrev pub uam_of : Option UserParts → List ℕ
uam_of none = []
uam_of (some u) = or_empty u.uam

abbrev pub password_of : Option UserParts → List ℕ
password_of none = []
password_of (some u) = or_empty u.password

digit_text-Lacks :
    (c : ℕ) (s : List ℕ) → ((d : ℕ) → d < 10 → b'0' + d ≢ c) → IsDigits s → Lacks c (digit_text s)
digit_text-Lacks c [] ne h = tt
digit_text-Lacks c (d ∷ s) ne (hd, h) = (ne d hd, digit_text-Lacks c s ne h)

pub port_text-Lacks :
    (c : ℕ) (s : List ℕ)
    → b':' ≢ c
    → ((d : ℕ) → d < 10 → b'0' + d ≢ c)
    → IsPort s
    → Lacks c (port_text s)
port_text-Lacks c [] colon ne h = tt
port_text-Lacks c (d ∷ s) colon ne h = (colon, digit_text-Lacks c (d ∷ s) ne h.0)

pub uam_text-Lacks :
    (c : ℕ) (uam : Option (List ℕ))
    → Lacks c (codes ";AUTH=")
    → ((s : List ℕ) → IsPlain s → Lacks c s)
    → IsUam uam
    → Lacks c (uam_text uam)
uam_text-Lacks c none k f h = tt
uam_text-Lacks c (some uam) k f (plain, short, known) =
    All-append _ (codes ";AUTH=") uam k (f uam plain)

-- What stands in front of the password has no slash, and the whole is a text with each `@` doubled.
pub raw_password : Option (List ℕ) → List ℕ
raw_password none = []
raw_password (some password) = b':' ∷ password

pub double-user_text :
    (u : UserParts)
    → IsUser u
    → double b'@' ((u.name ++ uam_text u.uam) ++ raw_password u.password) ≡ user_text u
double-user_text u h =
    double-append b'@' named (raw_password u.password)
    ∙ rw (
      double_same b'@' named (
          All-append _ u.name (uam_text u.uam) h.plain.1
            (uam_text-Lacks b'@' u.uam (omega arith) (λ s k. k.1) h.uam_fits)),
      last u.password,
    )
  where
    named : List ℕ
    named = u.name ++ uam_text u.uam

    last : (p : Option (List ℕ)) → double b'@' (raw_password p) ≡ password_text p
    last none = unfold raw_password double in refl
    last (some password) = unfold raw_password in unfold double in refl

escape_string-name : (s : List ℕ) (c : ℕ) → Lacks c s → escape_string s c ≡ s
escape_string-name s c h =
    ap (λ (t : List ℕ). escape_string t c) (sym (double_same c s h)) ∙ escape_string-double s c

-- The URL in front of `escape_url`.
abbrev pub stored : Url → UrlParts → Option UserParts → Url
stored url p none = record (cleared url) {
  port = port_number p.port_digits url.port;
  servername = p.server;
}
stored url p (some u) = record (cleared url) {
  port = port_number p.port_digits url.port;
  servername = p.server;
  username = u.name;
  uamname = or_empty u.uam;
  password = doubled_or_empty u.password;
}

-- What the parse gives.
abbrev pub url_of : Url → UrlParts → Url
url_of url p = with_second p.second (record (cleared url) {
  port = port_number p.port_digits url.port;
  servername = p.server;
  username = name_of p.user;
  uamname = uam_of p.user;
  password = password_of p.user;
})

escape_string-doubled : (p : Option (List ℕ)) → escape_string (doubled_or_empty p) b'@' ≡ or_empty p
escape_string-doubled none = unfold escape_string in refl
escape_string-doubled (some s) = escape_string-double s b'@'

escape_url-with_second :
    (second : Option VolumeAndPath) (url : Url)
    → escape_url (with_second second url) ≡ with_second second (escape_url url)
unfolding escape_url
escape_url-with_second none url = refl
escape_url-with_second (some (volume, path)) url = refl

pub escape_url-stored :
    (url : Url) (p : UrlParts) (user : Option UserParts) (second : Option VolumeAndPath)
    → ((u : UserParts) → user ≡ some u → IsUser u)
    → escape_url (with_second second (stored url p user))
      ≡ with_second second (record (cleared url) {
        port = port_number p.port_digits url.port;
        servername = p.server;
        username = name_of user;
        uamname = uam_of user;
        password = password_of user;
      })
unfolding escape_url cleared
escape_url-stored url p none second h =
    escape_url-with_second second (stored url p none)
    ∙ rw (escape_string-doubled none, escape_string-name [] b':' tt) refl
escape_url-stored url p (some u) second h =
    escape_url-with_second second (stored url p (some u))
    ∙ rw (escape_string-doubled u.password, escape_string-name u.name b':' (h u refl).plain.2) refl
