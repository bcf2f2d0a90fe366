-- ===== src/Url/Tests.antt =====
-- URLs that lib/afp_url.c parses, and its theorems at concrete texts.
use netatalk_client.Base.{◌≡◌, refl, true, none, some, [], ◌∷◌, arith, codes, ap, Option, str_eq}
use netatalk_client.Url.Data.{
  parsed, refused, endless, default_url, check_port, check_servername, check_uamname, escape_url,
}
use netatalk_client.Url.Parts.{UrlParts, UserParts, url_text}
use netatalk_client.Url.User.{IsUser}
use netatalk_client.Url.RoundTrip.{parse_url-url_text}
use netatalk_client.Url.Parted.{IsUrl, url_of}
use netatalk_client.Url.Bounds.{parse_url-IsFit}
use netatalk_client.Url.Stored.{IsFit}
use netatalk_client.Url.Faults.{colons_text, parse_url_colons}
use netatalk_client.Url.{
  parse_url, authority, server_part, host_and_port, store_port, store_server, user_part,
  parse_secondpart, without_slash,
}
use netatalk_client.Url.Scan.{find_text, find_char, escape_strchr}
use netatalk_client.Url.Escape.{double}
use netatalk_client.Uams.{uam_string_to_bitmap}
use mathlib.Core.Path.{subst}

abbrev joe : UserParts
joe = record { name = codes "joe"; uam = some (codes "dhx2"); password = some (codes "s@cret") }

abbrev joes_url : UrlParts
joes_url = record {
  user = some joe;
  server = codes "srv";
  port_digits = 5 ∷ 4 ∷ 9 ∷ [];
  second = some (codes "Vol", codes "a/b");
}

joes_text : url_text joes_url ≡ codes "afp://joe;AUTH=dhx2:s@@cret@srv:549/Vol/a/b"
unfolding double
joes_text = refl

joe-IsUser : IsUser joe
unfolding double check_uamname uam_string_to_bitmap
joe-IsUser = record {
  plain = omega arith;
  no_semicolon = omega arith;
  not_empty = omega arith;
  fits = omega arith;
  uam_fits = (omega arith, omega arith, refl);
  password_fits = omega arith;
}

abbrev user_or_joe : Option UserParts → UserParts
user_or_joe none = joe
user_or_joe (some u) = u

joes_url-IsUrl : IsUrl joes_url
unfolding double without_slash
joes_url-IsUrl = record {
  user_fits = λ u e. subst IsUser (ap user_or_joe e) joe-IsUser;
  plain = omega arith;
  not_empty = omega arith;
  short = omega arith;
  no_literal = omega arith;
  port_fits = omega arith;
  authority_fits = omega arith;
  second_fits = (omega arith, omega arith, omega arith, omega arith, refl);
}

-- An address in brackets keeps its colons, and a port behind it is read.
literal_address :
    parse_url 1 (λ n. true) default_url (codes "afp://[fe80::1]:549/Vol/")
    ≡ parsed
        (record default_url { servername = codes "fe80::1"; port = 549; volumename = codes "Vol" })
unfolding parse_url default_url find_text str_eq find_char authority escape_strchr server_part
    host_and_port store_port check_port store_server check_servername user_part parse_secondpart
    without_slash escape_url
literal_address = refl

-- Ports above 32767 are refused.
high_port : parse_url 1 (λ n. true) default_url (codes "afp://srv:49152/Vol") ≡ refused default_url
unfolding parse_url default_url find_text str_eq find_char authority escape_strchr server_part
    host_and_port store_port check_port
high_port = refl

parse_url-url_text_example :
    parse_url 1 (λ n. true) default_url (url_text joes_url) ≡ parsed (url_of default_url joes_url)
parse_url-url_text_example =
    parse_url-url_text 0 (λ n. true) default_url joes_url (λ n. refl) joes_url-IsUrl

parse_url-IsFit_example :
    IsFit
      (parse_url 1 (λ n. true) (record default_url { port = 548 }) (codes "afp://srv:49152/Vol"))
parse_url-IsFit_example =
    parse_url-IsFit 1 (λ n. true) (record default_url { port = 548 }) (codes "afp://srv:49152/Vol")
      (omega arith) (omega arith) (omega arith)

parse_url_colons_example :
    parse_url 100 (λ n. true) default_url (colons_text (codes "joe") (codes "pw") (codes "srv"))
    ≡ endless
parse_url_colons_example =
    parse_url_colons 99 (λ n. true) default_url (codes "joe") (codes "pw") (codes "srv")
      (record {
        front_plain = omega arith;
        back_plain = omega arith;
        server_plain = omega arith;
        not_empty = omega arith;
        no_literal = omega arith;
        short = omega arith;
      })
