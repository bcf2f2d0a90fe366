-- ===== src/Url/Data.antt =====
-- The URL record of lib/afp_url.c, its defaults, what a parse comes to, and the checks of its parts.
use netatalk_client.Base.{
  ℕ, ℤ, pos, negsuc, Bool, true, Option, none, some, List, [], ltb, ◌==◌, if◌then◌else◌,
}
use netatalk_client.Path.{AfpcPath, clear, slash}
use netatalk_client.Uams.{uam_string_to_bitmap}
use netatalk_client.Url.Scan.{contains, escape_string, parse_long}

-- `struct afpc_url`. The protocol is `AFPC_TRANSPORT_TCPIP` or 0.
pub record Url : Type 0 where
  pub tcp_ip : Bool
  pub username : List ℕ
  pub uamname : List ℕ
  pub password : List ℕ
  pub servername : List ℕ
  pub port : ℕ
  pub volumename : List ℕ
  pub path : AfpcPath
  pub requested_version : ℕ
  pub zone : List ℕ
  pub volpassword : List ℕ

-- `refused` is -1 with what the URL holds then. `outside_read` is a read in front of a string, and
-- `endless` a call that has not returned within the fuel.
pub data UrlOutcome : Type 0 where
  parsed : Url → UrlOutcome
  refused : Url → UrlOutcome
  outside_read : UrlOutcome
  endless : UrlOutcome

-- `afp_default_url`
unfoldable pub default_url : Url
default_url = record {
  tcp_ip = true;
  username = [];
  uamname = [];
  password = [];
  servername = [];
  port = 548;
  volumename = [];
  path = record { bytes = none; len = 0 };
  requested_version = 0;
  zone = [];
  volpassword = [];
}

-- `sizeof` the buffers, less the NUL that `strlcpy` writes.
abbrev pub hostname_room : ℕ
hostname_room = 254

abbrev pub user_room : ℕ
user_room = 126

abbrev pub uam_room : ℕ
uam_room = 49

abbrev pub max_utf8_path_bytes : ℕ
max_utf8_path_bytes = 65535

-- `check_servername` and `check_uamname`; `true` refuses.
unfoldable pub check_servername : List ℕ → Bool
unfolding contains
check_servername servername = contains slash servername

unfoldable pub check_uamname : List ℕ → Bool
check_uamname uam = uam_string_to_bitmap uam == 0

-- `check_port`, with the port where it passes.
unfoldable pub port_of : ℤ → Option ℕ
port_of (pos n) = if ltb 32767 n then none else some n
port_of (negsuc n) = none

unfoldable pub check_port : List ℕ → Option ℕ
unfolding port_of parse_long
check_port port = port_of (parse_long port)

-- `escape_url`
unfoldable pub escape_url : Url → Url
unfolding escape_string
escape_url url = record url {
  password = escape_string url.password b'@';
  username = escape_string url.username b':';
}

unfoldable pub cleared : Url → Url
unfolding clear
cleared url = record url {
  username = [];
  servername = [];
  uamname = [];
  password = [];
  volumename = [];
  path = clear url.path;
}
