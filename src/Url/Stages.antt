-- ===== src/Url/Stages.antt =====
-- The user's and the server's part of a URL, each put together and then read (lib/afp_url.c).
use netatalk_client.Base.{
  ℕ, ◌≡◌, ◌<◌, ◌≤◌, refl, Bool, false, Option, some, List, [], ◌∷◌, ◌++◌, arith, ==_ne, length,
  take_all, le→ltb_false,
}
use mathlib.Core.List.{append-nil}
use netatalk_client.Url.Data.{Url, check_servername, check_port, port_of}
use netatalk_client.Url.Scan.{find_char, contains}
use netatalk_client.Url.Escape.{
  Lacks, OtherHead, find_char-append, find_char_absent, decimal, IsDigits, digit_text,
  parse_long-digit_text,
}
use netatalk_client.Url.Parts.{port_text}
use netatalk_client.Url.{
  user_part, host_and_port, port_split, server_part, store_port, store_server,
}
use netatalk_client.Path.{slash}
use netatalk_client.Url.User.{IsPlain}

-- The digits of a port that `check_port` takes, if there are any.
abbrev pub IsPort : List ℕ → Type 0
IsPort [] = Unit
IsPort (d ∷ s) = IsDigits (d ∷ s) × (0 < decimal 0 (d ∷ s)) × (decimal 0 (d ∷ s) ≤ 32767)

abbrev pub port_number : List ℕ → ℕ → ℕ
port_number [] default = default
port_number (d ∷ s) default = decimal 0 (d ∷ s)

check_port-digit_text :
    (d : ℕ) (s : List ℕ)
    → IsPort (d ∷ s)
    → check_port (digit_text (d ∷ s)) ≡ some (decimal 0 (d ∷ s))
unfolding check_port port_of
check_port-digit_text d s (digits, low, high) =
    rw (parse_long-digit_text d s digits) (rw (le→ltb_false 32767 (decimal 0 (d ∷ s)) high) refl)

other_head :
    (server tail : List ℕ)
    → 0 < length server
    → OtherHead b'[' server
    → host_and_port (server ++ tail) ≡ port_split (server ++ tail) (find_char b':' (server ++ tail))
unfolding host_and_port
other_head [] tail h k = elim h [ ]
other_head (x ∷ server) tail h k = rw (==_ne x b'[' k)

contains-Lacks : (c : ℕ) (s : List ℕ) → Lacks c s → contains c s ≡ false
unfolding contains
contains-Lacks c [] h = refl
contains-Lacks c (x ∷ s) (hx, h) = ground (arith, contains-Lacks c s h)

module _ (fuel : ℕ) (alloc : ℕ → Bool) (url : Url) (user second : Option (List ℕ)) where
  store_server-plain :
      (port : ℕ) (server : List ℕ)
      → Lacks slash server
      → length server ≤ 254
      → store_server fuel alloc (record url { port = port }) server user second
        ≡ user_part fuel alloc (record url { port = port; servername = server }) user second
  unfolding store_server check_servername
  store_server-plain port server h k = rw (take_all 254 server k, contains-Lacks slash server h)

  pub server_part-text :
      (server digits : List ℕ)
      → IsPlain server
      → 0 < length server
      → length server ≤ 254
      → OtherHead b'[' server
      → IsPort digits
      → server_part fuel alloc url (host_and_port (server ++ port_text digits)) user second
        ≡ user_part fuel alloc
            (record url { port = port_number digits url.port; servername = server })
            user
            second
  unfolding server_part port_split store_port
  server_part-text server [] plain ne short head h =
      rw (other_head server [] ne head, append-nil server, find_char_absent b':' server plain.2)
        (store_server-plain url.port server plain.0 short)
  server_part-text server (d ∷ s) plain ne short head h =
      rw
        (
          other_head server (port_text (d ∷ s)) ne head,
          find_char-append b':' server (digit_text (d ∷ s)) plain.2,
          check_port-digit_text d s h,
          ==_ne (decimal 0 (d ∷ s)) 0 (omega (arith, h.1)),
        )
        (store_server-plain (decimal 0 (d ∷ s)) server plain.0 short)
