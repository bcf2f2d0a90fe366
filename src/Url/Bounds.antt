-- ===== src/Url/Bounds.antt =====
-- What `parse_url` of lib/afp_url.c stores fits the buffers of the URL, whatever the text.
use netatalk_client.Base.{
  ℕ, ◌-◌, ◌<◌, ◌≤◌, refl, Bool, not, ℤ, pos, negsuc, Option, none, some, List, arith, ltb, leb,
  ◌==◌, if-split, if-both, length, drop, take, codes, str_eq,
}
use netatalk_client.Path.{slash, size_max}
use netatalk_client.Url.Data.{Url, check_servername, check_port, port_of, cleared, hostname_room}
use netatalk_client.Url.Scan.{
  Found, find_char, find_text, escape_strchr, escape_strrchr, parse_long,
}
use netatalk_client.Url.{
  parse_url, user_part, host_and_port, server_part, store_port, store_server, at_split, authority,
  slash_split, scheme_split,
}
use netatalk_client.Url.Stored.{
  Fits, IsFit, Shorter, find_char-Shorter, find_text-Shorter, take_short, SecondFits,
  parse_secondpart-IsFit, password_split-IsFit,
}

module _ (alloc : ℕ → Bool) where
  module _ (fuel : ℕ) where
    user_part-IsFit :
        (url : Url) (user second : Option (List ℕ))
        → Fits url
        → 0 < url.port
        → SecondFits second
        → IsFit (user_part fuel alloc url user second)
    unfolding user_part
    user_part-IsFit url none second h k lt = parse_secondpart-IsFit alloc url second h k lt
    user_part-IsFit url (some user) second h k lt =
        password_split-IsFit alloc url user second (escape_strrchr fuel user b':' (codes ":") 0) h k
          lt

    store_server-IsFit :
        (url : Url) (host : List ℕ) (user second : Option (List ℕ))
        → Fits url
        → 0 < url.port
        → SecondFits second
        → IsFit (store_server fuel alloc url host user second)
    unfolding store_server
    store_server-IsFit url host user second h k lt =
        let named : Fits (record url { servername = take hostname_room host }) =
          ground (arith, take_short 254 host) in
        if-both IsFit (check_servername (take hostname_room host)) _ _ named (
          user_part-IsFit (record url { servername = take hostname_room host }) user second named k
            lt)

    store_port-IsFit :
        (url : Url) (host : List ℕ) (v : ℤ) (user second : Option (List ℕ))
        → Fits url
        → SecondFits second
        → IsFit (store_port fuel alloc url host (port_of v) user second)
    unfolding store_port port_of
    store_port-IsFit url host (negsuc n) user second h lt = h
    store_port-IsFit url host (pos n) user second h lt =
        if-split (λ r. IsFit (store_port fuel alloc url host r user second)) (ltb 32767 n) none
          (some n) (λ e. h)
          (λ e.
            let ported : Fits (record url { port = n }) = ground arith in
            if-split IsFit (n == 0) _ _ (λ z. ported)
              (λ z.
                store_server-IsFit (record url { port = n }) host user second ported (ground arith)
                  lt))

    server_part-IsFit :
        (url : Url) (r : List ℕ × Option (List ℕ)) (user second : Option (List ℕ))
        → Fits url
        → 0 < url.port
        → SecondFits second
        → IsFit (server_part fuel alloc url r user second)
    unfolding server_part check_port
    server_part-IsFit url (host, none) user second h k lt =
        store_server-IsFit url host user second h k lt
    server_part-IsFit url (host, some q) user second h k lt =
        store_port-IsFit url host (parse_long q) user second h lt

    at_split-IsFit :
        (url : Url) (first : List ℕ) (second : Option (List ℕ)) (f : Found)
        → Fits url
        → 0 < url.port
        → SecondFits second
        → IsFit (at_split fuel alloc url first second f)
    unfolding at_split
    at_split-IsFit url first second none h k lt =
        server_part-IsFit url (host_and_port first) none second h k lt
    at_split-IsFit url first second (some (user, server)) h k lt =
        server_part-IsFit url (host_and_port server) (some user) second h k lt

    slash_split-IsFit :
        (url : Url) (p : List ℕ) (f : Found)
        → Fits url
        → 0 < url.port
        → length p < size_max
        → Shorter (length p) f
        → IsFit (slash_split fuel alloc url p f)
    unfolding slash_split authority
    slash_split-IsFit url p none h k lt sh =
        if-both IsFit (leb 255 (length p)) _ _ h
          (at_split-IsFit url p none (escape_strchr p b'@' (codes "@")) h k tt)
    slash_split-IsFit url p (some (first, second)) h k lt sh =
        if-both IsFit (leb 255 (length first)) _ _ h (
          at_split-IsFit url first (some second) (escape_strchr first b'@' (codes "@")) h k
            (omega (arith, sh.1)))

    scheme_split-IsFit :
        (url : Url) (n : ℕ) (f : Found)
        → Fits url
        → 0 < url.port
        → n < size_max
        → Shorter n f
        → IsFit (scheme_split fuel alloc url f)
    unfolding scheme_split
    scheme_split-IsFit url n none h k lt sh = h
    scheme_split-IsFit url n (some (front, p)) h k lt sh =
        if-both IsFit (ltb (length front) 3) _ _ tt (
          if-both IsFit (not (str_eq (drop (length front - 3) front) (codes "afp"))) _ _ h (
            slash_split-IsFit url p (find_char slash p) h k (omega (arith, sh.1))
              (find_char-Shorter slash p)))

-- Whatever the text and what `malloc` answers, each field that `parse_url` stores fits its buffer
-- with a NUL, also where the URL is refused, and where the URL is parsed its port is one of 1 to
-- 32767: a port that stays as it was is assumed to be so, and the text to fit into memory.
pub parse_url-IsFit :
    (fuel : ℕ) (alloc : ℕ → Bool) (url : Url) (toparse : List ℕ)
    → length toparse < size_max
    → 0 < url.port
    → url.port ≤ 32767
    → IsFit (parse_url fuel alloc url toparse)
unfolding parse_url cleared
parse_url-IsFit fuel alloc url toparse fits low high =
    scheme_split-IsFit alloc fuel (cleared url) (length toparse) (find_text (codes "://") toparse)
      cleared_fits low fits (find_text-Shorter (codes "://") toparse)
  where
    cleared_fits : Fits (cleared url)
    cleared_fits = record {
      username = omega arith;
      uamname = omega arith;
      password = omega arith;
      servername = omega arith;
      volumename = omega arith;
      path = record { measured = refl; within = omega arith };
      port = high;
    }
