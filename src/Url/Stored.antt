-- ===== src/Url/Stored.antt =====
-- The parts of a URL behind its authority's user fit their buffers (lib/afp_url.c).
use netatalk_client.Base.{
  ◌||◌, ℕ, zero, suc, ◌+◌, ◌-◌, ◌<◌, ◌≤◌, Bool, false, Option, none, some, List, [], ◌∷◌, arith,
  ◌==◌, if-both, length, drop, take, length-take, codes,
}
use netatalk_client.Base.Errno.{Result, ok, err}
use netatalk_client.Path.{AfpcPath, slash, join, size_max}
use netatalk_client.Path.Bounds.{IsBoundedPath, join-IsBoundedPath}
use netatalk_client.Url.Data.{
  Url, UrlOutcome, parsed, refused, outside_read, endless, check_uamname, escape_url, hostname_room,
  user_room, uam_room, max_utf8_path_bytes,
}
use netatalk_client.Url.Scan.{
  Found, before, find_char, find_text, starts_with, Search, at, absent, in_front, unfinished,
  escape_string, escape_loop,
}
use netatalk_client.Url.{
  parse_secondpart, volume_split, without_slash, path_joined, store_username, auth_split, auth_part,
  password_split,
}

-- Each field fits its buffer with a NUL, the path the limit of the wire, and the port its check.
pub record Fits (url : Url) : Type 0 where
  pub username : length url.username ≤ 126
  pub uamname : length url.uamname ≤ 49
  pub password : length url.password ≤ 126
  pub servername : length url.servername ≤ 254
  pub volumename : length url.volumename ≤ 254
  pub path : IsBoundedPath 65535 url.path
  pub port : url.port ≤ 32767

abbrev pub IsFit : UrlOutcome → Type 0
IsFit (parsed url) = Fits url × (0 < url.port)
IsFit (refused url) = Fits url
IsFit outside_read = Unit
IsFit endless = Unit

length-escape_string : (s : List ℕ) (c : ℕ) → length (escape_string s c) ≤ length s
unfolding escape_string escape_loop
length-escape_string s c = loop false s
  where
    loop : (b : Bool) (s : List ℕ) → length (escape_loop c b s) ≤ length s
    loop b [] = omega arith
    loop b (d ∷ s) = ground (arith, loop false s, loop (d == c || b) s)

escape_url-Fits : (url : Url) → Fits url → 0 < url.port → IsFit (parsed (escape_url url))
unfolding escape_url
escape_url-Fits url h p = (
  record {
    username = omega (arith, length-escape_string url.username b':', h.username);
    uamname = h.uamname;
    password = omega (arith, length-escape_string url.password b'@', h.password);
    servername = h.servername;
    volumename = h.volumename;
    path = h.path;
    port = h.port;
  },
  p,
)

-- What a search finds is no longer than the text.
abbrev pub Shorter : ℕ → Found → Type 0
Shorter n none = Unit
Shorter n (some (front, back)) = (length front ≤ n) × (length back ≤ n)

before-Shorter : (n x : ℕ) (f : Found) → Shorter n f → Shorter (suc n) (before x f)
before-Shorter n x none h = tt
before-Shorter n x (some (front, back)) h = omega (arith, h)

pub find_char-Shorter : (c : ℕ) (s : List ℕ) → Shorter (length s) (find_char c s)
unfolding find_char
find_char-Shorter c [] = tt
find_char-Shorter c (x ∷ s) =
    if-both (Shorter (suc (length s))) (x == c) (some ([], s)) (before x (find_char c s))
      (omega arith) (before-Shorter (length s) x (find_char c s) (find_char-Shorter c s))

length-drop_le : (n : ℕ) (s : List ℕ) → length (drop n s) ≤ length s
length-drop_le zero s = omega arith
length-drop_le (suc n) [] = omega arith
length-drop_le (suc n) (x ∷ s) = omega (arith, length-drop_le n s)

pub find_text-Shorter : (text s : List ℕ) → Shorter (length s) (find_text text s)
unfolding find_text
find_text-Shorter text [] = tt
find_text-Shorter text (x ∷ s) =
    if-both (Shorter (suc (length s))) (starts_with text (x ∷ s))
      (some ([], drop (length text) (x ∷ s))) (before x (find_text text s))
      (omega arith, length-drop_le (length text) (x ∷ s))
      (before-Shorter (length s) x (find_text text s) (find_text-Shorter text s))

length-without_slash : (s : List ℕ) → length (without_slash s) ≤ length s
unfolding without_slash
length-without_slash s = ground (arith, length-take (length s - 1) s)

pub take_short : (n : ℕ) (s : List ℕ) → length (take n s) ≤ n
take_short n s = omega (arith, length-take n s)

abbrev pub SecondFits : Option (List ℕ) → Type 0
SecondFits none = Unit
SecondFits (some s) = length s < size_max

module _ (alloc : ℕ → Bool) where
  path_joined-IsFit :
      (url : Url) (r : Result (Unit {0}) × AfpcPath)
      → Fits url
      → 0 < url.port
      → IsBoundedPath 65535 r.1
      → IsFit (path_joined url r)
  unfolding path_joined
  path_joined-IsFit url (ok u, p) h k b = escape_url-Fits (record url { path = p }) (ground arith) k
  path_joined-IsFit url (err e, p) h k b = ground arith

  volume_split-IsFit :
      (url : Url) (s : List ℕ) (f : Found)
      → Fits url
      → 0 < url.port
      → length s < size_max
      → Shorter (length s) f
      → IsFit (volume_split alloc url s f)
  unfolding volume_split
  volume_split-IsFit url s none h k lt sh =
      escape_url-Fits (record url { volumename = take hostname_room s })
        (ground (arith, take_short 254 s)) k
  volume_split-IsFit url s (some (volume, q)) h k lt sh =
      path_joined-IsFit (record url { volumename = take hostname_room volume })
        (join alloc url.path (some (slash ∷ [])) (some q) max_utf8_path_bytes)
        (ground (arith, take_short 254 volume)) k
        (join-IsBoundedPath alloc url.path (some (slash ∷ [])) (some q) 65535 (omega arith)
          (omega (arith, sh.1)) h.path)

  pub parse_secondpart-IsFit :
      (url : Url) (second : Option (List ℕ))
      → Fits url
      → 0 < url.port
      → SecondFits second
      → IsFit (parse_secondpart alloc url second)
  unfolding parse_secondpart
  parse_secondpart-IsFit url none h k lt = escape_url-Fits url h k
  parse_secondpart-IsFit url (some []) h k lt =
      if-both IsFit (alloc 1) (parsed (escape_url url)) (refused url) (escape_url-Fits url h k) h
  parse_secondpart-IsFit url (some (c ∷ s)) h k lt =
      if-both IsFit (alloc (length (c ∷ s) + 1)) _ _
        (volume_split-IsFit url (without_slash (c ∷ s)) (find_char slash (without_slash (c ∷ s))) h
          k (omega (arith, length-without_slash (c ∷ s)))
          (find_char-Shorter slash (without_slash (c ∷ s))))
        h

  store_username-IsFit :
      (url : Url) (name : List ℕ) (second : Option (List ℕ))
      → Fits url
      → 0 < url.port
      → SecondFits second
      → IsFit (store_username alloc url name second)
  unfolding store_username
  store_username-IsFit url [] second h k lt = parse_secondpart-IsFit url second h k lt
  store_username-IsFit url (c ∷ name) second h k lt =
      parse_secondpart-IsFit (record url { username = take user_room (c ∷ name) }) second
        (ground (arith, take_short 126 (c ∷ name))) k lt

  auth_split-IsFit :
      (url : Url) (p : List ℕ) (second : Option (List ℕ)) (f : Found)
      → Fits url
      → 0 < url.port
      → SecondFits second
      → IsFit (auth_split alloc url p second f)
  unfolding auth_split
  auth_split-IsFit url p second none h k lt = store_username-IsFit url p second h k lt
  auth_split-IsFit url p second (some (name, uam)) h k lt =
      let named : Fits (record url { uamname = take uam_room uam }) =
        ground (arith, take_short 49 uam) in
      if-both IsFit (check_uamname (take uam_room uam)) _ _ named
        (store_username-IsFit (record url { uamname = take uam_room uam }) name second named k lt)

  pub password_split-IsFit :
      (url : Url) (user : List ℕ) (second : Option (List ℕ)) (s : Search)
      → Fits url
      → 0 < url.port
      → SecondFits second
      → IsFit (password_split alloc url user second s)
  unfolding password_split auth_part
  password_split-IsFit url user second absent h k lt =
      auth_split-IsFit url user second (find_text (codes ";AUTH=") user) h k lt
  password_split-IsFit url user second (at i) h k lt =
      auth_split-IsFit (record url { password = take user_room (drop (i + 1) user) }) (take i user)
        second (find_text (codes ";AUTH=") (take i user))
        (ground (arith, take_short 126 (drop (i + 1) user))) k lt
  password_split-IsFit url user second in_front h k lt = tt
  password_split-IsFit url user second unfinished h k lt = tt
