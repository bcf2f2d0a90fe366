-- ===== src/Url/Faults.antt =====
-- Texts on which `parse_url` of lib/afp_url.c reads in front of a string, or does not return.
use netatalk_client.Base.{
  ℕ, suc, ◌≡◌, ◌<◌, refl, ap, sym, ◌∙◌, Bool, true, false, Option, none, some, List, [], ◌∷◌, ◌++◌,
  arith, ◌==◌, ==_ne, if◌then◌else◌, length, All-append, codes, length-append, str_eq, lt→leb_false,
  lt→ltb,
}
use mathlib.Core.Path.{subst}
use mathlib.Core.List.{append_assoc, append-nil}
use netatalk_client.Path.{slash}
use netatalk_client.Url.Data.{Url, outside_read, endless, cleared}
use netatalk_client.Url.Scan.{
  find_char, contains, escape_strchr, unescaped, escape_strrchr, in_front, unfinished,
}
use netatalk_client.Url.Escape.{
  scheme_found, OtherHead-append, Lacks, OtherHead, find_text-append, find_char_absent, double_same,
  unescaped-double,
}
use netatalk_client.Url.Stages.{server_part-text}
use netatalk_client.Url.User.{IsPlain}
use netatalk_client.Url.{
  parse_url, scheme_split, slash_split, authority, at_split, user_part, password_split, server_part,
  host_and_port,
}
use netatalk_client.Url.Colons.{colons, search_endless, search_in_front}

-- An authority without an authentication method or a port.
abbrev pub colons_text : List ℕ → List ℕ → List ℕ → List ℕ
colons_text front back server = codes "afp://" ++ ((front ++ colons back) ++ (b'@' ∷ server))

-- What the front and back parts of the user may be, and the server.
pub record IsColonsText (front back server : List ℕ) : Type 0 where
  pub front_plain : Lacks slash front × Lacks b'@' front
  pub back_plain : IsPlain back
  pub server_plain : IsPlain server
  pub not_empty : 0 < length server
  pub no_literal : OtherHead b'[' server
  pub short : length ((front ++ colons back) ++ (b'@' ∷ server)) < 255

last_apart : (y : ℕ) (s : List ℕ) → (front : List ℕ) × (x : ℕ) × (y ∷ s ≡ front ++ (x ∷ []))
last_apart y [] = ([], y, refl)
last_apart y (z ∷ s) = let (front, x, e) = last_apart z s in (y ∷ front, x, ap (λ t. y ∷ t) e)

-- Where the search for the password's colon ends up.
search_colons :
    (front back : List ℕ) (fuel : ℕ)
    → Lacks b':' back
    → escape_strrchr (suc fuel) (front ++ colons back) b':' (codes ":") 0
      ≡ (if length front == 0 then in_front else unfinished)
search_colons [] back fuel h = search_in_front back fuel h
search_colons (y ∷ s) back fuel h =
    let (front, x, e) = last_apart y s in
    ap (λ t. escape_strrchr (suc fuel) (t ++ colons back) b':' (codes ":") 0) e
    ∙ ap (λ t. escape_strrchr (suc fuel) t b':' (codes ":") 0)
        (append_assoc front (x ∷ []) (colons back))
    ∙ search_endless x back h front (suc fuel)
    ∙ rw (==_ne (suc (length s)) 0 (omega arith)) refl

password_split_if :
    (alloc : ℕ → Bool) (url : Url) (user : List ℕ) (second : Option (List ℕ)) (pair_first : Bool)
    → password_split alloc url user second (if pair_first then in_front else unfinished)
      ≡ (if pair_first then outside_read else endless)
unfolding password_split
password_split_if alloc url user second true = refl
password_split_if alloc url user second false = refl

module _ (fuel : ℕ) (alloc : ℕ → Bool) (url : Url) (front back server : List ℕ)
    (h : IsColonsText front back server) where
  user_Lacks : Lacks b'@' (front ++ colons back)
  user_Lacks =
      All-append _ front (colons back) h.front_plain.1 (omega arith, (omega arith, h.back_plain.1))

  server_head : OtherHead b'@' server
  server_head =
      subst (OtherHead b'@') (append-nil server)
        (OtherHead-append b'@' server [] h.not_empty h.server_plain.1)

  user_split :
      unescaped b'@' ((front ++ colons back) ++ (b'@' ∷ server))
      ≡ some (front ++ colons back, server)
  user_split =
      ap (λ (t : List ℕ). unescaped b'@' (t ++ (b'@' ∷ server)))
        (sym (double_same b'@' (front ++ colons back) user_Lacks))
      ∙ unescaped-double b'@' (front ++ colons back) server server_head
      ∙ rw (double_same b'@' (front ++ colons back) user_Lacks) refl

  text_Lacks : Lacks slash ((front ++ colons back) ++ (b'@' ∷ server))
  text_Lacks =
      All-append _ (front ++ colons back) (b'@' ∷ server)
        (All-append _ front (colons back) h.front_plain.0
          (omega arith, (omega arith, h.back_plain.0)))
        (omega arith, h.server_plain.0)

  server_split :
      server_part
        (suc fuel)
        alloc
        (cleared url)
        (host_and_port server)
        (some (front ++ colons back))
        none
      ≡ user_part
          (suc fuel)
          alloc
          (record (cleared url) { servername = server })
          (some (front ++ colons back))
          none
  server_split =
      ap
        (λ t.
          server_part (suc fuel) alloc (cleared url) (host_and_port t) (some (front ++ colons back))
            none)
        (sym (append-nil server))
      ∙ server_part-text (suc fuel) alloc (cleared url) (some (front ++ colons back)) none server []
          h.server_plain h.not_empty
          (omega (arith, h.short, length-append (front ++ colons back) (b'@' ∷ server)))
          h.no_literal tt

  -- A user's part whose last colon is doubled never gets through `parse_url`. If the pair of colons
  -- stands at its beginning, `escape_strrchr` continues in front of the text; otherwise it calls
  -- itself on the same colon again, and has not returned after any number of calls. No slash and no
  -- `@` stand in the user's part, the server's part is plain, and the authority fits its buffer.
  pub parse_url_colons :
      parse_url (suc fuel) alloc url (colons_text front back server)
      ≡ (if length front == 0 then outside_read else endless)
  unfolding parse_url scheme_split slash_split authority at_split user_part str_eq find_char
      escape_strchr contains
  parse_url_colons =
      rw
        (
          scheme_found ((front ++ colons back) ++ (b'@' ∷ server)),
          find_char_absent slash ((front ++ colons back) ++ (b'@' ∷ server)) text_Lacks,
          lt→leb_false 255 (length ((front ++ colons back) ++ (b'@' ∷ server))) h.short,
          user_split,
          server_split,
          search_colons front back fuel h.back_plain.2,
        )
        (password_split_if alloc (record (cleared url) { servername = server })
          (front ++ colons back) none (length front == 0))

-- With fewer than three bytes in front of `://` the parser reads in front of the text.
pub parse_url_no_scheme :
    (fuel : ℕ) (alloc : ℕ → Bool) (url : Url) (front rest : List ℕ)
    → Lacks b':' front
    → length front < 3
    → parse_url fuel alloc url (front ++ (codes "://" ++ rest)) ≡ outside_read
unfolding parse_url scheme_split
parse_url_no_scheme fuel alloc url front rest h k =
    rw (find_text-append b':' (codes "//") front rest h, lt→ltb (length front) 3 k) refl
