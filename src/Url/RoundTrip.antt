-- ===== src/Url/RoundTrip.antt =====
-- A URL that is put together from its parts is parsed into them: `parse_url` of lib/afp_url.c.
use netatalk_client.Base.{
  ℕ, suc, ◌+◌, ◌≡◌, ◌≢◌, ◌<◌, refl, ap, sym, ◌∙◌, Bool, true, Option, none, some, List, ◌∷◌, ◌++◌,
  arith, length, All-append, codes, lt→leb_false, str_eq,
}
use mathlib.Core.List.{append-nil}
use netatalk_client.Url.Data.{Url, parsed, cleared}
use netatalk_client.Url.Scan.{find_char, contains, escape_strchr, unescaped}
use netatalk_client.Url.Escape.{
  scheme_found, OtherHead-append, Lacks, OtherHead, find_char-append, find_char_absent,
  unescaped-double, unescaped_absent,
}
use netatalk_client.Url.Parts.{
  UserParts, UrlParts, VolumeAndPath, uam_text, password_text, user_text, port_text, host_text,
  authority_text, second_text, url_text, second_part, parse_secondpart-text,
}
use netatalk_client.Url.{
  parse_url, parse_secondpart, user_part, at_split, authority, slash_split, scheme_split,
}
use netatalk_client.Path.{slash}
use netatalk_client.Url.Stages.{port_number, server_part-text}
use netatalk_client.Url.User.{IsPassword, double-Lacks, user_part-text}
use netatalk_client.Url.Parted.{
  IsUrl, port_text-Lacks, uam_text-Lacks, raw_password, double-user_text, stored, url_of,
  escape_url-stored,
}

module _ (fuel : ℕ) (alloc : ℕ → Bool) (url : Url) (p : UrlParts) (h : IsUrl p) where
  host_head : OtherHead b'@' (host_text p)
  host_head = OtherHead-append b'@' p.server (port_text p.port_digits) h.not_empty h.plain.1

  host_Lacks :
      (c : ℕ)
      → b':' ≢ c
      → ((d : ℕ) → d < 10 → b'0' + d ≢ c)
      → Lacks c p.server
      → Lacks c (host_text p)
  host_Lacks c colon ne k =
      All-append _ p.server (port_text p.port_digits) k
        (port_text-Lacks c p.port_digits colon ne h.port_fits)

  at_split-text :
      (user : Option UserParts) (second : Option (List ℕ))
      → p.user ≡ user
      → at_split
          (suc fuel)
          alloc
          (cleared url)
          (authority_text p user)
          second
          (escape_strchr (authority_text p user) b'@' (codes "@"))
        ≡ parse_secondpart alloc (stored url p user) second
  unfolding at_split escape_strchr contains cleared user_part
  at_split-text none second e =
      rw
        (
          unescaped_absent b'@' (host_text p)
              (host_Lacks b'@' (omega arith) (λ d k. omega arith) h.plain.1),
          server_part-text (suc fuel) alloc (cleared url) none second p.server p.port_digits h.plain
              h.not_empty h.short h.no_literal h.port_fits,
        )
        refl
  at_split-text (some u) second e =
      let is = h.user_fits u e in
      rw
        (
          ap (λ (t : List ℕ). unescaped b'@' (t ++ (b'@' ∷ host_text p)))
              (sym (double-user_text u is)),
          unescaped-double b'@' ((u.name ++ uam_text u.uam) ++ raw_password u.password)
              (host_text p) host_head,
          double-user_text u is,
          server_part-text (suc fuel) alloc (cleared url) (some (user_text u)) second p.server
              p.port_digits h.plain h.not_empty h.short h.no_literal h.port_fits,
        )
        (user_part-text fuel alloc
          (record (cleared url) {
            port = port_number p.port_digits url.port;
            servername = p.server;
          })
          u u.password second is is.password_fits refl refl)

  -- No slash stands in the authority.
  authority_Lacks : (user : Option UserParts) → p.user ≡ user → Lacks slash (authority_text p user)
  authority_Lacks none e = host_Lacks slash (omega arith) (λ d k. omega arith) h.plain.0
  authority_Lacks (some u) e =
      let is = h.user_fits u e in
      All-append _ (user_text u) (b'@' ∷ host_text p)
        (All-append _ (u.name ++ uam_text u.uam) (password_text u.password)
          (All-append _ u.name (uam_text u.uam) is.plain.0
            (uam_text-Lacks slash u.uam (omega arith) (λ s k. k.0) is.uam_fits))
          (no_slash u.password is.password_fits))
        (omega arith, host_Lacks slash (omega arith) (λ d k. omega arith) h.plain.0)
    where
      no_slash : (q : Option (List ℕ)) → IsPassword q → Lacks slash (password_text q)
      no_slash none k = tt
      no_slash (some s) k = (omega arith, double-Lacks b'@' slash s (omega arith) k.0)

  authority-text :
      (second : Option (List ℕ))
      → authority (suc fuel) alloc (cleared url) (authority_text p p.user) second
        ≡ parse_secondpart alloc (stored url p p.user) second
  unfolding authority
  authority-text second =
      rw (lt→leb_false 255 (length (authority_text p p.user)) h.authority_fits)
        (at_split-text p.user second refl)

  split_second :
      (second : Option VolumeAndPath)
      → slash_split
          (suc fuel)
          alloc
          (cleared url)
          (authority_text p p.user ++ second_text second)
          (find_char slash (authority_text p p.user ++ second_text second))
        ≡ parse_secondpart alloc (stored url p p.user) (second_part second)
  unfolding slash_split
  split_second none =
      rw
        (
          append-nil (authority_text p p.user),
          find_char_absent slash (authority_text p p.user) (authority_Lacks p.user refl),
        )
        (authority-text none)
  split_second (some (volume, path)) =
      rw
        (find_char-append slash (authority_text p p.user) (volume ++ (slash ∷ path))
          (authority_Lacks p.user refl))
        (authority-text (some (volume ++ (slash ∷ path))))

-- A URL with any of user, authentication method, password, port, volume and path, put together with
-- each `@` of the password doubled, is parsed into exactly these parts, if memory is to be had: the
-- port stays as it was where none is given, and the search for the password's colon needs one call.
-- Each part is to fit its buffer and to be free of the separators that the parser looks for in it.
pub parse_url-url_text :
    (fuel : ℕ) (alloc : ℕ → Bool) (url : Url) (p : UrlParts)
    → ((n : ℕ) → alloc n ≡ true)
    → IsUrl p
    → parse_url (suc fuel) alloc url (url_text p) ≡ parsed (url_of url p)
unfolding parse_url scheme_split str_eq find_char
parse_url-url_text fuel alloc url p gives h =
    rw (scheme_found (authority_text p p.user ++ second_text p.second)) (
      split_second fuel alloc url p h p.second
      ∙ parse_secondpart-text alloc gives (stored url p p.user) p.second h.second_fits
      ∙ ap parsed (escape_url-stored url p p.user p.second h.user_fits))
