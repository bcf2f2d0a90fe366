-- ===== src/Url/User.antt =====
-- The user's part of a URL, put together and then read (lib/afp_url.c).
use netatalk_client.Base.{
  ℕ, zero, suc, ◌+◌, ◌-◌, ◌≡◌, ◌≢◌, ◌<◌, ◌≤◌, refl, ap, Bool, false, Option, none, some, List, [],
  ◌∷◌, ◌++◌, arith, ◌==◌, ==_ne, length, drop, take_all, get_or, All-append, codes, length-append,
  take-append,
}
use mathlib.Core.List.{append-nil}
use native.Mathlib.Nat.{zero-add, suc-add}
use netatalk_client.Url.Data.{Url, check_uamname}
use netatalk_client.Url.Scan.{contains, escape_strrchr, judge_last, at, absent}
use netatalk_client.Url.Escape.{
  Lacks, last_index_absent, last_index-append, find_text_absent, find_text-append, double,
}
use netatalk_client.Url.Parts.{UserParts, uam_text, password_text}
use netatalk_client.Url.{
  parse_secondpart, store_username, auth_split, auth_part, password_split, user_part,
}
use netatalk_client.Path.{slash}

-- No byte that separates the parts of an authority.
abbrev pub IsPlain : List ℕ → Type 0
IsPlain s = Lacks slash s × Lacks b'@' s × Lacks b':' s

abbrev pub IsUam : Option (List ℕ) → Type 0
IsUam none = Unit
IsUam (some uam) = IsPlain uam × (length uam ≤ 49) × (check_uamname uam ≡ false)

abbrev pub IsPassword : Option (List ℕ) → Type 0
IsPassword none = Unit
IsPassword (some password) =
    Lacks slash password × Lacks b':' password × (length (double b'@' password) ≤ 126)

pub record IsUser (u : UserParts) : Type 0 where
  pub plain : IsPlain u.name
  pub no_semicolon : Lacks b';' u.name
  pub not_empty : 0 < length u.name
  pub fits : length u.name ≤ 126
  pub uam_fits : IsUam u.uam
  pub password_fits : IsPassword u.password

abbrev pub or_empty : Option (List ℕ) → List ℕ
or_empty none = []
or_empty (some s) = s

abbrev pub doubled_or_empty : Option (List ℕ) → List ℕ
doubled_or_empty none = []
doubled_or_empty (some s) = double b'@' s

pub double-Lacks : (c d : ℕ) (s : List ℕ) → c ≢ d → Lacks d s → Lacks d (double c s)
unfolding double
double-Lacks c d [] ne h = tt
double-Lacks c d (x ∷ s) ne (hx, h) = ground (arith, double-Lacks c d s ne h)

store_username-some :
    (alloc : ℕ → Bool) (url : Url) (name : List ℕ) (second : Option (List ℕ))
    → 0 < length name
    → length name ≤ 126
    → store_username alloc url name second
      ≡ parse_secondpart alloc (record url { username = name }) second
unfolding store_username
store_username-some alloc url [] second h k = elim h [ ]
store_username-some alloc url (c ∷ name) second h k = rw (take_all 126 (c ∷ name) k)

auth_part-text :
    (alloc : ℕ → Bool) (url : Url) (u : UserParts) (uam : Option (List ℕ))
    (second : Option (List ℕ))
    → IsUser u
    → IsUam uam
    → url.uamname ≡ []
    → auth_part alloc url (u.name ++ uam_text uam) second
      ≡ parse_secondpart alloc (record url { username = u.name; uamname = or_empty uam }) second
unfolding auth_part auth_split
auth_part-text alloc url u none second h k e =
    rw
      (
        append-nil u.name,
        find_text_absent b';' (codes "AUTH=") u.name h.no_semicolon,
        store_username-some alloc url u.name second h.not_empty h.fits,
      )
      (ap
        (λ (t : List ℕ).
          parse_secondpart alloc (record url { username = u.name; uamname = t }) second)
        e)
auth_part-text alloc url u (some uam) second h (plain, short, known) e =
    rw
      (
        find_text-append b';' (codes "AUTH=") u.name uam h.no_semicolon,
        take_all 49 uam short,
        known,
      )
      (store_username-some alloc (record url { uamname = uam }) u.name second h.not_empty h.fits)

uam_text-Lacks : (uam : Option (List ℕ)) → IsUam uam → Lacks b':' (uam_text uam)
uam_text-Lacks none h = tt
uam_text-Lacks (some uam) (plain, short, known) = ground arith

named-Lacks : (u : UserParts) → IsUser u → Lacks b':' (u.name ++ uam_text u.uam)
named-Lacks u h = All-append _ u.name (uam_text u.uam) h.plain.2 (uam_text-Lacks u.uam h.uam_fits)

named_front : (u : UserParts) → IsUser u → 0 < length (u.name ++ uam_text u.uam)
named_front u h = omega (arith, length-append u.name (uam_text u.uam), h.not_empty)

-- The search for the password's colon ends at its first call, whatever the fuel.
colon_absent :
    (fuel : ℕ) (s : List ℕ) → Lacks b':' s → escape_strrchr (suc fuel) s b':' (codes ":") 0 ≡ absent
unfolding escape_strrchr contains judge_last
colon_absent fuel s h = rw (last_index_absent b':' s h)

other_byte :
    (c : ℕ) (a b : List ℕ) (i : ℕ) → i < length a → Lacks c a → (get_or (a ++ b) i 0 == c) ≡ false
other_byte c [] b i h k = elim h [ ]
other_byte c (x ∷ a) b zero h (kx, k) = ==_ne x c kx
other_byte c (x ∷ a) b (suc i) h (kx, k) = other_byte c a b i (omega arith) k

colon_found :
    (fuel : ℕ) (a b : List ℕ)
    → 0 < length a
    → Lacks b':' a
    → Lacks b':' b
    → escape_strrchr (suc fuel) (a ++ (b':' ∷ b)) b':' (codes ":") 0 ≡ at (length a)
unfolding escape_strrchr contains judge_last
colon_found fuel a b h k l =
    rw (last_index-append b':' a b l, zero-add (length a))
      (ground (arith, other_byte b':' a (b':' ∷ b) (length a - 1) (omega arith) k))

pub user_part-text :
    (fuel : ℕ) (alloc : ℕ → Bool) (url : Url) (u : UserParts) (password : Option (List ℕ))
    (second : Option (List ℕ))
    → IsUser u
    → IsPassword password
    → url.uamname ≡ []
    → url.password ≡ []
    → user_part
        (suc fuel)
        alloc
        url
        (some ((u.name ++ uam_text u.uam) ++ password_text password))
        second
      ≡ parse_secondpart alloc
          (record url {
            username = u.name;
            uamname = or_empty u.uam;
            password = doubled_or_empty password;
          })
          second
unfolding user_part password_split
user_part-text fuel alloc url u none second h k e e' =
    rw
      (
        append-nil (u.name ++ uam_text u.uam),
        colon_absent fuel (u.name ++ uam_text u.uam) (named-Lacks u h),
        auth_part-text alloc url u u.uam second h h.uam_fits e,
      )
      (ap
        (λ (t : List ℕ).
          parse_secondpart alloc
            (record url { username = u.name; uamname = or_empty u.uam; password = t }) second)
        e')
user_part-text fuel alloc url u (some password) second h (hs, hc, fits) e e' =
    let named = u.name ++ uam_text u.uam in
    let pw = double b'@' password in
    rw
      (
        colon_found fuel named pw (named_front u h) (named-Lacks u h)
            (double-Lacks b'@' b':' password (omega arith) hc),
        take-append named (b':' ∷ pw),
        behind named pw,
        take_all 126 pw fits,
      )
      (auth_part-text alloc (record url { password = pw }) u u.uam second h h.uam_fits e)
  where
    behind : (a b : List ℕ) → drop (length a + 1) (a ++ (b':' ∷ b)) ≡ b
    behind [] b = refl
    behind (x ∷ a) b = rw (suc-add (length a) 1) (behind a b)
