-- ===== src/Did/Walk.antt =====
-- A path that is resolved with a cold cache.
use mathlib.Core.List.{append_assoc, append-nil, reverse, reverse-cons}
use netatalk_client.Base.{
  ◌≢◌, All, sym, ==_ne, lt→leb_false, ℕ, ◌<◌, ◌≡◌, refl, ◌∙◌, ap, arith, ℤ, pos, is_zero, true,
  false, Option, none, some, List, [], ◌∷◌, ◌++◌, ◌==◌, if◌then◌else◌, length, get_or,
}
use netatalk_client.Did.{
  DidCache, root_did, find_dirid_by_fullname, search_fullname, count_miss, add_did_cache_entry,
  max_name_bytes,
}
use netatalk_client.Did.Resolve.{
  resolve_split, resolve_directory, resolve_parent, Parms, ResolveEnv, get_dirid, descend,
  resolve_from, known_parent, components, split_last,
}

-- From one directory to the next by asking the server alone. A name of something that is no
-- directory ends the walk.
abbrev pub walk : (ℕ → List ℕ → Parms) → List (List ℕ) → ℕ → ℤ × Option ℕ
walk ask [] did = (pos 0, some did)
walk ask (name ∷ names) did =
    let fi = ask did name in
    let further = walk ask names fi.fileid in
    if is_zero fi.ret then (if fi.isdir then further else (pos 0, some did)) else (fi.ret, none)

abbrev pub HasMemory : ResolveEnv → Type 0
HasMemory env = (name : List ℕ) → env.strndup name ≡ true

descend-walk :
    (env : ResolveEnv) (upto : List ℕ) (names : List (List ℕ)) (did : ℕ) (c : DidCache)
    → HasMemory env
    → ((descend env upto names did c).ret ≡ (walk env.getfiledirparms names did).0)
      × ((descend env upto names did c).dirid ≡ (walk env.getfiledirparms names did).1)
unfolding descend
descend-walk env upto [] did c memory = (refl, refl)
descend-walk env upto (name ∷ names) did c memory = ground (
  arith,
  memory name,
  memory (upto ++ name),
  descend-walk env ((upto ++ name) ++ (b'/' ∷ [])) names (env.getfiledirparms did name).fileid
      (add_did_cache_entry (env.add (upto ++ name)) did (env.getfiledirparms did name).fileid
        (upto ++ name) name (count_miss c))
      memory,
)

find-cold :
    (now : ℕ) (path : List ℕ) (c : DidCache)
    → c.base ≡ []
    → find_dirid_by_fullname now path c ≡ (0, c)
unfolding find_dirid_by_fullname search_fullname
find-cold now path c e = ground (arith, e)

known_parent-cold :
    (env : ResolveEnv) (front : List ℕ) (did : ℕ) (c : DidCache)
    → c.base ≡ []
    → known_parent env (front ++ (b'/' ∷ [])) did c ≡ ((root_did, 1), c)
unfolding known_parent
known_parent-cold env [] did c e = refl
known_parent-cold env (b ∷ []) did c e =
    rw (find-cold (env.searched (b'/' ∷ [])) (b'/' ∷ []) c e) (ground arith)
known_parent-cold env (b ∷ d ∷ front) did c e =
    rw
      (
        find-cold (env.searched name) name c e,
        known_parent-cold env (d ∷ front) 0 c e,
        known_parent-cold env (d ∷ front) did c e,
      )
      (ground arith)
  where
    name : List ℕ
    name = reverse (d ∷ (front ++ (b'/' ∷ [])))

split_last_root :
    (rest parent basename : List ℕ)
    → split_last rest ≡ some (parent, basename)
    → split_last (b'/' ∷ rest) ≡ some (b'/' ∷ parent, basename)
unfolding split_last
split_last_root rest parent basename e = rw e refl

resolve_from_root :
    (env : ResolveEnv) (rest : List ℕ) (c : DidCache)
    → (get_or rest 0 0 == b'/') ≡ false
    → resolve_from env (b'/' ∷ rest) ((root_did, 1), c)
      ≡ descend env (b'/' ∷ []) (components [] rest) root_did c
unfolding resolve_from
resolve_from_root env rest c h = rw h refl

resolve_parent-cold :
    (env : ResolveEnv) (rest parent : List ℕ) (c : DidCache)
    → c.base ≡ []
    → (get_or rest 0 0 == b'/') ≡ false
    → resolve_parent env (b'/' ∷ rest) (b'/' ∷ parent) (0, c)
      ≡ descend env (b'/' ∷ []) (components [] rest) root_did c
unfolding resolve_parent
resolve_parent-cold env rest parent c e single =
    ap (λ back. resolve_from env (b'/' ∷ rest) (known_parent env back root_did c))
      (reverse-cons b'/' parent)
    ∙ (ap (resolve_from env (b'/' ∷ rest)) (known_parent-cold env (reverse parent) root_did c e)
        ∙ resolve_from_root env rest c single)

-- With a cold cache everything below the root is asked for.
get_dirid-cold :
    (env : ResolveEnv) (rest parent basename : List ℕ) (c : DidCache)
    → HasMemory env
    → c.base ≡ []
    → split_last rest ≡ some (parent, basename)
    → (get_or rest 0 0 == b'/') ≡ false
    → length basename < max_name_bytes
    → get_dirid env (b'/' ∷ rest) c
      ≡ (descend env (b'/' ∷ []) (components [] rest) root_did c, some basename)
unfolding get_dirid resolve_split resolve_directory
get_dirid-cold env rest parent basename c memory e split single short =
    rw
      (
        split_last_root rest parent basename split,
        lt→leb_false _ _ short,
        ==_ne (length (b'/' ∷ parent)) 0 (λ z. absurd (omega (arith, z))),
        memory (b'/' ∷ parent),
        find-cold (env.searched (b'/' ∷ parent)) (b'/' ∷ parent) c e,
      )
      (ap (λ r. (r, some basename)) (resolve_parent-cold env rest parent c e single))

-- A name in a path: not empty, and without a slash.
abbrev pub IsName : List ℕ → Type 0
IsName name = (0 < length name) × All (λ c. c ≢ b'/') name

-- The text of a path from the root: a slash behind each name of a directory, and then the last name.
abbrev pub below : List (List ℕ) → List ℕ → List ℕ
below [] basename = basename
below (name ∷ names) basename = name ++ (b'/' ∷ below names basename)

components-name :
    (seen name rest : List ℕ)
    → All (λ c. c ≢ b'/') name
    → components seen (name ++ (b'/' ∷ rest)) ≡ (reverse seen ++ name) ∷ components [] rest
unfolding components
components-name seen [] rest h = ap (λ n. n ∷ components [] rest) (sym (append-nil (reverse seen)))
components-name seen (c ∷ name) rest (hc, h) = rw (==_ne c b'/' hc) (
    components-name (c ∷ seen) name rest h
    ∙ ap (λ n. n ∷ components [] rest)
        (ap (λ r. r ++ name) (reverse-cons c seen) ∙ append_assoc (reverse seen) (c ∷ []) name))

components-last : (seen name : List ℕ) → All (λ c. c ≢ b'/') name → components seen name ≡ []
unfolding components
components-last seen [] h = refl
components-last seen (c ∷ name) (hc, h) = rw (==_ne c b'/' hc) (components-last (c ∷ seen) name h)

components-below :
    (names : List (List ℕ)) (basename : List ℕ)
    → All IsName names
    → All (λ c. c ≢ b'/') basename
    → components [] (below names basename) ≡ names
components-below [] basename h hb = components-last [] basename hb
components-below (name ∷ names) basename (hn, h) hb =
    components-name [] name (below names basename) hn.1
    ∙ ap (λ ns. name ∷ ns) (components-below names basename h hb)

split_last-none : (name : List ℕ) → All (λ c. c ≢ b'/') name → split_last name ≡ none
unfolding split_last
split_last-none [] h = refl
split_last-none (c ∷ name) (hc, h) = rw (split_last-none name h, ==_ne c b'/' hc) refl

split_last-behind :
    (front rest parent basename : List ℕ)
    → split_last rest ≡ some (parent, basename)
    → split_last (front ++ rest) ≡ some (front ++ parent, basename)
unfolding split_last
split_last-behind [] rest parent basename e = e
split_last-behind (c ∷ front) rest parent basename e =
    rw (split_last-behind front rest parent basename e) refl

-- The last slash is the one behind the last directory.
split_last-below :
    (name : List ℕ) (names : List (List ℕ)) (basename : List ℕ)
    → All (λ c. c ≢ b'/') basename
    → (parent : List ℕ) × (split_last (below (name ∷ names) basename) ≡ some (parent, basename))
unfolding split_last
split_last-below name [] basename hb = (
  name ++ [],
  split_last-behind name (b'/' ∷ basename) [] basename (rw (split_last-none basename hb) refl),
)
split_last-below name (next ∷ names) basename hb =
    let (parent, e) = split_last-below next names basename hb in
    (
      name ++ (b'/' ∷ parent),
      split_last-behind name (b'/' ∷ below (next ∷ names) basename) (b'/' ∷ parent) basename
          (split_last_root (below (next ∷ names) basename) parent basename e),
    )

first_byte : (name rest : List ℕ) → IsName name → (get_or (name ++ rest) 0 0 == b'/') ≡ false
first_byte [] rest (p, h) = absurd (omega arith)
first_byte (c ∷ name) rest (p, (hc, h)) = ==_ne c b'/' hc

-- A path from the root through one directory or more to a last name of less than 1021 bytes, none of
-- the directories' names being empty and none of the names having a slash, with an empty cache and
-- memory for every copy. `get_dirid` copies the last name to `basename`, and it returns and writes what
-- the walk through the directories by the server's answers alone does, errors included. Of a path
-- through something that is no directory that is 0 and the id of the directory it is in, whatever
-- names follow it.
pub get_dirid-walk :
    (env : ResolveEnv) (name : List ℕ) (names : List (List ℕ)) (basename : List ℕ) (c : DidCache)
    → HasMemory env
    → c.base ≡ []
    → All IsName (name ∷ names)
    → All (λ b. b ≢ b'/') basename
    → length basename < max_name_bytes
    → let (got, copied) = get_dirid env (b'/' ∷ below (name ∷ names) basename) c in
      (got.ret ≡ (walk env.getfiledirparms (name ∷ names) root_did).0)
      × (got.dirid ≡ (walk env.getfiledirparms (name ∷ names) root_did).1)
      × (copied ≡ some basename)
get_dirid-walk env name names basename c memory e h hb short =
    let (parent, split) = split_last-below name names basename hb in
    rw
      (
        get_dirid-cold env (below (name ∷ names) basename) parent basename c memory e split
            (first_byte name (b'/' ∷ below names basename) h.0) short,
        components-below (name ∷ names) basename h hb,
      )
      (
        (descend-walk env (b'/' ∷ []) (name ∷ names) root_did c memory).0,
        (descend-walk env (b'/' ∷ []) (name ∷ names) root_did c memory).1,
        refl,
      )
