-- ===== src/Did/Resolve.antt =====
-- `is_dir` and `get_dirid` of lib/did.c. What the server answers to FPGetFileDirParms, the clock and
-- the memory are the argument `env`.
use mathlib.Core.List.{reverse}
use netatalk_client.Base.{
  take, ℕ, ◌+◌, ℤ, pos, negsuc, is_zero, Bool, true, false, Option, none, some, List, [], ◌∷◌, ◌++◌,
  ◌==◌, leb, if◌then◌else◌, length, drop, get_or,
}
use netatalk_client.Did.{
  DidCache, AddEnv, add_did_cache_entry, count_miss, find_cached_directory, find_dirid_by_fullname,
  root_did, max_name_bytes,
}

-- The return value of `afp_getfiledirparms` and the two fields of its result that are read.
pub record Parms : Type 0 where
  pub ret : ℤ
  pub isdir : Bool
  pub fileid : ℕ

-- `searched` is the time at which the cache is searched for a name; `strndup` says whether the copy
-- of a name can be had.
pub record ResolveEnv : Type 0 where
  pub getfiledirparms : ℕ → List ℕ → Parms
  pub searched : List ℕ → ℕ
  pub strndup : List ℕ → Bool
  pub add : List ℕ → AddEnv

-- `is_dir`
unfoldable pub is_dir : ResolveEnv → ℕ → List ℕ → DidCache → Bool × DidCache
is_dir env parentdid path c =
    let (did, c') = find_cached_directory (env.searched path) parentdid path c in
    if did == 0
    then (let fi = env.getfiledirparms parentdid path in
        (if is_zero fi.ret then fi.isdir else false, count_miss c'))
    else (true, c')

-- The path up to its last slash and what follows that.
unfoldable pub split_last : List ℕ → Option (List ℕ × List ℕ)
split_last [] = none
split_last (c ∷ cs) = elim (split_last cs) [
  | some (before, after) ↦ some (c ∷ before, after)
  | none ↦ if c == b'/' then some ([], cs) else none
]

-- The names that a slash ends. What follows the last slash is left out.
unfoldable pub components : List ℕ → List ℕ → List (List ℕ)
components name [] = []
components name (c ∷ cs) =
    let ended = reverse name ∷ components [] cs in
    let longer = components (c ∷ name) cs in if c == b'/' then ended else longer

-- The nearest parent that the cache knows, by its id and the length of its name, from the bytes of
-- the path in reverse. Each slash cuts the path, as `*slash = '\0'` does.
unfoldable pub known_parent : ResolveEnv → List ℕ → ℕ → DidCache → (ℕ × ℕ) × DidCache
known_parent env [] parent_did c = ((parent_did, 0), c)
known_parent env (b ∷ []) parent_did c =
    if b == b'/' then ((root_did, 1), c) else ((parent_did, 0), c)
known_parent env (b ∷ d ∷ front) parent_did c =
    let name = reverse (d ∷ front) in
    let (did, c') = find_dirid_by_fullname (env.searched name) name c in
    let further = known_parent env (d ∷ front) did c' in
    let same = known_parent env (d ∷ front) parent_did c in
    if b == b'/' then (if did == 0 then further else ((did, length name), c')) else same

-- What a resolution returns, and what it writes to `*dirid`.
pub record Resolved : Type 0 where
  pub ret : ℤ
  pub dirid : Option ℕ
  pub cache : DidCache

abbrev pub minus_enomem : ℤ
minus_enomem = negsuc 11

abbrev pub minus_enametoolong : ℤ
minus_enametoolong = negsuc 35

-- From one directory to the next. `upto` is the part of the path ahead of the component.
unfoldable pub descend : ResolveEnv → List ℕ → List (List ℕ) → ℕ → DidCache → Resolved
descend env upto [] parent_did c = record { ret = pos 0; dirid = some parent_did; cache = c }
descend env upto (name ∷ names) parent_did c =
    let fi = env.getfiledirparms parent_did name in
    let full_parent = upto ++ name in
    let rest = descend env (full_parent ++ (b'/' ∷ [])) names fi.fileid (
      add_did_cache_entry (env.add full_parent) parent_did fi.fileid full_parent name
        (count_miss c)) in
    if env.strndup name
    then (if is_zero fi.ret
        then (if fi.isdir
            then (if env.strndup full_parent
                then rest
                else record { ret = minus_enomem; dirid = none; cache = count_miss c })
            else record { ret = pos 0; dirid = some parent_did; cache = count_miss c })
        else record { ret = fi.ret; dirid = none; cache = count_miss c })
    else record { ret = minus_enomem; dirid = none; cache = c }

-- Below the known parent. A slash at the front is passed over.
unfoldable pub resolve_from : ResolveEnv → List ℕ → (ℕ × ℕ) × DidCache → Resolved
resolve_from env path ((parent_did, known_len), c) =
    let start = if get_or path known_len 0 == b'/' then known_len + 1 else known_len in
    descend env (take start path) (components [] (drop start path)) parent_did c

-- Behind the search for the parent, which is not empty.
unfoldable pub resolve_parent : ResolveEnv → List ℕ → List ℕ → ℕ × DidCache → Resolved
resolve_parent env path parent (did, c) =
    if did == 0
    then resolve_from env path (known_parent env (reverse parent) root_did c)
    else record { ret = pos 0; dirid = some did; cache = c }

-- Behind the copy of the last name.
unfoldable pub resolve_directory : ResolveEnv → List ℕ → List ℕ → DidCache → Resolved
resolve_directory env path parent c =
    if length parent == 0
    then record { ret = pos 0; dirid = some root_did; cache = c }
    else if env.strndup parent
    then resolve_parent env path parent (find_dirid_by_fullname (env.searched parent) parent c)
    else record { ret = minus_enomem; dirid = none; cache = c }

-- With the text that is copied to `basename`, where that is not NULL.
unfoldable pub resolve_split :
    ResolveEnv → List ℕ → Option (List ℕ × List ℕ) → DidCache → Resolved × Option (List ℕ)
resolve_split env path none c = (record { ret = negsuc 0; dirid = none; cache = c }, none)
resolve_split env path (some (parent, basename)) c =
    if leb max_name_bytes (length basename)
    then (record { ret = minus_enametoolong; dirid = none; cache = c }, none)
    else (resolve_directory env path parent c, some basename)

-- `get_dirid`, for a path and a `dirid` that are not NULL.
unfoldable pub get_dirid : ResolveEnv → List ℕ → DidCache → Resolved × Option (List ℕ)
get_dirid env path c = resolve_split env path (split_last path) c
