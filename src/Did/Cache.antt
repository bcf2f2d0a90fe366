-- ===== src/Did/Cache.antt =====
-- What a search of the cache finds, and what it drops.
use netatalk_client.Base.{
  ℕ, ◌+◌, ◌≤◌, ◌≡◌, refl, arith, true, List, [], ◌∷◌, if◌then◌else◌, str_eq, str_eq_self, not, ◌&&◌,
  ◌==◌,
}
use netatalk_client.Did.{
  count_expired, CacheEntry, CacheStats, DidCache, is_expired, search_fullname,
  find_dirid_by_fullname, search_child, find_cached_directory, add_did_cache_entry, AddEnv,
  keep_ahead, timeout,
}

-- The entries that have not expired.
abbrev pub live : ℕ → List CacheEntry → List CacheEntry
live now [] = []
live now (p ∷ ps) = let rest = live now ps in if is_expired now p then rest else p ∷ rest

-- The newest entry of a directory counts, and it counts for nothing once it has expired.
abbrev pub did_of : ℕ → List ℕ → List CacheEntry → ℕ
did_of now path [] = 0
did_of now path (p ∷ ps) =
    let rest = did_of now path ps in
    if str_eq p.dirname path then (if is_expired now p then 0 else p.did) else rest

-- A child's newest live entry counts.
abbrev pub child_of : ℕ → ℕ → List ℕ → List CacheEntry → ℕ
child_of now parentdid name [] = 0
child_of now parentdid name (p ∷ ps) =
    let rest = child_of now parentdid name ps in
    if not (is_expired now p) && (p.parentdid == parentdid && str_eq p.name name)
    then p.did
    else rest

search_fullname_lem :
    (now : ℕ) (path : List ℕ) (ps : List CacheEntry) (st : CacheStats)
    → ((search_fullname now path ps st).0 ≡ did_of now path ps)
      × (live now (search_fullname now path ps st).1.base ≡ live now ps)
unfolding search_fullname keep_ahead
search_fullname_lem now path [] st = (refl, refl)
search_fullname_lem now path (p ∷ ps) st =
    ground (
      arith,
      search_fullname_lem now path ps st,
      search_fullname_lem now path ps (count_expired st),
    )

search_child_lem :
    (now parentdid : ℕ) (name : List ℕ) (ps : List CacheEntry) (st : CacheStats)
    → ((search_child now parentdid name ps st).0 ≡ child_of now parentdid name ps)
      × (live now (search_child now parentdid name ps st).1.base ≡ live now ps)
unfolding search_child keep_ahead
search_child_lem now parentdid name [] st = (refl, refl)
search_child_lem now parentdid name (p ∷ ps) st = ground (
  arith,
  search_child_lem now parentdid name ps st,
  search_child_lem now parentdid name ps (count_expired st),
)

-- A search by the full name, at any time and in any cache: the answer is the id in the newest entry
-- of the name, or 0 if there is none or it has expired, and the entries of the cache that have not
-- expired are the same, in the same order, as before.
pub find_dirid_by_fullname-did_of :
    (now : ℕ) (path : List ℕ) (c : DidCache)
    → ((find_dirid_by_fullname now path c).0 ≡ did_of now path c.base)
      × (live now (find_dirid_by_fullname now path c).1.base ≡ live now c.base)
unfolding find_dirid_by_fullname
find_dirid_by_fullname-did_of now path c = search_fullname_lem now path c.base c.stats

-- A search for a directory by its parent's id and its name, at any time and in any cache: the answer
-- is the id in the newest unexpired entry of the two, or 0 if there is none, and the entries of the
-- cache that have not expired are the same, in the same order, as before.
pub find_cached_directory-child_of :
    (now parentdid : ℕ) (name : List ℕ) (c : DidCache)
    → ((find_cached_directory now parentdid name c).0 ≡ child_of now parentdid name c.base)
      × (live now (find_cached_directory now parentdid name c).1.base ≡ live now c.base)
unfolding find_cached_directory
find_cached_directory-child_of now parentdid name c =
    search_child_lem now parentdid name c.base c.stats

-- An entry that was added, with memory for it, is found under its full name and as its parent's
-- child by a search at most 10 seconds later.
pub find-add_did_cache_entry :
    (env : AddEnv) (now parentdid new_did : ℕ) (path name : List ℕ) (c : DidCache)
    → env.allocated ≡ true
    → now ≤ env.now + timeout
    → ((find_dirid_by_fullname now path (add_did_cache_entry env parentdid new_did path name c)).0
        ≡ new_did)
      × ((find_cached_directory now parentdid name
            (add_did_cache_entry env parentdid new_did path name c)).0
          ≡ new_did)
unfolding find_dirid_by_fullname find_cached_directory search_fullname search_child
    add_did_cache_entry is_expired keep_ahead
find-add_did_cache_entry env now parentdid new_did path name c memory young =
    ground (arith, memory, young, str_eq_self path, str_eq_self name)
