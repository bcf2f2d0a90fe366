-- ===== src/Did.antt =====
-- lib/did.c: the cache of directory ids of a volume, and the directory id of a path.
-- A path is the list of its bytes without the NUL. A cache is a list of entries; the order is that of
-- the links. Taking the mutex has no part: every function below is one critical section, or is
-- called outside of it.
pub mod Cache
pub mod Resolve
pub mod Walk
mod Tests
use netatalk_client.Base.{
  ℕ, zero, ◌+◌, ◌%◌, ◌^◌, ℤ, pos, negsuc, is_zero, Bool, true, false, Option, none, some, List, [],
  ◌∷◌, ◌++◌, ◌==◌, ltb, leb, if◌then◌else◌, not, ◌&&◌, length, drop, str_eq,
}

pub record CacheEntry : Type 0 where
  pub dirname : List ℕ
  pub did : ℕ
  pub parentdid : ℕ
  pub name : List ℕ
  pub time : ℕ

pub record CacheStats : Type 0 where
  pub hits : ℕ
  pub misses : ℕ
  pub expired : ℕ
  pub force_removed : ℕ

pub record DidCache : Type 0 where
  pub base : List CacheEntry
  pub stats : CacheStats

abbrev pub timeout : ℕ
timeout = 10

abbrev pub root_did : ℕ
root_did = 2

abbrev pub max_name_bytes : ℕ
max_name_bytes = 1021

-- The three counters, on a uint64_t.
unfoldable pub count_hit : CacheStats → CacheStats
count_hit st = record st { hits = (st.hits + 1) % 2 ^ 64 }

unfoldable pub count_miss : DidCache → DidCache
count_miss c = record c { stats = record c.stats { misses = (c.stats.misses + 1) % 2 ^ 64 } }

unfoldable pub count_expired : CacheStats → CacheStats
count_expired st = record st { expired = (st.expired + 1) % 2 ^ 64 }

unfoldable pub count_removed : CacheStats → CacheStats
count_removed st = record st { force_removed = (st.force_removed + 1) % 2 ^ 64 }

-- `now` is in seconds.
unfoldable pub is_expired : ℕ → CacheEntry → Bool
is_expired now p = ltb (p.time + timeout) now

unfoldable pub free_entire_did_cache : DidCache → DidCache
free_entire_did_cache c = record c { base = [] }

-- The entry stays ahead of what is left of the list behind it.
unfoldable pub keep_ahead : CacheEntry → ℕ × DidCache → ℕ × DidCache
keep_ahead p (did, c) = (did, record c { base = p ∷ c.base })

remove_from : List ℕ → List CacheEntry → CacheStats → DidCache
unfolding str_eq count_removed
remove_from path [] st = record { base = []; stats = st }
remove_from path (p ∷ ps) st =
    let rest = remove_from path ps st in
    if str_eq p.dirname path
    then record { base = ps; stats = count_removed st }
    else record { base = p ∷ rest.base; stats = rest.stats }

unfoldable pub remove_did_entry : List ℕ → DidCache → DidCache
unfolding remove_from
remove_did_entry path c = remove_from path c.base c.stats

-- What the system gives `add_did_cache_entry`: whether its three allocations succeed, and the time.
pub record AddEnv : Type 0 where
  pub allocated : Bool
  pub now : ℕ

unfoldable pub add_did_cache_entry : AddEnv → ℕ → ℕ → List ℕ → List ℕ → DidCache → DidCache
add_did_cache_entry env parentdid new_did path name c =
    if env.allocated
    then record c {
      base =
          record {
            dirname = path;
            did = new_did;
            parentdid = parentdid;
            name = name;
            time = env.now;
          }
          ∷ c.base;
    }
    else c

-- The loops drop what is expired on their way to the entry, and nothing behind it.
unfoldable pub search_child : ℕ → ℕ → List ℕ → List CacheEntry → CacheStats → ℕ × DidCache
unfolding str_eq is_expired count_expired count_hit keep_ahead
search_child now parentdid name [] st = (0, record { base = []; stats = st })
search_child now parentdid name (p ∷ ps) st =
    let without = search_child now parentdid name ps (count_expired st) in
    let behind = search_child now parentdid name ps st in
    if is_expired now p
    then without
    else if p.parentdid == parentdid && str_eq p.name name
    then (p.did, record { base = p ∷ ps; stats = count_hit st })
    else keep_ahead p behind

unfoldable pub find_cached_directory : ℕ → ℕ → List ℕ → DidCache → ℕ × DidCache
unfolding search_child
find_cached_directory now parentdid name c = search_child now parentdid name c.base c.stats

unfoldable pub search_fullname : ℕ → List ℕ → List CacheEntry → CacheStats → ℕ × DidCache
unfolding str_eq is_expired count_expired count_hit keep_ahead
search_fullname now path [] st = (0, record { base = []; stats = st })
search_fullname now path (p ∷ ps) st =
    let without = search_fullname now path ps (count_expired st) in
    let behind = search_fullname now path ps st in
    if is_expired now p
    then (if str_eq p.dirname path
        then (0, record { base = ps; stats = count_expired st })
        else without)
    else if str_eq p.dirname path
    then (p.did, record { base = p ∷ ps; stats = count_hit st })
    else keep_ahead p behind

unfoldable pub find_dirid_by_fullname : ℕ → List ℕ → DidCache → ℕ × DidCache
unfolding search_fullname
find_dirid_by_fullname now path c = search_fullname now path c.base c.stats
