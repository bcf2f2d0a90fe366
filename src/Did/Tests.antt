-- ===== src/Did/Tests.antt =====
-- Runs of the directory id cache, and the theorems about it at concrete inputs.
use netatalk_client.Base.{ℕ, ◌+◌, ◌≡◌, refl, arith, pos, true, some, List, [], ◌∷◌}
use netatalk_client.Did.{DidCache, CacheEntry, find_dirid_by_fullname, AddEnv, remove_did_entry}
use netatalk_client.Did.Cache.{live, did_of, find_dirid_by_fullname-did_of}
use netatalk_client.Did.Resolve.{
  descend, known_parent, resolve_from, resolve_parent, resolve_split, resolve_directory, ResolveEnv,
  get_dirid, components, split_last,
}
use netatalk_client.Did.Walk.{walk, get_dirid-walk}

abbrev entry : List ℕ → ℕ → ℕ → CacheEntry
entry dirname did time = record {
  dirname = dirname;
  did = did;
  parentdid = 2;
  name = dirname;
  time = time;
}

-- At 115 the second entry has expired.
abbrev cache : DidCache
cache = record {
  base = entry (1 ∷ []) 20 110 ∷ entry (2 ∷ []) 21 104 ∷ entry (3 ∷ []) 22 108 ∷ [];
  stats = record { hits = 0; misses = 0; expired = 0; force_removed = 0 };
}

drops_expired :
    (find_dirid_by_fullname 115 (3 ∷ []) cache).1.base
    ≡ entry (1 ∷ []) 20 110 ∷ entry (3 ∷ []) 22 108 ∷ []
unfolding find_dirid_by_fullname
drops_expired = refl

removes :
    (remove_did_entry (2 ∷ []) cache).base ≡ entry (1 ∷ []) 20 110 ∷ entry (3 ∷ []) 22 108 ∷ []
unfolding remove_did_entry
removes = refl

find_dirid_by_fullname-did_of_example :
    ((find_dirid_by_fullname 115 (3 ∷ []) cache).0 ≡ did_of 115 (3 ∷ []) cache.base)
    × (live 115 (find_dirid_by_fullname 115 (3 ∷ []) cache).1.base ≡ live 115 cache.base)
find_dirid_by_fullname-did_of_example = find_dirid_by_fullname-did_of 115 (3 ∷ []) cache

abbrev add_env : AddEnv
add_env = record { allocated = true; now = 115 }

-- Every name is a directory whose id is one more than its parent's.
abbrev env : ResolveEnv
env = record {
  getfiledirparms = λ did name. record { ret = pos 0; isdir = true; fileid = did + 1 };
  searched = λ path. 115;
  strndup = λ path. true;
  add = λ path. add_env;
}

abbrev empty_cache : DidCache
empty_cache = record { base = []; stats = cache.stats }

-- a/b/c
abbrev below_root : List ℕ
below_root = 97 ∷ b'/' ∷ 98 ∷ b'/' ∷ 99 ∷ []

two_directories : (get_dirid env (b'/' ∷ below_root) empty_cache).0.dirid ≡ some 4
unfolding get_dirid resolve_split resolve_directory resolve_parent resolve_from known_parent descend
    components split_last find_dirid_by_fullname
two_directories = refl

get_dirid-walk_example :
    let (got, copied) = get_dirid env (b'/' ∷ 97 ∷ b'/' ∷ 98 ∷ b'/' ∷ 99 ∷ []) empty_cache in
    (got.ret ≡ (walk env.getfiledirparms ((97 ∷ []) ∷ (98 ∷ []) ∷ []) 2).0)
    × (got.dirid ≡ (walk env.getfiledirparms ((97 ∷ []) ∷ (98 ∷ []) ∷ []) 2).1)
    × (copied ≡ some (99 ∷ []))
get_dirid-walk_example =
    get_dirid-walk env (97 ∷ []) ((98 ∷ []) ∷ []) (99 ∷ []) empty_cache (λ name. refl) refl
      ((omega arith, (omega arith, tt)), ((omega arith, (omega arith, tt)), tt)) (omega arith, tt)
      (omega arith)
