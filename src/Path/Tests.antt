-- ===== src/Path/Tests.antt =====
-- Runs of lib/path.c, and its theorems at concrete inputs.
use netatalk_client.Base.{
  ◌≢◌, ◌++◌, ◌<◌, List, arith, if◌then◌else◌, length, ℕ, ◌≡◌, refl, true, some, none, [], ◌∷◌,
}
use netatalk_client.Base.Errno.{ok, err, enametoolong}
use netatalk_client.Path.{join, AfpcPath, joined, separator, separator_len}
use netatalk_client.Path.Join.{join_exact, fits}
use netatalk_client.Path.Bounds.{IsBoundedPath}

abbrev empty_path : AfpcPath
empty_path = record { bytes = none; len = 0 }

join_runs :
    join (λ n. true) empty_path (some (1 ∷ [])) (some (2 ∷ 3 ∷ [])) 10
    ≡ (ok tt, record { bytes = some (1 ∷ b'/' ∷ 2 ∷ 3 ∷ []); len = 4 })
unfolding join
join_runs = refl

join_long :
    join (λ n. true) empty_path (some (1 ∷ [])) (some (2 ∷ 3 ∷ [])) 3
    ≡ (err enametoolong, empty_path)
unfolding join
join_long = refl

abbrev path_of : List ℕ → AfpcPath
path_of s = record { bytes = some s; len = length s }

ab_joined :
    join (λ n. true) empty_path (some (1 ∷ [])) (some (2 ∷ [])) 10
    ≡ (ok tt, path_of (1 ∷ b'/' ∷ 2 ∷ []))
unfolding join
ab_joined = refl

bc_joined :
    join (λ n. true) empty_path (some (2 ∷ [])) (some (3 ∷ [])) 10
    ≡ (ok tt, path_of (2 ∷ b'/' ∷ 3 ∷ []))
unfolding join
bc_joined = refl

short : (s : List ℕ) → length s ≡ 3 → length s < 18446744073709551615
short s h = omega (arith, h)

join_exact_example :
    (text : List ℕ) × (join (λ n. true) empty_path (some (1 ∷ [])) (some (2 ∷ 3 ∷ [])) 10 ≡ (
      if fits (length text) 10
      then (ok tt, record { bytes = some text; len = length text })
      else (err enametoolong, empty_path)))
    × (◌≡◌ {A = List ℕ} (1 ∷ []) [] → text ≡ 2 ∷ 3 ∷ [])
    × (◌≡◌ {A = List ℕ} (2 ∷ 3 ∷ []) [] → text ≡ 1 ∷ [])
    × ((front : List ℕ) → 1 ∷ [] ≡ front ++ (47 ∷ []) → text ≡ (1 ∷ []) ++ (2 ∷ 3 ∷ []))
    × ((front : List ℕ) (c : ℕ)
        → 1 ∷ [] ≡ front ++ (c ∷ [])
        → c ≢ 47
        → 0 < 2
        → text ≡ (1 ∷ []) ++ (47 ∷ 2 ∷ 3 ∷ []))
join_exact_example =
    join_exact (λ n. true) empty_path (1 ∷ []) (2 ∷ 3 ∷ []) 10 (λ n. refl) (omega arith)
      (omega arith) (omega arith)

joined_ab : length (joined (1 ∷ []) (2 ∷ [])) ≡ 3
unfolding joined separator separator_len
joined_ab = refl

joined_bc : length (joined (2 ∷ []) (3 ∷ [])) ≡ 3
unfolding joined separator separator_len
joined_bc = refl

-- A bound of three bytes, which the joined path would not keep.
empty-IsBoundedPath : IsBoundedPath 3 empty_path
empty-IsBoundedPath = ground arith
