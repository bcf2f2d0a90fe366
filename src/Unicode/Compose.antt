-- ===== src/Unicode/Compose.antt =====
-- Characters with a mark composed and decomposed (lib/unicode.c). `Table` has the rows of the source.
pub mod Search
pub mod Table
pub mod Inverse
use netatalk_client.Base.{
  ℕ, zero, suc, ◌+◌, ◌-◌, ◌*◌, ◌/◌, ◌%◌, ◌^◌, Bool, true, false, Option, none, some, List, [], ◌∷◌,
  ◌==◌, ltb, if◌then◌else◌, get_or, get_elem?, drop,
}

-- What the search gives: a character, -1, or a read outside of one of the arrays.
pub data Composition : Type 0 where
  composed : ℕ → Composition
  not_found : Composition
  outside : Composition

-- The array `delta`.
abbrev pub delta : List ℕ
delta = 499 ∷ 249 ∷ 125 ∷ 62 ∷ 31 ∷ 16 ∷ 8 ∷ 4 ∷ 2 ∷ 1 ∷ 0 ∷ []

-- Once round the loop at index `i`, where `step` is the next delta. `below` and `above` are the rest
-- of the loop, from the two indices that may follow.
unfoldable pub compare_row : ℕ → ℕ → ℕ → Composition → Composition → Option (ℕ × ℕ) → Composition
compare_row needle i step below above none = outside
compare_row needle i step below above (some (precomposed, pattern)) =
    if ltb needle pattern
    then (if ltb i step then outside else below)
    else if ltb pattern needle
    then above
    else composed precomposed

-- The loop of `UCS2precompose`, from a place in `delta` on.
unfoldable pub compose_loop : List (ℕ × ℕ) → ℕ → ℕ → List ℕ → Composition
compose_loop table needle i [] = outside
compose_loop table needle i (d ∷ ds) =
    let step = get_or ds 0 0 in
    let below = compose_loop table needle (i - step) ds in
    let above = compose_loop table needle (i + step) ds in
    if d == 0 then not_found else compare_row needle i step below above (get_elem? table i)

-- `UCS2precompose` with the rows of `table`, each a character and the two that it is made of.
unfoldable pub ucs2_precompose : List (ℕ × ℕ) → ℕ → ℕ → Composition
ucs2_precompose table first second =
    compose_loop table (first * 2 ^ 16 + second) (get_or delta 0 0) delta

-- The loop of `UCS2decompose`.
unfoldable pub decompose_loop : List (ℕ × ℕ) → ℕ → Option (ℕ × ℕ)
decompose_loop [] c = none
decompose_loop ((precomposed, pattern) ∷ rows) c =
    let rest = decompose_loop rows c in
    if precomposed == c then some (pattern / 2 ^ 16 % 2 ^ 16, pattern % 2 ^ 16) else rest

-- `UCS2decompose`. `none` is 0.
unfoldable pub ucs2_decompose : List (ℕ × ℕ) → ℕ → Option (ℕ × ℕ)
ucs2_decompose table c = decompose_loop (drop 1 table) c
