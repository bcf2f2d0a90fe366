-- ===== src/Unicode/Compose/Search.antt =====
-- The binary search of `UCS2precompose` (lib/unicode.c) in any sorted table against a linear one.
use netatalk_client.Base.{
  ℕ, zero, suc, ◌+◌, ◌-◌, ◌*◌, ◌^◌, ◌≤◌, ◌<◌, ◌≡◌, ◌≢◌, refl, ap, sym, ◌∙◌, Bool, true, false, ◌&&◌,
  some, List, [], ◌∷◌, ◌==◌, ltb, if◌then◌else◌, get_elem?, length, arith, Bool-cases, ◌⊎◌, inl,
  inr, drop,
}
use netatalk_client.Unicode.Compose.{
  Composition, composed, not_found, compare_row, compose_loop, ucs2_precompose, delta,
}

-- The patterns increase.
abbrev pub is_sorted : List (ℕ × ℕ) → Bool
is_sorted [] = true
is_sorted (r ∷ []) = true
is_sorted (r ∷ s ∷ rows) = ltb r.1 s.1 && is_sorted (s ∷ rows)

-- A linear search.
abbrev pub find_pattern : List (ℕ × ℕ) → ℕ → Composition
find_pattern [] needle = not_found
find_pattern (r ∷ rows) needle = if r.1 == needle then composed r.0 else find_pattern rows needle

abbrev sum : List ℕ → ℕ
sum [] = 0
sum (d ∷ ds) = d + sum ds

-- Steps that leave out no index: each is at most one more than what follows it, and the last is 0.
abbrev Covers : List ℕ → Type 0
Covers [] = ⊥
Covers (d ∷ []) = d ≡ 0
Covers (d ∷ e ∷ ds) = (0 < d) × ((d ≤ suc (sum (e ∷ ds))) × Covers (e ∷ ds))

sorted_first :
    (r : ℕ × ℕ) (rows : List (ℕ × ℕ)) (j : ℕ) (s : ℕ × ℕ)
    → is_sorted (r ∷ rows) ≡ true
    → get_elem? rows j ≡ some s
    → r.1 < s.1
sorted_first r [] j s h k = absurd (ground arith)
sorted_first r (q ∷ rows) zero s h k = ground arith
sorted_first r (q ∷ rows) (suc j) s h k = ground (arith, sorted_first q rows j s)

sorted_tail :
    (r : ℕ × ℕ) (rows : List (ℕ × ℕ)) → is_sorted (r ∷ rows) ≡ true → is_sorted rows ≡ true
sorted_tail r [] h = refl
sorted_tail r (s ∷ rows) h = ground arith

sorted_lt :
    (rows : List (ℕ × ℕ)) (i j : ℕ) (r s : ℕ × ℕ)
    → is_sorted rows ≡ true
    → get_elem? rows i ≡ some r
    → get_elem? rows j ≡ some s
    → i < j
    → r.1 < s.1
sorted_lt [] i j r s h hi hj k = absurd (ground arith)
sorted_lt (q ∷ rows) i zero r s h hi hj k = absurd (omega arith)
sorted_lt (q ∷ rows) zero (suc j) r s h hi hj k = ground (arith, sorted_first q rows j s h hj)
sorted_lt (q ∷ rows) (suc i) (suc j) r s h hi hj k =
    sorted_lt rows i j r s (sorted_tail q rows h) hi hj (omega arith)

order : (i j : ℕ) → (i < j) ⊎ ((j < i) ⊎ (i ≡ j))
order i j = ground arith

-- An index is left, right or the place of a row, as its pattern is.
place_of :
    (rows : List (ℕ × ℕ)) (i j : ℕ) (r s : ℕ × ℕ)
    → is_sorted rows ≡ true
    → get_elem? rows i ≡ some r
    → get_elem? rows j ≡ some s
    → ((i < j) × (r.1 < s.1)) ⊎ (((j < i) × (s.1 < r.1)) ⊎ ((i ≡ j) × (r ≡ s)))
place_of rows i j r s h hi hj = elim (order i j) [
  | inl k ↦ inl (k, sorted_lt rows i j r s h hi hj k)
  | inr (inl k) ↦ inr (inl (k, sorted_lt rows j i s r h hj hi k))
  | inr (inr k) ↦ inr (inr (k, ground (arith, ap (get_elem? rows) k)))
]

step_bound : (d : ℕ) (ds : List ℕ) → Covers (d ∷ ds) → d ≤ suc (sum ds)
step_bound d [] c = omega arith
step_bound d (e ∷ ds) (cd, (cs, c)) = cs

step_pos : (d : ℕ) (ds : List ℕ) → Covers (d ∷ ds) → 0 < d + sum ds → 0 < d
step_pos d [] c h = absurd (omega arith)
step_pos d (e ∷ ds) (cd, (cs, c)) h = cd

get_elem?_within :
    {A : Type 0} (xs : List A) (i : ℕ) → i < length xs → (x : A) × (get_elem? xs i ≡ some x)
get_elem?_within [] i h = absurd (omega arith)
get_elem?_within (x ∷ xs) zero h = (x, refl)
get_elem?_within (x ∷ xs) (suc i) h = get_elem?_within xs i (omega arith)

module _ (dummy : ℕ × ℕ) (rows : List (ℕ × ℕ)) where
  -- The search finds a row that is within reach of its steps.
  compose_loop-composed :
      (d : ℕ) (ds : List ℕ) (i t needle : ℕ) (r : ℕ × ℕ)
      → is_sorted rows ≡ true
      → Covers (d ∷ ds)
      → get_elem? rows t ≡ some r
      → r.1 ≡ needle
      → 0 < d
      → sum ds < i
      → i + sum ds ≤ length rows
      → i ≤ suc t + sum ds
      → suc t ≤ i + sum ds
      → compose_loop (dummy ∷ rows) needle i (d ∷ ds) ≡ composed r.0
  unfolding compose_loop compare_row
  compose_loop-composed d [] i t needle r sorted c ht hn hd lo hi h1 h2 = absurd (omega arith)
  compose_loop-composed d (e ∷ ds) zero t needle r sorted c ht hn hd lo hi h1 h2 =
      absurd (omega arith)
  compose_loop-composed d (e ∷ ds) (suc k) t needle r sorted (cd, (cs, c)) ht hn hd lo hi h1 h2 =
      elim (place_of rows k t there.0 r sorted there.1 ht) [
        | inl (l, p) ↦ ground (
          arith,
          there.1,
          compose_loop-composed e ds (suc k + e) t needle r sorted c ht hn
              (step_pos e ds c (omega arith)) (omega arith) (omega arith)
              (omega (arith, step_bound e ds c)) (omega arith),
        )
        | inr (inl (l, p)) ↦ ground (
          arith,
          there.1,
          compose_loop-composed e ds (suc k - e) t needle r sorted c ht hn
              (step_pos e ds c (omega arith)) (omega arith) (omega arith) (omega arith)
              (omega (arith, step_bound e ds c)),
        )
        | inr (inr (l, p)) ↦ ground (arith, there.1)
      ]
    where
      there : (x : ℕ × ℕ) × (get_elem? rows k ≡ some x)
      there = get_elem?_within rows k (omega arith)

  -- Without a row of the pattern it finds nothing, and reads no index that is not there.
  compose_loop-not_found :
      (d : ℕ) (ds : List ℕ) (i needle : ℕ)
      → Covers (d ∷ ds)
      → ((j : ℕ) (r : ℕ × ℕ) → get_elem? rows j ≡ some r → r.1 ≢ needle)
      → sum ds < i
      → i + sum ds ≤ length rows
      → compose_loop (dummy ∷ rows) needle i (d ∷ ds) ≡ not_found
  unfolding compose_loop compare_row
  compose_loop-not_found d [] i needle c none_of lo hi = ground arith
  compose_loop-not_found d (e ∷ ds) zero needle c none_of lo hi = absurd (omega arith)
  compose_loop-not_found d (e ∷ ds) (suc k) needle (cd, (cs, c)) none_of lo hi = ground (
    arith,
    there.1,
    none_of k there.0 there.1,
    compose_loop-not_found e ds (suc k + e) needle c none_of (omega arith) (omega arith),
    compose_loop-not_found e ds (suc k - e) needle c none_of (omega arith) (omega arith),
  )
    where
      there : (x : ℕ × ℕ) × (get_elem? rows k ≡ some x)
      there = get_elem?_within rows k (omega arith)

get_elem?_lt :
    (rows : List (ℕ × ℕ)) (t : ℕ) (r : ℕ × ℕ) → get_elem? rows t ≡ some r → t < length rows
get_elem?_lt [] t r h = absurd (ground arith)
get_elem?_lt (q ∷ rows) zero r h = omega arith
get_elem?_lt (q ∷ rows) (suc t) r h = omega (arith, get_elem?_lt rows t r h)

none_cons :
    (q : ℕ × ℕ) (rows : List (ℕ × ℕ)) (needle : ℕ)
    → (q.1 == needle) ≡ false
    → ((j : ℕ) (r : ℕ × ℕ) → get_elem? rows j ≡ some r → r.1 ≢ needle)
    → (j : ℕ) (r : ℕ × ℕ) → get_elem? (q ∷ rows) j ≡ some r
    → r.1 ≢ needle
none_cons q rows needle e h zero r k = ground arith
none_cons q rows needle e h (suc j) r k = h j r k

-- The linear search finds the first row of a pattern, or there is none.
pub find_pattern-row :
    (rows : List (ℕ × ℕ)) (needle : ℕ)
    → ((t : ℕ) × ((r : ℕ × ℕ) × ((get_elem? rows t ≡ some r)
            × ((r.1 ≡ needle) × (find_pattern rows needle ≡ composed r.0)))))
      ⊎ (((j : ℕ) (r : ℕ × ℕ) → get_elem? rows j ≡ some r → r.1 ≢ needle)
          × (find_pattern rows needle ≡ not_found))
find_pattern-row [] needle = inr ((λ j r h. absurd (ground arith)), refl)
find_pattern-row (q ∷ rows) needle = elim (Bool-cases (q.1 == needle)) [
  | inl e ↦ inl (0, (q, (refl, (ground arith, ground arith))))
  | inr e ↦ elim (find_pattern-row rows needle) [
    | inl (t, (r, (h, (k, f)))) ↦ inl (suc t, (r, (h, (k, ground arith))))
    | inr (h, f) ↦ inr (none_cons q rows needle e h, ground arith)
  ]
]

pub ucs2_precompose-row :
    (dummy : ℕ × ℕ) (rows : List (ℕ × ℕ)) (first second t : ℕ) (r : ℕ × ℕ)
    → is_sorted rows ≡ true
    → length rows ≡ 997
    → get_elem? rows t ≡ some r
    → r.1 ≡ first * 2 ^ 16 + second
    → ucs2_precompose (dummy ∷ rows) first second ≡ composed r.0
unfolding ucs2_precompose
ucs2_precompose-row dummy rows first second t r sorted hl h k =
    compose_loop-composed dummy rows 499 (drop 1 delta) 499 t (first * 2 ^ 16 + second) r sorted
      (omega arith) h k (omega arith) (omega arith) (omega arith) (omega arith)
      (omega (arith, get_elem?_lt rows t r h))

-- In a table of 998 rows, the first of which is not used and the patterns of the others increase,
-- `UCS2precompose` finds what a search row by row does, and reads no row outside of the table.
pub ucs2_precompose-find_pattern :
    (dummy : ℕ × ℕ) (rows : List (ℕ × ℕ)) (first second : ℕ)
    → is_sorted rows ≡ true
    → length rows ≡ 997
    → ucs2_precompose (dummy ∷ rows) first second ≡ find_pattern rows (first * 2 ^ 16 + second)
unfolding ucs2_precompose
ucs2_precompose-find_pattern dummy rows first second sorted hl =
    elim (find_pattern-row rows (first * 2 ^ 16 + second)) [
      | inl (t, (r, (h, (k, f)))) ↦
          ucs2_precompose-row dummy rows first second t r sorted hl h k ∙ sym f
      | inr (h, f) ↦
          compose_loop-not_found dummy rows 499 (drop 1 delta) 499 (first * 2 ^ 16 + second)
            (omega arith) h (omega arith) (omega arith)
          ∙ sym f
    ]
