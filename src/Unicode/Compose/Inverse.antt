-- ===== src/Unicode/Compose/Inverse.antt =====
-- `UCS2decompose` and `UCS2precompose` with the table of the source (lib/unicode.c).
use netatalk_client.Base.{
  ◌↔◌, ℕ, zero, suc, ◌+◌, ◌*◌, ◌/◌, ◌%◌, ◌^◌, ◌<◌, ◌≡◌, refl, ap, sym, ◌∙◌, Bool, true, false, ◌&&◌,
  ◌||◌, not, some, List, [], ◌∷◌, ◌==◌, get_elem?, arith, Bool-cases, inl, inr, length,
}
use netatalk_client.Unicode.Compose.{composed, ucs2_precompose, ucs2_decompose, decompose_loop}
use netatalk_client.Unicode.Compose.Search.{
  find_pattern-row, is_sorted, find_pattern, ucs2_precompose-find_pattern, ucs2_precompose-row,
}
use netatalk_client.Unicode.Compose.Table.{
  table, rows, dummy_row, are_u32, length-rows, rows_sorted, rows_u32,
}

abbrev has_char : ℕ → List (ℕ × ℕ) → Bool
has_char c [] = false
has_char c (r ∷ rs) = (r.0 == c) || has_char c rs

-- No character is in two rows.
abbrev are_distinct : List (ℕ × ℕ) → Bool
are_distinct [] = true
are_distinct (r ∷ rs) = not (has_char r.0 rs) && are_distinct rs

rows_distinct : are_distinct rows ≡ true
rows_distinct = refl

row_u32 :
    (rs : List (ℕ × ℕ)) (t : ℕ) (r : ℕ × ℕ)
    → are_u32 rs ≡ true
    → get_elem? rs t ≡ some r
    → r.1 < 2 ^ 32
row_u32 [] t r h k = absurd (ground arith)
row_u32 (q ∷ rs) zero r h k = ground arith
row_u32 (q ∷ rs) (suc t) r h k = row_u32 rs t r (ground arith) k

decompose_loop-row :
    (rs : List (ℕ × ℕ)) (c first second : ℕ)
    → decompose_loop rs c ≡ some (first, second)
    → (t : ℕ) × ((r : ℕ × ℕ) × ((get_elem? rs t ≡ some r)
          × ((r.0 ≡ c) × ((r.1 / 2 ^ 16 % 2 ^ 16 ≡ first) × (r.1 % 2 ^ 16 ≡ second)))))
unfolding decompose_loop
decompose_loop-row [] c first second h = absurd (ground arith)
decompose_loop-row (q ∷ rs) c first second h = elim (Bool-cases (q.0 == c)) [
  | inl e ↦ (0, (q, (refl, (ground arith, (ground arith, ground arith)))))
  | inr e ↦ let (t, (r, k)) = decompose_loop-row rs c first second (ground arith) in (suc t, (r, k))
]

has_char-row :
    (rs : List (ℕ × ℕ)) (t : ℕ) (r : ℕ × ℕ) → get_elem? rs t ≡ some r → has_char r.0 rs ≡ true
has_char-row [] t r k = absurd (ground arith)
has_char-row (q ∷ rs) zero r k = ground arith
has_char-row (q ∷ rs) (suc t) r k = ground (arith, has_char-row rs t r k)

decompose_loop_row :
    (rs : List (ℕ × ℕ)) (t : ℕ) (r : ℕ × ℕ)
    → are_distinct rs ≡ true
    → get_elem? rs t ≡ some r
    → decompose_loop rs r.0 ≡ some (r.1 / 2 ^ 16 % 2 ^ 16, r.1 % 2 ^ 16)
unfolding decompose_loop
decompose_loop_row [] t r h k = absurd (ground arith)
decompose_loop_row (q ∷ rs) zero r h k = ground arith
decompose_loop_row (q ∷ rs) (suc t) r h k =
    ground (arith, has_char-row rs t r k, decompose_loop_row rs t r (ground arith) k)

module _ (dummy : ℕ × ℕ) (rs : List (ℕ × ℕ)) where
  apart :
      (c first second : ℕ)
      → is_sorted rs ≡ true
      → length rs ≡ 997
      → are_u32 rs ≡ true
      → decompose_loop rs c ≡ some (first, second)
      → ucs2_precompose (dummy ∷ rs) first second ≡ composed c
  apart c first second hs hl hu h =
      let (t, (r, (k, (rc, (r1, r2))))) = decompose_loop-row rs c first second h in
      ucs2_precompose-row dummy rs first second t r hs hl k (omega (arith, row_u32 rs t r hu k))
      ∙ ap composed rc

  together :
      (c first second : ℕ)
      → is_sorted rs ≡ true
      → length rs ≡ 997
      → are_distinct rs ≡ true
      → first < 2 ^ 16
      → second < 2 ^ 16
      → ucs2_precompose (dummy ∷ rs) first second ≡ composed c
      → decompose_loop rs c ≡ some (first, second)
  together c first second hs hl hd hf hg h = elim (find_pattern-row rs (first * 2 ^ 16 + second)) [
    | inl (t, (r, (k, (rp, f)))) ↦ ground (arith, same, f, rp, decompose_loop_row rs t r hd k)
    | inr (k, f) ↦ absurd (ground (arith, same, f))
  ]
    where
      same : find_pattern rs (first * 2 ^ 16 + second) ≡ composed c
      same = sym (ucs2_precompose-find_pattern dummy rs first second hs hl) ∙ h

-- For the table of the source and two characters of 16 bits: `UCS2decompose` takes a character apart into
-- the two exactly where `UCS2precompose` puts the two together to the character.
pub ucs2_decompose-ucs2_precompose :
    (c first second : ℕ)
    → first < 2 ^ 16
    → second < 2 ^ 16
    → (ucs2_decompose table c ≡ some (first, second))
      ↔ (ucs2_precompose table first second ≡ composed c)
unfolding ucs2_decompose
ucs2_decompose-ucs2_precompose c first second hf hs = (
  apart dummy_row rows c first second rows_sorted length-rows rows_u32,
  together dummy_row rows c first second rows_sorted length-rows rows_distinct hf hs,
)
