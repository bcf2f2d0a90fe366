-- ===== src/Ipc/Framed.antt =====
-- What stands where in a response of the daemon (`send_command` of daemon/daemon_client.c).
use netatalk_client.Base.{
  ℕ, zero, suc, ◌+◌, ◌-◌, ◌^◌, ◌≡◌, ◌<◌, ◌≤◌, refl, ap, sym, ◌∙◌, some, List, [], ◌∷◌, ◌++◌, arith,
  length, take, drop, to_be32, be32_at, be32-to_be32, length-to_be32, length-append, length-take,
  length-drop, take-append, take-append_le, take-append_at, drop-append_at, le→ltb_false, get_or,
  get_or-append,
}
use mathlib.Core.List.{append_assoc, append-nil}
use native.Mathlib.Nat.{suc-add, zero-add}
use netatalk_client.Ipc.{
  framed, footer, GetResult, got, get_interrupted, not_ready, get_failed, content_length,
  log_buffer_size, log_magic,
}

drop-append_le : (n : ℕ) (a b : List ℕ) → n ≤ length a → drop n (a ++ b) ≡ drop n a ++ b
drop-append_le zero a b h = refl
drop-append_le (suc n) [] b h = absurd (omega arith)
drop-append_le (suc n) (x ∷ a) b h = drop-append_le n a b (omega arith)

get_or-past : (a b : List ℕ) (i : ℕ) → get_or (a ++ b) (length a + i) 0 ≡ get_or b i 0
get_or-past [] b i = ap (λ (j : ℕ). get_or b j 0) (zero-add i)
get_or-past (x ∷ a) b i = rw (suc-add (length a) i) (get_or-past a b i)

-- A number behind a part of four bytes, or at the end of one.
be32_at-past : (a b : List ℕ) → length a ≡ 4 → be32_at (a ++ b) 4 ≡ be32_at b 0
unfolding be32_at
be32_at-past a b h = omega (arith, at_place 0, at_place 1, at_place 2, at_place 3)
  where
    at_place : (i : ℕ) → get_or (a ++ b) (4 + i) 0 ≡ get_or b i 0
    at_place i = ap (λ (j : ℕ). get_or (a ++ b) (j + i) 0) (sym h) ∙ get_or-past a b i

pub be32_at-append : (a b : List ℕ) → 8 ≤ length a → be32_at (a ++ b) 4 ≡ be32_at a 4
unfolding be32_at
be32_at-append a b h = omega (
  arith,
  get_or-append a b 4 0,
  get_or-append a b 5 0,
  get_or-append a b 6 0,
  get_or-append a b 7 0,
)

module _ (bytes log : List ℕ) (header : 8 ≤ length bytes) where
  abbrev total : ℕ
  total = length bytes + length log + 8

  -- The bytes with the length in their header.
  abbrev pub sized : List ℕ
  sized = take 4 bytes ++ (to_be32 total ++ drop 8 bytes)

  framed-sized : framed bytes log ≡ sized ++ (log ++ footer (length log))
  unfolding framed
  framed-sized =
      ap
        (λ (t : List ℕ).
          t ++ (to_be32 total ++ drop (4 + length (to_be32 total)) (bytes ++ behind)))
        (take-append_le 4 bytes behind (omega (arith, header)))
      ∙ ap (λ (i : ℕ). take 4 bytes ++ (to_be32 total ++ drop i (bytes ++ behind))) eight
      ∙ ap (λ t. take 4 bytes ++ (to_be32 total ++ t)) (drop-append_le 8 bytes behind header)
      ∙ ap (λ t. take 4 bytes ++ t) (sym (append_assoc (to_be32 total) (drop 8 bytes) behind))
      ∙ sym (append_assoc (take 4 bytes) (to_be32 total ++ drop 8 bytes) behind)
    where
      behind : List ℕ
      behind = log ++ footer (length log)

      eight : 4 + length (to_be32 total) ≡ 8
      eight = omega (arith, length-to_be32 total)

  length-sized : length sized ≡ length bytes
  length-sized = omega (
    arith,
    length-append (take 4 bytes) (to_be32 total ++ drop 8 bytes),
    length-append (to_be32 total) (drop 8 bytes),
    length-to_be32 total,
    length-take 4 bytes,
    length-drop 8 bytes,
  )

  length-footer : (n : ℕ) → length (footer n) ≡ 8
  length-footer n = omega (
    arith,
    length-append (to_be32 log_magic) (to_be32 n),
    length-to_be32 log_magic,
    length-to_be32 n,
  )

  pub length-framed : length (framed bytes log) ≡ total
  length-framed =
      ap length framed-sized
      ∙ omega (
        arith,
        length-append sized (log ++ footer (length log)),
        length-append log (footer (length log)),
        length-footer (length log),
        length-sized,
      )

  pub length_at : total < 2 ^ 32 → be32_at (framed bytes log) 4 ≡ total
  length_at small =
      ap (λ (t : List ℕ). be32_at t 4)
        (framed-sized
          ∙ append_assoc (take 4 bytes) (to_be32 total ++ drop 8 bytes)
              (log ++ footer (length log)))
      ∙ be32_at-past (take 4 bytes)
          ((to_be32 total ++ drop 8 bytes) ++ (log ++ footer (length log)))
          (omega (arith, length-take 4 bytes))
      ∙ ap (λ (t : List ℕ). be32_at t 0)
          (append_assoc (to_be32 total) (drop 8 bytes) (log ++ footer (length log)))
      ∙ be32-to_be32 total (drop 8 bytes ++ (log ++ footer (length log))) small

  footer_part : drop (length (framed bytes log) - 8) (framed bytes log) ≡ footer (length log)
  footer_part =
      ap (drop (length (framed bytes log) - 8))
        (framed-sized ∙ sym (append_assoc sized log (footer (length log))))
      ∙ drop-append_at (length (framed bytes log) - 8) (sized ++ log) (footer (length log))
          (omega (arith, length-framed, length-append sized log, length-sized))

  magic_at : be32_at (footer (length log)) 0 ≡ log_magic
  magic_at = be32-to_be32 log_magic (to_be32 (length log)) (omega arith)

  log_length_at : length log ≤ log_buffer_size → be32_at (footer (length log)) 4 ≡ length log
  log_length_at small =
      be32_at-past (to_be32 log_magic) (to_be32 (length log)) (length-to_be32 log_magic)
      ∙ ap (λ (t : List ℕ). be32_at t 0) (sym (append-nil (to_be32 (length log))))
      ∙ be32-to_be32 (length log) [] (omega (arith, small))

  pub content_length-framed :
      length log ≤ log_buffer_size → content_length (framed bytes log) ≡ some (length bytes)
  unfolding content_length
  content_length-framed small =
      rw
        (
          footer_part,
          magic_at,
          log_length_at small,
          length-framed,
          le→ltb_false total 8 (omega arith),
          le→ltb_false log_buffer_size (length log) small,
          le→ltb_false (total - 8) (length log) (omega arith),
        )
        (ap some (omega arith))

  pub sized_part : take (length bytes) (framed bytes log) ≡ sized
  sized_part =
      ap (take (length bytes)) framed-sized
      ∙ take-append_at (length bytes) sized (log ++ footer (length log)) (sym length-sized)

  pub log_part : take (length log) (drop (length bytes) (framed bytes log)) ≡ log
  log_part =
      ap (λ t. take (length log) (drop (length bytes) t)) framed-sized
      ∙ ap (take (length log))
          (drop-append_at (length bytes) sized (log ++ footer (length log)) (sym length-sized))
      ∙ take-append log (footer (length log))

-- Results that bring the loop to the end of `n` bytes.
abbrev pub Fetches : ℕ → List GetResult → Type 0
Fetches n [] = n ≡ 0
Fetches n (got k ∷ results) = (0 < k) × Fetches (n - k) results
Fetches n (get_interrupted ∷ results) = Fetches n results
Fetches n (not_ready ∷ results) = Fetches n results
Fetches n (get_failed ∷ results) = ⊥
