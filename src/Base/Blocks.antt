-- ===== src/Base/Blocks.antt =====
-- Slices that follow one another, and blocks written one behind the other.
use Prim.Native.Nat.{ℕ, zero, suc, ◌+◌, ◌≤◌, max}
use mathlib.Core.Path.{◌≡◌, refl, ap, ◌∙◌, sym}
use mathlib.Core.List.{List, [], ◌∷◌, ◌++◌, append_assoc}
use native.Mathlib.Omega.{arith}
use native.Mathlib.Nat.{zero-add, suc-add}
use netatalk_client.Base.Lists.{
  length, take, drop, write_at, length-append, length-take, length-drop, take-append,
  take-append-drop, take-append_at, drop-append_at,
}

module _ {ℓ} {A : Type ℓ} where
  pub drop_nil : (n : ℕ) → drop {A = A} n [] ≡ []
  drop_nil zero = refl
  drop_nil (suc n) = refl

  pub drop_past : (n : ℕ) (xs : List A) → length xs ≤ n → drop n xs ≡ []
  drop_past zero [] h = refl
  drop_past zero (x ∷ xs) h = absurd (omega arith)
  drop_past (suc n) [] h = refl
  drop_past (suc n) (x ∷ xs) h = drop_past n xs (omega arith)

  pub drop-drop : (m n : ℕ) (xs : List A) → drop m (drop n xs) ≡ drop (n + m) xs
  drop-drop m zero xs = ap (λ (k : ℕ). drop k xs) (sym (zero-add m))
  drop-drop m (suc n) [] = drop_nil m ∙ sym (drop_nil (suc n + m))
  drop-drop m (suc n) (x ∷ xs) = drop-drop m n xs ∙ rw (suc-add n m)

  pub take_nil : (n : ℕ) → take {A = A} n [] ≡ []
  take_nil zero = refl
  take_nil (suc n) = refl

  -- A slice is its front and then the rest of it.
  pub take-split : (k n : ℕ) (xs : List A) → take k xs ++ take n (drop k xs) ≡ take (k + n) xs
  take-split zero n xs = rw (zero-add n)
  take-split (suc k) n [] = rw (take_nil n, take_nil (suc k + n))
  take-split (suc k) n (x ∷ xs) = rw (suc-add k n, take-split k n xs)

module _ {ℓ} {A : Type ℓ} where
  pub write_at-append :
      (at : ℕ) (d front back : List A)
      → at ≡ length front
      → write_at at d (front ++ back) ≡ front ++ (d ++ drop (length d) back)
  write_at-append at d front back h = rw (
    take-append_at at front back h,
    sym (drop-drop (length d) at (front ++ back)),
    drop-append_at at front back h,
  )

  -- A block written in two pieces.
  pub write_at-write_at :
      (at k : ℕ) (d c : List A)
      → at ≤ length c
      → k ≤ length d
      → write_at (at + k) (drop k d) (write_at at (take k d) c) ≡ write_at at d c
  write_at-write_at at k d c h hk =
      ap (write_at (at + k) (drop k d))
        (sym (append_assoc (take at c) (take k d) (drop (at + length (take k d)) c)))
      ∙ write_at-append (at + k) (drop k d) (take at c ++ take k d)
          (drop (at + length (take k d)) c)
          (omega (arith, length-append (take at c) (take k d), length-take at c, length-take k d))
      ∙ rw (
        drop-drop (length (drop k d)) (at + length (take k d)) c,
        rest_at,
        append_assoc (take at c) (take k d) (drop k d ++ drop (at + length d) c),
        sym (append_assoc (take k d) (drop k d) (drop (at + length d) c)),
        take-append-drop k d,
      )
    where
      rest_at : at + length (take k d) + length (drop k d) ≡ at + length d
      rest_at = omega (arith, length-take k d, length-drop k d)

  pub take-write_at :
      (at : ℕ) (d c : List A) → at ≤ length c → take (length d) (drop at (write_at at d c)) ≡ d
  take-write_at at d c h = rw (
    drop-append_at at (take at c) (d ++ drop (at + length d) c) (omega (arith, length-take at c)),
    take-append d (drop (at + length d) c),
  )

  pub length-write_at :
      (at : ℕ) (d c : List A)
      → at ≤ length c
      → length (write_at at d c) ≡ max (length c) (at + length d)
  length-write_at at d c h = omega (
    arith,
    length-append (take at c) (d ++ drop (at + length d) c),
    length-append d (drop (at + length d) c),
    length-take at c,
    length-drop (at + length d) c,
  )
