-- ===== src/Base/Lists.antt =====
-- Lists measured and indexed by native numbers, under the library's names, and block writes into a
-- buffer.
use Prim.Native.Nat.{ℕ, zero, suc, ◌+◌, ◌-◌, ◌≤◌, ◌<◌, min}
use mathlib.Core.Path.{◌≡◌, refl, ap, ◌∙◌, sym}
use mathlib.Core.List.{List, [], ◌∷◌, ◌++◌}
use mathlib.Core.Option.{Option, none, some}
use native.Mathlib.Omega.{arith}
use native.Mathlib.Nat.{zero-add, suc-add, zero-min, suc-min-suc, min-zero, add-zero}
use netatalk_client.Base.Tests.{leb, leb→le, le→leb, if◌then◌else◌}

module _ {ℓ} {A : Type ℓ} where
  abbrev pub length : List A → ℕ
  length [] = 0
  length (x ∷ xs) = suc (length xs)

  abbrev pub get_elem? : List A → ℕ → Option A
  get_elem? [] i = none
  get_elem? (x ∷ xs) zero = some x
  get_elem? (x ∷ xs) (suc i) = get_elem? xs i

  abbrev pub get_or : List A → ℕ → A → A
  get_or [] i d = d
  get_or (x ∷ xs) zero d = x
  get_or (x ∷ xs) (suc i) d = get_or xs i d

  abbrev pub take : ℕ → List A → List A
  take zero xs = []
  take (suc n) [] = []
  take (suc n) (x ∷ xs) = x ∷ take n xs

  abbrev pub drop : ℕ → List A → List A
  drop zero xs = xs
  drop (suc n) [] = []
  drop (suc n) (x ∷ xs) = drop n xs

  abbrev pub replicate : ℕ → A → List A
  replicate zero a = []
  replicate (suc n) a = a ∷ replicate n a

  abbrev pub All {κ} : (A → Type κ) → List A → Type κ
  All P [] = Unit {κ}
  All P (x ∷ xs) = P x × All P xs

  pub length-append : (xs ys : List A) → length (xs ++ ys) ≡ length xs + length ys
  length-append [] ys = omega arith
  length-append (x ∷ xs) ys = omega (arith, length-append xs ys)

module _ {ℓ} {A : Type ℓ} where
  pub take-append-drop : (n : ℕ) (xs : List A) → take n xs ++ drop n xs ≡ xs
  take-append-drop zero xs = refl
  take-append-drop (suc n) [] = refl
  take-append-drop (suc n) (x ∷ xs) = rw (take-append-drop n xs)

  pub length-take : (n : ℕ) (xs : List A) → length (take n xs) ≡ min n (length xs)
  length-take zero xs = omega arith
  length-take (suc n) [] = omega arith
  length-take (suc n) (x ∷ xs) = omega (arith, length-take n xs)

  pub length-drop : (n : ℕ) (xs : List A) → length (drop n xs) ≡ length xs - n
  length-drop zero xs = omega arith
  length-drop (suc n) [] = omega arith
  length-drop (suc n) (x ∷ xs) = omega (arith, length-drop n xs)

  pub length-replicate : (n : ℕ) (a : A) → length (replicate n a) ≡ n
  length-replicate zero a = refl
  length-replicate (suc n) a = ap suc (length-replicate n a)

  pub take_all : (n : ℕ) (xs : List A) → length xs ≤ n → take n xs ≡ xs
  take_all zero [] h = refl
  take_all zero (x ∷ xs) h = absurd (omega arith)
  take_all (suc n) [] h = refl
  take_all (suc n) (x ∷ xs) h = rw (take_all n xs (omega arith))

  pub take-append : (xs ys : List A) → take (length xs) (xs ++ ys) ≡ xs
  take-append [] ys = refl
  take-append (x ∷ xs) ys = rw (take-append xs ys)

  pub drop-append : (xs ys : List A) → drop (length xs) (xs ++ ys) ≡ ys
  drop-append [] ys = refl
  drop-append (x ∷ xs) ys = drop-append xs ys

  pub take-append_at : (n : ℕ) (xs ys : List A) → n ≡ length xs → take n (xs ++ ys) ≡ xs
  take-append_at n xs ys h = rw h (take-append xs ys)

  pub drop-append_at : (n : ℕ) (xs ys : List A) → n ≡ length xs → drop n (xs ++ ys) ≡ ys
  drop-append_at n xs ys h = rw h (drop-append xs ys)

  pub get_or-append :
      (xs ys : List A) (i : ℕ) (d : A) → i < length xs → get_or (xs ++ ys) i d ≡ get_or xs i d
  get_or-append [] ys i d h = elim h [ ]
  get_or-append (x ∷ xs) ys zero d h = refl
  get_or-append (x ∷ xs) ys (suc i) d h = get_or-append xs ys i d (omega arith)

  pub All-append {κ} : (P : A → Type κ) (xs ys : List A) → All P xs → All P ys → All P (xs ++ ys)
  All-append P [] ys h k = k
  All-append P (x ∷ xs) ys (hx, hs) k = (hx, All-append P xs ys hs k)

  pub All-take {κ} : (P : A → Type κ) (n : ℕ) (xs : List A) → All P xs → All P (take n xs)
  All-take P zero xs h = tt
  All-take P (suc n) [] h = tt
  All-take P (suc n) (x ∷ xs) (hx, hs) = (hx, All-take P n xs hs)

-- `memcpy(buf + at, bytes, length bytes)` inside `buf`.
module _ {ℓ} {A : Type ℓ} where
  abbrev pub write_at : ℕ → List A → List A → List A
  write_at at bytes buf = take at buf ++ (bytes ++ drop (at + length bytes) buf)

-- `n` elements from an offset on, where the list has them all.
module _ {ℓ} {A : Type ℓ} where
  unfoldable pub slice? : List A → ℕ → ℕ → Option (List A)
  slice? xs at n = if leb (at + n) (length xs) then some (take n (drop at xs)) else none

  pub slice?-append :
      (front xs back : List A) → slice? (front ++ (xs ++ back)) (length front) (length xs) ≡ some xs
  unfolding slice?
  slice?-append front xs back = rw (
    le→leb (length front + length xs) (length (front ++ (xs ++ back)))
        (omega (arith, length-append front (xs ++ back), length-append xs back)),
    drop-append front (xs ++ back),
    take-append xs back,
  )

  pub length-slice? :
      (xs : List A) (at n : ℕ) (ys : List A) → slice? xs at n ≡ some ys → length ys ≡ n
  unfolding slice?
  length-slice? xs at n ys h =
      ground (arith, length-take n (drop at xs), length-drop at xs, leb→le (at + n) (length xs))

module _ {ℓ} {A : Type ℓ} where
  -- A slice behind a prefix, and one at the front.
  pub slice?-behind :
      (front xs : List A) (at n : ℕ) → slice? (front ++ xs) (length front + at) n ≡ slice? xs at n
  slice?-behind [] xs at n = rw (zero-add at)
  slice?-behind (x ∷ front) xs at n =
      rw (suc-add (length front) at) (slice?_suc x (front ++ xs) (length front + at) n)
      ∙ slice?-behind front xs at n
    where
      slice?_suc : (x : A) (xs : List A) (at n : ℕ) → slice? (x ∷ xs) (suc at) n ≡ slice? xs at n
      slice?_suc x xs at n = unfold slice? in ground arith

  pub take-append_le : (n : ℕ) (xs ys : List A) → n ≤ length xs → take n (xs ++ ys) ≡ take n xs
  take-append_le zero xs ys h = refl
  take-append_le (suc n) [] ys h = absurd (omega arith)
  take-append_le (suc n) (x ∷ xs) ys h = rw (take-append_le n xs ys (omega arith))

  pub slice?-front :
      (n : ℕ) (xs ys : List A) → n ≤ length xs → slice? (xs ++ ys) 0 n ≡ some (take n xs)
  unfolding slice?
  slice?-front n xs ys h = rw (
    le→leb (0 + n) (length (xs ++ ys)) (omega (arith, length-append xs ys)),
    take-append_le n xs ys h,
  )

  pub get_elem?-length :
      (front : List A) (x : A) (back : List A)
      → get_elem? (front ++ (x ∷ back)) (length front) ≡ some x
  get_elem?-length [] x back = refl
  get_elem?-length (y ∷ front) x back = get_elem?-length front x back

module _ {ℓ} {A : Type ℓ} where
  pub take-take : (m n : ℕ) (xs : List A) → take m (take n xs) ≡ take (min m n) xs
  take-take zero n xs = rw (zero-min n)
  take-take (suc m) zero xs = rw (min-zero (suc m))
  take-take (suc m) (suc n) [] = rw (suc-min-suc m n)
  take-take (suc m) (suc n) (x ∷ xs) = rw (suc-min-suc m n, take-take m n xs)

  -- Past the end of the list a count makes no difference.
  pub take_same :
      (m n : ℕ) (xs : List A) → min m (length xs) ≡ min n (length xs) → take m xs ≡ take n xs
  take_same zero zero xs h = refl
  take_same zero (suc n) [] h = refl
  take_same zero (suc n) (x ∷ xs) h = absurd (omega arith)
  take_same (suc m) zero [] h = refl
  take_same (suc m) zero (x ∷ xs) h = absurd (omega arith)
  take_same (suc m) (suc n) [] h = refl
  take_same (suc m) (suc n) (x ∷ xs) h = rw (take_same m n xs (omega arith))

module _ {ℓ} {A : Type ℓ} where
  pub slice?-past :
      (front mid xs back : List A) (k n : ℕ)
      → k ≡ length mid
      → n ≤ length xs
      → slice? (front ++ (mid ++ (xs ++ back))) (length front + k) n ≡ some (take n xs)
  slice?-past front mid xs back k n e h =
      slice?-behind front (mid ++ (xs ++ back)) k n
      ∙ ap (λ i. slice? (mid ++ (xs ++ back)) i n) (e ∙ sym (add-zero (length mid)))
      ∙ slice?-behind mid (xs ++ back) 0 n
      ∙ slice?-front n xs back h

  pub slice?-here :
      (front xs back : List A) (n : ℕ)
      → n ≤ length xs
      → slice? (front ++ (xs ++ back)) (length front) n ≡ some (take n xs)
  slice?-here front xs back n h =
      ap (λ i. slice? (front ++ (xs ++ back)) i n) (sym (add-zero (length front)))
      ∙ slice?-past front [] xs back 0 n refl h
