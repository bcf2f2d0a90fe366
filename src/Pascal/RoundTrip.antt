-- ===== src/Pascal/RoundTrip.antt =====
-- Reading back what was written, for any buffer and any limit.
use netatalk_client.Base.{
  length-replicate, take_same, be16_self, take-take, length-to_be16, slice?-here, slice?-past, ℕ,
  zero, suc, ◌-◌, ◌%◌, ◌^◌, ◌≤◌, ◌<◌, min, ◌≡◌, ◌≢◌, refl, sym, ◌∙◌, some, List, [], ◌∷◌, ◌++◌,
  arith, length, take, replicate, All, All-take, length-append, length-take, to_be16, take_all,
  IsU16, get_elem?-length, ==_ne,
}
use netatalk_client.Pascal.{
  copy_from_pascal, copy_from_pascal_two, copy_to_pascal, copy_to_pascal_two, copied, zero_fill,
  c_string,
}
use mathlib.Core.List.{append_assoc}

abbrev pub NotNul : ℕ → Type 0
NotNul b = b ≢ 0

c_string-zeros : (n : ℕ) → c_string (replicate n 0) ≡ []
unfolding c_string
c_string-zeros zero = refl
c_string-zeros (suc n) = refl

c_string-append_zeros : (s : List ℕ) (n : ℕ) → All NotNul s → c_string (s ++ replicate n 0) ≡ s
unfolding c_string
c_string-append_zeros [] n h = c_string-zeros n
c_string-append_zeros (b ∷ s) n (hb, hs) = ground (arith, c_string-append_zeros s n hs, hb)

copied-le : (n max_len : ℕ) → copied n max_len ≤ n
unfolding copied
copied-le n max_len = ground arith

-- The text behind a length byte, anywhere in memory.
copy_from_pascal-text :
    (dest front text back : List ℕ) (n max_len : ℕ)
    → 0 < max_len
    → n ≤ length text
    → copy_from_pascal dest (front ++ (n ∷ (text ++ back))) (length front) max_len
      ≡ some (zero_fill max_len (take (copied n max_len) text), n)
unfolding copy_from_pascal
copy_from_pascal-text dest front text back n max_len h k = rw (
  ==_ne max_len 0 (omega arith),
  get_elem?-length front n (text ++ back),
  slice?-past front (n ∷ []) text back 1 (copied n max_len) refl
      (omega (arith, copied-le n max_len)),
)

copy_from_pascal_two-text :
    (dest front text back : List ℕ) (n max_len : ℕ)
    → 0 < max_len
    → 0 < n
    → IsU16 n
    → n ≤ length text
    → copy_from_pascal_two dest (front ++ (to_be16 n ++ (text ++ back))) (length front) max_len
      ≡ some (zero_fill max_len (take (copied n max_len) text), n)
unfolding copy_from_pascal_two
copy_from_pascal_two-text dest front text back n max_len h p u k = rw (
  ==_ne max_len 0 (omega arith),
  slice?-here front (to_be16 n) (text ++ back) 2 (omega (arith, length-to_be16 n)),
  take_all 2 (to_be16 n) (omega (arith, length-to_be16 n)),
  be16_self n u,
  ==_ne n 0 (omega arith),
  slice?-past front (to_be16 n) text back 2 (copied n max_len) (sym (length-to_be16 n))
      (omega (arith, copied-le n max_len)),
)

length-zero_fill :
    (max_len : ℕ) (t : List ℕ) → length t ≤ max_len → length (zero_fill max_len t) ≡ max_len
unfolding zero_fill
length-zero_fill max_len t h = omega (
  arith,
  length-append t (replicate (max_len - length t) 0),
  length-replicate {A = ℕ} (max_len - length t) 0,
)

c_string-zero_fill : (max_len : ℕ) (t : List ℕ) → All NotNul t → c_string (zero_fill max_len t) ≡ t
unfolding zero_fill
c_string-zero_fill max_len t h = c_string-append_zeros t (max_len - length t) h

-- What stands in a destination of `max_len` bytes once a text has been copied under two limits.
pub record Holds (buf : List ℕ) (max_len : ℕ) (text : List ℕ) : Type 0 where
  pub size : length buf ≡ max_len
  pub text_is : c_string buf ≡ text

zero_fill-Holds :
    (max_len n top : ℕ) (s : List ℕ)
    → 0 < max_len
    → All NotNul s
    → n ≡ min (length s) top
    → Holds
        (zero_fill max_len (take (copied n max_len) (take n s)))
        max_len
        (take (min top (max_len - 1)) s)
zero_fill-Holds max_len n top s h nn e =
    let cut : take (copied n max_len) (take n s) ≡ take (min top (max_len - 1)) s =
      take-take (copied n max_len) n s
      ∙ take_same (min (copied n max_len) n) (min top (max_len - 1)) s
          (unfold copied in ground arith) in
    rw cut (record {
      size = length-zero_fill max_len _ (omega (arith, length-take (min top (max_len - 1)) s));
      text_is = c_string-zero_fill max_len _ (All-take NotNul (min top (max_len - 1)) s nn);
    })

-- Wherever in memory `copy_to_pascal` has written a string without a NUL in it, `copy_from_pascal` reads the length that
-- was written, fills the whole destination, and leaves in it the string, cut at 255 bytes and at one
-- byte less than the destination holds.
pub copy_from-copy_to_pascal :
    (dest src front back : List ℕ) (max_len : ℕ)
    → 0 < max_len
    → All NotNul src
    → (buf : List ℕ) × (copy_from_pascal dest
          (front ++ ((copy_to_pascal src).0 ++ back))
          (length front)
          max_len
        ≡ some (buf, (copy_to_pascal src).1))
      × Holds buf max_len (take (min 255 (max_len - 1)) src)
unfolding copy_to_pascal
copy_from-copy_to_pascal dest src front back max_len h nn =
    let n : ℕ = min (length src) 255 in
    (
      zero_fill max_len (take (copied n max_len) (take n src)),
      copy_from_pascal-text dest front (take n src) back n max_len h
          (omega (arith, length-take n src)),
      zero_fill-Holds max_len n 255 src h nn refl,
    )

-- Wherever in memory `copy_to_pascal_two` has written a string of 1 to 65535 bytes without a NUL,
-- `copy_from_pascal_two` reads its length, fills the whole destination, which holds a byte or more, and
-- leaves in it the string, cut at one byte less than the destination holds.
pub copy_from-copy_to_pascal_two :
    (dest src front back : List ℕ) (max_len : ℕ)
    → 0 < max_len
    → 0 < length src
    → length src < 2 ^ 16
    → All NotNul src
    → (buf : List ℕ) × (copy_from_pascal_two dest
          (front ++ ((copy_to_pascal_two (some src)).0 ++ back))
          (length front)
          max_len
        ≡ some (buf, length src))
      × Holds buf max_len (take (min 65535 (max_len - 1)) src)
unfolding copy_to_pascal_two
copy_from-copy_to_pascal_two dest src front back max_len h p u nn =
    let n : ℕ = length src in
    (
      zero_fill max_len (take (copied n max_len) (take n src)),
      rw (fits, append_assoc (to_be16 n) (take n src) back)
          (copy_from_pascal_two-text dest front (take n src) back n max_len h p u
            (omega (arith, length-take n src))),
      zero_fill-Holds max_len n 65535 src h nn (omega arith),
    )
  where
    fits : length src % 2 ^ 16 ≡ length src
    fits = omega arith
