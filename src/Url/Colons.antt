-- ===== src/Url/Colons.antt =====
-- Searches of lib/afp_url.c for a last colon that is doubled.
use netatalk_client.Base.{
  ℕ, zero, suc, ◌+◌, ◌-◌, ◌≡◌, ◌<◌, ◌≤◌, refl, ap, sym, ◌∙◌, some, List, [], ◌∷◌, ◌++◌, arith,
  length, get_or, codes, length-append,
}
use mathlib.Core.List.{append_assoc}
use native.Mathlib.Nat.{suc-add}
use netatalk_client.Url.Scan.{
  Search, contains, escape_strrchr, judge_last, last_index, in_front, unfinished,
}
use netatalk_client.Url.Escape.{Lacks, last_index-append, drop-length}

-- A pair of colons with no colon behind it.
abbrev pub colons : List ℕ → List ℕ
colons back = b':' ∷ b':' ∷ back

get_or-length : (a b : List ℕ) (x : ℕ) → get_or (a ++ (x ∷ b)) (length a) 0 ≡ x
get_or-length [] b x = refl
get_or-length (y ∷ a) b x = get_or-length a b x

judge_again :
    (c : ℕ) (s : List ℕ) (from k : ℕ) (again : ℕ → Search)
    → 0 < k
    → 2 ≤ from + k
    → get_or s (from + k - 1) 0 ≡ c
    → judge_last c s from (some k) again ≡ again (from + k - 2)
unfolding judge_last
judge_again c s from k again h l e = ground arith

module _ (x : ℕ) (back : List ℕ) (h : Lacks b':' back) where
  colon_before : (front : List ℕ) → get_or (front ++ (x ∷ colons back)) (length front + 1) 0 ≡ b':'
  colon_before [] = refl
  colon_before (y ∷ front) = rw (suc-add (length front) 1) (colon_before front)

  -- Two places in front of the last colon the search begins again, and finds the same colon.
  search_again :
      (front : List ℕ) (fuel : ℕ)
      → escape_strrchr fuel (front ++ (x ∷ colons back)) b':' (codes ":") (length front)
        ≡ unfinished
  unfolding escape_strrchr contains
  search_again front zero = refl
  search_again front (suc fuel) =
      rw
        (
          drop-length front (x ∷ colons back),
          last_index-append b':' (x ∷ b':' ∷ []) back h,
          judge_again b':' (front ++ (x ∷ colons back)) (length front) 2
              (λ p. escape_strrchr fuel (front ++ (x ∷ colons back)) b':' (codes ":") p)
              (omega arith) (omega arith)
              (ap (λ i. get_or (front ++ (x ∷ colons back)) i 0) pred ∙ colon_before front),
          same,
        )
        (search_again front fuel)
    where
      pred : length front + 2 - 1 ≡ length front + 1
      pred = omega arith

      same : length front + 2 - 2 ≡ length front
      same = omega arith

  -- From the beginning of the text it does so at once.
  pub search_endless :
      (front : List ℕ) (fuel : ℕ)
      → escape_strrchr fuel (front ++ (x ∷ colons back)) b':' (codes ":") 0 ≡ unfinished
  unfolding escape_strrchr contains
  search_endless front zero = refl
  search_endless front (suc fuel) =
      rw
        (
          last_found,
          judge_again b':' (front ++ (x ∷ colons back)) 0 (length front + 2)
              (λ p. escape_strrchr fuel (front ++ (x ∷ colons back)) b':' (codes ":") p)
              (omega arith) (omega arith)
              (ap (λ i. get_or (front ++ (x ∷ colons back)) i 0) pred ∙ colon_before front),
          same,
        )
        (search_again front fuel)
    where
      last_found : last_index b':' (front ++ (x ∷ colons back)) ≡ some (length front + 2)
      last_found =
          ap (last_index b':') (sym (append_assoc front (x ∷ b':' ∷ []) (b':' ∷ back)))
          ∙ last_index-append b':' (front ++ (x ∷ b':' ∷ [])) back h
          ∙ ap some (length-append front (x ∷ b':' ∷ []))

      pred : 0 + (length front + 2) - 1 ≡ length front + 1
      pred = omega arith

      same : 0 + (length front + 2) - 2 ≡ length front
      same = omega arith

-- The pair stands at the beginning: the search begins again in front of the text.
pub search_in_front :
    (back : List ℕ) (fuel : ℕ)
    → Lacks b':' back
    → escape_strrchr (suc fuel) (colons back) b':' (codes ":") 0 ≡ in_front
unfolding escape_strrchr contains judge_last
search_in_front back fuel h = rw (last_index-append b':' (b':' ∷ []) back h) refl
