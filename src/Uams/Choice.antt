-- ===== src/Uams/Choice.antt =====
-- Which method `pick_uam` chooses.
use netatalk_client.Base.{
  ◌⊎◌, ℕ, zero, suc, ◌^◌, ◌<◌, ◌≡◌, refl, arith, ℤ, pos, negsuc, Bool, true, false, ◌&&◌,
  Bool-cases, inl, inr, ◌⊎◌,
}
use netatalk_client.Uams.{bit_set, pick_below, pick_uam}

-- Bit i is in both masks.
abbrev pub both : ℕ → ℕ → ℕ → Bool
both a b i = bit_set a i && bit_set b i

-- What the search below `n` may answer: the highest bit that both have, or -1.
abbrev pub IsChoice : ℕ → ℕ → ℕ → ℤ → Type 0
IsChoice n a b c =
    ((i : ℕ) × (i < n)
      × (c ≡ pos (2 ^ i))
      × (both a b i ≡ true)
      × ((j : ℕ) → i < j → j < n → both a b j ≡ false))
    ⊎ ((c ≡ negsuc 0) × ((j : ℕ) → j < n → both a b j ≡ false))

pick_below-IsChoice : (n a b : ℕ) → IsChoice n a b (pick_below n a b)
unfolding pick_below
pick_below-IsChoice zero a b = inr (refl, λ j h. absurd (omega arith))
pick_below-IsChoice (suc n) a b = elim (Bool-cases (both a b n)) [
  | inl e ↦ inl (n, omega arith, rw e refl, e, λ j hi hj. absurd (omega arith))
  | inr e ↦ rw e (grown e (pick_below-IsChoice n a b))
]
  where
    top :
        both a b n ≡ false
        → ((j : ℕ) → j < n → both a b j ≡ false)
        → (j : ℕ) → j < suc n
        → both a b j ≡ false
    top e h j hj = ground (arith, e, h j)

    grown :
        both a b n ≡ false
        → IsChoice n a b (pick_below n a b)
        → IsChoice (suc n) a b (pick_below n a b)
    grown e (inl (i, hi, c, has, above)) =
        inl (i, omega arith, c, has, λ j hij hj. ground (arith, e, above j hij))
    grown e (inr (c, h)) = inr (c, top e h)

-- `pick_uam` gives the highest of the 16 bits that both masks have, as a mask, and -1 exactly where
-- they have none in common.
pub pick_uam-IsChoice : (a b : ℕ) → IsChoice 16 a b (pick_uam a b)
unfolding pick_uam
pick_uam-IsChoice a b = pick_below-IsChoice 16 a b
