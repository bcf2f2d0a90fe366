-- ===== src/Uams/Names.antt =====
-- The names of the authentication methods and their bits.
use netatalk_client.Base.{
  ℕ, ◌^◌, ◌≡◌, ◌⊎◌, inl, inr, refl, true, some, List, if◌then◌else◌, str_case_eq, Bool-cases,
}
use netatalk_client.Uams.{
  afp_strings, bitmap_in, resolve_uam_shorthand, uam_string_to_bitmap, uam_bitmap_to_string,
}

-- A mask of no method, or of one that `name` is a name of.
abbrev pub IsNamed : List ℕ → ℕ → Type 0
IsNamed name mask =
    (mask ≡ 0)
    ⊎ ((full : List ℕ) × (uam_bitmap_to_string mask ≡ some full) × (str_case_eq name full ≡ true))

IsNamed-if :
    (name s : List ℕ) (i rest : ℕ)
    → uam_bitmap_to_string (2 ^ i) ≡ some s
    → IsNamed name rest
    → IsNamed name (if str_case_eq name s then 2 ^ i else rest)
IsNamed-if name s i rest e h = elim (Bool-cases (str_case_eq name s)) [
  | inl same ↦ rw same (inr (s, e, same))
  | inr other ↦ rw other h
]

bitmap_in-IsNamed : (name : List ℕ) → IsNamed name (bitmap_in afp_strings 0 name)
unfolding bitmap_in uam_bitmap_to_string
bitmap_in-IsNamed name = IsNamed-if name _ 0 _ refl (
    IsNamed-if name _ 1 _ refl (
      IsNamed-if name _ 2 _ refl (
        IsNamed-if name _ 3 _ refl (
          IsNamed-if name _ 4 _ refl (
            IsNamed-if name _ 5 _ refl (
              IsNamed-if name _ 6 _ refl
                (IsNamed-if name _ 7 _ refl (IsNamed-if name _ 8 _ refl (inl refl)))))))))

-- For any text, the mask that `uam_string_to_bitmap` gives is 0, or `uam_bitmap_to_string` gives a
-- name for it that is the text, or what the text is a shorthand of, but for the case of its letters.
pub uam_string_to_bitmap-IsNamed :
    (name : List ℕ) → IsNamed (resolve_uam_shorthand name) (uam_string_to_bitmap name)
unfolding uam_string_to_bitmap
uam_string_to_bitmap-IsNamed name = bitmap_in-IsNamed (resolve_uam_shorthand name)
