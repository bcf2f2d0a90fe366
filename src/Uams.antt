-- ===== src/Uams.antt =====
-- lib/uams_def.c, and `pick_uam` of lib/afp.c: the names and bits of the user authentication methods,
-- and the choice among them. A bit mask is a number, of which a bit is tested by division.
pub mod Choice
pub mod Names
pub mod Registry
mod Tests
use netatalk_client.Base.{
  ℕ, zero, suc, ◌+◌, ◌-◌, ◌/◌, ◌%◌, ◌^◌, ℤ, pos, negsuc, Bool, true, false, Option, none, some,
  List, [], ◌∷◌, ◌==◌, if◌then◌else◌, ◌&&◌, codes, str_case_eq, length,
}

-- `afp_strings`, in the order of their bits.
abbrev pub afp_strings : List (List ℕ)
afp_strings =
    codes "No User Authent"
    ∷ codes "Cleartxt Passwrd"
    ∷ codes "Randnum Exchange"
    ∷ codes "2-Way Randnum Exchange"
    ∷ codes "DHCAST128"
    ∷ codes "Client Krb v2"
    ∷ codes "DHX2"
    ∷ codes "Recon1"
    ∷ codes "SRP"
    ∷ []

-- `uam_aliases`: a shorthand and the name that it stands for.
abbrev pub uam_aliases : List (List ℕ × List ℕ)
uam_aliases =
    (codes "guest", codes "No User Authent")
    ∷ (codes "clrtxt", codes "Cleartxt Passwrd")
    ∷ (codes "randnum", codes "Randnum Exchange")
    ∷ (codes "randnum2", codes "2-Way Randnum Exchange")
    ∷ (codes "dhx", codes "DHCAST128")
    ∷ (codes "dhx2", codes "DHX2")
    ∷ (codes "srp", codes "SRP")
    ∷ []

resolve_in : List (List ℕ × List ℕ) → List ℕ → List ℕ
unfolding str_case_eq
resolve_in [] name = name
resolve_in ((shorthand, full_name) ∷ rest) name =
    if str_case_eq name shorthand then full_name else resolve_in rest name

unfoldable pub resolve_uam_shorthand : List ℕ → List ℕ
unfolding resolve_in
resolve_uam_shorthand name = resolve_in uam_aliases name

-- The search through `afp_strings` from index `i` on; the answer is `1 << i`.
bitmap_in : List (List ℕ) → ℕ → List ℕ → ℕ
unfolding str_case_eq
bitmap_in [] i name = 0
bitmap_in (s ∷ rest) i name = if str_case_eq name s then 2 ^ i else bitmap_in rest (i + 1) name

unfoldable pub uam_string_to_bitmap : List ℕ → ℕ
unfolding bitmap_in resolve_uam_shorthand
uam_string_to_bitmap name = bitmap_in afp_strings 0 (resolve_uam_shorthand name)

-- `mask & (1 << i)`
unfoldable pub bit_set : ℕ → ℕ → Bool
bit_set mask i = mask / 2 ^ i % 2 == 1

-- The loop of `uam_bitmap_to_string`, downwards from the last name.
name_of_top_bit : List (List ℕ) → ℕ → ℕ → Option (List ℕ)
unfolding bit_set
name_of_top_bit [] i bitmap = none
name_of_top_bit (s ∷ rest) i bitmap =
    let above = name_of_top_bit rest (i + 1) bitmap in
    elim above [ some t ↦ some t | none ↦ if bit_set bitmap i then some s else none ]

unfoldable pub uam_bitmap_to_string : ℕ → Option (List ℕ)
unfolding name_of_top_bit
uam_bitmap_to_string bitmap = name_of_top_bit afp_strings 0 bitmap

-- The loop of `pick_uam` over the bits below `n`, from the top.
pick_below : ℕ → ℕ → ℕ → ℤ
unfolding bit_set
pick_below zero a b = negsuc 0
pick_below (suc i) a b =
    let rest = pick_below i a b in if bit_set a i && bit_set b i then pos (2 ^ i) else rest

unfoldable pub pick_uam : ℕ → ℕ → ℤ
unfolding pick_below
pick_uam a b = pick_below 16 a b
