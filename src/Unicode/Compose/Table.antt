-- ===== src/Unicode/Compose/Table.antt =====
-- The array `table` (lib/unicode.c), and what holds of its rows.
mod First
mod Second
mod Third
mod Fourth
mod Fifth
mod Sixth
mod Seventh
use netatalk_client.Base.{
  ℕ, ◌+◌, ◌*◌, ◌^◌, ◌≡◌, refl, Bool, true, List, [], ◌∷◌, ◌++◌, length, ltb, ◌&&◌,
}
use netatalk_client.Unicode.Compose.Search.{is_sorted}
use netatalk_client.Unicode.Compose.Table.First.{rows_first}
use netatalk_client.Unicode.Compose.Table.Second.{rows_second}
use netatalk_client.Unicode.Compose.Table.Third.{rows_third}
use netatalk_client.Unicode.Compose.Table.Fourth.{rows_fourth}
use netatalk_client.Unicode.Compose.Table.Fifth.{rows_fifth}
use netatalk_client.Unicode.Compose.Table.Sixth.{rows_sixth}
use netatalk_client.Unicode.Compose.Table.Seventh.{rows_seventh}

abbrev pub dummy_row : ℕ × ℕ
dummy_row = (0x0000, 0x00000000)

-- The rows from index 1 on.
abbrev pub rows : List (ℕ × ℕ)
rows =
    rows_first
    ++ (rows_second
        ++ (rows_third ++ (rows_fourth ++ (rows_fifth ++ (rows_sixth ++ (rows_seventh))))))

abbrev pub table : List (ℕ × ℕ)
table = dummy_row ∷ rows

abbrev pub are_u32 : List (ℕ × ℕ) → Bool
are_u32 [] = true
are_u32 (r ∷ rs) = ltb r.1 (2 ^ 32) && are_u32 rs

pub length-rows : length rows ≡ 997
length-rows = refl

pub rows_sorted : is_sorted rows ≡ true
rows_sorted = refl

pub rows_u32 : are_u32 rows ≡ true
rows_u32 = refl
