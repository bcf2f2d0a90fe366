-- ===== src/Metadata/Items/RoundTrip.antt =====
-- What `save_ea_items` writes is what `load_ea_items` reads (daemon/metadata.c).
use mathlib.Core.List.{append_assoc, append-nil}
use netatalk_client.Base.{
  ◌*◌, ◌/◌, le→ltb_false, ◌%◌, ◌^◌, be16_at, be32_at, to_be16, be32-to_be32, to_be32, ℕ, zero, suc,
  ◌+◌, ◌≤◌, ◌<◌, ◌≡◌, refl, ap, sym, ◌∙◌, Bool, true, false, some, List, [], ◌∷◌, ◌++◌, length,
  arith, str_eq, All, IsU32,
}
use netatalk_client.Base.Errno.{ok}
use netatalk_client.Metadata.Items.{
  items_array, file_buffer, ea_version, ea_magic, name_of, EaItem, Allocation, has_name, scan_name,
  behind_byte, after_name, load_loop, load_items, item_bytes, name_too_long, save_items, name_max,
  max_items,
}

-- A name that the list can have: a C string of less than 255 bytes.
abbrev pub IsName : List ℕ → Type 0
IsName name = All (λ b. 0 < b) name × (length name < name_max)

abbrev pub IsItem : EaItem → Type 0
IsItem i = IsName i.name × IsU32 i.size

-- No two items have one name.
abbrev pub Distinct : List EaItem → Type 0
Distinct [] = Unit
Distinct (i ∷ items) = (has_name i.name items ≡ false) × Distinct items

-- Items that a file can list.
abbrev pub IsListed : List EaItem → Type 0
IsListed items = All IsItem items × (Distinct items × (length items ≤ max_items))

-- The file that lists the items.
abbrev pub list_bytes : List EaItem → List ℕ
list_bytes items =
    to_be32 ea_magic
    ++ (to_be16 ea_version ++ (to_be16 (length items % 2 ^ 16) ++ item_bytes items))

scan_name-append :
    (n : ℕ) (name rest : List ℕ)
    → All (λ b. 0 < b) name
    → length name < n
    → scan_name n (name ++ (0 ∷ rest)) ≡ some (name, rest)
unfolding scan_name behind_byte
scan_name-append zero name rest h hn = absurd (omega arith)
scan_name-append (suc n) [] rest h hn = refl
scan_name-append (suc n) (b ∷ name) rest (hb, h) hn =
    rw (scan_name-append n name rest h (omega arith)) (ground arith)

pub str_eq_sym : (a b : List ℕ) → str_eq a b ≡ str_eq b a
unfolding str_eq
str_eq_sym [] [] = refl
str_eq_sym [] (y ∷ b) = refl
str_eq_sym (x ∷ a) [] = refl
str_eq_sym (x ∷ a) (y ∷ b) = ground (arith, str_eq_sym a b)

has_name-middle :
    (name : List ℕ) (front : List EaItem) (i : EaItem) (items : List EaItem)
    → has_name name (front ++ (i ∷ items)) ≡ false
    → str_eq i.name name ≡ false
unfolding has_name
has_name-middle name [] i items h = ground (arith)
has_name-middle name (p ∷ front) i items h = ground (arith, has_name-middle name front i items)

-- A name is not that of an item before it.
has_name-front :
    (front : List EaItem) (i : EaItem) (items : List EaItem)
    → Distinct (front ++ (i ∷ items))
    → has_name i.name front ≡ false
unfolding has_name
has_name-front [] i items h = refl
has_name-front (p ∷ front) i items (hp, h) = ground (
  arith,
  has_name-front front i items h,
  has_name-middle p.name front i items hp,
  str_eq_sym p.name i.name,
)

load_loop-item_bytes :
    (memory : Allocation → Bool) (previous items : List EaItem)
    → ((a : Allocation) → memory a ≡ true)
    → All IsItem items
    → Distinct (previous ++ items)
    → load_loop memory (length items) previous (item_bytes items) ≡ ok (previous ++ items)
unfolding load_loop item_bytes after_name to_be32
load_loop-item_bytes memory previous [] hm h d = ap ok (sym (append-nil previous))
load_loop-item_bytes memory previous (i ∷ items) hm (((hn, hl), hs), h) d =
    rw
      (
        be32-to_be32 i.size (i.name ++ (0 ∷ item_bytes items)) hs,
        scan_name-append name_max i.name (item_bytes items) hn hl,
        hm (name_of (length previous)),
        has_name-front previous i items d,
        le→ltb_false (suc (suc (suc (suc (length (i.name ++ (0 ∷ item_bytes items))))))) 4
            (omega arith),
      )
      (load_loop-item_bytes memory (previous ++ (i ∷ [])) items hm h
          (rw (append_assoc previous (i ∷ []) items) d)
        ∙ ap ok (append_assoc previous (i ∷ []) items))

name_too_long-IsItem : (items : List EaItem) → All IsItem items → name_too_long items ≡ false
unfolding name_too_long
name_too_long-IsItem [] h = refl
name_too_long-IsItem (i ∷ items) ((hn, hs), h) = ground (arith, name_too_long-IsItem items h)

-- The header that says how many items there are.
load_counted :
    (memory : Allocation → Bool) (items : List EaItem) (hi lo : ℕ)
    → ((a : Allocation) → memory a ≡ true)
    → hi * 256 + lo ≡ length items
    → length items ≤ max_items
    → load_loop memory (length items) [] (item_bytes items) ≡ ok items
    → load_items memory (97 ∷ 100 ∷ 69 ∷ 65 ∷ 0 ∷ 1 ∷ hi ∷ lo ∷ item_bytes items) ≡ ok items
unfolding load_items be32_at be16_at
load_counted memory items hi lo hm e n h =
    simp (e, le→ltb_false max_items (length items) n, hm items_array) (ground arith)

pub load_items-list_bytes :
    (memory : Allocation → Bool) (items : List EaItem)
    → ((a : Allocation) → memory a ≡ true)
    → IsListed items
    → load_items memory (list_bytes items) ≡ ok items
unfolding to_be32 to_be16
load_items-list_bytes memory items hm (h, (d, n)) =
    load_counted memory items (length items % 2 ^ 16 / 256 % 256) (length items % 2 ^ 16 % 256) hm
      (omega arith) n (load_loop-item_bytes memory [] items hm h d)

pub save_items-list_bytes :
    (memory : Allocation → Bool) (items : List EaItem)
    → ((a : Allocation) → memory a ≡ true)
    → All IsItem items
    → save_items memory items ≡ ok (list_bytes items)
unfolding save_items
save_items-list_bytes memory items hm h = rw (name_too_long-IsItem items h, hm file_buffer) refl

-- With memory, `load_ea_items` reads back the items that `save_ea_items` has written, if each of them
-- has a size of 32 bits and a name of less than 255 bytes, none of them zero, no two have one name
-- and there are at most 1024.
pub load_items-save_items :
    (memory : Allocation → Bool) (items : List EaItem)
    → ((a : Allocation) → memory a ≡ true)
    → IsListed items
    → (bytes : List ℕ) × ((save_items memory items ≡ ok bytes)
        × (load_items memory bytes ≡ ok items))
load_items-save_items memory items hm h = (
  list_bytes items,
  (save_items-list_bytes memory items hm h.0, load_items-list_bytes memory items hm h),
)
