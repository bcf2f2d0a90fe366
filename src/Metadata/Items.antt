-- ===== src/Metadata/Items.antt =====
-- The file that lists a file's extended attributes (daemon/metadata.c): `load_ea_items` and
-- `save_ea_items` between their calls of the system.
pub mod RoundTrip
use netatalk_client.Base.{
  ℕ, zero, suc, ◌+◌, ◌%◌, ◌^◌, Bool, true, false, not, ◌&&◌, ◌||◌, Option, none, some, List, [],
  ◌∷◌, ◌++◌, length, drop, ◌==◌, ltb, if◌then◌else◌, be16_at, be32_at, to_be16, to_be32, str_eq,
}
use netatalk_client.Base.Errno.{Errno, einval, enomem, eio, Result, ok, err}

-- `struct ea_item`
pub record EaItem : Type 0 where
  pub name : List ℕ
  pub size : ℕ

-- What the functions ask memory for: the array of items and the name of each of them, when they are
-- loaded; a place behind them and a copy of its name; the bytes of the file; a value; a list of names.
pub data Allocation : Type 0 where
  items_array : Allocation
  name_of name_list : ℕ → Allocation
  grown_array copied_name file_buffer value_buffer : Allocation

abbrev pub ea_magic : ℕ
ea_magic = 1633961281

abbrev pub ea_version : ℕ
ea_version = 1

abbrev pub ea_header_size : ℕ
ea_header_size = 8

abbrev pub max_items : ℕ
max_items = 1024

abbrev pub name_max : ℕ
name_max = 255

unfoldable pub has_name : List ℕ → List EaItem → Bool
has_name name [] = false
has_name name (i ∷ items) = str_eq i.name name || has_name name items

-- With a byte before it.
unfoldable pub behind_byte : ℕ → Option (List ℕ × List ℕ) → Option (List ℕ × List ℕ)
behind_byte b none = none
behind_byte b (some (name, rest)) = some (b ∷ name, rest)

-- The name that stands first, up to its zero byte, and what is behind it. `n` bytes are read at
-- most, the zero byte among them.
unfoldable pub scan_name : ℕ → List ℕ → Option (List ℕ × List ℕ)
scan_name zero bytes = none
scan_name (suc n) [] = none
scan_name (suc n) (b ∷ bytes) =
    let rest = scan_name n bytes in if b == 0 then some ([], bytes) else behind_byte b rest

-- An item whose size and name have been read, after those of `previous`. `more` is the rest of the
-- loop.
unfoldable pub after_name :
    (Allocation → Bool)
    → (List EaItem → List ℕ → Result (List EaItem))
    → List EaItem
    → ℕ
    → Option (List ℕ × List ℕ)
    → Result (List EaItem)
after_name memory more previous size none = err einval
after_name memory more previous size (some (name, rest)) =
    if not (memory (name_of (length previous)))
    then err enomem
    else if has_name name previous
    then err einval
    else more (previous ++ (record { name = name; size = size } ∷ [])) rest

-- The loop of `load_ea_items`: `n` items from the bytes.
unfoldable pub load_loop : (Allocation → Bool) → ℕ → List EaItem → List ℕ → Result (List EaItem)
load_loop memory zero previous bytes = ok previous
load_loop memory (suc n) previous bytes =
    if ltb (length bytes) 4
    then err eio
    else after_name memory (load_loop memory n) previous (be32_at bytes 0)
        (scan_name name_max (drop 4 bytes))

-- `load_ea_items` behind `open`, of a file with the given bytes.
unfoldable pub load_items : (Allocation → Bool) → List ℕ → Result (List EaItem)
load_items memory bytes =
    let count = be16_at bytes 6 in
    if ltb (length bytes) ea_header_size
    then err eio
    else if not (be32_at bytes 0 == ea_magic)
        || not (be16_at bytes 4 == ea_version)
        || ltb max_items count
    then err einval
    else if not (count == 0) && not (memory items_array)
    then err enomem
    else load_loop memory count [] (drop ea_header_size bytes)

unfoldable pub item_bytes : List EaItem → List ℕ
item_bytes [] = []
item_bytes (i ∷ items) = to_be32 i.size ++ (i.name ++ (0 ∷ item_bytes items))

unfoldable pub name_too_long : List EaItem → Bool
name_too_long [] = false
name_too_long (i ∷ items) = ltb name_max (length i.name) || name_too_long items

-- What `save_ea_items` writes for one item or more.
unfoldable pub save_items : (Allocation → Bool) → List EaItem → Result (List ℕ)
save_items memory items =
    if name_too_long items
    then err einval
    else if not (memory file_buffer)
    then err enomem
    else ok (
        to_be32 ea_magic
        ++ (to_be16 ea_version ++ (to_be16 (length items % 2 ^ 16) ++ item_bytes items)))
