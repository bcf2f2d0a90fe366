-- ===== src/Metadata/Store.antt =====
-- The extended attributes of a file in AppleDouble files (daemon/metadata.c): `netatalk_list`,
-- `netatalk_get`, `netatalk_set` and `netatalk_remove`.
pub mod Places
pub mod Ready
pub mod Refines
pub mod Runs
pub mod Full
use netatalk_client.Base.{
  ℕ, ◌+◌, ◌^◌, Bool, true, false, not, ◌&&◌, Option, none, some, List, [], ◌∷◌, ◌++◌, length, take,
  ◌==◌, ltb, if◌then◌else◌, str_eq, ◌||◌,
}
use netatalk_client.Base.Errno.{Errno, enomem, eio, enoattr, e2big, enametoolong, Result, ok, err}
use netatalk_client.Metadata.Items.{
  Allocation, grown_array, copied_name, value_buffer, name_list, EaItem, has_name, load_items,
  save_items,
}
use netatalk_client.Metadata.Name.{metadata_name_filtered}

-- `open` for writing with `O_TRUNC`, and `write`: refused, cut after some bytes, or whole.
pub data FileWrite : Type 0 where
  not_opened : Errno → FileWrite
  cut_short : ℕ → FileWrite
  whole : FileWrite

-- The files beside one file: the list `::EA`, and a value `::EA::name` for each attribute.
pub record EaFiles : Type 0 where
  pub header : Option (List ℕ)
  pub values : List ℕ → Option (List ℕ)

-- What the system answers during one operation. `none` is success. `no_header` is what
-- `sidecar_open_error` makes of a list that is missing; a file that is missing counts as unlinked.
pub record EaSystem : Type 0 where
  pub memory : Allocation → Bool
  pub header_path : Option Errno
  pub value_path : List ℕ → Option Errno
  pub no_header : Errno
  pub open_header : Option Errno
  pub open_value : List ℕ → Bool
  pub value_folder : Option Errno
  pub header_folder : Option Errno
  pub write_value : FileWrite
  pub write_header : FileWrite
  pub unlink_value : Option Errno
  pub unlink_header : Option Errno

-- The value that an operation that changes the files returns, `none` for 0, and the files.
abbrev pub EaOutcome : Type 0
EaOutcome = Option Errno × EaFiles

-- `metadata_absent`. `ENODATA` and `ENOATTR` are one number.
unfoldable pub metadata_absent : Errno → Bool
metadata_absent enoattr = true
metadata_absent e = false

-- Nothing is done behind an error.
unfoldable pub unless : Option Errno → EaFiles → EaOutcome → EaOutcome
unless none f r = r
unless (some e) f r = (some e, f)

-- A file that had the content `old`, written anew. No bytes are not written at all.
unfoldable pub file_written : FileWrite → List ℕ → Option (List ℕ) → Option Errno × Option (List ℕ)
file_written (not_opened e) bytes old = (some e, old)
file_written (cut_short n) [] old = (none, some [])
file_written (cut_short n) (b ∷ bytes) old = (some eio, some (take n (b ∷ bytes)))
file_written whole bytes old = (none, some bytes)

unfoldable pub put_value :
    List ℕ → Option (List ℕ) → (List ℕ → Option (List ℕ)) → List ℕ → Option (List ℕ)
put_value name content values m = if str_eq name m then content else values m

-- `load_ea_items`
unfoldable pub load_ea_items : EaSystem → EaFiles → Result (List EaItem)
load_ea_items sys f = elim sys.header_path [
  | some e ↦ err e
  | none ↦ elim f.header [
    | none ↦ err sys.no_header
    | some bytes ↦ elim sys.open_header [ some e ↦ err e | none ↦ load_items sys.memory bytes ]
  ]
]

-- The bytes of a list that is not empty, or why there are none.
unfoldable pub write_list : EaSystem → Result (List ℕ) → EaFiles → EaOutcome
write_list sys (err e) f = (some e, f)
write_list sys (ok bytes) f =
    let (status, content) = file_written sys.write_header bytes f.header in
    (status, record f { header = content })

-- `save_ea_items`
unfoldable pub save_ea_items : EaSystem → List EaItem → EaFiles → EaOutcome
save_ea_items sys [] f =
    unless sys.header_path f (unless sys.unlink_header f (none, record f { header = none }))
save_ea_items sys (i ∷ items) f =
    unless sys.header_path f
      (unless sys.header_folder f (write_list sys (save_items sys.memory (i ∷ items)) f))

-- The item of the name has the size from now on. It is the last one if it is new.
unfoldable pub put_item : List ℕ → ℕ → List EaItem → List EaItem
put_item name size [] = record { name = name; size = size } ∷ []
put_item name size (i ∷ items) =
    let rest = put_item name size items in
    if str_eq i.name name then record i { size = size } ∷ items else i ∷ rest

unfoldable pub remove_item : List ℕ → List EaItem → List EaItem
remove_item name [] = []
remove_item name (i ∷ items) =
    let rest = remove_item name items in if str_eq i.name name then items else i ∷ rest

unfoldable pub find_item : List ℕ → List EaItem → Option EaItem
find_item name [] = none
find_item name (i ∷ items) =
    let rest = find_item name items in if str_eq i.name name then some i else rest

-- The value file of `netatalk_set` and then the list.
unfoldable pub save_behind :
    EaSystem → List EaItem → EaFiles → List ℕ → Option Errno × Option (List ℕ) → EaOutcome
save_behind sys items f name (status, content) =
    let g = record f { values = put_value name content f.values } in
    unless status g (save_ea_items sys items g)

unfoldable pub set_loaded : EaSystem → List ℕ → List ℕ → List EaItem → EaFiles → EaOutcome
set_loaded sys name value items f =
    if not (has_name name items) && not (sys.memory grown_array && sys.memory copied_name)
    then (some enomem, f)
    else unless (sys.value_path name) f (
        unless sys.value_folder f (
          save_behind sys (put_item name (length value) items) f name
            (file_written sys.write_value value (f.values name))))

-- `netatalk_set`
unfoldable pub netatalk_set : EaSystem → List ℕ → List ℕ → EaFiles → EaOutcome
netatalk_set sys name value f =
    if ltb 4294967295 (length value) then (some e2big, f) else elim (load_ea_items sys f) [
      | ok items ↦ set_loaded sys name value items f
      | err e ↦ (if metadata_absent e then set_loaded sys name value [] f else (some e, f))
    ]

-- `netatalk_remove`
unfoldable pub remove_loaded : EaSystem → List ℕ → List EaItem → EaFiles → EaOutcome
remove_loaded sys name items f =
    if not (has_name name items)
    then (some enoattr, f)
    else unless (sys.value_path name) f (
        unless sys.unlink_value f (
          save_ea_items sys (remove_item name items)
            (record f { values = put_value name none f.values })))

unfoldable pub netatalk_remove : EaSystem → List ℕ → EaFiles → EaOutcome
netatalk_remove sys name f = elim (load_ea_items sys f) [
  | err e ↦ (some e, f)
  | ok items ↦ remove_loaded sys name items f
]

-- The value file of an item. A file that cannot be opened is taken for an attribute that is not
-- there.
unfoldable pub read_value : EaSystem → List ℕ → EaItem → Option (List ℕ) → Result (List ℕ)
read_value sys name i none = err enoattr
read_value sys name i (some content) =
    if not (sys.open_value name)
    then err enoattr
    else if not (sys.memory value_buffer)
    then err enomem
    else if ltb (length content) i.size
    then err eio
    else ok (take i.size content)

unfoldable pub get_loaded :
    EaSystem → List ℕ → Option EaItem → Option Errno → EaFiles → Result (List ℕ)
get_loaded sys name none path f = err enoattr
get_loaded sys name (some i) (some e) f = err enoattr
get_loaded sys name (some i) none f = read_value sys name i (f.values name)

-- `netatalk_get`
unfoldable pub netatalk_get : EaSystem → List ℕ → EaFiles → Result (List ℕ)
netatalk_get sys name f = elim (load_ea_items sys f) [
  | err e ↦ err e
  | ok items ↦ get_loaded sys name (find_item name items) (sys.value_path name) f
]

-- `append_name`, where the list is that of the names in the buffer.
unfoldable pub is_listed : List ℕ → List (List ℕ) → Bool
is_listed name [] = false
is_listed name (n ∷ names) = str_eq n name || is_listed name names

unfoldable pub append_name : (Allocation → Bool) → List (List ℕ) → List ℕ → Result (List (List ℕ))
append_name memory names name =
    if ltb 260 (length name)
    then err enametoolong
    else if is_listed name names
    then ok names
    else if not (memory (name_list (length names)))
    then err enomem
    else ok (names ++ (name ∷ []))

unfoldable pub list_loop :
    (Allocation → Bool) → List (List ℕ) → List EaItem → Result (List (List ℕ))
list_loop memory names [] = ok names
list_loop memory names (i ∷ items) =
    if metadata_name_filtered i.name
    then list_loop memory names items
    else elim (append_name memory names i.name) [
      | err e ↦ err e
      | ok grown ↦ list_loop memory grown items
    ]

-- `netatalk_list`
unfoldable pub netatalk_list : EaSystem → EaFiles → Result (List (List ℕ))
netatalk_list sys f = elim (load_ea_items sys f) [
  | err e ↦ (if metadata_absent e then ok [] else err e)
  | ok items ↦ list_loop sys.memory [] items
]
