-- ===== src/Reply.antt =====
-- The parameters of a file or directory in a reply (lib/proto_replyblock.c). A buffer is
-- the memory from its address on.
pub mod Fields
pub mod Members
mod Tests
use netatalk_client.Base.{
  ℕ, ◌+◌, ◌-◌, ◌*◌, ◌/◌, ◌%◌, ◌^◌, Bool, true, false, not, ◌&&◌, ◌||◌, Option, none, some, List, [],
  ◌∷◌, ◌++◌, ◌==◌, ltb, leb, if◌then◌else◌, slice?, get_or, be16_at, be32_at,
}
use netatalk_client.Dates.{DateServer, afp_date_to_unix}

-- `struct afp_file_info`, as far as a reply sets it. A date is its seconds and whether it is unset.
pub record ReplyFile : Type 0 where
  pub isdir : Bool
  pub attributes : ℕ
  pub did : ℕ
  pub creation_date : ℕ × Bool
  pub modification_date : ℕ × Bool
  pub backup_date : ℕ × Bool
  pub finderinfo : List ℕ
  pub name : List ℕ
  pub fileid : ℕ
  pub offspring : ℕ
  pub accessrights : ℕ
  pub size : ℕ
  pub resourcesize : ℕ
  pub uid : ℕ
  pub gid : ℕ
  pub permissions : ℕ
  pub ua_permissions : ℕ

-- After `memset` and `isdir`.
abbrev pub blank : Bool → ReplyFile
blank isdir = record {
  isdir = isdir;
  attributes = 0;
  did = 0;
  creation_date = (0, false);
  modification_date = (0, false);
  backup_date = (0, false);
  finderinfo = [];
  name = [];
  fileid = 0;
  offspring = 0;
  accessrights = 0;
  size = 0;
  resourcesize = 0;
  uid = 0;
  gid = 0;
  permissions = 0;
  ua_permissions = 0;
}

-- What one field of a block does: it is stored, it is refused, or bytes were read outside of the
-- buffer.
pub data Stored : Type 0 where
  stored : ReplyFile → Stored
  bad_field : Stored
  bad_read : Stored

-- The parser between two fields: at an offset, or at its end with -1, or outside of the buffer.
pub data Parse : Type 0 where
  parsing : ℕ → ReplyFile → Parse
  refused : Parse
  outside : Parse

-- `sizeof(filecur->name)`
abbrev pub name_size : ℕ
name_size = 1021

unfoldable pub named : ReplyFile → Option (List ℕ) → Stored
named f none = bad_read
named f (some bytes) = stored (record f { name = bytes })

-- The length has been read, and `at` is where the text begins.
unfoldable pub copy_name : List ℕ → ℕ → ℕ → ReplyFile → ℕ → Stored
copy_name buf size at f len =
    if ltb size (at + len)
    then bad_field
    else if leb name_size len
    then bad_field
    else named f (slice? buf at len)

-- `copy_pascal_bounded` to the name.
unfoldable pub copy_pascal_bounded : List ℕ → ℕ → ℕ → ReplyFile → Stored
copy_pascal_bounded buf size offset f =
    if leb size offset then bad_field else elim (slice? buf offset 1) [
      | none ↦ bad_read
      | some bytes ↦ copy_name buf size (offset + 1) f (get_or bytes 0 0)
    ]

-- `copy_afpname_bounded` to the name.
unfoldable pub copy_afpname_bounded : List ℕ → ℕ → ℕ → ReplyFile → Stored
copy_afpname_bounded buf size offset f =
    if ltb size (offset + 6) then bad_field else elim (slice? buf (offset + 4) 2) [
      | none ↦ bad_read
      | some bytes ↦ copy_name buf size (offset + 6) f (be16_at bytes 0)
    ]

-- What is done with a number that is read at an address, by its width. The read is one of memory: it
-- knows nothing of the check before it.
unfoldable pub read16 : List ℕ → ℕ → (ℕ → Stored) → Stored
read16 buf at k = elim (slice? buf at 2) [ none ↦ bad_read | some bytes ↦ k (be16_at bytes 0) ]

unfoldable pub read32 : List ℕ → ℕ → (ℕ → Stored) → Stored
read32 buf at k = elim (slice? buf at 4) [ none ↦ bad_read | some bytes ↦ k (be32_at bytes 0) ]

unfoldable pub read64 : List ℕ → ℕ → (ℕ → Stored) → Stored
read64 buf at k = elim (slice? buf at 8) [
  | none ↦ bad_read
  | some bytes ↦ k (be32_at bytes 0 * 2 ^ 32 + be32_at bytes 4)
]

unfoldable pub copy_bytes : List ℕ → ℕ → ℕ → (List ℕ → Stored) → Stored
copy_bytes buf at n k = elim (slice? buf at n) [ none ↦ bad_read | some bytes ↦ k bytes ]

-- A field of a block: whether the bitmap has its bit, how many bytes are checked for, what is read at
-- its address in the buffer and where that is stored, and by how much the address moves on.
pub record Field : Type 0 where
  pub present : Bool
  pub need : ℕ
  pub store : List ℕ → ℕ → ReplyFile → Stored
  pub width : ℕ

unfoldable pub after_store : ℕ → Stored → Parse
after_store at (stored f) = parsing at f
after_store at bad_field = refused
after_store at bad_read = outside

-- One `if` of `parse_reply_block`.
unfoldable pub parse_field : List ℕ → ℕ → Field → Parse → Parse
parse_field buf size field refused = refused
parse_field buf size field outside = outside
parse_field buf size field (parsing at f) =
    if not field.present
    then parsing at f
    else if ltb size (at + field.need)
    then refused
    else after_store (at + field.width) (field.store buf at f)

unfoldable pub parse_fields : List ℕ → ℕ → List Field → Parse → Parse
parse_fields buf size [] p = p
parse_fields buf size (field ∷ fields) p =
    parse_fields buf size fields (parse_field buf size field p)

-- `bitmap & (1 << n)`
abbrev pub has_bit : ℕ → ℕ → Bool
has_bit bitmap n = bitmap / 2 ^ n % 2 == 1

unfoldable pub date_of : DateServer → ℕ → ℕ × Bool
date_of server date = (afp_date_to_unix server date, date == 2147483648)

abbrev pub field : Bool → ℕ → (List ℕ → ℕ → ReplyFile → Stored) → ℕ → Field
field present need store width = record {
  present = present;
  need = need;
  store = store;
  width = width;
}

abbrev pub common_fields : DateServer → ℕ → ℕ → List Field
common_fields server size bitmap =
    field (has_bit bitmap 0) 2 (λ b at f. read16 b at (λ n. stored (record f { attributes = n }))) 2
    ∷ field (has_bit bitmap 1) 4 (λ b at f. read32 b at (λ n. stored (record f { did = n }))) 4
    ∷ field (has_bit bitmap 2) 4
        (λ b at f. read32 b at (λ n. stored (record f { creation_date = date_of server n }))) 4
    ∷ field (has_bit bitmap 3) 4
        (λ b at f. read32 b at (λ n. stored (record f { modification_date = date_of server n }))) 4
    ∷ field (has_bit bitmap 4) 4
        (λ b at f. read32 b at (λ n. stored (record f { backup_date = date_of server n }))) 4
    ∷ field (has_bit bitmap 5) 32
        (λ b at f. copy_bytes b at 32 (λ bytes. stored (record f { finderinfo = bytes }))) 32
    ∷ field (has_bit bitmap 6) 2
        (λ b at f. read16 b at (λ offset. copy_pascal_bounded b size offset f)) 2
    ∷ field (has_bit bitmap 7) 2 (λ b at f. stored f) 2
    ∷ field (has_bit bitmap 8) 4 (λ b at f. read32 b at (λ n. stored (record f { fileid = n }))) 4
    ∷ []

abbrev pub directory_fields : ℕ → List Field
directory_fields bitmap =
    field (has_bit bitmap 9) 2 (λ b at f. read16 b at (λ n. stored (record f { offspring = n }))) 2
    ∷ field (has_bit bitmap 10) 4 (λ b at f. read32 b at (λ n. stored (record f { uid = n }))) 4
    ∷ field (has_bit bitmap 11) 4 (λ b at f. read32 b at (λ n. stored (record f { gid = n }))) 4
    ∷ field (has_bit bitmap 12) 4
        (λ b at f. read32 b at (λ n. stored (record f { accessrights = n }))) 4
    ∷ []

abbrev pub file_fields : ℕ → List Field
file_fields bitmap =
    field (has_bit bitmap 9) 4 (λ b at f. read32 b at (λ n. stored (record f { size = n }))) 4
    ∷ field (has_bit bitmap 10) 4
        (λ b at f. read32 b at (λ n. stored (record f { resourcesize = n }))) 4
    ∷ field (has_bit bitmap 11) 8 (λ b at f. read64 b at (λ n. stored (record f { size = n }))) 8
    ∷ field (has_bit bitmap 12) 2 (λ b at f. stored f) 2
    ∷ []

-- The four numbers of `struct afpc_unix_privileges`.
unfoldable pub read_unixprivs : List ℕ → ℕ → ReplyFile → Stored
read_unixprivs b at f = read32 b at (λ uid. read32 b (at + 4) (λ gid.
    read32 b (at + 8) (λ permissions. read32 b (at + 12) (λ ua_permissions. stored (record f {
      uid = uid;
      gid = gid;
      permissions = permissions;
      ua_permissions = ua_permissions;
    })))))

abbrev pub last_fields : ℕ → ℕ → List Field
last_fields size bitmap =
    field (has_bit bitmap 13) 6
      (λ b at f. read16 b at (λ offset. copy_afpname_bounded b size offset f)) 6
    ∷ field (has_bit bitmap 14) 8
        (λ b at f. read64 b at (λ n. stored (record f { resourcesize = n }))) 8
    ∷ field (has_bit bitmap 15) 16 read_unixprivs 16
    ∷ []

-- The fields of a block, in their order.
abbrev pub block_fields : DateServer → ℕ → Bool → ℕ → List Field
block_fields server size isdir bitmap =
    common_fields server size bitmap
    ++ ((if isdir then directory_fields bitmap else file_fields bitmap) ++ last_fields size bitmap)

unfoldable pub parse_reply_block : DateServer → List ℕ → ℕ → Bool → ℕ → ℕ → Parse
parse_reply_block server buf size isdir filebitmap dirbitmap =
    let bitmap = if isdir then dirbitmap else filebitmap in
    parse_fields buf size (block_fields server size isdir bitmap) (parsing 0 (blank isdir))
