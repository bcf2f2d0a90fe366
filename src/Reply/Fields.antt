-- ===== src/Reply/Fields.antt =====
-- `parse_reply_block` (lib/proto_replyblock.c): which bytes it reads, and where it stores them.
use mathlib.Core.Path.{subst}
use netatalk_client.Base.{
  sym, ◌*◌, ◌^◌, be32_at, ℕ, ◌+◌, ◌≤◌, ◌<◌, ◌≡◌, refl, Bool, not, some, List, [], ◌∷◌, length, take,
  drop, arith, All, All-append, if-split, if-both, slice?, le→leb, length-take, if◌then◌else◌, ltb,
  leb, be16_at,
}
use netatalk_client.Dates.{DateServer}
use netatalk_client.Reply.{
  ReplyFile, blank, Stored, stored, bad_field, bad_read, Parse, parsing, refused, outside,
  name_size, named, copy_name, copy_pascal_bounded, copy_afpname_bounded, Field, after_store,
  read16, read32, read64, copy_bytes, read_unixprivs, parse_field, parse_fields, block_fields,
  common_fields, directory_fields, file_fields, last_fields, parse_reply_block,
}

-- A name that fits into its array.
abbrev pub IsStored : Stored → Type 0
IsStored (stored f) = length f.name < name_size
IsStored bad_field = Unit
IsStored bad_read = ⊥

-- The parser is within `size` bytes.
abbrev pub IsWithin : ℕ → Parse → Type 0
IsWithin size (parsing at f) = (at ≤ size) × (length f.name < name_size)
IsWithin size refused = Unit
IsWithin size outside = ⊥

-- What is checked for covers what is read and what is passed over.
abbrev IsSafe : List ℕ → Field → Type 0
IsSafe buf field =
    (field.width ≤ field.need)
    × ((at : ℕ) (f : ReplyFile)
        → at + field.need ≤ length buf
        → length f.name < name_size
        → IsStored (field.store buf at f))

slice?_within :
    (buf : List ℕ) (at n : ℕ) → at + n ≤ length buf → slice? buf at n ≡ some (take n (drop at buf))
unfolding slice?
slice?_within buf at n h = rw (le→leb (at + n) (length buf) h) refl

read16-IsStored :
    (buf : List ℕ) (at : ℕ) (k : ℕ → Stored)
    → at + 2 ≤ length buf
    → ((n : ℕ) → IsStored (k n))
    → IsStored (read16 buf at k)
unfolding read16
read16-IsStored buf at k h safe = subst IsStored (sym there) (safe _)
  where
    there : read16 buf at k ≡ k (be16_at (take 2 (drop at buf)) 0)
    there = rw (slice?_within buf at 2 h, read16) refl

read32-IsStored :
    (buf : List ℕ) (at : ℕ) (k : ℕ → Stored)
    → at + 4 ≤ length buf
    → ((n : ℕ) → IsStored (k n))
    → IsStored (read32 buf at k)
unfolding read32
read32-IsStored buf at k h safe = subst IsStored (sym there) (safe _)
  where
    there : read32 buf at k ≡ k (be32_at (take 4 (drop at buf)) 0)
    there = rw (slice?_within buf at 4 h, read32) refl

read64-IsStored :
    (buf : List ℕ) (at : ℕ) (k : ℕ → Stored)
    → at + 8 ≤ length buf
    → ((n : ℕ) → IsStored (k n))
    → IsStored (read64 buf at k)
unfolding read64
read64-IsStored buf at k h safe = subst IsStored (sym there) (safe _)
  where
    there :
        read64 buf at k
        ≡ k (be32_at (take 8 (drop at buf)) 0 * 2 ^ 32 + be32_at (take 8 (drop at buf)) 4)
    there = rw (slice?_within buf at 8 h, read64) refl

copy_bytes-IsStored :
    (buf : List ℕ) (at n : ℕ) (k : List ℕ → Stored)
    → at + n ≤ length buf
    → ((bytes : List ℕ) → IsStored (k bytes))
    → IsStored (copy_bytes buf at n k)
unfolding copy_bytes
copy_bytes-IsStored buf at n k h safe = subst IsStored (sym there) (safe _)
  where
    there : copy_bytes buf at n k ≡ k (take n (drop at buf))
    there = rw (slice?_within buf at n h, copy_bytes) refl

read_unixprivs-IsStored :
    (buf : List ℕ) (at : ℕ) (f : ReplyFile)
    → at + 16 ≤ length buf
    → length f.name < name_size
    → IsStored (read_unixprivs buf at f)
unfolding read_unixprivs
read_unixprivs-IsStored buf at f h k = read32-IsStored buf at _ (omega arith) (λ uid.
    read32-IsStored buf (at + 4) _ (omega arith) (λ gid.
      read32-IsStored buf (at + 8) _ (omega arith)
        (λ permissions. read32-IsStored buf (at + 12) _ (omega arith) (λ ua_permissions. k))))

copy_name-IsStored :
    (buf : List ℕ) (size at : ℕ) (f : ReplyFile) (len : ℕ)
    → size ≤ length buf
    → IsStored (copy_name buf size at f len)
unfolding copy_name named
copy_name-IsStored buf size at f len h =
    if-split IsStored (ltb size (at + len)) _ _ (λ e. tt)
      (λ e.
        if-split IsStored (leb name_size len) _ _ (λ k. tt)
          (λ k.
            rw (slice?_within buf at len (ground arith))
              (ground (arith, length-take len (drop at buf)))))

copy_pascal_bounded-IsStored :
    (buf : List ℕ) (size offset : ℕ) (f : ReplyFile)
    → size ≤ length buf
    → IsStored (copy_pascal_bounded buf size offset f)
unfolding copy_pascal_bounded
copy_pascal_bounded-IsStored buf size offset f h =
    if-split IsStored (leb size offset) _ _ (λ e. tt)
      (λ e.
        rw (slice?_within buf offset 1 (ground arith))
          (copy_name-IsStored buf size (offset + 1) f _ h))

copy_afpname_bounded-IsStored :
    (buf : List ℕ) (size offset : ℕ) (f : ReplyFile)
    → size ≤ length buf
    → IsStored (copy_afpname_bounded buf size offset f)
unfolding copy_afpname_bounded
copy_afpname_bounded-IsStored buf size offset f h =
    if-split IsStored (ltb size (offset + 6)) _ _ (λ e. tt)
      (λ e.
        rw (slice?_within buf (offset + 4) 2 (ground arith))
          (copy_name-IsStored buf size (offset + 6) f _ h))

after_store-IsWithin :
    (size at : ℕ) (s : Stored) → at ≤ size → IsStored s → IsWithin size (after_store at s)
unfolding after_store
after_store-IsWithin size at (stored f) h k = (h, k)
after_store-IsWithin size at bad_field h k = tt
after_store-IsWithin size at bad_read h k = k

parse_field-IsWithin :
    (buf : List ℕ) (size : ℕ) (field : Field) (p : Parse)
    → size ≤ length buf
    → IsSafe buf field
    → IsWithin size p
    → IsWithin size (parse_field buf size field p)
unfolding parse_field
parse_field-IsWithin buf size field refused h safe k = tt
parse_field-IsWithin buf size field outside h safe k = k
parse_field-IsWithin buf size field (parsing at f) h (covers, safe) (k, n) =
    if-split (IsWithin size) (not field.present) _ _ (λ e. (k, n))
      (λ e.
        if-split (IsWithin size) (ltb size (at + field.need)) _ _ (λ l. tt)
          (λ l.
            after_store-IsWithin size (at + field.width) _ (ground (arith, covers))
              (safe at f (ground arith) n)))

parse_fields-IsWithin :
    (buf : List ℕ) (size : ℕ) (fields : List Field) (p : Parse)
    → size ≤ length buf
    → All (IsSafe buf) fields
    → IsWithin size p
    → IsWithin size (parse_fields buf size fields p)
unfolding parse_fields
parse_fields-IsWithin buf size [] p h safe k = k
parse_fields-IsWithin buf size (field ∷ fields) p h (s, safe) k =
    parse_fields-IsWithin buf size fields _ h safe (parse_field-IsWithin buf size field p h s k)

le_self : (n : ℕ) → n ≤ n
le_self n = omega arith

module _ (server : DateServer) (buf : List ℕ) (size bitmap : ℕ) (hs : size ≤ length buf) where
  common_fields-IsSafe : All (IsSafe buf) (common_fields server size bitmap)
  common_fields-IsSafe = (
    (le_self 2, λ at f h k. read16-IsStored buf at _ h (λ n. k)),
    (
      (le_self 4, λ at f h k. read32-IsStored buf at _ h (λ n. k)),
      (
        (le_self 4, λ at f h k. read32-IsStored buf at _ h (λ n. k)),
        (
          (le_self 4, λ at f h k. read32-IsStored buf at _ h (λ n. k)),
          (
            (le_self 4, λ at f h k. read32-IsStored buf at _ h (λ n. k)),
            (
              (le_self 32, λ at f h k. copy_bytes-IsStored buf at 32 _ h (λ bytes. k)),
              (
                (
                  le_self 2,
                  λ at f h k.
                      read16-IsStored buf at _ h
                        (λ n. copy_pascal_bounded-IsStored buf size n f hs),
                ),
                (
                  (le_self 2, λ at f h k. k),
                  ((le_self 4, λ at f h k. read32-IsStored buf at _ h (λ n. k)), tt),
                ),
              ),
            ),
          ),
        ),
      ),
    ),
  )

  directory_fields-IsSafe : All (IsSafe buf) (directory_fields bitmap)
  directory_fields-IsSafe = (
    (le_self 2, λ at f h k. read16-IsStored buf at _ h (λ n. k)),
    (
      (le_self 4, λ at f h k. read32-IsStored buf at _ h (λ n. k)),
      (
        (le_self 4, λ at f h k. read32-IsStored buf at _ h (λ n. k)),
        ((le_self 4, λ at f h k. read32-IsStored buf at _ h (λ n. k)), tt),
      ),
    ),
  )

  file_fields-IsSafe : All (IsSafe buf) (file_fields bitmap)
  file_fields-IsSafe = (
    (le_self 4, λ at f h k. read32-IsStored buf at _ h (λ n. k)),
    (
      (le_self 4, λ at f h k. read32-IsStored buf at _ h (λ n. k)),
      (
        (le_self 8, λ at f h k. read64-IsStored buf at _ h (λ n. k)),
        ((le_self 2, λ at f h k. k), tt),
      ),
    ),
  )

  last_fields-IsSafe : All (IsSafe buf) (last_fields size bitmap)
  last_fields-IsSafe = (
    (
      le_self 6,
      λ at f h k.
          read16-IsStored buf at _ (omega arith)
            (λ n. copy_afpname_bounded-IsStored buf size n f hs),
    ),
    (
      (le_self 8, λ at f h k. read64-IsStored buf at _ h (λ n. k)),
      ((le_self 16, λ at f h k. read_unixprivs-IsStored buf at f h k), tt),
    ),
  )

  block_fields-IsSafe : (isdir : Bool) → All (IsSafe buf) (block_fields server size isdir bitmap)
  block_fields-IsSafe isdir =
      All-append (IsSafe buf) (common_fields server size bitmap) _ common_fields-IsSafe (
        All-append (IsSafe buf) (if isdir then directory_fields bitmap else file_fields bitmap)
          (last_fields size bitmap)
          (if-both (All (IsSafe buf)) isdir (directory_fields bitmap) (file_fields bitmap)
            directory_fields-IsSafe file_fields-IsSafe)
          last_fields-IsSafe)

-- Of a block whose `size` bytes are in the buffer, `parse_reply_block` reads no byte that is outside of
-- the buffer, whatever the bitmaps are and the bytes say, since each field's check covers what is then
-- read at its address, and the checks of a name its length and its text: it ends at an offset of at most `size`, with a
-- name that is shorter than the array for it, or refuses the block.
pub parse_reply_block-IsWithin :
    (server : DateServer) (buf : List ℕ) (size : ℕ) (isdir : Bool) (filebitmap dirbitmap : ℕ)
    → size ≤ length buf
    → IsWithin size (parse_reply_block server buf size isdir filebitmap dirbitmap)
unfolding parse_reply_block
parse_reply_block-IsWithin server buf size isdir filebitmap dirbitmap h =
    parse_fields-IsWithin buf size _ (parsing 0 (blank isdir)) h
      (block_fields-IsSafe server buf size (if isdir then dirbitmap else filebitmap) h isdir)
      (omega arith, omega arith)
