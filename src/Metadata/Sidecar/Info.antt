-- ===== src/Metadata/Sidecar/Info.antt =====
-- The header of an AppleDouble file, and `read_ad_info` (daemon/metadata.c).
use netatalk_client.Base.{
  ℕ, zero, suc, ◌+◌, ◌-◌, ◌*◌, Bool, true, false, not, ◌||◌, Option, none, some, List, ◌++◌, length,
  take, replicate, write_at, slice?, ltb, ◌==◌, if◌then◌else◌, be16_at, be32_at,
}
use netatalk_client.Base.Errno.{Errno, einval, eio, Result, ok, err}

abbrev pub ad_magic : ℕ
ad_magic = 0x00051607

abbrev pub ad_version : ℕ
ad_version = 0x00020000

abbrev pub ad_header_size : ℕ
ad_header_size = 26

abbrev pub ad_entry_size : ℕ
ad_entry_size = 12

abbrev pub ad_finder_id : ℕ
ad_finder_id = 9

abbrev pub ad_resource_id : ℕ
ad_resource_id = 2

-- `struct ad_entry` and `struct ad_info`; `offset` is 0 where there is no entry.
pub record AdEntry : Type 0 where
  pub id : ℕ
  pub offset : ℕ
  pub size : ℕ
  pub header_offset : ℕ

pub record AdInfo : Type 0 where
  pub finder : AdEntry
  pub resource : AdEntry

abbrev pub no_entry : AdEntry
no_entry = record { id = 0; offset = 0; size = 0; header_offset = 0 }

abbrev pub no_info : AdInfo
no_info = record { finder = no_entry; resource = no_entry }

-- What the system answers during one operation; `none` is success. `write_cut at` is the number of
-- bytes that a `pwrite` at this offset wrote, where it did not write all.
pub record AdSystem : Type 0 where
  pub sidecar_path : Option Errno
  pub sidecar_dir : Option Errno
  pub sidecar_mode : Option Errno
  pub open_file : Option Errno
  pub stat_owner : Option Errno
  pub read_fails : ℕ → Option Errno
  pub stat_fails : Bool
  pub memory : Bool
  pub truncate : Option Errno
  pub write_cut : ℕ → Option ℕ

abbrev pub enoent : ℕ
enoent = 2

-- `pread(fd, buf, n, at)` that must read all `n` bytes.
unfoldable pub read_all : AdSystem → List ℕ → ℕ → ℕ → Option (List ℕ)
read_all sys bytes at n = elim (sys.read_fails at) [ some e ↦ none | none ↦ slice? bytes at n ]

-- `pwrite(fd, d, length d, at)`, with whether it wrote all. A hole reads as zeros.
unfoldable pub padded : ℕ → List ℕ → List ℕ
padded at bytes = bytes ++ replicate (at - length bytes) 0

unfoldable pub write_all : AdSystem → ℕ → List ℕ → List ℕ → Bool × List ℕ
unfolding padded
write_all sys at d bytes = elim (sys.write_cut at) [
  | none ↦ (true, write_at at d (padded at bytes))
  | some n ↦ (false, write_at at (take n d) (padded at bytes))
]

-- `ftruncate(fd, n)`
unfoldable pub truncated : ℕ → List ℕ → List ℕ
unfolding padded
truncated n bytes = take n (padded n bytes)

-- What an entry does to the info that is read.
unfoldable pub store_entry : ℕ → AdEntry → AdInfo → Result AdInfo
store_entry size e info =
    if ltb size (e.offset + e.size)
    then err einval
    else if e.id == ad_finder_id
    then (if info.finder.offset == 0 then ok (record info { finder = e }) else err einval)
    else if e.id == ad_resource_id
    then (if info.resource.offset == 0 then ok (record info { resource = e }) else err einval)
    else ok info

unfoldable pub parse_entry : ℕ → List ℕ → AdEntry
parse_entry at bytes = record {
  id = be32_at bytes 0;
  offset = be32_at bytes 4;
  size = be32_at bytes 8;
  header_offset = at;
}

unfoldable pub read_entry : ℕ → ℕ → Option (List ℕ) → AdInfo → Result AdInfo
unfolding parse_entry store_entry
read_entry size at none info = err eio
read_entry size at (some bytes) info = store_entry size (parse_entry at bytes) info

abbrev pub then_read : Result AdInfo → (AdInfo → Result AdInfo) → Result AdInfo
then_read (ok info) next = next info
then_read (err e) next = err e

-- The loop over the entries from the `i`-th on.
unfoldable pub read_entries : AdSystem → List ℕ → ℕ → ℕ → AdInfo → Result AdInfo
unfolding read_entry read_all
read_entries sys bytes zero i info = ok info
read_entries sys bytes (suc left) i info =
    let at = ad_header_size + i * ad_entry_size in
    then_read (read_entry (length bytes) at (read_all sys bytes at ad_entry_size) info)
      (λ next. read_entries sys bytes left (i + 1) next)

unfoldable pub read_header : AdSystem → List ℕ → Option (List ℕ) → Result AdInfo
read_header sys bytes none = err eio
read_header sys bytes (some header) =
    let count = be16_at header 24 in
    if not (be32_at header 0 == ad_magic)
    then err einval
    else if not (be32_at header 4 == ad_version)
    then err einval
    else if count == 0 || ltb 32 count || sys.stat_fails
    then err einval
    else read_entries sys bytes count 0 no_info

-- `read_ad_info`
unfoldable pub read_ad_info : AdSystem → List ℕ → Result AdInfo
unfolding read_header
read_ad_info sys bytes = read_header sys bytes (read_all sys bytes 0 ad_header_size)
