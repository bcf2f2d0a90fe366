-- ===== src/Metadata/Sidecar.antt =====
-- AppleDouble files beside a file, with its Finder info and resource fork (daemon/metadata.c):
-- `initialize_ad` and `open_ad`. Sidecar/Info has the header and `read_ad_info`, Sidecar/Ops the
-- operations from `ad_finder_get` to `ad_resource_write`.
-- A file is the list of its bytes, `none` where there is none. What the system answers is the
-- argument `sys`; a file that is opened is closed again, whatever happens.
pub mod Info
pub mod Ops
pub mod Table
pub mod Layout
pub mod Updates
pub mod Opening
pub mod Writing
pub mod Runs
pub mod Loss
mod Tests
use netatalk_client.Base.{
  ℕ, zero, suc, ◌+◌, ◌-◌, ◌*◌, ◌^◌, min, ℤ, pos, negsuc, Bool, true, false, not, ◌&&◌, ◌||◌, Option,
  none, some, List, [], ◌∷◌, ◌++◌, length, take, drop, replicate, write_at, slice?, ltb, leb, ◌==◌,
  if◌then◌else◌, codes, to_be16, to_be32, be16_at, be32_at,
}
use netatalk_client.Base.Errno.{
  Errno, einval, eio, enoattr, enomem, efbig, other_errno, Result, ok, err,
}
use netatalk_client.Metadata.Sidecar.Info.{
  ad_magic, ad_version, ad_header_size, ad_entry_size, ad_finder_id, ad_resource_id, AdInfo,
  AdSystem, enoent, write_all, truncated, read_ad_info,
}

-- `put_u32(p, value)` and `put_u16(p, value)` at an offset of a buffer.
unfoldable pub put_u32 : ℕ → ℕ → List ℕ → List ℕ
put_u32 at value buf = write_at at (to_be32 value) buf

unfoldable pub put_u16 : ℕ → ℕ → List ℕ → List ℕ
put_u16 at value buf = write_at at (to_be16 value) buf

abbrev pub netatalk_entries : List (ℕ × ℕ × ℕ)
netatalk_entries =
    (2, 741, 0)
    ∷ (3, 182, 0)
    ∷ (4, 437, 200)
    ∷ (8, 637, 16)
    ∷ (9, 653, 32)
    ∷ (11, 705, 8)
    ∷ (13, 693, 0)
    ∷ (14, 689, 4)
    ∷ (15, 685, 4)
    ∷ (0x80444556, 713, 8)
    ∷ (0x80494e4f, 721, 8)
    ∷ (0x8053594e, 729, 8)
    ∷ (0x8053567e, 737, 4)
    ∷ []

unfoldable pub put_entries : ℕ → List (ℕ × ℕ × ℕ) → List ℕ → List ℕ
unfolding put_u32
put_entries at [] buf = buf
put_entries at ((id, offset, size) ∷ entries) buf =
    put_entries (at + ad_entry_size) entries
      (put_u32 (at + 8) size (put_u32 (at + 4) offset (put_u32 at id buf)))

abbrev pub data_offset : Bool → ℕ
data_offset netatalk = if netatalk then 741 else 82

-- The bytes that `initialize_ad` writes.
unfoldable pub initial_header : Bool → List ℕ
unfolding put_u32 put_u16 put_entries
initial_header true = put_entries ad_header_size netatalk_entries (
    put_u16 24 13 (
      write_at 8 (codes "Netatalk        ")
        (put_u32 4 ad_version (put_u32 0 ad_magic (replicate 741 0)))))
initial_header false = put_u32 42 82 (
    put_u32 38 ad_resource_id (
      put_u32 34 32 (
        put_u32 30 50 (
          put_u32 26 ad_finder_id
            (put_u16 24 2 (put_u32 4 ad_version (put_u32 0 ad_magic (replicate 82 0))))))))

-- An operation returns `none` for 0 or an error, and the file.
abbrev pub written : Errno → Bool × List ℕ → Option Errno × List ℕ
written e (true, bytes) = (none, bytes)
written e (false, bytes) = (some e, bytes)

-- `initialize_ad`
unfoldable pub initialize_ad : AdSystem → Bool → List ℕ → Option Errno × List ℕ
unfolding write_all truncated
initialize_ad sys netatalk bytes =
    if not sys.memory then (some enomem, bytes) else elim sys.truncate [
      | some e ↦ (some e, bytes)
      | none ↦
          written eio
            (write_all sys 0 (initial_header netatalk) (truncated (data_offset netatalk) bytes))
    ]

-- `sidecar_open_error`
unfoldable pub is_enoent : Errno → Bool
is_enoent (other_errno n) = n == enoent
is_enoent e = false

unfoldable pub sidecar_open_error : Errno → Option Errno → Errno
sidecar_open_error e stat_owner =
    if not (is_enoent e) then e else elim stat_owner [ none ↦ enoattr | some error ↦ error ]

-- The info of a file that is open, or why there is none, and the file.
abbrev pub Opened : Type 0
Opened = Result AdInfo × Option (List ℕ)

abbrev reread : AdSystem → Option Errno × List ℕ → Opened
reread sys (none, bytes) = (read_ad_info sys bytes, some bytes)
reread sys (some e, bytes) = (err e, some bytes)

-- Where the info cannot be read from a file that is to be written, it is begun anew.
unfoldable pub begin_anew : AdSystem → Bool → List ℕ → Result AdInfo → Opened
begin_anew sys netatalk bytes (ok info) = (ok info, some bytes)
begin_anew sys netatalk bytes (err e) = reread sys (initialize_ad sys netatalk bytes)

abbrev pub content : Option (List ℕ) → List ℕ
content none = []
content (some bytes) = bytes

-- `open_ad` for reading, and for writing.
unfoldable pub open_to_read : AdSystem → Option (List ℕ) → Opened
unfolding sidecar_open_error
open_to_read sys file = elim sys.sidecar_path [
  | some e ↦ (err e, file)
  | none ↦ elim sys.open_file [
    | some e ↦ (err (sidecar_open_error e sys.stat_owner), file)
    | none ↦ elim file [
      | none ↦ (err (sidecar_open_error (other_errno enoent) sys.stat_owner), none)
      | some bytes ↦ (read_ad_info sys bytes, some bytes)
    ]
  ]
]

unfoldable pub open_to_write : AdSystem → Bool → Option (List ℕ) → Opened
unfolding begin_anew
open_to_write sys netatalk file = elim sys.sidecar_path [
  | some e ↦ (err e, file)
  | none ↦ elim sys.sidecar_dir [
    | some e ↦ (err e, file)
    | none ↦ elim sys.sidecar_mode [
      | some e ↦ (err e, file)
      | none ↦ elim sys.open_file [
        | some e ↦ (err e, file)
        | none ↦ begin_anew sys netatalk (content file) (read_ad_info sys (content file))
      ]
    ]
  ]
]
