-- ===== src/Metadata/Sidecar/Ops.antt =====
-- The operations on the Finder info and the resource fork in an AppleDouble file
-- (daemon/metadata.c).
use netatalk_client.Base.{
  ℕ, ◌+◌, ◌-◌, ◌^◌, ℤ, pos, negsuc, Bool, true, false, ◌&&◌, ◌||◌, not, Option, none, some, List,
  [], ◌∷◌, length, take, drop, ltb, leb, ◌==◌, if◌then◌else◌, to_be32,
}
use netatalk_client.Base.Errno.{Errno, eio, enoattr, efbig, Result, ok, err}
use netatalk_client.Metadata.Sidecar.{Opened, content, open_to_read, open_to_write}
use netatalk_client.Metadata.Sidecar.Info.{AdSystem, AdInfo, read_all, write_all, truncated}

abbrev pub uint32_max : ℕ
uint32_max = 2 ^ 32 - 1

unfoldable pub is_zeros : List ℕ → Bool
is_zeros [] = true
is_zeros (b ∷ bytes) = b == 0 && is_zeros bytes

unfoldable pub finder_value : Option (List ℕ) → Result (List ℕ)
finder_value none = err eio
finder_value (some value) = if is_zeros value then err enoattr else ok value

unfoldable pub finder_get_opened : AdSystem → Opened → Result (List ℕ)
unfolding finder_value
finder_get_opened sys (err e, file) = err e
finder_get_opened sys (ok info, file) =
    if info.finder.offset == 0 || ltb info.finder.size 32
    then err enoattr
    else finder_value (read_all sys (content file) info.finder.offset 32)

-- `ad_finder_get`
unfoldable pub ad_finder_get : AdSystem → Option (List ℕ) → Result (List ℕ)
unfolding finder_get_opened
ad_finder_get sys file = finder_get_opened sys (open_to_read sys file)

-- An operation that writes returns `none` for 0 or an error, and the file.
abbrev pub AdOutcome : Type 0
AdOutcome = Option Errno × Option (List ℕ)

abbrev pub finder_written : Bool × List ℕ → AdOutcome
finder_written (true, bytes) = (none, some bytes)
finder_written (false, bytes) = (some eio, some bytes)

unfoldable pub finder_set_opened : AdSystem → List ℕ → Opened → AdOutcome
unfolding write_all
finder_set_opened sys value (err e, file) = (some e, file)
finder_set_opened sys value (ok info, file) =
    if info.finder.offset == 0
    then (some eio, file)
    else finder_written (write_all sys info.finder.offset value (content file))

-- `ad_finder_set`
unfoldable pub ad_finder_set : AdSystem → Bool → List ℕ → Option (List ℕ) → AdOutcome
unfolding finder_set_opened
ad_finder_set sys netatalk value file =
    finder_set_opened sys value (open_to_write sys netatalk file)

unfoldable pub size_opened : Opened → Result ℕ
size_opened (err e, file) = err e
size_opened (ok info, file) = if info.resource.size == 0 then err enoattr else ok info.resource.size

-- `ad_resource_size`
unfoldable pub ad_resource_size : AdSystem → Option (List ℕ) → Result ℕ
unfolding size_opened
ad_resource_size sys file = size_opened (open_to_read sys file)

-- `pread` of at most `n` bytes. It reads fewer at the end of the file.
unfoldable pub read_some : AdSystem → List ℕ → ℕ → ℕ → Result (List ℕ)
read_some sys bytes at n = elim (sys.read_fails at) [
  | some e ↦ err e
  | none ↦ ok (take n (drop at bytes))
]

unfoldable pub read_opened : AdSystem → ℕ → ℤ → Opened → Result (List ℕ)
unfolding read_some
read_opened sys size offset (err e, file) = err e
read_opened sys size (negsuc n) (ok info, file) = ok []
read_opened sys size (pos offset) (ok info, file) =
    let available = info.resource.size - offset in
    if leb info.resource.size offset
    then ok []
    else read_some sys (content file) (info.resource.offset + offset)
        (if ltb available size then available else size)

-- `ad_resource_read`
unfoldable pub ad_resource_read : AdSystem → ℕ → ℤ → Option (List ℕ) → Result (List ℕ)
unfolding read_opened
ad_resource_read sys size offset file = read_opened sys size offset (open_to_read sys file)

-- The length that is put into the header.
unfoldable pub new_length : AdInfo → ℕ → ℕ → ℕ
new_length info size offset =
    let end = offset + size in
    if not (offset == 0) && ltb end info.resource.size then info.resource.size else end

abbrev pub length_written : Bool × List ℕ → AdOutcome
length_written (true, bytes) = (none, some bytes)
length_written (false, bytes) = (some eio, some bytes)

-- The length, behind the bytes of the fork.
abbrev pub put_length : AdSystem → AdInfo → ℕ → Bool × List ℕ → AdOutcome
put_length sys info n (false, bytes) = (some eio, some bytes)
put_length sys info n (true, bytes) =
    length_written (write_all sys (info.resource.header_offset + 8) (to_be32 n) bytes)

-- The bytes of the fork. No bytes are not written at all.
unfoldable pub put_bytes : AdSystem → AdInfo → List ℕ → ℕ → List ℕ → AdOutcome
unfolding write_all new_length
put_bytes sys info [] offset bytes = put_length sys info (new_length info 0 offset) (true, bytes)
put_bytes sys info (b ∷ buf) offset bytes =
    put_length sys info (new_length info (length (b ∷ buf)) offset)
      (write_all sys (info.resource.offset + offset) (b ∷ buf) bytes)

-- At offset 0 the old fork is cut off before.
unfoldable pub cut_and_put : AdSystem → AdInfo → List ℕ → ℕ → List ℕ → AdOutcome
unfolding put_bytes truncated
cut_and_put sys info buf offset bytes =
    if offset == 0
    then elim sys.truncate [
      | some e ↦ (some e, some bytes)
      | none ↦ put_bytes sys info buf offset (truncated info.resource.offset bytes)
    ]
    else put_bytes sys info buf offset bytes

unfoldable pub write_opened : AdSystem → List ℕ → ℤ → Opened → AdOutcome
unfolding cut_and_put
write_opened sys buf offset (err e, file) = (some e, file)
write_opened sys buf (negsuc n) (ok info, file) = (some efbig, file)
write_opened sys buf (pos offset) (ok info, file) =
    if info.resource.offset == 0 || ltb uint32_max offset || ltb (uint32_max - offset) (length buf)
    then (some efbig, file)
    else cut_and_put sys info buf offset (content file)

-- `ad_resource_write`
unfoldable pub ad_resource_write : AdSystem → Bool → List ℕ → ℤ → Option (List ℕ) → AdOutcome
unfolding write_opened
ad_resource_write sys netatalk buf offset file =
    write_opened sys buf offset (open_to_write sys netatalk file)
