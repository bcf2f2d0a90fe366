-- ===== src/Metadata/Sidecar/Writing.antt =====
-- A write to the resource fork in an AppleDouble file that is kept by daemon/metadata.c.
use netatalk_client.Base.{
  ℕ, ◌+◌, ◌-◌, ◌^◌, ◌≡◌, ◌≢◌, ◌<◌, ◌≤◌, refl, ap, sym, ◌∙◌, Bool, true, Option, none, some, List,
  [], ◌∷◌, ◌++◌, arith, length, take, drop, write_at, ◌==◌, ==_ne, if◌then◌else◌, Bool-cases,
  ==_iff, pos, inl, inr, ◌⊎◌, max, drop_nil, length-write_at, take-append-drop, le→ltb_false,
}
use mathlib.Core.List.{append-nil}
use native.Mathlib.Nat.{zero-add, add-zero}
use netatalk_client.Base.Errno.{ok}
use netatalk_client.Metadata.Sidecar.{data_offset}
use netatalk_client.Metadata.Sidecar.Info.{write_all, padded, truncated}
use netatalk_client.Metadata.Sidecar.Ops.{
  put_length, length_written, put_bytes, cut_and_put, write_opened, new_length, ad_resource_write,
  uint32_max,
}
use netatalk_client.Metadata.Sidecar.Layout.{info_of}
use netatalk_client.Metadata.Sidecar.Table.{image, file_of}
use netatalk_client.Metadata.Sidecar.Updates.{
  write_all-length, write_all-fork, truncated-image, padded_inside, length-padded,
}
use netatalk_client.Metadata.Sidecar.Opening.{
  Attributes, contents, stored, IsStorable, overwritten, all_well, well, open_to_write-stored,
  offset_given,
}

module _ (k : Bool) (n : ℕ) (f r : List ℕ) (hf : length f ≡ 32) where
  -- The length behind the bytes.
  put_length-image :
      (m : ℕ) (bytes : Bool × List ℕ)
      → bytes ≡ (true, image k n f r)
      → put_length all_well (info_of k n) m bytes ≡ (none, some (image k m f r))
  put_length-image m bytes e =
      ap (put_length all_well (info_of k n) m) e
      ∙ ap length_written (write_all-length all_well well k n m f r hf)

pub put_bytes_empty :
    (k : Bool) (n offset : ℕ) (f r : List ℕ)
    → length f ≡ 32
    → put_bytes all_well (info_of k n) [] offset (image k n f r)
      ≡ (none, some (image k (new_length (info_of k n) 0 offset) f r))
unfolding put_bytes
put_bytes_empty k n offset f r hf =
    put_length-image k n f r hf (new_length (info_of k n) 0 offset) (true, image k n f r) refl

pub put_bytes-image :
    (k : Bool) (n : ℕ) (buf : List ℕ) (offset : ℕ) (f r : List ℕ)
    → length f ≡ 32
    → 0 < length buf ⊎ offset ≤ length r
    → put_bytes all_well (info_of k n) buf offset (image k n f r) ≡ (
      none,
      some (
          image k
            (new_length (info_of k n) (length buf) offset)
            f
            (write_at offset buf (padded offset r))),
    )
put_bytes-image k n [] offset f r hf (inl h) = elim h [ ]
put_bytes-image k n [] offset f r hf (inr h) =
    put_bytes_empty k n offset f r hf
    ∙ ap (λ b. (none, some (image k (new_length (info_of k n) 0 offset) f b))) (sym unchanged)
  where
    unchanged : write_at offset [] (padded offset r) ≡ r
    unchanged =
        ap (λ (i : ℕ). take offset (padded offset r) ++ drop i (padded offset r)) (add-zero offset)
        ∙ take-append-drop offset (padded offset r)
        ∙ padded_inside offset r h
put_bytes-image k n (b ∷ buf) offset f r hf h =
    unfold put_bytes in
    put_length-image k n f (write_at offset (b ∷ buf) (padded offset r)) hf
      (new_length (info_of k n) (length (b ∷ buf)) offset)
      (write_all all_well (data_offset k + offset) (b ∷ buf) (image k n f r))
      (write_all-fork all_well well k n offset (b ∷ buf) f r hf)

new_length-write_at :
    (k : Bool) (offset : ℕ) (buf r : List ℕ)
    → offset ≢ 0
    → new_length (info_of k (length r)) (length buf) offset
      ≡ length (write_at offset buf (padded offset r))
unfolding new_length
new_length-write_at k offset buf r h =
    ground (arith, length-write_at offset buf (padded offset r), length-padded offset r)

put_bytes_front :
    (k : Bool) (buf f r : List ℕ)
    → length f ≡ 32
    → put_bytes all_well (info_of k (length r)) buf 0 (truncated (data_offset k) (file_of k f r))
      ≡ (none, some (file_of k f buf))
put_bytes_front k buf f r hf =
    ap (put_bytes all_well (info_of k (length r)) buf 0) (truncated-image k (length r) f r hf)
    ∙ put_bytes-image k (length r) buf 0 f [] hf (inr (omega arith))
    ∙ ap (λ (m : ℕ). (none, some (image k m f (write_at 0 buf (padded 0 []))))) at_zero
    ∙ ap (λ b. (none, some (image k (length buf) f b))) whole
  where
    at_zero : new_length (info_of k (length r)) (length buf) 0 ≡ length buf
    at_zero = unfold new_length in zero-add (length buf)

    whole : write_at 0 buf (padded 0 []) ≡ buf
    whole = unfold padded in (ap (λ b. buf ++ b) (drop_nil (0 + length buf)) ∙ append-nil buf)

-- The file of a fork that was written.
cut_and_put-file_of :
    (k : Bool) (buf : List ℕ) (offset : ℕ) (f r : List ℕ)
    → length f ≡ 32
    → (0 < length buf) ⊎ (offset ≤ length r)
    → cut_and_put all_well (info_of k (length r)) buf offset (file_of k f r)
      ≡ (none, some (file_of k f (overwritten offset buf r)))
unfolding cut_and_put overwritten
cut_and_put-file_of k buf offset f r hf h = elim (Bool-cases (offset == 0)) [
  | inl z ↦ rw z (rw ((==_iff offset 0).0 z) (put_bytes_front k buf f r hf))
  | inr z ↦ rw z (
      put_bytes-image k (length r) buf offset f r hf h
      ∙ ap (λ (m : ℕ). (none, some (image k m f (write_at offset buf (padded offset r)))))
          (new_length-write_at k offset buf r (ground arith)))
]

-- A call that keeps what is stored: the length fits into 32 bits, and no empty write goes past the end.
abbrev pub IsWrite : List ℕ → ℕ → List ℕ → Type 0
IsWrite buf offset r = (offset + length buf < 2 ^ 32) × ((0 < length buf) ⊎ (offset ≤ length r))

pub write_opened_small :
    (k : Bool) (buf : List ℕ) (offset n : ℕ) (bytes : List ℕ)
    → offset + length buf < 2 ^ 32
    → write_opened all_well buf (pos offset) (ok (info_of k n), some bytes)
      ≡ cut_and_put all_well (info_of k n) buf offset bytes
unfolding write_opened
write_opened_small k buf offset n bytes small =
    rw
      (
        offset_given k,
        le→ltb_false uint32_max offset (omega arith),
        le→ltb_false (uint32_max - offset) (length buf) (omega arith),
      )
      refl

pub cut_and_put_behind :
    (k : Bool) (buf : List ℕ) (offset n : ℕ) (bytes : List ℕ)
    → offset ≢ 0
    → cut_and_put all_well (info_of k n) buf offset bytes
      ≡ put_bytes all_well (info_of k n) buf offset bytes
unfolding cut_and_put
cut_and_put_behind k buf offset n bytes h = rw (==_ne offset 0 h) refl

pub ad_resource_write-stored :
    (k : Bool) (buf : List ℕ) (offset : ℕ) (s : Option Attributes)
    → IsStorable (contents s)
    → IsWrite buf offset (contents s).1
    → ad_resource_write all_well k buf (pos offset) (stored k s)
      ≡ (none, stored k (some ((contents s).0, overwritten offset buf (contents s).1)))
unfolding ad_resource_write
ad_resource_write-stored k buf offset s h w =
    ap (write_opened all_well buf (pos offset)) (open_to_write-stored k s h)
    ∙ write_opened_small k buf offset (length (contents s).1)
        (file_of k (contents s).0 (contents s).1) w.0
    ∙ cut_and_put-file_of k buf offset (contents s).0 (contents s).1 h.0 w.1

pub length-overwritten :
    (offset : ℕ) (buf r : List ℕ)
    → length (overwritten offset buf r)
      ≡ (if offset == 0 then length buf else max (max (length r) offset) (offset + length buf))
unfolding overwritten
length-overwritten offset buf r = elim (Bool-cases (offset == 0)) [
  | inl z ↦ rw z refl
  | inr z ↦
      rw z (omega (arith, length-write_at offset buf (padded offset r), length-padded offset r))
]
