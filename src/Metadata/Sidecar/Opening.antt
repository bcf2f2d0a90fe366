-- ===== src/Metadata/Sidecar/Opening.antt =====
-- Opening an AppleDouble file that is kept by daemon/metadata.c, or that there is not yet, and one
-- operation on it.
use netatalk_client.Base.{
  ℕ, ◌+◌, ◌≡◌, ◌≤◌, refl, ap, ◌∙◌, Bool, true, false, Option, none, some, List, [], ◌++◌, arith,
  length, replicate, slice?, write_at, ◌==◌, if◌then◌else◌, IsU32, drop_past,
}
use mathlib.Core.List.{append-nil}
use native.Mathlib.Nat.{add-zero}
use netatalk_client.Base.Errno.{Errno, eio, Result, ok, err}
use netatalk_client.Metadata.Sidecar.{
  data_offset, initialize_ad, initial_header, begin_anew, open_to_read, open_to_write,
}
use netatalk_client.Metadata.Sidecar.Info.{
  AdInfo, AdSystem, read_ad_info, read_header, write_all, padded, truncated,
}
use netatalk_client.Metadata.Sidecar.Ops.{finder_written, finder_set_opened, ad_finder_set}
use netatalk_client.Metadata.Sidecar.Layout.{info_of}
use netatalk_client.Metadata.Sidecar.Table.{
  IsFaultless, file_of, finder_offset, initial_header-file_of, read_all_slice,
}
use netatalk_client.Metadata.Sidecar.Updates.{
  length-image, read_ad_info-image, write_all-finder, length-padded, length-truncated,
}

-- The Finder info and the resource fork of a file, `none` where it has no AppleDouble file.
abbrev pub Attributes : Type 0
Attributes = List ℕ × List ℕ

abbrev pub contents : Option Attributes → Attributes
contents none = (replicate 32 0, [])
contents (some p) = p

abbrev pub stored : Bool → Option Attributes → Option (List ℕ)
stored k none = none
stored k (some (f, r)) = some (file_of k f r)

-- A Finder info of 32 bytes, and a fork whose length 32 bits hold.
abbrev pub IsStorable : Attributes → Type 0
IsStorable (f, r) = (length f ≡ 32) × IsU32 (length r)

-- The fork after a write.
unfoldable pub overwritten : ℕ → List ℕ → List ℕ → List ℕ
overwritten offset buf r = if offset == 0 then buf else write_at offset buf (padded offset r)

abbrev attributes_file : Bool → Attributes → List ℕ
attributes_file k (f, r) = file_of k f r

-- The system answers every call with success.
abbrev pub all_well : AdSystem
all_well = record {
  sidecar_path = none;
  sidecar_dir = none;
  sidecar_mode = none;
  open_file = none;
  stat_owner = none;
  read_fails = λ at. none;
  stat_fails = false;
  memory = true;
  truncate = none;
  write_cut = λ at. none;
}

abbrev pub well : IsFaultless all_well
well = record {
  sidecar_path = refl;
  sidecar_dir = refl;
  sidecar_mode = refl;
  open_file = refl;
  read_fails = λ at. refl;
  stat_fails = refl;
  memory = refl;
  truncate = refl;
  write_cut = λ at. refl;
}

module _ (k : Bool) where
  pub read_kept :
      (p : Attributes)
      → IsStorable p
      → read_ad_info all_well (attributes_file k p) ≡ ok (info_of k (length p.1))
  read_kept (f, r) (hf, hr) = read_ad_info-image all_well well k (length r) f r hf hr (omega arith)

  pub initialize_ad-file_of :
      (bytes : List ℕ) → initialize_ad all_well k bytes ≡ (none, file_of k (replicate 32 0) [])
  unfolding initialize_ad write_all
  initialize_ad-file_of bytes =
      ap (λ b. (none, initial_header k ++ b))
        (drop_past (0 + length (initial_header k)) (padded 0 (truncated (data_offset k) bytes))
          short)
      ∙ ap (λ b. (none, b)) (append-nil (initial_header k) ∙ initial_header-file_of k)
    where
      header_length : length (initial_header k) ≡ data_offset k
      header_length =
          ap length (initial_header-file_of k)
          ∙ length-image k 0 (replicate 32 0) [] refl
          ∙ add-zero (data_offset k)

      short : length (padded 0 (truncated (data_offset k) bytes)) ≤ 0 + length (initial_header k)
      short = omega (
        arith,
        length-padded 0 (truncated (data_offset k) bytes),
        length-truncated (data_offset k) bytes,
        header_length,
      )

  read_nothing : read_ad_info all_well [] ≡ err eio
  unfolding read_ad_info read_header slice?
  read_nothing = ap (read_header all_well []) (read_all_slice all_well well [] 0 26)

  pub begin_anew-file_of :
      (bytes : List ℕ) (e : Errno)
      → begin_anew all_well k bytes (err e)
        ≡ (ok (info_of k 0), some (file_of k (replicate 32 0) []))
  unfolding begin_anew
  begin_anew-file_of bytes e =
      rw (initialize_ad-file_of bytes) (rw (read_kept (replicate 32 0, []) (omega arith)) refl)

  pub open_to_write-stored :
      (s : Option Attributes)
      → IsStorable (contents s)
      → open_to_write all_well k (stored k s)
        ≡ (ok (info_of k (length (contents s).1)), some (attributes_file k (contents s)))
  unfolding open_to_write begin_anew
  open_to_write-stored none h =
      ap (begin_anew all_well k []) read_nothing ∙ begin_anew-file_of [] eio
  open_to_write-stored (some p) h = ap (begin_anew all_well k (attributes_file k p)) (read_kept p h)

  pub open_to_read-stored :
      (p : Attributes)
      → IsStorable p
      → open_to_read all_well (stored k (some p))
        ≡ (ok (info_of k (length p.1)), some (attributes_file k p))
  unfolding open_to_read
  open_to_read-stored p h =
      ap (λ (r : Result AdInfo). (r, some (attributes_file k p))) (read_kept p h)

  pub offset_given : (data_offset k == 0) ≡ false
  offset_given = ground arith

  pub finder_given : (finder_offset k == 0) ≡ false
  finder_given = ground arith

  pub finder_set_opened-file_of :
      (v f r : List ℕ)
      → length f ≡ 32
      → length v ≡ 32
      → finder_set_opened all_well v (ok (info_of k (length r)), some (file_of k f r))
        ≡ (none, some (file_of k v r))
  unfolding finder_set_opened
  finder_set_opened-file_of v f r hf hv =
      rw finder_given (ap finder_written (write_all-finder all_well well k (length r) v f r hf hv))

  pub ad_finder_set-stored :
      (v : List ℕ) (s : Option Attributes)
      → length v ≡ 32
      → IsStorable (contents s)
      → ad_finder_set all_well k v (stored k s) ≡ (none, stored k (some (v, (contents s).1)))
  unfolding ad_finder_set
  ad_finder_set-stored v s hv h =
      ap (finder_set_opened all_well v) (open_to_write-stored s h)
      ∙ finder_set_opened-file_of v (contents s).0 (contents s).1 h.0 hv
