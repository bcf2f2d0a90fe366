-- ===== src/Metadata/Sidecar/Loss.antt =====
-- An empty write behind the end of the resource fork (daemon/metadata.c).
use netatalk_client.Base.{
  ℕ, ◌^◌, ◌≡◌, ◌<◌, refl, ap, ◌∙◌, Bool, Option, none, some, List, [], arith, length, replicate,
  pos,
}
use netatalk_client.Base.Errno.{Result, err}
use netatalk_client.Metadata.Sidecar.{begin_anew, open_to_read, open_to_write}
use netatalk_client.Metadata.Sidecar.Info.{AdInfo}
use netatalk_client.Metadata.Sidecar.Ops.{
  write_opened, new_length, ad_resource_write, finder_set_opened, ad_finder_set,
}
use netatalk_client.Metadata.Sidecar.Layout.{info_of}
use netatalk_client.Metadata.Sidecar.Table.{image, file_of}
use netatalk_client.Metadata.Sidecar.Opening.{
  stored, IsStorable, all_well, well, open_to_write-stored,
}
use netatalk_client.Metadata.Sidecar.Updates.{read_ad_info-image_past}
use netatalk_client.Metadata.Sidecar.Writing.{
  put_bytes_empty, write_opened_small, cut_and_put_behind,
}
use netatalk_client.Metadata.Sidecar.Ops.{
  ad_finder_get, finder_get_opened, ad_resource_size, size_opened,
}
use netatalk_client.Metadata.Sidecar.Opening.{begin_anew-file_of, finder_set_opened-file_of}
use netatalk_client.Base.Errno.{einval}

module _ (k : Bool) (f r : List ℕ) (offset : ℕ) (h : IsStorable (f, r)) (past : length r < offset)
    (small : offset < 2 ^ 32) where
  new_length-past : new_length (info_of k (length r)) 0 offset ≡ offset
  unfolding new_length
  new_length-past = ground arith

  empty_write :
      ad_resource_write all_well k [] (pos offset) (stored k (some (f, r)))
      ≡ (none, some (image k offset f r))
  unfolding ad_resource_write
  empty_write =
      ap (write_opened all_well [] (pos offset)) (open_to_write-stored k (some (f, r)) h)
      ∙ write_opened_small k [] offset (length r) (file_of k f r) (omega arith)
      ∙ cut_and_put_behind k [] offset (length r) (file_of k f r) (omega arith)
      ∙ put_bytes_empty k (length r) offset f r h.0
      ∙ ap (λ (m : ℕ). (none, some (image k m f r))) new_length-past

  opened_past :
      open_to_read all_well (some (image k offset f r)) ≡ (err einval, some (image k offset f r))
  unfolding open_to_read
  opened_past =
      ap (λ (i : Result AdInfo). (i, some (image k offset f r)))
        (read_ad_info-image_past all_well well k offset f r h.0 small past)

  finder_set_anew :
      (v : List ℕ)
      → length v ≡ 32
      → ad_finder_set all_well k v (some (image k offset f r)) ≡ (none, stored k (some (v, [])))
  unfolding ad_finder_set open_to_write
  finder_set_anew v hv =
      ap (λ i. finder_set_opened all_well v (begin_anew all_well k (image k offset f r) i))
        (read_ad_info-image_past all_well well k offset f r h.0 small past)
      ∙ ap (finder_set_opened all_well v) (begin_anew-file_of k (image k offset f r) einval)
      ∙ finder_set_opened-file_of k v (replicate 32 0) [] refl hv

  -- A write of no bytes behind the end of the resource fork succeeds and puts its offset as the
  -- fork's length. From then on neither the Finder info nor the fork can be read, and the next
  -- `ad_finder_set` begins the file anew, so that the fork is lost.
  pub empty_write_past :
      (v : List ℕ)
      → length v ≡ 32
      → (file : Option (List ℕ)) × (ad_resource_write all_well k []
            (pos offset)
            (stored k (some (f, r)))
          ≡ (none, file))
        × (ad_finder_get all_well file ≡ err einval)
        × (ad_resource_size all_well file ≡ err einval)
        × (ad_finder_set all_well k v file ≡ (none, stored k (some (v, []))))
  unfolding ad_finder_get finder_get_opened ad_resource_size size_opened
  empty_write_past v hv = (
    some (image k offset f r),
    empty_write,
    ap (finder_get_opened all_well) opened_past,
    ap size_opened opened_past,
    finder_set_anew v hv,
  )
