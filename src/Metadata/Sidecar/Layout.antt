-- ===== src/Metadata/Sidecar/Layout.antt =====
-- The AppleDouble files that daemon/metadata.c itself keeps: what stands where in them, and how
-- `read_ad_info` finds it.
use netatalk_client.Base.{
  ℕ, ◌+◌, ◌≡◌, ◌<◌, ◌≤◌, refl, ap, ◌∙◌, Bool, true, false, some, List, ◌++◌, arith, length,
  if◌then◌else◌, to_be16, to_be32, be16_at, be32_at, IsU32, slice?-front, All,
}
use netatalk_client.Base.Errno.{einval, ok, err}
use netatalk_client.Metadata.Sidecar.{data_offset}
use netatalk_client.Metadata.Sidecar.Info.{
  AdInfo, no_info, AdSystem, read_all, store_entry, read_entries, read_header, read_ad_info,
}
use netatalk_client.Metadata.Sidecar.Table.{
  IsFaultless, table_bytes, first_bytes, table, store_table, IsEntry, read_all_slice,
  read_entries-table, finder_offset, resource_entry,
}

-- What is read of a file with the fork's length `n` in its table.
abbrev pub info_of : Bool → ℕ → AdInfo
info_of k n = record {
  finder = record {
    id = 9;
    offset = finder_offset k;
    size = 32;
    header_offset = if k then 74 else 26;
  };
  resource = record { id = 2; offset = data_offset k; size = n; header_offset = resource_entry k };
}

pub store_table_kept :
    (k : Bool) (n size : ℕ)
    → data_offset k + n ≤ size
    → store_table size (table k n) 26 no_info ≡ ok (info_of k n)
unfolding store_entry
store_table_kept true n size h = ground arith
store_table_kept false n size h = ground arith

store_table_refused :
    (k : Bool) (n size : ℕ)
    → data_offset k ≤ size
    → size < data_offset k + n
    → store_table size (table k n) 26 no_info ≡ err einval
unfolding store_entry
store_table_refused true n size le h = ground arith
store_table_refused false n size le h = ground arith

module _ (sys : AdSystem) (faultless : IsFaultless sys) where
  -- The header and table with the length `n`, whatever stands behind it.
  abbrev with_table : Bool → ℕ → List ℕ → List ℕ
  with_table k n back = first_bytes k ++ (table_bytes (table k n) ++ back)

  read_first :
      (k : Bool) (back : List ℕ) → read_all sys (first_bytes k ++ back) 0 26 ≡ some (first_bytes k)
  unfolding to_be32 to_be16
  read_first true back =
      read_all_slice sys faultless (first_bytes true ++ back) 0 26
      ∙ slice?-front 26 (first_bytes true) back (omega arith)
  read_first false back =
      read_all_slice sys faultless (first_bytes false ++ back) 0 26
      ∙ slice?-front 26 (first_bytes false) back (omega arith)

  read_header-first :
      (k : Bool) (n : ℕ) (bytes : List ℕ)
      → read_header sys bytes (some (first_bytes k))
        ≡ read_entries sys bytes (length (table k n)) 0 no_info
  unfolding read_header be16_at be32_at to_be16 to_be32
  read_header-first true n bytes = rw (faultless.stat_fails) refl
  read_header-first false n bytes = rw (faultless.stat_fails) refl

  table-IsEntry : (k : Bool) (n : ℕ) → IsU32 n → All IsEntry (table k n)
  table-IsEntry true n h = omega arith
  table-IsEntry false n h = omega arith

  length-first_bytes : (k : Bool) → length (first_bytes k) ≡ 26
  length-first_bytes true = unfold to_be16 in unfold to_be32 in refl
  length-first_bytes false = unfold to_be16 in unfold to_be32 in refl

  read_ad_info-store_table :
      (k : Bool) (n : ℕ) (back : List ℕ)
      → IsU32 n
      → read_ad_info sys (with_table k n back)
        ≡ store_table (length (with_table k n back)) (table k n) 26 no_info
  unfolding read_ad_info
  read_ad_info-store_table k n back h =
      ap (read_header sys (with_table k n back)) (read_first k (table_bytes (table k n) ++ back))
      ∙ read_header-first k n (with_table k n back)
      ∙ read_entries-table sys faultless (first_bytes k) (table k n) back 0 no_info
          (omega (arith, length-first_bytes k)) (table-IsEntry k n h)

  pub read_ad_info-table :
      (k : Bool) (n : ℕ) (back : List ℕ)
      → IsU32 n
      → data_offset k + n ≤ length (with_table k n back)
      → read_ad_info sys (with_table k n back) ≡ ok (info_of k n)
  read_ad_info-table k n back h lt =
      read_ad_info-store_table k n back h ∙ store_table_kept k n (length (with_table k n back)) lt

  -- A fork that would go past the end of the file.
  pub read_ad_info_refused :
      (k : Bool) (n : ℕ) (back : List ℕ)
      → IsU32 n
      → data_offset k ≤ length (with_table k n back)
      → length (with_table k n back) < data_offset k + n
      → read_ad_info sys (with_table k n back) ≡ err einval
  read_ad_info_refused k n back h le lt =
      read_ad_info-store_table k n back h
      ∙ store_table_refused k n (length (with_table k n back)) le lt
