-- ===== src/Metadata/Sidecar/Table.antt =====
-- The table of an AppleDouble file that daemon/metadata.c keeps, and how its entries are read.
use netatalk_client.Base.{
  ℕ, ◌+◌, ◌*◌, ◌≡◌, refl, ap, sym, ◌∙◌, Bool, true, false, none, some, List, [], ◌∷◌, ◌++◌, arith,
  length, drop, replicate, slice?, if◌then◌else◌, codes, to_be16, to_be32, be32_at, IsU32,
  length-append, slice?-here, All,
}
use mathlib.Core.List.{append_assoc}
use netatalk_client.Base.Errno.{Result, ok, err}
use netatalk_client.Metadata.Sidecar.{
  put_u32, put_u16, put_entries, initial_header, netatalk_entries,
}
use netatalk_client.Metadata.Sidecar.Info.{
  AdEntry, AdInfo, AdSystem, read_all, store_entry, parse_entry, read_entry, then_read,
  read_entries, ad_magic, ad_version,
}

-- The system answers every call with success.
pub record IsFaultless (sys : AdSystem) : Type 0 where
  pub sidecar_path : sys.sidecar_path ≡ none
  pub sidecar_dir : sys.sidecar_dir ≡ none
  pub sidecar_mode : sys.sidecar_mode ≡ none
  pub open_file : sys.open_file ≡ none
  pub read_fails : (at : ℕ) → sys.read_fails at ≡ none
  pub stat_fails : sys.stat_fails ≡ false
  pub memory : sys.memory ≡ true
  pub truncate : sys.truncate ≡ none
  pub write_cut : (at : ℕ) → sys.write_cut at ≡ none

abbrev pub Triple : Type 0
Triple = ℕ × ℕ × ℕ

abbrev pub entry_bytes : Triple → List ℕ
entry_bytes (id, offset, size) = to_be32 id ++ (to_be32 offset ++ to_be32 size)

abbrev pub table_bytes : List Triple → List ℕ
table_bytes [] = []
table_bytes (e ∷ entries) = entry_bytes e ++ table_bytes entries

-- The first 26 bytes, the table with the length of the fork, and the zeros behind it.
abbrev pub first_bytes : Bool → List ℕ
first_bytes true =
    to_be32 ad_magic ++ (to_be32 ad_version ++ (codes "Netatalk        " ++ to_be16 13))
first_bytes false = to_be32 ad_magic ++ (to_be32 ad_version ++ (replicate 16 0 ++ to_be16 2))

abbrev pub table : Bool → ℕ → List Triple
table true n = (2, 741, n) ∷ drop 1 netatalk_entries
table false n = (9, 50, 32) ∷ (2, 82, n) ∷ []

abbrev pub gap : Bool → List ℕ
gap true = replicate 471 0
gap false = []

abbrev pub tail_gap : Bool → List ℕ
tail_gap true = replicate 56 0
tail_gap false = []

-- A file with the Finder info `f` and the resource fork `r`, and `n` for the fork's length.
abbrev pub image : Bool → ℕ → List ℕ → List ℕ → List ℕ
image k n f r = first_bytes k ++ (table_bytes (table k n) ++ (gap k ++ (f ++ (tail_gap k ++ r))))

abbrev pub file_of : Bool → List ℕ → List ℕ → List ℕ
file_of k f r = image k (length r) f r

pub initial_header-file_of : (k : Bool) → initial_header k ≡ file_of k (replicate 32 0) []
unfolding initial_header put_u32 put_u16 put_entries to_be32 to_be16
initial_header-file_of true = refl
initial_header-file_of false = refl

-- What the reader makes of a table.
abbrev entry_of : Triple → ℕ → AdEntry
entry_of (id, offset, size) at = record {
  id = id;
  offset = offset;
  size = size;
  header_offset = at;
}

abbrev pub store_table : ℕ → List Triple → ℕ → AdInfo → Result AdInfo
store_table size [] at info = ok info
store_table size (e ∷ entries) at info =
    then_read (store_entry size (entry_of e at) info)
      (λ next. store_table size entries (at + 12) next)

abbrev pub IsEntry : Triple → Type 0
IsEntry (id, offset, size) = IsU32 id × IsU32 offset × IsU32 size

parse_entry-entry_bytes :
    (e : Triple) (at : ℕ) → IsEntry e → parse_entry at (entry_bytes e) ≡ entry_of e at
unfolding parse_entry to_be32 be32_at
parse_entry-entry_bytes (id, offset, size) at (hi, ho, hs) = ground arith

then_read_same :
    (r : Result AdInfo) (f g : AdInfo → Result AdInfo)
    → ((x : AdInfo) → f x ≡ g x)
    → then_read r f ≡ then_read r g
then_read_same (ok x) f g h = h x
then_read_same (err e) f g h = refl

module _ (sys : AdSystem) (faultless : IsFaultless sys) where
  pub read_all_slice : (bytes : List ℕ) (at n : ℕ) → read_all sys bytes at n ≡ slice? bytes at n
  unfolding read_all
  read_all_slice bytes at n = rw (faultless.read_fails at, read_all) refl

  read_all-entry :
      (front : List ℕ) (t : Triple) (back : List ℕ) (at : ℕ)
      → length front ≡ at
      → read_all sys (front ++ (entry_bytes t ++ back)) at 12 ≡ some (entry_bytes t)
  unfolding to_be32
  read_all-entry front t back at e =
      read_all_slice (front ++ (entry_bytes t ++ back)) at 12
      ∙ ap (λ (i : ℕ). slice? (front ++ (entry_bytes t ++ back)) i 12) (sym e)
      ∙ slice?-here front (entry_bytes t) back 12 (omega arith)

  read_entry-table :
      (front : List ℕ) (t : Triple) (back : List ℕ) (at size : ℕ) (info : AdInfo)
      → length front ≡ at
      → IsEntry t
      → read_entry size at (read_all sys (front ++ (entry_bytes t ++ back)) at 12) info
        ≡ store_entry size (entry_of t at) info
  unfolding read_entry
  read_entry-table front t back at size info e h =
      ap (λ b. read_entry size at b info) (read_all-entry front t back at e)
      ∙ ap (λ (x : AdEntry). store_entry size x info) (parse_entry-entry_bytes t at h)

  pub read_entries-table :
      (front : List ℕ) (entries : List Triple) (back : List ℕ) (i : ℕ) (info : AdInfo)
      → length front ≡ 26 + i * 12
      → All IsEntry entries
      → read_entries sys (front ++ (table_bytes entries ++ back)) (length entries) i info
        ≡ store_table (length (front ++ (table_bytes entries ++ back))) entries (26 + i * 12) info
  unfolding read_entries read_entry to_be32
  read_entries-table front [] back i info e h = refl
  read_entries-table front (t ∷ entries) back i info e (ht, h) =
      let at = 26 + i * 12 in
      let rest = table_bytes entries ++ back in
      let all = front ++ (entry_bytes t ++ rest) in
      ap
        (λ (b : Result AdInfo).
          then_read b (λ next. read_entries sys all (length entries) (i + 1) next))
        (read_entry-table front t rest at (length all) info e ht)
      ∙ then_read_same (store_entry (length all) (entry_of t at) info)
          (λ next. read_entries sys all (length entries) (i + 1) next)
          (λ next. store_table (length all) entries (at + 12) next)
          (λ next.
            ap (λ (b : List ℕ). read_entries sys b (length entries) (i + 1) next)
              (sym (append_assoc front (entry_bytes t) rest))
            ∙ read_entries-table (front ++ entry_bytes t) entries back (i + 1) next
                (omega (arith, length-append front (entry_bytes t), length_entry)) h
            ∙ ap (λ (b : List ℕ). store_table (length b) entries (26 + (i + 1) * 12) next)
                (append_assoc front (entry_bytes t) rest)
            ∙ ap (λ (k : ℕ). store_table (length all) entries k next) behind)
    where
      length_entry : length (entry_bytes t) ≡ 12
      length_entry = unfold to_be32 in refl

      behind : 26 + (i + 1) * 12 ≡ 26 + i * 12 + 12
      behind = omega arith

abbrev pub finder_offset : Bool → ℕ
finder_offset k = if k then 653 else 50

-- Where the entry of the fork stands in the table.
abbrev pub resource_entry : Bool → ℕ
resource_entry k = if k then 26 else 38
