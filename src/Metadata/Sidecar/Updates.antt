-- ===== src/Metadata/Sidecar/Updates.antt =====
-- Reads and writes of the parts of an AppleDouble file (daemon/metadata.c).
use netatalk_client.Base.{
  ℕ, ◌+◌, ◌-◌, ◌≡◌, ◌<◌, ◌≤◌, refl, ap, sym, ◌∙◌, Bool, true, false, some, List, [], ◌∷◌, ◌++◌,
  arith, length, take, drop, replicate, length-take, slice?, write_at, to_be16, to_be32, IsU32,
  length-append, length-replicate, max, slice?-here, take_all, write_at-append, drop-append_at,
  take-append_at, drop-drop,
}
use mathlib.Core.List.{append_assoc, append-nil}
use native.Mathlib.Nat.{zero-add, suc-add}
use netatalk_client.Base.Errno.{ok, err, einval}
use netatalk_client.Metadata.Sidecar.{data_offset}
use netatalk_client.Metadata.Sidecar.Info.{
  AdSystem, read_all, read_ad_info, write_all, padded, truncated,
}
use netatalk_client.Metadata.Sidecar.Layout.{info_of, read_ad_info-table, read_ad_info_refused}
use netatalk_client.Metadata.Sidecar.Table.{
  IsFaultless, first_bytes, table, table_bytes, finder_offset, resource_entry, gap, tail_gap, image,
  read_all_slice,
}

-- What stands in front of the Finder info, and of the fork.
abbrev head : Bool → ℕ → List ℕ
head k n = first_bytes k ++ (table_bytes (table k n) ++ gap k)

abbrev body : Bool → ℕ → List ℕ → List ℕ
body k n f = head k n ++ (f ++ tail_gap k)

abbrev pub length_offset : Bool → ℕ
length_offset k = resource_entry k + 8

length-head : (k : Bool) (n : ℕ) → length (head k n) ≡ finder_offset k
unfolding to_be32 to_be16
length-head true n = refl
length-head false n = refl

pub finder_front :
    (k : Bool) (n : ℕ) (f r : List ℕ) → image k n f r ≡ head k n ++ (f ++ (tail_gap k ++ r))
finder_front k n f r = simp append_assoc

fork_front : (k : Bool) (n : ℕ) (f r : List ℕ) → image k n f r ≡ body k n f ++ r
fork_front k n f r = simp append_assoc

length-body : (k : Bool) (n : ℕ) (f : List ℕ) → length f ≡ 32 → length (body k n f) ≡ data_offset k
length-body true n f h = omega (
  arith,
  length-append (head true n) (f ++ tail_gap true),
  length-append f (tail_gap true),
  length-head true n,
  length-replicate {A = ℕ} 56 0,
)
length-body false n f h = omega (
  arith,
  length-append (head false n) (f ++ tail_gap false),
  length-append f (tail_gap false),
  length-head false n,
)

pub length-image :
    (k : Bool) (n : ℕ) (f r : List ℕ)
    → length f ≡ 32
    → length (image k n f r) ≡ data_offset k + length r
length-image k n f r h =
    ap length (fork_front k n f r)
    ∙ omega (arith, length-append (body k n f) r, length-body k n f h)

pub padded_inside : (at : ℕ) (bytes : List ℕ) → at ≤ length bytes → padded at bytes ≡ bytes
unfolding padded
padded_inside at bytes h = ap (λ (k : ℕ). bytes ++ replicate k 0) gone ∙ append-nil bytes
  where
    gone : at - length bytes ≡ 0
    gone = omega arith

pub length-padded : (at : ℕ) (bytes : List ℕ) → length (padded at bytes) ≡ max (length bytes) at
unfolding padded
length-padded at bytes = omega (
  arith,
  length-append bytes (replicate (at - length bytes) 0),
  length-replicate {A = ℕ} (at - length bytes) 0,
)

pub length-truncated : (n : ℕ) (bytes : List ℕ) → length (truncated n bytes) ≡ n
unfolding truncated
length-truncated n bytes = omega (arith, length-take n (padded n bytes), length-padded n bytes)

padded-append : (a b : List ℕ) (i : ℕ) → padded (length a + i) (a ++ b) ≡ a ++ padded i b
unfolding padded
padded-append a b i = append_assoc a b _ ∙ ap (λ (k : ℕ). a ++ (b ++ replicate k 0)) same
  where
    same : length a + i - length (a ++ b) ≡ i - length b
    same = omega (arith, length-append a b)

write_at-behind :
    (a b d : List ℕ) (i : ℕ) → write_at (length a + i) d (a ++ b) ≡ a ++ write_at i d b
write_at-behind [] b d i = ap (λ (k : ℕ). write_at k d b) (zero-add i)
write_at-behind (x ∷ a) b d i =
    rw (suc-add (length a) i, suc-add (length a + i) (length d))
      (ap (λ t. x ∷ t) (write_at-behind a b d i))

module _ (sys : AdSystem) (faultless : IsFaultless sys) where
  pub read_ad_info-image :
      (k : Bool) (n : ℕ) (f r : List ℕ)
      → length f ≡ 32
      → IsU32 n
      → n ≤ length r
      → read_ad_info sys (image k n f r) ≡ ok (info_of k n)
  read_ad_info-image k n f r h u le =
      read_ad_info-table sys faultless k n (gap k ++ (f ++ (tail_gap k ++ r))) u
        (omega (arith, length-image k n f r h))

  pub read_ad_info-image_past :
      (k : Bool) (n : ℕ) (f r : List ℕ)
      → length f ≡ 32
      → IsU32 n
      → length r < n
      → read_ad_info sys (image k n f r) ≡ err einval
  read_ad_info-image_past k n f r h u lt =
      read_ad_info_refused sys faultless k n (gap k ++ (f ++ (tail_gap k ++ r))) u
        (omega (arith, length-image k n f r h)) (omega (arith, length-image k n f r h))

  write_all_whole :
      (at : ℕ) (d bytes : List ℕ)
      → write_all sys at d bytes ≡ (true, write_at at d (padded at bytes))
  unfolding write_all padded
  write_all_whole at d bytes = rw (faultless.write_cut at, write_all) refl

  pub read_all-finder :
      (k : Bool) (n : ℕ) (f r : List ℕ)
      → length f ≡ 32
      → read_all sys (image k n f r) (finder_offset k) 32 ≡ some f
  read_all-finder k n f r h =
      read_all_slice sys faultless (image k n f r) (finder_offset k) 32
      ∙ ap (λ (b : List ℕ). slice? b (finder_offset k) 32) (finder_front k n f r)
      ∙ ap (λ (i : ℕ). slice? (head k n ++ (f ++ (tail_gap k ++ r))) i 32) (sym (length-head k n))
      ∙ slice?-here (head k n) f (tail_gap k ++ r) 32 (omega arith)
      ∙ ap some (take_all 32 f (omega arith))

  pub write_all-finder :
      (k : Bool) (n : ℕ) (v f r : List ℕ)
      → length f ≡ 32
      → length v ≡ 32
      → write_all sys (finder_offset k) v (image k n f r) ≡ (true, image k n v r)
  write_all-finder k n v f r h hv =
      write_all_whole (finder_offset k) v (image k n f r)
      ∙ ap (λ (b : List ℕ). (true, b))
          (ap (write_at (finder_offset k) v)
              (padded_inside (finder_offset k) (image k n f r) (inside k))
            ∙ ap (write_at (finder_offset k) v) (finder_front k n f r)
            ∙ write_at-append (finder_offset k) v (head k n) (f ++ (tail_gap k ++ r))
                (sym (length-head k n))
            ∙ ap (λ b. head k n ++ (v ++ b))
                (drop-append_at (length v) f (tail_gap k ++ r) (hv ∙ sym h))
            ∙ sym (finder_front k n v r))
    where
      inside : (k : Bool) → finder_offset k ≤ length (image k n f r)
      inside true = omega (arith, length-image true n f r h)
      inside false = omega (arith, length-image false n f r h)

  pub write_all-length :
      (k : Bool) (n m : ℕ) (f r : List ℕ)
      → length f ≡ 32
      → write_all sys (length_offset k) (to_be32 m) (image k n f r) ≡ (true, image k m f r)
  write_all-length k n m f r h =
      write_all_whole (length_offset k) (to_be32 m) (image k n f r)
      ∙ ap (λ (b : List ℕ). (true, b))
          (ap (write_at (length_offset k) (to_be32 m))
              (padded_inside (length_offset k) (image k n f r) (inside k))
            ∙ swapped k)
    where
      inside : (k : Bool) → length_offset k ≤ length (image k n f r)
      inside true = omega (arith, length-image true n f r h)
      inside false = omega (arith, length-image false n f r h)

      swapped : (k : Bool) → write_at (length_offset k) (to_be32 m) (image k n f r) ≡ image k m f r
      swapped true = unfold to_be32 in unfold to_be16 in refl
      swapped false = unfold to_be32 in unfold to_be16 in refl

  pub write_all-fork :
      (k : Bool) (n i : ℕ) (d f r : List ℕ)
      → length f ≡ 32
      → write_all sys (data_offset k + i) d (image k n f r)
        ≡ (true, image k n f (write_at i d (padded i r)))
  write_all-fork k n i d f r h =
      ap (λ (j : ℕ). write_all sys (j + i) d (image k n f r)) (sym (length-body k n f h))
      ∙ write_all_whole (length (body k n f) + i) d (image k n f r)
      ∙ ap (λ (b : List ℕ). (true, b))
          (ap (λ b. write_at (length (body k n f) + i) d (padded (length (body k n f) + i) b))
              (fork_front k n f r)
            ∙ ap (write_at (length (body k n f) + i) d) (padded-append (body k n f) r i)
            ∙ write_at-behind (body k n f) (padded i r) d i
            ∙ sym (fork_front k n f (write_at i d (padded i r))))

pub truncated-image :
    (k : Bool) (n : ℕ) (f r : List ℕ)
    → length f ≡ 32
    → truncated (data_offset k) (image k n f r) ≡ image k n f []
unfolding truncated
truncated-image k n f r h =
    ap (take (data_offset k)) (
      padded_inside (data_offset k) (image k n f r) (omega (arith, length-image k n f r h))
      ∙ fork_front k n f r)
    ∙ take-append_at (data_offset k) (body k n f) r (sym (length-body k n f h))
    ∙ sym (append-nil (body k n f))
    ∙ sym (fork_front k n f [])

pub slice-fork :
    (k : Bool) (n i m : ℕ) (f r : List ℕ)
    → length f ≡ 32
    → take m (drop (data_offset k + i) (image k n f r)) ≡ take m (drop i r)
slice-fork k n i m f r h =
    ap (λ b. take m (drop (data_offset k + i) b)) (fork_front k n f r)
    ∙ ap (take m) (sym (drop-drop i (data_offset k) (body k n f ++ r)))
    ∙ ap (λ b. take m (drop i b))
        (drop-append_at (data_offset k) (body k n f) r (sym (length-body k n f h)))
