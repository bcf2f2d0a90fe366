-- ===== src/Metadata/Sidecar/Runs.antt =====
-- Runs of the operations on an AppleDouble file (daemon/metadata.c), and what they come to.
use netatalk_client.Base.{
  ℕ, ◌-◌, ◌≡◌, refl, ap, sym, ◌∙◌, Bool, Option, none, some, List, [], ◌∷◌, arith, length, take,
  drop, ltb, leb, ◌==◌, Bool-cases, if◌then◌else◌, pos, inl, inr, take_same, take_nil, drop_past,
  length-drop, leb→le,
}
use netatalk_client.Base.Errno.{enoattr, Result, ok, err}
use netatalk_client.Metadata.Sidecar.{open_to_read, sidecar_open_error, is_enoent}
use netatalk_client.Metadata.Sidecar.Ops.{
  AdOutcome, is_zeros, finder_value, finder_get_opened, ad_finder_get, ad_finder_set, size_opened,
  ad_resource_size, read_opened, ad_resource_read, ad_resource_write,
}
use netatalk_client.Metadata.Sidecar.Layout.{info_of}
use netatalk_client.Metadata.Sidecar.Table.{file_of}
use netatalk_client.Metadata.Sidecar.Updates.{read_all-finder, slice-fork}
use netatalk_client.Metadata.Sidecar.Opening.{
  Attributes, contents, stored, IsStorable, overwritten, all_well, well, open_to_read-stored,
  finder_given, ad_finder_set-stored,
}
use netatalk_client.Metadata.Sidecar.Writing.{IsWrite, ad_resource_write-stored, length-overwritten}

-- The calls that change the file.
pub data AdCall : Type 0 where
  set_finder : List ℕ → AdCall
  write_fork : List ℕ → ℕ → AdCall

abbrev pub ad_call : Bool → AdCall → Option (List ℕ) → AdOutcome
ad_call k (set_finder v) file = ad_finder_set all_well k v file
ad_call k (write_fork buf offset) file = ad_resource_write all_well k buf (pos offset) file

-- Calls one after the other, up to the first error.
abbrev go_on : (Option (List ℕ) → AdOutcome) → AdOutcome → AdOutcome
go_on next (none, file) = next file
go_on next (some e, file) = (some e, file)

abbrev pub ad_run : Bool → List AdCall → Option (List ℕ) → AdOutcome
ad_run k [] file = (none, file)
ad_run k (c ∷ calls) file = go_on (λ next. ad_run k calls next) (ad_call k c file)

-- What a call does to the Finder info and the fork. Both are empty before the first call.
abbrev pub changed : AdCall → Attributes → Attributes
changed (set_finder v) (f, r) = (v, r)
changed (write_fork buf offset) (f, r) = (f, overwritten offset buf r)

abbrev pub run_changed : List AdCall → Option Attributes → Option Attributes
run_changed [] s = s
run_changed (c ∷ calls) s = run_changed calls (some (changed c (contents s)))

abbrev pub IsCall : AdCall → Attributes → Type 0
IsCall (set_finder v) p = length v ≡ 32
IsCall (write_fork buf offset) p = IsWrite buf offset p.1

abbrev pub AreCalls : List AdCall → Option Attributes → Type 0
AreCalls [] s = Unit
AreCalls (c ∷ calls) s = IsCall c (contents s) × AreCalls calls (some (changed c (contents s)))

-- What is read of the Finder info and of the fork.
abbrev pub read_finder : Option Attributes → Result (List ℕ)
read_finder none = err enoattr
read_finder (some (f, r)) = if is_zeros f then err enoattr else ok f

abbrev pub read_size : Option Attributes → Result ℕ
read_size none = err enoattr
read_size (some (f, r)) = if length r == 0 then err enoattr else ok (length r)

abbrev pub read_fork : ℕ → ℕ → Option Attributes → Result (List ℕ)
read_fork size offset none = err enoattr
read_fork size offset (some (f, r)) = ok (take size (drop offset r))

changed-IsStorable :
    (c : AdCall) (p : Attributes) → IsCall c p → IsStorable p → IsStorable (changed c p)
changed-IsStorable (set_finder v) (f, r) h k = (h, k.1)
changed-IsStorable (write_fork buf offset) (f, r) (small, h) k =
    (k.0, ground (arith, length-overwritten offset buf r))

ad_call-changed :
    (k : Bool) (c : AdCall) (s : Option Attributes)
    → IsStorable (contents s)
    → IsCall c (contents s)
    → ad_call k c (stored k s) ≡ (none, stored k (some (changed c (contents s))))
ad_call-changed k (set_finder v) s h w = ad_finder_set-stored k v s w h
ad_call-changed k (write_fork buf offset) s h w = ad_resource_write-stored k buf offset s h w

ad_run-stored :
    (k : Bool) (calls : List AdCall) (s : Option Attributes)
    → IsStorable (contents s)
    → AreCalls calls s
    → (ad_run k calls (stored k s) ≡ (none, stored k (run_changed calls s)))
      × IsStorable (contents (run_changed calls s))
ad_run-stored k [] s h w = (refl, h)
ad_run-stored k (c ∷ calls) s h (w, ws) =
    let kept = changed-IsStorable c (contents s) w h in
    let later = ad_run-stored k calls (some (changed c (contents s))) kept ws in
    (ap (go_on (λ next. ad_run k calls next)) (ad_call-changed k c s h w) ∙ later.0, later.1)

module _ (k : Bool) where
  nothing_open : open_to_read all_well none ≡ (err enoattr, none)
  unfolding open_to_read sidecar_open_error is_enoent
  nothing_open = refl

  ad_finder_get-stored :
      (s : Option Attributes)
      → IsStorable (contents s)
      → ad_finder_get all_well (stored k s) ≡ read_finder s
  unfolding ad_finder_get finder_get_opened finder_value
  ad_finder_get-stored none h = ap (finder_get_opened all_well) nothing_open
  ad_finder_get-stored (some (f, r)) h =
      ap (finder_get_opened all_well) (open_to_read-stored k (f, r) h)
      ∙ rw (finder_given k) (ap finder_value (read_all-finder all_well well k (length r) f r h.0))

  ad_resource_size-stored :
      (s : Option Attributes)
      → IsStorable (contents s)
      → ad_resource_size all_well (stored k s) ≡ read_size s
  unfolding ad_resource_size size_opened
  ad_resource_size-stored none h = ap size_opened nothing_open
  ad_resource_size-stored (some (f, r)) h = ap size_opened (open_to_read-stored k (f, r) h)

  read_opened-file_of :
      (size offset : ℕ) (f r : List ℕ)
      → length f ≡ 32
      → read_opened all_well size (pos offset) (ok (info_of k (length r)), some (file_of k f r))
        ≡ ok (take size (drop offset r))
  unfolding read_opened
  read_opened-file_of size offset f r h = elim (Bool-cases (leb (length r) offset)) [
    | inl past ↦
        rw past (
          ap ok (sym (take_nil size) ∙ ap (take size) (sym (drop_past offset r (leb→le _ _ past)))))
    | inr inside ↦ rw inside (
        ap (λ t. ok t)
          (slice-fork k (length r) offset
            (if ltb (length r - offset) size then length r - offset else size) f r h)
        ∙ ap ok (take_same _ size (drop offset r) (ground (arith, length-drop offset r))))
  ]

  ad_resource_read-stored :
      (size offset : ℕ) (s : Option Attributes)
      → IsStorable (contents s)
      → ad_resource_read all_well size (pos offset) (stored k s) ≡ read_fork size offset s
  unfolding ad_resource_read read_opened
  ad_resource_read-stored size offset none h =
      ap (read_opened all_well size (pos offset)) nothing_open
  ad_resource_read-stored size offset (some (f, r)) h =
      ap (read_opened all_well size (pos offset)) (open_to_read-stored k (f, r) h)
      ∙ read_opened-file_of size offset f r h.0

-- What can be read of a file is its Finder info and its fork.
pub record Reads (file : Option (List ℕ)) (s : Option Attributes) : Type 0 where
  pub finder : ad_finder_get all_well file ≡ read_finder s
  pub size : ad_resource_size all_well file ≡ read_size s
  pub fork :
      (size offset : ℕ) → ad_resource_read all_well size (pos offset) file ≡ read_fork size offset s

-- Beginning with no AppleDouble file, any run of `ad_finder_set` and `ad_resource_write` succeeds,
-- and what `ad_finder_get`, `ad_resource_size` and `ad_resource_read` then give is the Finder info
-- that was set last and the bytes that were written, in the layout of Netatalk and in that of macOS.
-- A write at offset 0 replaces the fork, a hole reads as zeros, and a Finder info of zeros counts as
-- none. Every system call succeeds, each Finder info has 32 bytes, no write ends at 2^32 or behind,
-- and no write of no bytes is past the end of the fork.
pub ad_run-Reads :
    (netatalk : Bool) (calls : List AdCall)
    → AreCalls calls none
    → ((ad_run netatalk calls none).0 ≡ none)
      × Reads (ad_run netatalk calls none).1 (run_changed calls none)
ad_run-Reads netatalk calls h =
    let run = ad_run-stored netatalk calls none (omega arith) h in
    let s = run_changed calls none in
    rw (run.0) (
      refl,
      record {
        finder = ad_finder_get-stored netatalk s run.1;
        size = ad_resource_size-stored netatalk s run.1;
        fork = λ size offset. ad_resource_read-stored netatalk size offset s run.1;
      },
    )
