-- ===== src/Metadata/Tests.antt =====
-- Local metadata at concrete names, lists and files.
use netatalk_client.Base.{
  ℕ, zero, suc, ◌+◌, ◌/◌, ◌%◌, ◌≤◌, ◌≡◌, refl, ap, true, false, none, some, List, [], ◌∷◌, length,
  arith, codes, All, str_eq, replicate,
}
use netatalk_client.Base.Errno.{einval, enoattr, ok, err}
use netatalk_client.Metadata.Name.{
  metadata_xattr, afp_metadata_mode_parse, afp_metadata_mode_name, mode_parse-mode_name,
  metadata_name_filtered, metadata_name_valid, has_prefix, strip_prefix, strip_user_prefix,
  has_slash,
}
use netatalk_client.Metadata.Items.{EaItem, has_name, load_items, save_items}
use netatalk_client.Metadata.Items.RoundTrip.{Distinct, IsItem, load_items-save_items}
use netatalk_client.Metadata.Store.{
  EaSystem, EaFiles, whole, netatalk_get, netatalk_set, netatalk_remove, netatalk_list,
}
use netatalk_client.Metadata.Store.Ready.{IsReady, Holds, Sized, header_of}
use netatalk_client.Metadata.Store.Refines.{attribute}
use netatalk_client.Metadata.Store.Runs.{
  EaChange, set_value, remove_value, changed, run, no_files, Lists, run-changed,
}
use netatalk_client.Metadata.Store.Full.{netatalk_set_full}

checkpoints_are_internal :
    (metadata_name_filtered (codes "user.com.apple.finder.copy.checkpoint#3") ≡ true)
    × ((metadata_name_filtered (codes "user.colour") ≡ false)
        × ((metadata_name_valid (codes "a/b") ≡ false)
            × ((metadata_name_valid (replicate 255 97) ≡ true)
                × (metadata_name_valid (replicate 256 97) ≡ false))))
unfolding metadata_name_filtered metadata_name_valid has_prefix strip_prefix strip_user_prefix
    has_slash str_eq
checkpoints_are_internal = (refl, (refl, (refl, (refl, refl))))

mode_parse-mode_name_example :
    (afp_metadata_mode_parse (afp_metadata_mode_name metadata_xattr) ≡ some metadata_xattr)
    × (afp_metadata_mode_parse (codes "xattr") ≡ some metadata_xattr
        → codes "xattr" ≡ afp_metadata_mode_name metadata_xattr)
mode_parse-mode_name_example = mode_parse-mode_name metadata_xattr (codes "xattr")

abbrev two_items : List EaItem
two_items =
    record { name = codes "colour"; size = 3 } ∷ record { name = codes "shape"; size = 70000 } ∷ []

load_items-save_items_example :
    (bytes : List ℕ) × ((save_items (λ a. true) two_items ≡ ok bytes)
      × (load_items (λ a. true) bytes ≡ ok two_items))
unfolding has_name str_eq
load_items-save_items_example =
    load_items-save_items (λ a. true) two_items (λ a. refl)
      (omega arith, ((refl, (refl, tt)), omega arith))

abbrev willing : EaSystem
willing = record {
  memory = λ a. true;
  header_path = none;
  value_path = λ name. none;
  no_header = enoattr;
  open_header = none;
  open_value = λ name. true;
  value_folder = none;
  header_folder = none;
  write_value = whole;
  write_header = whole;
  unlink_value = none;
  unlink_header = none;
}

willing-IsReady : IsReady willing
willing-IsReady = record {
  has_memory = λ a. refl;
  has_header_path = refl;
  has_value_path = λ name. refl;
  no_header_is = refl;
  opens_header = refl;
  opens_value = λ name. refl;
  has_value_folder = refl;
  has_header_folder = refl;
  writes_value = refl;
  writes_header = refl;
  unlinks_value = refl;
  unlinks_header = refl;
}

abbrev changes : List EaChange
changes =
    set_value (codes "colour") (1 ∷ 2 ∷ 3 ∷ [])
    ∷ set_value (codes "shape") (4 ∷ [])
    ∷ remove_value (codes "colour")
    ∷ set_value (codes "shape") (5 ∷ 6 ∷ [])
    ∷ []

run-changed_example :
    (netatalk_get willing (codes "shape") (run willing changes no_files)
      ≡ attribute (changed changes (λ k. none) (codes "shape")))
    × ((names : List (List ℕ)) × ((netatalk_list willing (run willing changes no_files) ≡ ok names)
          × Lists (changed changes (λ k. none)) names))
run-changed_example =
    run-changed willing changes (codes "shape") willing-IsReady (omega arith) (omega arith)

-- As many items as are wanted, without values.
abbrev name_of_number : ℕ → List ℕ
name_of_number n = (1 + n / 200) ∷ (1 + n % 200) ∷ []

abbrev many : ℕ → List EaItem
many zero = []
many (suc n) = record { name = name_of_number n; size = 0 } ∷ many n

length-many : (n : ℕ) → length (many n) ≡ n
length-many zero = refl
length-many (suc n) = ap suc (length-many n)

has_name-many : (m n : ℕ) → n ≤ m → has_name (name_of_number m) (many n) ≡ false
unfolding has_name str_eq
has_name-many m zero h = refl
has_name-many m (suc n) h = ground (arith, has_name-many m n (omega arith))

many-Distinct : (n : ℕ) → Distinct (many n)
many-Distinct zero = tt
many-Distinct (suc n) = (has_name-many n n (omega arith), many-Distinct n)

many-IsItem : (n : ℕ) → All IsItem (many n)
many-IsItem zero = tt
many-IsItem (suc n) = ((omega arith, omega arith), many-IsItem n)

many-Sized : (n : ℕ) → Sized (λ name. some []) (many n)
many-Sized zero = tt
many-Sized (suc n) = (([], (refl, refl)), many-Sized n)

abbrev full_files : EaFiles
full_files = record { header = header_of (many 1024); values = λ name. some [] }

full-Holds : Holds (many 1024) full_files
full-Holds = (
  refl,
  ((many-IsItem 1024, (many-Distinct 1024, omega (arith, length-many 1024))), many-Sized 1024),
)

netatalk_set_full_example :
    (g : EaFiles) × ((netatalk_set willing (name_of_number 1024) (7 ∷ []) full_files ≡ (none, g))
      × ((netatalk_get willing (name_of_number 5) g ≡ err einval)
          × ((netatalk_list willing g ≡ err einval)
              × ((netatalk_remove willing (name_of_number 5) g ≡ (some einval, g))
                  × (netatalk_set willing (name_of_number 5) (8 ∷ []) g ≡ (some einval, g))))))
netatalk_set_full_example =
    netatalk_set_full willing (many 1024) (name_of_number 1024) (7 ∷ []) full_files
      (name_of_number 5) (8 ∷ []) willing-IsReady full-Holds (length-many 1024)
      (has_name-many 1024 1024 (omega arith)) (omega arith, omega arith) (omega arith) (omega arith)
