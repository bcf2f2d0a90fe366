-- ===== src/Metadata/Store/Ready.antt =====
-- The AppleDouble files of one file (daemon/metadata.c) where the system refuses nothing: what they hold,
-- and what loading and saving the list does.
use netatalk_client.Base.{
  IsU32, ℕ, ◌≡◌, refl, ap, sym, true, false, Option, none, some, List, [], ◌∷◌, length, arith,
  str_eq, str_eq→eq, str_eq_self, All, inl, inr, ◌⊎◌, if-split,
}
use netatalk_client.Base.Errno.{enoattr, Result, ok, err}
use netatalk_client.Metadata.Items.{copied_name, grown_array, EaItem, Allocation, has_name}
use netatalk_client.Metadata.Items.RoundTrip.{
  IsName, Distinct, IsItem, IsListed, list_bytes, load_items-list_bytes, save_items-list_bytes,
  str_eq_sym,
}
use netatalk_client.Metadata.Store.Places.{put_item-IsItem}
use netatalk_client.Metadata.Store.{
  save_behind, metadata_absent, set_loaded, netatalk_set, EaSystem, EaFiles, whole, file_written,
  load_ea_items, save_ea_items, write_list, unless, put_item, remove_item, put_value,
}

-- A system that refuses nothing. A list that is missing is an attribute that is missing.
pub record IsReady (sys : EaSystem) : Type 0 where
  pub has_memory : (a : Allocation) → sys.memory a ≡ true
  pub has_header_path : sys.header_path ≡ none
  pub has_value_path : (name : List ℕ) → sys.value_path name ≡ none
  pub no_header_is : sys.no_header ≡ enoattr
  pub opens_header : sys.open_header ≡ none
  pub opens_value : (name : List ℕ) → sys.open_value name ≡ true
  pub has_value_folder : sys.value_folder ≡ none
  pub has_header_folder : sys.header_folder ≡ none
  pub writes_value : sys.write_value ≡ whole
  pub writes_header : sys.write_header ≡ whole
  pub unlinks_value : sys.unlink_value ≡ none
  pub unlinks_header : sys.unlink_header ≡ none

abbrev pub header_of : List EaItem → Option (List ℕ)
header_of [] = none
header_of (i ∷ items) = some (list_bytes (i ∷ items))

-- Each item has a value of its size.
abbrev pub Sized : (List ℕ → Option (List ℕ)) → List EaItem → Type 0
Sized values [] = Unit
Sized values (i ∷ items) =
    ((content : List ℕ) × ((values i.name ≡ some content) × (length content ≡ i.size)))
    × Sized values items

-- The files list the items, and have their values.
abbrev pub Holds : List EaItem → EaFiles → Type 0
Holds items f = (f.header ≡ header_of items) × (IsListed items × Sized f.values items)

-- The operations take a list that is missing for one without items.
abbrev pub IsLoaded : List EaItem → Result (List EaItem) → Type 0
IsLoaded items r = (r ≡ ok items) ⊎ ((items ≡ []) × (r ≡ err enoattr))

pub load_ea_items-IsLoaded :
    (sys : EaSystem) (items : List EaItem) (f : EaFiles)
    → IsReady sys
    → Holds items f
    → IsLoaded items (load_ea_items sys f)
unfolding load_ea_items
load_ea_items-IsLoaded sys [] f r (h, k) =
    inr (refl, ground (arith, r.has_header_path, h, r.no_header_is))
load_ea_items-IsLoaded sys (i ∷ items) f r (h, (l, k)) = inl (
    ground (
      arith,
      r.has_header_path,
      h,
      r.opens_header,
      load_items-list_bytes sys.memory (i ∷ items) r.has_memory l,
    ))

pub save_ea_items_ready :
    (sys : EaSystem) (items : List EaItem) (f : EaFiles)
    → IsReady sys
    → All IsItem items
    → save_ea_items sys items f ≡ (none, record f { header = header_of items })
unfolding save_ea_items unless write_list file_written
save_ea_items_ready sys [] f r h = simp (r.has_header_path, r.unlinks_header) refl
save_ea_items_ready sys (i ∷ items) f r h =
    simp
      (
        r.has_header_path,
        r.has_header_folder,
        save_items-list_bytes sys.memory (i ∷ items) r.has_memory h,
        r.writes_header,
      )
      refl

-- Items without the name keep their values.
pub Sized-put_value :
    (name : List ℕ) (content : Option (List ℕ)) (values : List ℕ → Option (List ℕ))
    (items : List EaItem)
    → has_name name items ≡ false
    → Sized values items
    → Sized (put_value name content values) items
unfolding has_name put_value
Sized-put_value name content values [] h s = tt
Sized-put_value name content values (i ∷ items) h ((c, (e, n)), s) = (
  (c, (ground (arith, str_eq_sym name i.name), n)),
  Sized-put_value name content values items (ground arith) s,
)

pub Sized-put_item :
    (name value : List ℕ) (values : List ℕ → Option (List ℕ)) (items : List EaItem)
    → Distinct items
    → Sized values items
    → Sized (put_value name (some value) values) (put_item name (length value) items)
unfolding put_item put_value
Sized-put_item name value values [] d s = ((value, (rw (str_eq_self name) refl, refl)), tt)
Sized-put_item name value values (i ∷ items) (h, d) ((c, (e, n)), s) =
    if-split (Sized (put_value name (some value) values)) (str_eq i.name name) _ _
      (λ k. (
        (value, (ground (arith, str_eq_sym name i.name), refl)),
        Sized-put_value name (some value) values items (rw (sym (str_eq→eq i.name name k)) h) s,
      ))
      (λ k. (
        (c, (ground (arith, str_eq_sym name i.name), n)),
        Sized-put_item name value values items d s,
      ))

pub Sized-remove_item :
    (name : List ℕ) (values : List ℕ → Option (List ℕ)) (items : List EaItem)
    → Distinct items
    → Sized values items
    → Sized (put_value name none values) (remove_item name items)
unfolding remove_item put_value
Sized-remove_item name values [] d s = tt
Sized-remove_item name values (i ∷ items) (h, d) ((c, (e, n)), s) =
    if-split (Sized (put_value name none values)) (str_eq i.name name) _ _
      (λ k. Sized-put_value name none values items (rw (sym (str_eq→eq i.name name k)) h) s)
      (λ k.
        ((c, (ground (arith, str_eq_sym name i.name), n)), Sized-remove_item name values items d s))

-- The files after a value was set.
abbrev pub with_value : List ℕ → List ℕ → List EaItem → EaFiles → EaFiles
with_value name value items f = record {
  header = header_of (put_item name (length value) items);
  values = put_value name (some value) f.values;
}

pub set_loaded_ready :
    (sys : EaSystem) (name value : List ℕ) (items : List EaItem) (f : EaFiles)
    → IsReady sys
    → All IsItem items
    → IsName name
    → IsU32 (length value)
    → set_loaded sys name value items f ≡ (none, with_value name value items f)
unfolding set_loaded save_behind unless file_written
set_loaded_ready sys name value items f r hi hname hv = ground (
  arith,
  r.has_value_path name,
  r.has_value_folder,
  r.writes_value,
  r.has_memory grown_array,
  r.has_memory copied_name,
  save_ea_items_ready sys (put_item name (length value) items)
      (record { header = f.header; values = put_value name (some value) f.values }) r
      (put_item-IsItem name (length value) items (hname, hv) hi),
)

pub netatalk_set_loaded :
    (sys : EaSystem) (name value : List ℕ) (items : List EaItem) (f : EaFiles)
    → IsReady sys
    → Holds items f
    → IsName name
    → IsU32 (length value)
    → netatalk_set sys name value f ≡ (none, with_value name value items f)
unfolding netatalk_set metadata_absent
netatalk_set_loaded sys name value items f r h hname hv =
    elim (load_ea_items-IsLoaded sys items f r h) [
      | inl e ↦ ground (arith, e, done)
      | inr (q, e) ↦
          ground (arith, e, done, ap (λ (is : List EaItem). set_loaded sys name value is f) q)
    ]
  where
    done : set_loaded sys name value items f ≡ (none, with_value name value items f)
    done = set_loaded_ready sys name value items f r h.1.0.0 hname hv
