-- ===== src/Metadata/Store/Refines.antt =====
-- The operations on a file's extended attributes (daemon/metadata.c) against a map from names to values.
use mathlib.Core.Path.{subst}
use netatalk_client.Base.{
  le→ltb_false, ℕ, suc, ◌≤◌, ◌<◌, ◌≡◌, refl, ap, sym, ◌∙◌, true, false, Option, none, some, List,
  [], ◌∷◌, length, arith, str_eq, str_eq→eq, Bool-cases, inl, inr, if◌then◌else◌, IsU32, take_all,
}
use netatalk_client.Base.Errno.{enoattr, Result, ok, err}
use netatalk_client.Metadata.Items.{value_buffer, EaItem, has_name}
use netatalk_client.Metadata.Items.RoundTrip.{IsName}
use netatalk_client.Metadata.Store.{
  EaSystem, EaFiles, EaOutcome, netatalk_get, netatalk_set, netatalk_remove, get_loaded, read_value,
  find_item, set_loaded, remove_loaded, put_value, put_item, remove_item, save_ea_items, unless,
}
use netatalk_client.Metadata.Store.Places.{
  has_name-put_item, put_item-Distinct, put_item-IsItem, length-put_item, has_name-remove_item,
  remove_item-Distinct, remove_item-IsItem, length-remove_item,
}
use netatalk_client.Metadata.Store.Ready.{
  netatalk_set_loaded, set_loaded_ready, with_value, IsReady, Holds, Sized, header_of,
  load_ea_items-IsLoaded, save_ea_items_ready, Sized-put_item, Sized-remove_item,
}

abbrev pub Attributes : Type 0
Attributes = List ℕ → Option (List ℕ)

-- The value of a name in the files, where the list has the name.
abbrev pub value_of : List EaItem → EaFiles → Attributes
value_of items f name = if has_name name items then f.values name else none

-- The files hold `m`, and at most `n` attributes.
abbrev pub Stores : ℕ → Attributes → EaFiles → Type 0
Stores n m f =
    (items : List EaItem) × (Holds items f
      × ((length items ≤ n) × ((name : List ℕ) → m name ≡ value_of items f name)))

-- What `netatalk_get` gives of a name.
abbrev pub attribute : Option (List ℕ) → Result (List ℕ)
attribute none = err enoattr
attribute (some value) = ok value

get_loaded_lem :
    (sys : EaSystem) (name : List ℕ) (items : List EaItem) (f : EaFiles)
    → IsReady sys
    → Sized f.values items
    → get_loaded sys name (find_item name items) none f ≡ attribute (value_of items f name)
unfolding get_loaded read_value find_item has_name
get_loaded_lem sys name [] f r s = refl
get_loaded_lem sys name (i ∷ items) f r ((c, (e, n)), s) = elim (Bool-cases (str_eq i.name name)) [
  | inl k ↦
      rw
        (
          k,
          (ap f.values (sym (str_eq→eq i.name name k)) ∙ e),
          r.opens_value name,
          r.has_memory value_buffer,
          le→ltb_false (length c) i.size (omega arith),
          take_all i.size c (omega arith),
        )
        refl
  | inr k ↦ rw (k) (get_loaded_lem sys name items f r s)
]

pub netatalk_get_refines :
    (sys : EaSystem) (n : ℕ) (m : Attributes) (name : List ℕ) (f : EaFiles)
    → IsReady sys
    → Stores n m f
    → netatalk_get sys name f ≡ attribute (m name)
unfolding netatalk_get has_name
netatalk_get_refines sys n m name f r (items, (h, (hn, hm))) =
    elim (load_ea_items-IsLoaded sys items f r h) [
      | inl e ↦
          ground (arith, e, get_loaded_lem sys name items f r h.1.1, hm name, r.has_value_path name)
      | inr (q, e) ↦ ground (arith, e, hm name, ap (λ (is : List EaItem). value_of is f name) q)
    ]

set_loaded_refines :
    (sys : EaSystem) (n : ℕ) (m : Attributes) (name value : List ℕ) (items : List EaItem)
    (f : EaFiles)
    → IsReady sys
    → Holds items f
    → length items ≤ n
    → ((k : List ℕ) → m k ≡ value_of items f k)
    → IsName name
    → IsU32 (length value)
    → n < 1024
    → (set_loaded sys name value items f ≡ (none, with_value name value items f))
      × Stores (suc n) (put_value name (some value) m) (with_value name value items f)
unfolding put_value
set_loaded_refines sys n m name value items f r (h, ((hi, (d, hl)), s)) hn hm hname hv room = (
  set_loaded_ready sys name value items f r hi hname hv,
  (
    put_item name (length value) items,
    (
      (
        refl,
        (
          (
            put_item-IsItem name (length value) items (hname, hv) hi,
            (
              put_item-Distinct name (length value) items d,
              ground (arith, length-put_item name (length value) items),
            ),
          ),
          Sized-put_item name value f.values items d s,
        ),
      ),
      (
        ground (arith, length-put_item name (length value) items),
        λ k. ground (arith, has_name-put_item k name (length value) items, hm k),
      ),
    ),
  ),
)

pub netatalk_set_refines :
    (sys : EaSystem) (n : ℕ) (m : Attributes) (name value : List ℕ) (f : EaFiles)
    → IsReady sys
    → Stores n m f
    → IsName name
    → IsU32 (length value)
    → n < 1024
    → (g : EaFiles) × ((netatalk_set sys name value f ≡ (none, g))
        × Stores (suc n) (put_value name (some value) m) g)
netatalk_set_refines sys n m name value f r (items, (h, (hn, hm))) hname hv room = (
  with_value name value items f,
  (netatalk_set_loaded sys name value items f r h hname hv, after.1),
)
  where
    after :
        (set_loaded sys name value items f ≡ (none, with_value name value items f))
        × Stores (suc n) (put_value name (some value) m) (with_value name value items f)
    after = set_loaded_refines sys n m name value items f r h hn hm hname hv room

-- `netatalk_remove` of a name that the map has, and of one that it does not have.
abbrev pub Removes : ℕ → Attributes → List ℕ → EaFiles → Option (List ℕ) → EaOutcome → Type 0
Removes n m name f none outcome = outcome ≡ (some enoattr, f)
Removes n m name f (some value) outcome =
    (g : EaFiles) × ((outcome ≡ (none, g)) × Stores n (put_value name none m) g)

remove_loaded_refines :
    (sys : EaSystem) (n : ℕ) (m : Attributes) (name : List ℕ) (items : List EaItem) (f : EaFiles)
    → IsReady sys
    → Holds items f
    → length items ≤ n
    → ((k : List ℕ) → m k ≡ value_of items f k)
    → has_name name items ≡ true
    → (g : EaFiles) × ((remove_loaded sys name items f ≡ (none, g))
        × Stores n (put_value name none m) g)
unfolding remove_loaded unless put_value
remove_loaded_refines sys n m name items f r (h, ((hi, (d, hl)), s)) hn hm has = (
  g,
  (
    ground (arith, has, r.has_value_path name, r.unlinks_value, saved),
    (
      items',
      (
        (
          refl,
          (
            (
              remove_item-IsItem name items hi,
              (remove_item-Distinct name items d, omega (arith, length-remove_item name items)),
            ),
            Sized-remove_item name f.values items d s,
          ),
        ),
        (
          omega (arith, length-remove_item name items),
          λ k. ground (arith, has_name-remove_item k name items d, hm k),
        ),
      ),
    ),
  ),
)
  where
    items' : List EaItem
    items' = remove_item name items

    g : EaFiles
    g = record { header = header_of items'; values = put_value name none f.values }

    saved :
        save_ea_items sys items'
          (record { header = f.header; values = put_value name none f.values })
        ≡ (none, g)
    saved =
        save_ea_items_ready sys items'
          (record { header = f.header; values = put_value name none f.values }) r
          (remove_item-IsItem name items hi)

pub value_there :
    (name : List ℕ) (values : Attributes) (items : List EaItem)
    → Sized values items
    → has_name name items ≡ true
    → (c : List ℕ) × (values name ≡ some c)
unfolding has_name
value_there name values [] s h = absurd (ground arith)
value_there name values (i ∷ items) ((c, (e, n)), s) h = elim (Bool-cases (str_eq i.name name)) [
  | inl k ↦ (c, ap values (sym (str_eq→eq i.name name k)) ∙ e)
  | inr k ↦ value_there name values items s (ground arith)
]

pub netatalk_remove_refines :
    (sys : EaSystem) (n : ℕ) (m : Attributes) (name : List ℕ) (f : EaFiles)
    → IsReady sys
    → Stores n m f
    → Removes n m name f (m name) (netatalk_remove sys name f)
unfolding netatalk_remove remove_loaded has_name
netatalk_remove_refines sys n m name f r (items, (h, (hn, hm))) =
    elim (Bool-cases (has_name name items)) [
      | inl has ↦ there has
      | inr has ↦
          subst (λ o. Removes n m name f o (netatalk_remove sys name f)) (sym (missing has))
            (elim (load_ea_items-IsLoaded sys items f r h) [
              | inl e ↦ ground (arith, e, has)
              | inr (q, e) ↦ ground (arith, e)
            ])
    ]
  where
    missing : has_name name items ≡ false → m name ≡ none
    missing has = ground (arith, hm name)

    there : has_name name items ≡ true → Removes n m name f (m name) (netatalk_remove sys name f)
    there has =
        subst (λ o. Removes n m name f o (netatalk_remove sys name f)) (sym found)
          (
            after.0,
            (
              elim (load_ea_items-IsLoaded sys items f r h) [
                | inl e ↦ ground (arith, e, after.1.0)
                | inr (q, e) ↦ ground (arith, e, has, ap (λ (is : List EaItem). has_name name is) q)
              ],
              after.1.1,
            ),
          )
      where
        value : (c : List ℕ) × (f.values name ≡ some c)
        value = value_there name f.values items h.1.1 has

        found : m name ≡ some value.0
        found = ground (arith, hm name, value.1)

        after :
            (g : EaFiles) × ((remove_loaded sys name items f ≡ (none, g))
              × Stores n (put_value name none m) g)
        after = remove_loaded_refines sys n m name items f r h hn hm has
