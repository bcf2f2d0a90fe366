-- ===== src/Metadata/Store/Places.antt =====
-- The items of a list (daemon/metadata.c) after `put_item` and `remove_item`: their names, and how many
-- there are.
use netatalk_client.Base.{
  if-split, ℕ, suc, ◌≤◌, ◌≡◌, refl, not, ◌&&◌, ◌||◌, List, [], ◌∷◌, length, arith, str_eq,
  str_eq→eq, All, if◌then◌else◌,
}
use netatalk_client.Metadata.Items.{EaItem, has_name}
use netatalk_client.Metadata.Items.RoundTrip.{Distinct, IsItem, str_eq_sym}
use netatalk_client.Metadata.Store.{put_item, remove_item}

pub has_name-put_item :
    (m name : List ℕ) (size : ℕ) (items : List EaItem)
    → has_name m (put_item name size items) ≡ (str_eq name m || has_name m items)
unfolding has_name put_item
has_name-put_item m name size [] = refl
has_name-put_item m name size (i ∷ items) =
    ground (arith, has_name-put_item m name size items, str_eq→eq i.name name)

pub put_item-Distinct :
    (name : List ℕ) (size : ℕ) (items : List EaItem)
    → Distinct items
    → Distinct (put_item name size items)
unfolding has_name put_item
put_item-Distinct name size [] d = (refl, tt)
put_item-Distinct name size (i ∷ items) (h, d) =
    if-split Distinct (str_eq i.name name) _ _ (λ e. (h, d))
      (λ e. (
        ground (arith, has_name-put_item i.name name size items, str_eq_sym i.name name),
        put_item-Distinct name size items d,
      ))

pub put_item-IsItem :
    (name : List ℕ) (size : ℕ) (items : List EaItem)
    → IsItem (record { name = name; size = size })
    → All IsItem items
    → All IsItem (put_item name size items)
unfolding put_item
put_item-IsItem name size [] h hs = (h, tt)
put_item-IsItem name size (i ∷ items) h (hi, hs) =
    if-split (All IsItem) (str_eq i.name name) _ _ (λ e. ((hi.0, h.1), hs))
      (λ e. (hi, put_item-IsItem name size items h hs))

pub length-put_item :
    (name : List ℕ) (size : ℕ) (items : List EaItem)
    → length (put_item name size items)
      ≡ (if has_name name items then length items else suc (length items))
unfolding put_item has_name
length-put_item name size [] = refl
length-put_item name size (i ∷ items) = ground (arith, length-put_item name size items)

pub has_name-remove_item :
    (m name : List ℕ) (items : List EaItem)
    → Distinct items
    → has_name m (remove_item name items) ≡ (not (str_eq name m) && has_name m items)
unfolding has_name remove_item
has_name-remove_item m name [] d = ground arith
has_name-remove_item m name (i ∷ items) (h, d) =
    ground (arith, has_name-remove_item m name items d, str_eq→eq i.name name, str_eq→eq name m)

pub remove_item-Distinct :
    (name : List ℕ) (items : List EaItem) → Distinct items → Distinct (remove_item name items)
unfolding has_name remove_item
remove_item-Distinct name [] d = tt
remove_item-Distinct name (i ∷ items) (h, d) =
    if-split Distinct (str_eq i.name name) _ _ (λ e. d)
      (λ e. (
        ground (arith, has_name-remove_item i.name name items d),
        remove_item-Distinct name items d,
      ))

pub remove_item-IsItem :
    (name : List ℕ) (items : List EaItem) → All IsItem items → All IsItem (remove_item name items)
unfolding remove_item
remove_item-IsItem name [] hs = tt
remove_item-IsItem name (i ∷ items) (hi, hs) =
    if-split (All IsItem) (str_eq i.name name) _ _ (λ e. hs)
      (λ e. (hi, remove_item-IsItem name items hs))

pub length-remove_item :
    (name : List ℕ) (items : List EaItem) → length (remove_item name items) ≤ length items
unfolding remove_item
length-remove_item name [] = omega arith
length-remove_item name (i ∷ items) = ground (arith, length-remove_item name items)
