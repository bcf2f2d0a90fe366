-- ===== src/Metadata/Store/Full.antt =====
-- A list with as many attributes as `load_ea_items` takes, and one more (daemon/metadata.c).
use netatalk_client.Base.{
  lt→ltb, ℕ, ◌+◌, ◌%◌, ◌/◌, ◌*◌, ◌^◌, ◌<◌, ◌≡◌, refl, Bool, false, none, some, List, [], ◌∷◌,
  length, arith, IsU32, to_be16, to_be32, be16_at, be32_at,
}
use netatalk_client.Base.Errno.{einval, err}
use netatalk_client.Metadata.Items.{item_bytes, EaItem, Allocation, has_name, load_items, max_items}
use netatalk_client.Metadata.Items.RoundTrip.{IsName, list_bytes}
use netatalk_client.Metadata.Store.{
  EaSystem, EaFiles, netatalk_get, netatalk_set, netatalk_remove, netatalk_list, load_ea_items,
  put_item, metadata_absent,
}
use netatalk_client.Metadata.Store.Places.{length-put_item}
use netatalk_client.Metadata.Store.Ready.{
  IsReady, Holds, with_value, netatalk_set_loaded, header_of,
}

refused :
    (memory : Allocation → Bool) (bytes : List ℕ) (hi lo n : ℕ)
    → hi * 256 + lo ≡ n
    → max_items < n
    → load_items memory (97 ∷ 100 ∷ 69 ∷ 65 ∷ 0 ∷ 1 ∷ hi ∷ lo ∷ bytes) ≡ err einval
unfolding load_items be32_at be16_at
refused memory bytes hi lo n e h = simp (e, lt→ltb max_items n h) (ground arith)

load_items-over :
    (memory : Allocation → Bool) (items : List EaItem)
    → max_items < length items
    → length items < 2 ^ 16
    → load_items memory (list_bytes items) ≡ err einval
unfolding load_items to_be32 to_be16 be32_at be16_at
load_items-over memory items h k =
    refused memory (item_bytes items) (length items % 2 ^ 16 / 256 % 256)
      (length items % 2 ^ 16 % 256) (length items) (omega arith) h

load_header :
    (sys : EaSystem) (items : List EaItem) (f : EaFiles)
    → IsReady sys
    → f.header ≡ header_of items
    → max_items < length items
    → length items < 2 ^ 16
    → load_ea_items sys f ≡ err einval
unfolding load_ea_items
load_header sys [] f r e h k = absurd (omega arith)
load_header sys (i ∷ items) f r e h k =
    ground (arith, r.has_header_path, e, r.opens_header, load_items-over sys.memory (i ∷ items) h k)

-- Of files with 1024 attributes, and where the system refuses nothing, `netatalk_set` takes one more:
-- it returns 0. Behind it `netatalk_get` and `netatalk_list` give -EINVAL, and so do `netatalk_remove`
-- and `netatalk_set`, which change nothing, of any name and any value of a 32-bit size: the list
-- cannot be read any more.
pub netatalk_set_full :
    (sys : EaSystem) (items : List EaItem) (name value : List ℕ) (f : EaFiles) (k v : List ℕ)
    → IsReady sys
    → Holds items f
    → length items ≡ 1024
    → has_name name items ≡ false
    → IsName name
    → IsU32 (length value)
    → IsU32 (length v)
    → (g : EaFiles) × ((netatalk_set sys name value f ≡ (none, g))
        × ((netatalk_get sys k g ≡ err einval)
            × ((netatalk_list sys g ≡ err einval)
                × ((netatalk_remove sys k g ≡ (some einval, g))
                    × (netatalk_set sys k v g ≡ (some einval, g))))))
unfolding netatalk_get netatalk_list netatalk_remove netatalk_set metadata_absent
netatalk_set_full sys items name value f k v r h hl hn hname hv hw = (
  g,
  (
    netatalk_set_loaded sys name value items f r h hname hv,
    (
      ground (arith, stuck),
      (ground (arith, stuck), (ground (arith, stuck), ground (arith, stuck))),
    ),
  ),
)
  where
    g : EaFiles
    g = with_value name value items f

    stuck : load_ea_items sys g ≡ err einval
    stuck =
        load_header sys (put_item name (length value) items) g r refl
          (ground (arith, length-put_item name (length value) items))
          (ground (arith, length-put_item name (length value) items))
