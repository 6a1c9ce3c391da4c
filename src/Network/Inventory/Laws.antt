-- ===== src/Network/Inventory/Laws.antt =====
-- An inventory is read back from its bytes, and only from these.
use mathlib.Core.Option.{some-injective}
use forgechain.Prelude.{
  ℕ, zero, suc, ◌+◌, ◌*◌, ◌%◌, ◌^◌, ◌<◌, ◌≡◌, refl, sym, ap, subst, some, List, [], ◌∷◌, ◌++◌,
  Bytes, All, length, take, drop, length-append, take-append, drop-append, take-append-drop, ◌∙◌,
  arith,
}
use forgechain.Core.Wire.{to_le}
use forgechain.Core.Wire.Laws.{
  IsBytes, length-to_le, read_uint-append, taken, read_uint-step, >>=-eq-some,
}
use forgechain.Network.GetBlocks.Laws.{IsHash, drop_size}
use forgechain.Network.Inventory.{
  InventoryItemType, InventoryItem, type_byte, item_bytes, serialize_items, serialize_inventory,
  item_type, read_item, read_items, items_of, deserialize_inventory,
}

-- An inventory that a message can carry: a 32-bit count, and hashes of 32 bytes.
pub record Fits (items : List InventoryItem) : Type 0 where
  pub count : length items < 2 ^ 32
  pub hashes : All (λ item. IsHash item.hash) items

length-serialize_items :
    (items : List InventoryItem)
    → All (λ item. IsHash item.hash) items
    → length (serialize_items items) ≡ length items * 33
unfolding serialize_items
length-serialize_items [] h = refl
length-serialize_items (item ∷ items) (h, hs) =
    omega (arith, length-append item.hash (serialize_items items), length-serialize_items items hs)

item_type-type_byte : (t : InventoryItemType) → item_type (type_byte t) ≡ some t
unfolding item_type
item_type-type_byte InventoryItemType.block = refl
item_type-type_byte InventoryItemType.transaction = refl

read_items-serialize :
    (items : List InventoryItem)
    → All (λ item. IsHash item.hash) items
    → read_items (length items) (serialize_items items) ≡ some items
unfolding read_items read_item serialize_items
read_items-serialize [] h = refl
read_items-serialize (item ∷ items) (h, hs) =
    let front : take 32 (item.hash ++ serialize_items items) ≡ item.hash =
      subst (λ n. take n (item.hash ++ serialize_items items) ≡ item.hash) h
        (take-append item.hash (serialize_items items)) in
    let back : drop 32 (item.hash ++ serialize_items items) ≡ serialize_items items =
      subst (λ n. drop n (item.hash ++ serialize_items items) ≡ serialize_items items) h
        (drop-append item.hash (serialize_items items)) in
    rw (item_type-type_byte item.type, front, back, read_items-serialize items hs)

-- Fewer than 2^32 items with hashes of 32 bytes are read back from their bytes.
pub deserialize-serialize_inventory :
    (items : List InventoryItem)
    → Fits items
    → deserialize_inventory (serialize_inventory items) ≡ some items
unfolding deserialize_inventory serialize_inventory items_of
deserialize-serialize_inventory items h =
    let small : length items % 2 ^ 32 ≡ length items = omega (arith, h.count) in
    let size : length (to_le 4 (length items) ++ serialize_items items) ≡ 4 + length items * 33 =
      omega (
        arith,
        length-append (to_le 4 (length items)) (serialize_items items),
        length-to_le 4 (length items),
        length-serialize_items items h.hashes,
      ) in
    let wide : length items < 256 ^ 4 = omega (arith, h.count) in
    rw (small, read_uint-append 4 (length items) (serialize_items items) wide)
      (ground (arith, read_items-serialize items h.hashes))

item_type-eq-some : (b : ℕ) (t : InventoryItemType) → item_type b ≡ some t → b ≡ type_byte t
unfolding item_type
item_type-eq-some b InventoryItemType.block h = ground arith
item_type-eq-some b InventoryItemType.transaction h = ground arith

read_item-inverse :
    (bs : Bytes) {item : InventoryItem} → read_item bs ≡ some item → bs ≡ item_bytes item
unfolding read_item
read_item-inverse [] h = cc
read_item-inverse (b ∷ bs) {item} h =
    let (t, e, k) = >>=-eq-some (item_type b) _ h in
    let found : b ≡ type_byte t = item_type-eq-some b t e in ground (arith, some-injective _ _ k)

read_items-inverse :
    (n : ℕ) (bs : Bytes) {items : List InventoryItem}
    → length bs ≡ n * 33
    → read_items n bs ≡ some items
    → (serialize_items items ≡ bs) × All (λ item. IsHash item.hash) items × (length items ≡ n)
unfolding read_items serialize_items
read_items-inverse zero [] size h =
    subst (λ l. (serialize_items l ≡ []) × All (λ item. IsHash item.hash) l × (length l ≡ 0))
      (some-injective _ _ h) (refl, tt, refl)
read_items-inverse zero (b ∷ bs) size h = absurd (omega arith)
read_items-inverse (suc n) bs size h =
    let (item, e, k) = >>=-eq-some (read_item (take 33 bs)) _ h in
    let (rest, e', k') = >>=-eq-some (read_items n (drop 33 bs)) _ k in
    let (front, back) = drop_size 33 (n * 33) bs (omega arith) in
    let (split, hs, counted) = read_items-inverse n (drop 33 bs) back e' in
    let whole : take 33 bs ≡ item_bytes item = read_item-inverse (take 33 bs) e in
    let hash : length item.hash ≡ 32 = omega (arith, ap length whole) in
    subst (λ l. (serialize_items l ≡ bs) × All (λ item. IsHash item.hash) l × (length l ≡ suc n))
      (some-injective _ _ k')
      (
        ap (λ t. item_bytes item ++ t) split
            ∙ ap (λ t. t ++ drop 33 bs) (sym whole)
            ∙ take-append-drop 33 bs,
        (hash, hs),
        ap suc counted,
      )

items_of-eq-some :
    (payload : Bytes) (count : ℕ) (bs : Bytes) {items : List InventoryItem}
    → items_of payload count bs ≡ some items
    → (length payload ≡ 4 + count * 33) × (read_items count bs ≡ some items)
unfolding items_of
items_of-eq-some payload count bs h = ground arith

-- Bytes that are read as an inventory are that inventory's bytes: a known type for each item, and
-- hashes of 32 bytes.
pub deserialize_inventory-canonical :
    (payload : Bytes) (items : List InventoryItem)
    → IsBytes payload
    → deserialize_inventory payload ≡ some items
    → (payload ≡ serialize_inventory items) × Fits items
unfolding deserialize_inventory serialize_inventory
deserialize_inventory-canonical payload items bytes h = elim (read_uint-step 4 payload _ bytes h) [
  | taken count bs split left fits next ↦
      let (size, found) = items_of-eq-some payload count bs next in
      let counted : length bs ≡ count * 33 =
        omega (arith, ap length split, length-append (to_le 4 count) bs, length-to_le 4 count) in
      let (e, hs, n) = read_items-inverse count bs counted found in
      let small : length items % 2 ^ 32 ≡ count = omega arith in
      (rw (small, e) split, record { count = omega arith; hashes = hs })
]
