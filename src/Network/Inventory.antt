-- ===== src/Network/Inventory.antt =====
-- network/Inventory.hpp, network/Inventory.cpp: the payload of an INV or a GETDATA message.
pub mod Laws
use forgechain.Prelude.{
  ℕ, zero, suc, ◌+◌, ◌*◌, ◌%◌, ◌^◌, Option, none, some, List, [], ◌∷◌, ◌++◌, Bytes, length, take,
  drop, ◌==◌, not, if◌then◌else◌,
}
use forgechain.Core.Wire.{to_le, read_uint, ◌>>=◌}

pub data InventoryItemType : Type 0 where
  block transaction : InventoryItemType

pub record InventoryItem : Type 0 where
  pub type : InventoryItemType
  pub hash : Bytes

abbrev pub inventory_item_size : ℕ
inventory_item_size = 33

-- The value of the enumerator.
abbrev pub type_byte : InventoryItemType → ℕ
type_byte InventoryItemType.block = 0
type_byte InventoryItemType.transaction = 1

abbrev pub item_bytes : InventoryItem → Bytes
item_bytes item = type_byte item.type ∷ item.hash

unfoldable pub serialize_items : List InventoryItem → Bytes
serialize_items [] = []
serialize_items (item ∷ items) = item_bytes item ++ serialize_items items

unfoldable pub serialize_inventory : List InventoryItem → Bytes
unfolding serialize_items
serialize_inventory items = to_le 4 (length items % 2 ^ 32) ++ serialize_items items

unfoldable pub item_type : ℕ → Option InventoryItemType
item_type type =
    if type == 0
    then some InventoryItemType.block
    else if type == 1
    then some InventoryItemType.transaction
    else none

-- The 33 bytes of an item.
unfoldable pub read_item : Bytes → Option InventoryItem
unfolding item_type
read_item [] = none
read_item (type ∷ hash) = do type ← item_type type; some (record { type = type; hash = hash })

unfoldable pub read_items : ℕ → Bytes → Option (List InventoryItem)
unfolding read_item
read_items zero bs = some []
read_items (suc n) bs = do
  item ← read_item (take inventory_item_size bs)
  items ← read_items n (drop inventory_item_size bs)
  some (item ∷ items)

-- The test on the size, and the loop over the items.
unfoldable pub items_of : Bytes → ℕ → Bytes → Option (List InventoryItem)
unfolding read_items
items_of payload count bs =
    if not (length payload == 4 + count * inventory_item_size) then none else read_items count bs

unfoldable pub deserialize_inventory : Bytes → Option (List InventoryItem)
unfolding items_of
deserialize_inventory payload = do (count, bs) ← read_uint 4 payload; items_of payload count bs
