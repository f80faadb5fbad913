-- ===== src/Item.antt =====
-- libxcm/tp/tls/item.c: where a key, a certificate or a name comes from. `item_data` is the field `data`, and `none` is NULL.
-- The functions that change an item return it.
pub mod Copy
use xcm.Base.{
  ℕ, Bool, true, false, Option, none, some, List, [], ◌∷◌, Str, c_str, length, take, if◌then◌else◌,
}
use xcm.Errno.{Errno, Outcome, ret, fail, abort}

-- enum item_type
pub data ItemType : Type 0 where
  item_type_none item_type_file item_type_value : ItemType

-- struct item
pub record Item : Type 0 where
  pub type : ItemType
  pub sensitive : Bool
  pub item_data : Option Str

-- item_init()
unfoldable pub item_init : Item
item_init = record { type = item_type_none; sensitive = false; item_data = none }

-- item_is_set()
unfoldable pub item_is_set : Item → Bool
item_is_set item = elim item.type [
  | item_type_none ↦ false
  | item_type_file ↦ true
  | item_type_value ↦ true
]

-- item_deinit() of an item that is not NULL
unfoldable pub item_deinit : Item → Item
unfolding item_init item_is_set
item_deinit item = if item_is_set item then item_init else item

-- item_set_file()
unfoldable pub item_set_file : Item → Str → Bool → Item
item_set_file item filename sensitive = record {
  type = item_type_file;
  sensitive = sensitive;
  item_data = some filename;
}

-- item_set_value_n()
unfoldable pub item_set_value_n : Item → Str → ℕ → Bool → Item
item_set_value_n item value len sensitive = record {
  type = item_type_value;
  sensitive = sensitive;
  item_data = some (take len value);
}

-- item_set_value()
unfoldable pub item_set_value : Item → Str → Bool → Item
unfolding item_set_value_n
item_set_value item value sensitive = item_set_value_n item value (length value) sensitive

-- SENSITIVE_DATA_STR
abbrev pub sensitive_data_str : Str
sensitive_data_str = c_str "<hidden>"

-- item_unsensitive_data()
unfoldable pub item_unsensitive_data : Item → Option Str
item_unsensitive_data item = if item.sensitive then some sensitive_data_str else item.item_data

-- item_load(): *data, with ut_load_text_file() as a parameter.
unfoldable pub item_load : (Str → Outcome Str) → Item → Outcome (Option Str)
item_load load_text_file item = elim item.type [
  | item_type_none ↦ ret none
  | item_type_file ↦ elim item.item_data [
    | none ↦ abort
    | some filename ↦ elim (load_text_file filename) [
      | ret text ↦ ret (some text)
      | fail e ↦ fail e
      | abort ↦ abort
    ]
  ]
  | item_type_value ↦ elim item.item_data [ none ↦ abort | some value ↦ ret (some value) ]
]

-- item_copy(): the item `dst_item` then, and `none` where the code copies a string at NULL.
unfoldable pub item_copy : Item → Item → Option Item
unfolding item_deinit
item_copy src_item dst_item =
    let typed : Item = record (item_deinit dst_item) { type = src_item.type } in
    if item_is_set src_item
    then elim src_item.item_data [
      | none ↦ none
      | some s ↦ some (record typed { item_data = some s })
    ]
    else some typed
