-- ===== src/AttrMap.antt =====
-- libxcm/core/xcm_attr_map.c: a map from attribute names to typed values. `struct xcm_attr_map` is
-- the list of its `struct attr`, the newest first, as LIST_INSERT_HEAD builds it. A value is the
-- list of the `value_len` bytes that the map copies. Names, values and callbacks are not NULL.
-- A result `none` of an operation that changes the map is a failed assertion, which aborts.
pub mod Lookup
pub mod Change
pub mod Copy
pub mod Equal
use xcm.Base.{
  ℕ, zero, suc, ◌+◌, ◌≡◌, Bool, true, false, ◌&&◌, not, Option, none, some, List, [], ◌∷◌, ◌++◌,
  Str, str_eq, length, ◌==◌, if◌then◌else◌,
}

-- enum xcm_attr_type
pub data AttrType : Type 0 where
  bool int64 double str bin : AttrType

pub AttrType-discrete : Discrete AttrType
AttrType-discrete = hlevel

-- attr->type == type
unfoldable pub type_eq : AttrType → AttrType → Bool
type_eq bool bool = true
type_eq int64 int64 = true
type_eq double double = true
type_eq str str = true
type_eq bin bin = true
type_eq _ _ = false

-- struct attr
pub record Attr : Type 0 where
  pub name : Str
  pub type : AttrType
  pub value : List ℕ

-- attr->value_len
abbrev pub value_len : Attr → ℕ
value_len attr = length attr.value

-- struct xcm_attr_map
pub record AttrMap : Type 0 where
  pub attrs : List Attr

-- The assertions of assert_valid_len(), with the sizes of a 64-bit ABI.
unfoldable pub is_valid_len : AttrType → ℕ → Bool
is_valid_len bool len = len == 1
is_valid_len int64 len = len == 8
is_valid_len double len = len == 8
is_valid_len str len = true
is_valid_len bin len = true

-- attr_create()
pub attr_create : Str → AttrType → List ℕ → Option Attr
unfolding is_valid_len
attr_create name type value =
    if is_valid_len type (length value)
    then some (record { name = name; type = type; value = value })
    else none

-- xcm_attr_map_create()
unfoldable pub xcm_attr_map_create : AttrMap
xcm_attr_map_create = record { attrs = [] }

unfoldable pub lookup_loop : Str → List Attr → Option Attr
lookup_loop attr_name [] = none
lookup_loop attr_name (attr ∷ rest) =
    if str_eq attr.name attr_name then some attr else lookup_loop attr_name rest

-- lookup_attr()
unfoldable pub lookup_attr : AttrMap → Str → Option Attr
unfolding lookup_loop
lookup_attr attr_map attr_name = lookup_loop attr_name attr_map.attrs

pub lookup_with_type_loop : Str → AttrType → List Attr → Option Attr
lookup_with_type_loop attr_name type [] = none
lookup_with_type_loop attr_name type (attr ∷ rest) =
    if str_eq attr.name attr_name
    then (if type_eq attr.type type then some attr else none)
    else lookup_with_type_loop attr_name type rest

-- lookup_attr_with_type()
unfoldable pub lookup_attr_with_type : AttrMap → Str → AttrType → Option Attr
unfolding lookup_with_type_loop type_eq
lookup_attr_with_type attr_map attr_name type = lookup_with_type_loop attr_name type attr_map.attrs

-- lookup_value_with_type()
unfoldable pub lookup_value_with_type : AttrMap → Str → AttrType → Option (List ℕ)
unfolding lookup_attr_with_type
lookup_value_with_type attr_map attr_name type =
    elim (lookup_attr_with_type attr_map attr_name type) [
      | none ↦ none
      | some attr ↦ some attr.value
    ]

-- LIST_REMOVE of the first attribute with the name.
pub remove_first : Str → List Attr → List Attr
remove_first attr_name [] = []
remove_first attr_name (attr ∷ rest) =
    if str_eq attr.name attr_name then rest else attr ∷ remove_first attr_name rest

-- xcm_attr_map_del()
unfoldable pub xcm_attr_map_del : AttrMap → Str → AttrMap
unfolding remove_first lookup_attr
xcm_attr_map_del attr_map attr_name = elim (lookup_attr attr_map attr_name) [
  | none ↦ attr_map
  | some attr ↦ record { attrs = remove_first attr_name attr_map.attrs }
]

-- xcm_attr_map_add()
unfoldable pub xcm_attr_map_add : AttrMap → Str → AttrType → List ℕ → Option AttrMap
unfolding attr_create
xcm_attr_map_add attr_map attr_name attr_type attr_value =
    let deleted = xcm_attr_map_del attr_map attr_name in
    elim (attr_create attr_name attr_type attr_value) [
      | none ↦ none
      | some attr ↦ some (record { attrs = attr ∷ deleted.attrs })
    ]

-- xcm_attr_map_add_bool(); a C bool is stored as the byte 0 or 1.
unfoldable pub xcm_attr_map_add_bool : AttrMap → Str → Bool → Option AttrMap
unfolding xcm_attr_map_add
xcm_attr_map_add_bool attr_map attr_name attr_value =
    xcm_attr_map_add attr_map attr_name bool ((if attr_value then 1 else 0) ∷ [])

-- xcm_attr_map_add_str(); the value includes the terminating NUL.
unfoldable pub xcm_attr_map_add_str : AttrMap → Str → Str → Option AttrMap
unfolding xcm_attr_map_add
xcm_attr_map_add_str attr_map attr_name attr_value =
    xcm_attr_map_add attr_map attr_name str (attr_value ++ (0 ∷ []))

-- xcm_attr_map_add_bin()
unfoldable pub xcm_attr_map_add_bin : AttrMap → Str → List ℕ → Option AttrMap
unfolding xcm_attr_map_add
xcm_attr_map_add_bin attr_map attr_name attr_value =
    xcm_attr_map_add attr_map attr_name bin attr_value

-- xcm_attr_map_foreach() with copy_attr_cb(), which adds each attribute to `copy`.
pub copy_loop : AttrMap → List Attr → Option AttrMap
copy_loop copy [] = some copy
copy_loop copy (attr ∷ rest) = elim (xcm_attr_map_add copy attr.name attr.type attr.value) [
  | none ↦ none
  | some copy' ↦ copy_loop copy' rest
]

-- xcm_attr_map_clone()
unfoldable pub xcm_attr_map_clone : AttrMap → Option AttrMap
unfolding copy_loop xcm_attr_map_create
xcm_attr_map_clone original = copy_loop xcm_attr_map_create original.attrs

-- xcm_attr_map_add_all(); `same` is the test dst_map == src_map on the pointers.
unfoldable pub xcm_attr_map_add_all : Bool → AttrMap → AttrMap → Option AttrMap
unfolding copy_loop
xcm_attr_map_add_all same dst_map src_map =
    if not same then copy_loop dst_map src_map.attrs else some dst_map

-- xcm_attr_map_get(): the type, the length and the value, each through its pointer.
unfoldable pub xcm_attr_map_get : AttrMap → Str → Option (AttrType × ℕ × List ℕ)
unfolding lookup_attr
xcm_attr_map_get attr_map attr_name = elim (lookup_attr attr_map attr_name) [
  | none ↦ none
  | some attr ↦ some (attr.type, value_len attr, attr.value)
]

-- xcm_attr_map_get_bool() and its four siblings, one for each type.
unfoldable pub xcm_attr_map_get_bool : AttrMap → Str → Option (List ℕ)
unfolding lookup_value_with_type
xcm_attr_map_get_bool attr_map attr_name = lookup_value_with_type attr_map attr_name bool

unfoldable pub xcm_attr_map_get_str : AttrMap → Str → Option (List ℕ)
unfolding lookup_value_with_type
xcm_attr_map_get_str attr_map attr_name = lookup_value_with_type attr_map attr_name str

unfoldable pub xcm_attr_map_get_bin : AttrMap → Str → Option (List ℕ)
unfolding lookup_value_with_type
xcm_attr_map_get_bin attr_map attr_name = lookup_value_with_type attr_map attr_name bin

-- xcm_attr_map_exists()
unfoldable pub xcm_attr_map_exists : AttrMap → Str → Bool
unfolding lookup_attr
xcm_attr_map_exists attr_map attr_name = elim (lookup_attr attr_map attr_name) [
  | none ↦ false
  | some attr ↦ true
]

-- xcm_attr_map_size()
unfoldable pub xcm_attr_map_size : AttrMap → ℕ
xcm_attr_map_size attr_map = length attr_map.attrs

-- The loop of xcm_attr_map_equal(); memcmp() is over value_len bytes.
pub equal_loop : AttrMap → List Attr → Bool
equal_loop attr_map_b [] = true
equal_loop attr_map_b (attr_a ∷ rest) =
    let others = equal_loop attr_map_b rest in
    elim (lookup_attr_with_type attr_map_b attr_a.name attr_a.type) [
      | none ↦ false
      | some attr_b ↦
          if not (value_len attr_a == value_len attr_b)
          then false
          else if not (str_eq attr_a.value attr_b.value)
          then false
          else others
    ]

-- xcm_attr_map_equal()
unfoldable pub xcm_attr_map_equal : AttrMap → AttrMap → Bool
unfolding equal_loop xcm_attr_map_size
xcm_attr_map_equal attr_map_a attr_map_b =
    if not (xcm_attr_map_size attr_map_a == xcm_attr_map_size attr_map_b)
    then false
    else equal_loop attr_map_b attr_map_a.attrs
