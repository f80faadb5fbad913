-- ===== src/Examples/AttrMaps.antt =====
-- libxcm/core/xcm_attr_map.c on maps of two attributes.
use xcm.Base.{
  ◌+◌, ◌-◌, ◌≡◌, ◌↔◌, refl, true, false, none, some, [], ◌∷◌, Str, c_str, str_eq, if◌then◌else◌,
}
use xcm.AttrMap.{
  lookup_attr_with_type, Attr, AttrMap, bool, str, lookup_attr, lookup_loop, is_valid_len,
  xcm_attr_map_create, xcm_attr_map_add, xcm_attr_map_del, xcm_attr_map_get, xcm_attr_map_size,
  xcm_attr_map_exists, xcm_attr_map_equal, xcm_attr_map_clone, xcm_attr_map_add_all,
}
use xcm.AttrMap.Change.{IsValid, get-add, get-del, change-IsValid}
use xcm.AttrMap.Equal.{equal_iff}
use xcm.AttrMap.Copy.{clone-equal, add_all_lem, first_of_two}

abbrev blocking : Attr
blocking = record { name = c_str "xcm.blocking"; type = bool; value = 0 ∷ [] }

abbrev service : Attr
service = record { name = c_str "xcm.service"; type = str; value = b'a' ∷ 0 ∷ [] }

abbrev two : AttrMap
two = record { attrs = blocking ∷ service ∷ [] }

abbrev two_reversed : AttrMap
two_reversed = record { attrs = service ∷ blocking ∷ [] }

two-IsValid : IsValid two
unfolding lookup_loop str_eq is_valid_len
two-IsValid = record { unique = (refl, (refl, tt)); lens = (refl, (refl, tt)) }

two_reversed-IsValid : IsValid two_reversed
unfolding lookup_loop str_eq is_valid_len
two_reversed-IsValid = record { unique = (refl, (refl, tt)); lens = (refl, (refl, tt)) }

get-add_example :
    (m' : AttrMap) × (xcm_attr_map_add two (c_str "n") bool (1 ∷ []) ≡ some m')
    × (xcm_attr_map_get m' (c_str "n") ≡ (
        if str_eq (c_str "n") (c_str "n")
        then some (bool, 1, 1 ∷ [])
        else xcm_attr_map_get two (c_str "n")))
    × (xcm_attr_map_size m' ≡ (
        if xcm_attr_map_exists two (c_str "n")
        then xcm_attr_map_size two
        else xcm_attr_map_size two + 1))
unfolding is_valid_len
get-add_example = get-add two (c_str "n") (c_str "n") bool (1 ∷ []) refl

get-del_example :
    (xcm_attr_map_get (xcm_attr_map_del two (c_str "xcm.service")) (c_str "xcm.blocking") ≡ (
      if str_eq (c_str "xcm.service") (c_str "xcm.blocking")
      then none
      else xcm_attr_map_get two (c_str "xcm.blocking")))
    × (xcm_attr_map_size (xcm_attr_map_del two (c_str "xcm.service")) ≡ (
        if xcm_attr_map_exists two (c_str "xcm.service")
        then xcm_attr_map_size two - 1
        else xcm_attr_map_size two))
get-del_example = get-del two (c_str "xcm.service") (c_str "xcm.blocking") two-IsValid

change-IsValid_example :
    IsValid xcm_attr_map_create
    × IsValid (xcm_attr_map_del two (c_str "xcm.service"))
    × ((m' : AttrMap)
        → xcm_attr_map_add two (c_str "xcm.service") bool (1 ∷ []) ≡ some m'
        → IsValid m')
change-IsValid_example = change-IsValid two (c_str "xcm.service") bool (1 ∷ []) two-IsValid

equal_iff_example :
    (xcm_attr_map_equal two two_reversed ≡ true)
    ↔ ((n : Str) → lookup_attr two n ≡ lookup_attr two_reversed n)
equal_iff_example = equal_iff two two_reversed two-IsValid two_reversed-IsValid

equal_reversed : xcm_attr_map_equal two two_reversed ≡ true
unfolding xcm_attr_map_equal lookup_attr_with_type str_eq
equal_reversed = refl

clone-equal_example :
    (copy : AttrMap) × (xcm_attr_map_clone two ≡ some copy)
    × IsValid copy
    × (xcm_attr_map_equal two copy ≡ true)
clone-equal_example = clone-equal two two-IsValid

add_all_example :
    (xcm_attr_map_add_all true two two ≡ some two)
    × ((m : AttrMap) × (xcm_attr_map_add_all false two two_reversed ≡ some m)
        × IsValid m
        × ((n : Str)
            → lookup_attr m n ≡ first_of_two (lookup_attr two_reversed n) (lookup_attr two n)))
add_all_example = add_all_lem two two_reversed two-IsValid two_reversed-IsValid
