-- ===== src/AttrMap/Copy.antt =====
-- xcm_attr_map_clone() and xcm_attr_map_add_all() of libxcm/core/xcm_attr_map.c.
use xcm.Base.{
  ◌≡◌, refl, true, false, Option, none, some, List, [], ◌∷◌, arith, Str, str_eq_iff, All,
}
use xcm.AttrMap.{
  Attr, AttrMap, lookup_attr, lookup_loop, xcm_attr_map_create, xcm_attr_map_clone,
  xcm_attr_map_add_all, copy_loop, xcm_attr_map_equal,
}
use xcm.AttrMap.Lookup.{IsUnique, added, add-added, lookup-added}
use xcm.AttrMap.Change.{IsValid, HasValidLen, added-IsValid, create-IsValid}
use xcm.AttrMap.Equal.{equal_iff}

-- The first of two results that is there.
abbrev pub first_of_two : Option Attr → Option Attr → Option Attr
first_of_two none b = b
first_of_two (some a) b = some a

-- `copy_loop` succeeds, and the map that it makes is valid and lets the copied attributes go first.
pub copy_loop_lem :
    (copy : AttrMap) (xs : List Attr)
    → IsValid copy
    → IsUnique xs
    → All HasValidLen xs
    → (m : AttrMap) × (copy_loop copy xs ≡ some m)
      × IsValid m
      × ((n : Str) → lookup_attr m n ≡ first_of_two (lookup_loop n xs) (lookup_attr copy n))
unfolding copy_loop lookup_loop
copy_loop_lem copy [] v u h = (copy, refl, v, (λ n. refl))
copy_loop_lem copy (x ∷ xs) v u h =
    let copy' : AttrMap = added copy x.name x.type x.value in
    let ih = copy_loop_lem copy' xs (added-IsValid copy x.name x.type x.value v h.0) u.1 h.1 in
    (
      ih.0,
      ground (arith, add-added copy x.name x.type x.value, ih.1),
      ih.2,
      λ n. ground (arith, ih.3 n, lookup-added copy x.name n x.type x.value, str_eq_iff x.name n),
    )

-- xcm_attr_map_clone() of a valid map succeeds, and the clone is valid and equal to the original by
-- xcm_attr_map_equal().
pub clone-equal :
    (m : AttrMap)
    → IsValid m
    → (copy : AttrMap) × (xcm_attr_map_clone m ≡ some copy)
      × IsValid copy
      × (xcm_attr_map_equal m copy ≡ true)
unfolding xcm_attr_map_clone xcm_attr_map_create lookup_attr
clone-equal m v =
    let r = copy_loop_lem xcm_attr_map_create m.attrs create-IsValid v.unique v.lens in
    (r.0, r.1, r.2, (equal_iff m r.0 v r.2).1 (λ n. ground (arith, r.3 n)))

-- xcm_attr_map_add_all() between different valid maps succeeds and leaves a valid map: a lookup
-- finds the attribute of the source, or that of the destination where the source has none. Adding
-- a map to itself changes nothing.
pub add_all_lem :
    (dst src : AttrMap)
    → IsValid dst
    → IsValid src
    → (xcm_attr_map_add_all true dst dst ≡ some dst)
      × ((m : AttrMap) × (xcm_attr_map_add_all false dst src ≡ some m)
          × IsValid m
          × ((n : Str) → lookup_attr m n ≡ first_of_two (lookup_attr src n) (lookup_attr dst n)))
unfolding xcm_attr_map_add_all
add_all_lem dst src v w =
    let r = copy_loop_lem dst src.attrs v w.unique w.lens in
    (refl, (r.0, r.1, r.2, (λ n. unfold lookup_attr in r.3 n)))
