-- ===== src/AttrMap/Lookup.antt =====
-- Lookups in the list of attributes of libxcm/core/xcm_attr_map.c, before and after a change.
use xcm.Base.{
  ℕ, ◌+◌, ◌≡◌, ◌≢◌, refl, ◌∙◌, true, none, some, List, [], ◌∷◌, arith, Str, str_eq, str_eq_iff,
  subst, length, Bool-cases, inl, inr, if◌then◌else◌,
}
use xcm.AttrMap.{
  Attr, AttrMap, AttrType, attr_create, lookup_attr, lookup_loop, lookup_with_type_loop,
  remove_first, type_eq, is_valid_len, xcm_attr_map_add, xcm_attr_map_del,
}

-- No two attributes of the list have the same name.
abbrev pub IsUnique : List Attr → Type 0
IsUnique [] = Unit {0}
IsUnique (attr ∷ rest) = (lookup_loop attr.name rest ≡ none) × IsUnique rest

pub type_eq_iff : (a b : AttrType) → type_eq a b ≡ true → a ≡ b
unfolding type_eq
type_eq_iff a b h = ground arith

pub type_eq_self : (a : AttrType) → type_eq a a ≡ true
unfolding type_eq
type_eq_self a = ground arith

-- An attribute that a lookup finds has the name that was looked for.
pub lookup_loop-name :
    (n : Str) (xs : List Attr) {a : Attr} → lookup_loop n xs ≡ some a → a.name ≡ n
unfolding lookup_loop
lookup_loop-name n [] h = cc
lookup_loop-name n (x ∷ xs) {a} h =
    ground (arith, str_eq_iff x.name n, lookup_loop-name n xs {a = a})

pub lookup_loop-remove_ne :
    (n j : Str) (xs : List Attr) → n ≢ j → lookup_loop j (remove_first n xs) ≡ lookup_loop j xs
unfolding lookup_loop remove_first
lookup_loop-remove_ne n j [] h = refl
lookup_loop-remove_ne n j (x ∷ xs) h =
    ground (arith, str_eq_iff x.name n, str_eq_iff x.name j, lookup_loop-remove_ne n j xs h)

pub lookup_loop-remove_self :
    (n : Str) (xs : List Attr) → IsUnique xs → lookup_loop n (remove_first n xs) ≡ none
unfolding lookup_loop remove_first
lookup_loop-remove_self n [] u = refl
lookup_loop-remove_self n (x ∷ xs) u = elim (Bool-cases (str_eq x.name n)) [
  | inl e ↦ rw e (rw (← (str_eq_iff x.name n).0 e) u.0)
  | inr e ↦ ground (arith, lookup_loop-remove_self n xs u.1)
]

pub remove_first-absent :
    (n : Str) (xs : List Attr) → lookup_loop n xs ≡ none → remove_first n xs ≡ xs
unfolding lookup_loop remove_first
remove_first-absent n [] h = refl
remove_first-absent n (x ∷ xs) h = ground (arith, remove_first-absent n xs)

pub length-remove :
    (n : Str) (xs : List Attr) (a : Attr)
    → lookup_loop n xs ≡ some a
    → length xs ≡ length (remove_first n xs) + 1
unfolding lookup_loop remove_first
length-remove n [] a h = cc
length-remove n (x ∷ xs) a h = ground (arith, length-remove n xs a)

pub remove_first-IsUnique : (n : Str) (xs : List Attr) → IsUnique xs → IsUnique (remove_first n xs)
unfolding remove_first
remove_first-IsUnique n [] u = tt
remove_first-IsUnique n (x ∷ xs) u = elim (Bool-cases (str_eq x.name n)) [
  | inl e ↦ rw e u.1
  | inr e ↦ rw e (
    lookup_loop-remove_ne n x.name xs (λ p. ground (arith, str_eq_iff x.name n)) ∙ u.0,
    remove_first-IsUnique n xs u.1,
  )
]

-- Deleting is removing, also where the name is absent.
pub del-remove : (m : AttrMap) (n : Str) → (xcm_attr_map_del m n).attrs ≡ remove_first n m.attrs
unfolding xcm_attr_map_del
del-remove m n = ground (arith, remove_first-absent n m.attrs)

-- The map that xcm_attr_map_add() makes of a value of a valid length.
abbrev pub added : AttrMap → Str → AttrType → List ℕ → AttrMap
added m n t v = record { attrs = record { name = n; type = t; value = v } ∷ remove_first n m.attrs }

pub add-added :
    (m : AttrMap) (n : Str) (t : AttrType) (v : List ℕ)
    → xcm_attr_map_add m n t v ≡ (if is_valid_len t (length v) then some (added m n t v) else none)
unfolding xcm_attr_map_add attr_create
add-added m n t v = ground (arith, del-remove m n)

pub lookup-added :
    (m : AttrMap) (n j : Str) (t : AttrType) (v : List ℕ)
    → lookup_attr (added m n t v) j
      ≡ (if str_eq n j then some (record { name = n; type = t; value = v }) else lookup_attr m j)
unfolding lookup_attr
lookup-added m n j t v = ground (arith, lookup_loop-remove_ne n j m.attrs, str_eq_iff n j)

pub added-IsUnique :
    (m : AttrMap) (n : Str) (t : AttrType) (v : List ℕ)
    → IsUnique m.attrs
    → IsUnique (added m n t v).attrs
added-IsUnique m n t v u = (lookup_loop-remove_self n m.attrs u, remove_first-IsUnique n m.attrs u)

-- lookup_attr_with_type() is lookup_attr() and a test of the type.
pub lookup_with_type_lem :
    (n : Str) (t : AttrType) (xs : List Attr)
    → lookup_with_type_loop n t xs
      ≡ elim (lookup_loop n xs) [ none ↦ none | some a ↦ if type_eq a.type t then some a else none ]
unfolding lookup_with_type_loop lookup_loop
lookup_with_type_lem n t [] = refl
lookup_with_type_lem n t (x ∷ xs) = ground (arith, lookup_with_type_lem n t xs)

pub lookup_loop-remove :
    (n j : Str) (xs : List Attr)
    → IsUnique xs
    → lookup_loop j (remove_first n xs) ≡ (if str_eq n j then none else lookup_loop j xs)
lookup_loop-remove n j xs u = elim (Bool-cases (str_eq n j)) [
  | inl e ↦ rw e (
      subst (λ k. lookup_loop k (remove_first n xs) ≡ none) ((str_eq_iff n j).0 e)
        (lookup_loop-remove_self n xs u))
  | inr e ↦ rw e (lookup_loop-remove_ne n j xs (λ p. ground (arith, str_eq_iff n j)))
]
