-- ===== src/AttrMap/Change.antt =====
-- Adding to and deleting from the map of libxcm/core/xcm_attr_map.c.
use xcm.Base.{
  ℕ, ◌+◌, ◌-◌, ◌≡◌, sym, true, false, none, some, List, [], ◌∷◌, arith, Str, str_eq, subst, length,
  Bool-cases, Option-cases, inl, inr, if◌then◌else◌, All,
}
use xcm.AttrMap.{
  Attr, AttrMap, AttrType, lookup_loop, remove_first, is_valid_len, xcm_attr_map_create,
  xcm_attr_map_add, xcm_attr_map_del, xcm_attr_map_get, xcm_attr_map_size, xcm_attr_map_exists,
}
use xcm.AttrMap.Lookup.{
  IsUnique, lookup_loop-remove, length-remove, remove_first-IsUnique, remove_first-absent,
  del-remove, added, add-added, lookup-added, added-IsUnique,
}

abbrev pub HasValidLen : Attr → Type 0
HasValidLen a = is_valid_len a.type (length a.value) ≡ true

-- What holds of a map between two calls.
pub record IsValid (m : AttrMap) : Type 0 where
  pub unique : IsUnique m.attrs
  pub lens : All HasValidLen m.attrs

remove_first-lens :
    (n : Str) (xs : List Attr) → All HasValidLen xs → All HasValidLen (remove_first n xs)
unfolding remove_first
remove_first-lens n [] h = tt
remove_first-lens n (x ∷ xs) h = elim (Bool-cases (str_eq x.name n)) [
  | inl e ↦ rw e h.1
  | inr e ↦ rw e (h.0, remove_first-lens n xs h.1)
]

pub added-IsValid :
    (m : AttrMap) (n : Str) (t : AttrType) (v : List ℕ)
    → IsValid m
    → is_valid_len t (length v) ≡ true
    → IsValid (added m n t v)
added-IsValid m n t v h k = record {
  unique = added-IsUnique m n t v h.unique;
  lens = (k, remove_first-lens n m.attrs h.lens);
}

pub create-IsValid : IsValid xcm_attr_map_create
unfolding xcm_attr_map_create
create-IsValid = record { unique = tt; lens = tt }

-- Every operation that changes a map keeps it valid: names stay distinct, and each value has the
-- length of its type. A new map is valid too.
pub change-IsValid :
    (m : AttrMap) (n : Str) (t : AttrType) (v : List ℕ)
    → IsValid m
    → IsValid xcm_attr_map_create
      × IsValid (xcm_attr_map_del m n)
      × ((m' : AttrMap) → xcm_attr_map_add m n t v ≡ some m' → IsValid m')
change-IsValid m n t v h = (
  create-IsValid,
  subst IsValid (sym removed) (record {
    unique = remove_first-IsUnique n m.attrs h.unique;
    lens = remove_first-lens n m.attrs h.lens;
  }),
  λ m' e. elim (Bool-cases (is_valid_len t (length v))) [
    | inl k ↦ subst IsValid (ground (arith, add-added m n t v)) (added-IsValid m n t v h k)
    | inr k ↦ absurd (ground (arith, add-added m n t v))
  ],
)
  where
    removed : xcm_attr_map_del m n ≡ record { attrs = remove_first n m.attrs }
    removed = λ i. record { attrs = del-remove m n i }

-- xcm_attr_map_add() of a value whose length fits its type succeeds; afterwards a get of that name
-- returns the new type, length and value, a get of any other name what it returned before, and
-- the size has grown by one exactly if the name was not there.
pub get-add :
    (m : AttrMap) (n j : Str) (t : AttrType) (v : List ℕ)
    → is_valid_len t (length v) ≡ true
    → (m' : AttrMap) × (xcm_attr_map_add m n t v ≡ some m')
      × (xcm_attr_map_get m' j
          ≡ (if str_eq n j then some (t, length v, v) else xcm_attr_map_get m j))
      × (xcm_attr_map_size m'
          ≡ (if xcm_attr_map_exists m n then xcm_attr_map_size m else xcm_attr_map_size m + 1))
unfolding xcm_attr_map_get xcm_attr_map_size xcm_attr_map_exists
get-add m n j t v h = (
  added m n t v,
  ground (arith, add-added m n t v),
  ground (arith, lookup-added m n j t v),
  elim (Option-cases (lookup_loop n m.attrs)) [
    | inl e ↦ ground (arith, remove_first-absent n m.attrs e)
    | inr (a, e) ↦ ground (arith, length-remove n m.attrs a e)
  ],
)

-- xcm_attr_map_add() aborts exactly when the length of the value does not fit its type.
pub add-aborts :
    (m : AttrMap) (n : Str) (t : AttrType) (v : List ℕ)
    → (xcm_attr_map_add m n t v ≡ none → is_valid_len t (length v) ≡ false)
      × (is_valid_len t (length v) ≡ false → xcm_attr_map_add m n t v ≡ none)
add-aborts m n t v =
    ((λ h. ground (arith, add-added m n t v)), (λ h. ground (arith, add-added m n t v)))

-- After xcm_attr_map_del() of a valid map a get of that name finds nothing, a get of any other name
-- returns what it returned before, and the size has fallen by one exactly if the name was there.
pub get-del :
    (m : AttrMap) (n j : Str)
    → IsValid m
    → (xcm_attr_map_get (xcm_attr_map_del m n) j
        ≡ (if str_eq n j then none else xcm_attr_map_get m j))
      × (xcm_attr_map_size (xcm_attr_map_del m n)
          ≡ (if xcm_attr_map_exists m n then xcm_attr_map_size m - 1 else xcm_attr_map_size m))
unfolding xcm_attr_map_get xcm_attr_map_size xcm_attr_map_exists
get-del m n j h = (
  ground (arith, del-remove m n, lookup_loop-remove n j m.attrs h.unique),
  elim (Option-cases (lookup_loop n m.attrs)) [
    | inl e ↦ ground (arith, remove_first-absent n m.attrs e, del-remove m n)
    | inr (a, e) ↦ ground (arith, length-remove n m.attrs a e, del-remove m n)
  ],
)
