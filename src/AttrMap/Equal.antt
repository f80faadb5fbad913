-- ===== src/AttrMap/Equal.antt =====
-- xcm_attr_map_equal() of libxcm/core/xcm_attr_map.c decides that two maps hold the same.
use xcm.Base.{
  ◌≡◌, ◌↔◌, refl, sym, ◌∙◌, Bool, true, false, none, some, List, [], ◌∷◌, ◌≤◌, ◌<◌, arith, Str,
  subst, str_eq, str_eq_iff, str_eq_self, length, Bool-cases, Option-cases, inl, inr, if◌then◌else◌,
  ◌==◌, All, not,
}
use xcm.AttrMap.{
  Attr, AttrMap, lookup_attr, lookup_loop, lookup_attr_with_type, remove_first, xcm_attr_map_equal,
  equal_loop, value_len,
}
use xcm.AttrMap.Lookup.{
  IsUnique, lookup_loop-name, lookup_loop-remove_ne, length-remove, remove_first-IsUnique,
  lookup_with_type_lem, type_eq_iff, type_eq_self,
}
use xcm.AttrMap.Change.{IsValid}

-- Whatever a lookup finds in `xs` it finds in `ys`.
abbrev Within : List Attr → List Attr → Type 0
Within xs ys = (n : Str) (a : Attr) → lookup_loop n xs ≡ some a → lookup_loop n ys ≡ some a

-- The attributes of `xs` are those that `ys` has under their names.
abbrev AllIn : List Attr → List Attr → Type 0
AllIn ys = All (λ a. lookup_loop a.name ys ≡ some a)

equal_loop-step :
    (ys : List Attr) (x : Attr) (b : Bool)
    → (elim (lookup_attr_with_type (record { attrs = ys }) x.name x.type) [
      | none ↦ false
      | some y ↦
          if not (value_len x == value_len y)
          then false
          else if not (str_eq x.value y.value)
          then false
          else b
    ])
      ≡ true
    → (lookup_loop x.name ys ≡ some x) × (b ≡ true)
unfolding lookup_attr_with_type
equal_loop-step ys x b h = elim (Option-cases (lookup_loop x.name ys)) [
  | inl e ↦ ground (arith, lookup_with_type_lem x.name x.type ys)
  | inr (y, e) ↦ ground (
    arith,
    lookup_with_type_lem x.name x.type ys,
    str_eq_iff x.value y.value,
    lookup_loop-name x.name ys {a = y},
    type_eq_iff y.type x.type,
  )
]

equal_loop-AllIn : (ys xs : List Attr) → equal_loop (record { attrs = ys }) xs ≡ true → AllIn ys xs
unfolding equal_loop
equal_loop-AllIn ys [] h = tt
equal_loop-AllIn ys (x ∷ xs) h =
    let (found, rest) = equal_loop-step ys x (equal_loop (record { attrs = ys }) xs) h in
    (found, equal_loop-AllIn ys xs rest)

AllIn-equal_loop : (ys xs : List Attr) → AllIn ys xs → equal_loop (record { attrs = ys }) xs ≡ true
unfolding equal_loop lookup_attr_with_type
AllIn-equal_loop ys [] h = refl
AllIn-equal_loop ys (x ∷ xs) h = ground (
  arith,
  lookup_with_type_lem x.name x.type ys,
  str_eq_self x.value,
  type_eq_self x.type,
  AllIn-equal_loop ys xs h.1,
  h.0,
)

AllIn-Within : (ys xs : List Attr) → AllIn ys xs → Within xs ys
unfolding lookup_loop
AllIn-Within ys [] h n a p = cc
AllIn-Within ys (x ∷ xs) h n a p = elim (Bool-cases (str_eq x.name n)) [
  | inl e ↦ subst (λ k. lookup_loop k ys ≡ some a) ((str_eq_iff x.name n).0 e) (ground (arith, h.0))
  | inr e ↦ AllIn-Within ys xs h.1 n a (ground arith)
]

Within-AllIn : (ys xs : List Attr) → IsUnique xs → Within xs ys → AllIn ys xs
unfolding lookup_loop
Within-AllIn ys [] u w = tt
Within-AllIn ys (x ∷ xs) u w = (
  w x.name x (rw (lookup_loop, str_eq_self x.name)),
  Within-AllIn ys xs u.1 (λ n a p. w n a (ground (arith, str_eq_iff x.name n))),
)

AllIn-remove :
    (n : Str) (ys xs : List Attr)
    → lookup_loop n xs ≡ none
    → AllIn ys xs
    → AllIn (remove_first n ys) xs
unfolding lookup_loop
AllIn-remove n ys [] e w = tt
AllIn-remove n ys (x ∷ xs) e w = (
  lookup_loop-remove_ne n x.name ys (λ p. ground (arith, str_eq_iff x.name n)) ∙ w.0,
  AllIn-remove n ys xs (ground arith) w.1,
)

-- Distinct names that all occur in a second list are at most as many as the names there.
AllIn-length : (xs ys : List Attr) → IsUnique xs → IsUnique ys → AllIn ys xs → length xs ≤ length ys
AllIn-length [] ys u v w = omega arith
AllIn-length (x ∷ xs) ys u v w = omega (
  arith,
  length-remove x.name ys x w.0,
  AllIn-length xs (remove_first x.name ys) u.1 (remove_first-IsUnique x.name ys v)
      (AllIn-remove x.name ys xs u.0 w.1),
)

-- They are fewer if one of the names there does not occur among them.
AllIn-length_lt :
    (n : Str) (b : Attr) (xs ys : List Attr)
    → IsUnique xs
    → IsUnique ys
    → AllIn ys xs
    → lookup_loop n xs ≡ none
    → lookup_loop n ys ≡ some b
    → length xs < length ys
AllIn-length_lt n b xs ys u v w p q = omega (
  arith,
  length-remove n ys b q,
  AllIn-length xs (remove_first n ys) u (remove_first-IsUnique n ys v) (AllIn-remove n ys xs p w),
)

AllIn-same :
    (n : Str) (xs ys : List Attr)
    → IsUnique xs
    → IsUnique ys
    → AllIn ys xs
    → length xs ≡ length ys
    → lookup_loop n xs ≡ lookup_loop n ys
AllIn-same n xs ys u v w e = elim (Option-cases (lookup_loop n xs)) [
  | inr (a, p) ↦ p ∙ sym (AllIn-Within ys xs w n a p)
  | inl p ↦ elim (Option-cases (lookup_loop n ys)) [
    | inl q ↦ p ∙ sym q
    | inr (b, q) ↦ absurd (omega (arith, AllIn-length_lt n b xs ys u v w p q))
  ]
]

-- xcm_attr_map_equal() of two valid maps returns true exactly when every lookup finds the same
-- attribute, or none, in both.
pub equal_iff :
    (a b : AttrMap)
    → IsValid a
    → IsValid b
    → (xcm_attr_map_equal a b ≡ true) ↔ ((n : Str) → lookup_attr a n ≡ lookup_attr b n)
unfolding xcm_attr_map_equal lookup_attr
equal_iff a b u v = (
  λ h n.
      AllIn-same n a.attrs b.attrs u.unique v.unique
        (equal_loop-AllIn b.attrs a.attrs (ground arith)) (ground arith),
  λ same.
      let w : AllIn b.attrs a.attrs =
        Within-AllIn b.attrs a.attrs u.unique (λ n x p. sym (same n) ∙ p) in
      let w' : AllIn a.attrs b.attrs =
        Within-AllIn a.attrs b.attrs v.unique (λ n x p. same n ∙ p) in
      ground (
        arith,
        AllIn-equal_loop b.attrs a.attrs w,
        AllIn-length a.attrs b.attrs u.unique v.unique w,
        AllIn-length b.attrs a.attrs v.unique u.unique w',
      ),
)
