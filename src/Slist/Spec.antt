-- ===== src/Slist/Spec.antt =====
-- What the list promises, independent of the loops of common/slist.c.
use xcm.Base.{
  ℕ, zero, suc, ◌+◌, ◌≡◌, ◌≢◌, ◌↔◌, refl, ap, true, some, List, [], ◌∷◌, ◌++◌, arith, Str, str_eq,
  map, take, set, ◌∙◌, str_eq_iff, length, get_elem?, append_assoc, append-nil, inl, inr, All,
  Bool-cases,
}
use xcm.Slist.{
  Slist, slist_create, slist_append, slist_clone, clone_loop, slist_get, slist_has, has_loop,
  append, ut_realloc, filled, delim_bytes,
}
use native.Mathlib.Nat.{suc-add}

-- The strings with the delimiter between them, or nothing if it is NUL.
unfoldable pub joined_from : ℕ → Str → List Str → Str
joined_from delim e [] = e
joined_from delim e (f ∷ rest) = e ++ (delim_bytes delim ++ joined_from delim f rest)

pub delim_bytes-ne : (delim : ℕ) → delim ≢ 0 → delim_bytes delim ≡ delim ∷ []
unfolding delim_bytes
delim_bytes-ne delim h = ground (arith, h)

unfoldable pub joined : ℕ → List Str → Str
unfolding joined_from
joined delim [] = []
joined delim (e ∷ rest) = joined_from delim e rest

-- No byte of the string is the delimiter.
abbrev pub IsFree : ℕ → Str → Type 0
IsFree delim = All (λ c. c ≢ delim)

filled-grown :
    (xs : List Str) (str : Str)
    → take
        (length xs + 1)
        (filled (set (ut_realloc (map some xs) (length xs + 1)) (length xs) (some str)))
      ≡ xs ++ (str ∷ [])
unfolding ut_realloc filled
filled-grown [] str = refl
filled-grown (x ∷ xs) str = rw suc-add (ap (λ r. x ∷ r) (filled-grown xs str))

-- append() puts the string after the others.
pub append_lem :
    (slist : Slist) (str : Str) → append slist str ≡ record { elems = slist.elems ++ (str ∷ []) }
unfolding append
append_lem slist str = λ i. record { elems = filled-grown slist.elems str i }

pub slist_append-elems :
    (slist : Slist) (str : Str) → (slist_append slist str).elems ≡ slist.elems ++ (str ∷ [])
unfolding slist_append
slist_append-elems slist str = ap (λ s. s.elems) (append_lem slist str)

clone_loop_lem : (copy : Slist) (xs : List Str) → (clone_loop copy xs).elems ≡ copy.elems ++ xs
unfolding clone_loop
clone_loop_lem copy [] = simp append-nil
clone_loop_lem copy (e ∷ xs) =
    clone_loop_lem (slist_append copy e) xs
    ∙ ap (λ l. l ++ xs) (slist_append-elems copy e)
    ∙ append_assoc copy.elems (e ∷ []) xs

-- A clone holds the same strings in the same order.
pub slist_clone_lem : (orig : Slist) → slist_clone orig ≡ orig
unfolding slist_clone slist_create
slist_clone_lem orig = λ i. record { elems = clone_loop_lem (record { elems = [] }) orig.elems i }

has_loop-get :
    (str : Str) (xs : List Str) → has_loop str xs ≡ true → (i : ℕ) × (get_elem? xs i ≡ some str)
unfolding has_loop
has_loop-get str [] h = cc
has_loop-get str (x ∷ xs) h = elim (Bool-cases (str_eq x str)) [
  | inl e ↦ (0, ap some ((str_eq_iff x str).0 e))
  | inr e ↦ let (i, p) = has_loop-get str xs (ground arith) in (suc i, p)
]

get-has_loop :
    (str : Str) (xs : List Str) (i : ℕ) → get_elem? xs i ≡ some str → has_loop str xs ≡ true
unfolding has_loop
get-has_loop str [] i h = cc
get-has_loop str (x ∷ xs) zero h = ground (arith, str_eq_iff x str)
get-has_loop str (x ∷ xs) (suc i) h = ground (arith, get-has_loop str xs i h)

-- slist_has() returns true exactly when slist_get() returns the string at some index.
pub slist_has_iff :
    (slist : Slist) (str : Str)
    → (slist_has slist str ≡ true) ↔ ((i : ℕ) × (slist_get slist i ≡ some str))
unfolding slist_has slist_get
slist_has_iff slist str = (has_loop-get str slist.elems, λ (i, p). get-has_loop str slist.elems i p)
