-- ===== src/Slist.antt =====
-- common/slist.c: a growable list of strings. `struct slist` is the list of its `elems`, each a
-- copy of the caller's string; its field `len` is the length of that list. Reads past `len` are
-- `none`, and so is a write past the end of the buffer that slist_join() allocates.
pub mod Spec
pub mod Join
pub mod Split
use xcm.Base.{
  ℕ, zero, suc, ◌+◌, ◌≡◌, Bool, true, false, Option, none, some, List, [], ◌∷◌, ◌++◌, Str, str_eq,
  length, map, take, set, get_elem?, leb, ◌==◌, if◌then◌else◌,
}

pub record Slist : Type 0 where
  pub elems : List Str

-- slist_create()
unfoldable pub slist_create : Slist
slist_create = record { elems = [] }

-- ut_realloc() of the array to `len` elements: the first ones stay, and what is new has no value.
unfoldable pub ut_realloc : List (Option Str) → ℕ → List (Option Str)
ut_realloc elems zero = []
ut_realloc [] (suc len) = none ∷ ut_realloc [] len
ut_realloc (e ∷ elems) (suc len) = e ∷ ut_realloc elems len

-- The strings of an array, up to the first element without a value.
unfoldable pub filled : List (Option Str) → List Str
filled [] = []
filled (none ∷ elems) = []
filled (some e ∷ elems) = e ∷ filled elems

-- append() of slist.c: the `str_len` bytes at `str`, which the caller hands over as `str`, are copied
-- into the element at the index `len` of the larger array.
unfoldable pub append : Slist → Str → Slist
unfolding ut_realloc filled
append slist str =
    let len = length slist.elems in
    let new_len = len + 1 in
    let grown = ut_realloc (map some slist.elems) new_len in
    record { elems = take new_len (filled (set grown len (some str))) }

-- slist_append()
unfoldable pub slist_append : Slist → Str → Slist
unfolding append
slist_append slist str = append slist str

clone_loop : Slist → List Str → Slist
unfolding slist_append
clone_loop copy [] = copy
clone_loop copy (e ∷ rest) = clone_loop (slist_append copy e) rest

-- slist_clone()
unfoldable pub slist_clone : Slist → Slist
unfolding clone_loop slist_create
slist_clone orig = clone_loop slist_create orig.elems

-- slist_get()
unfoldable pub slist_get : Slist → ℕ → Option Str
slist_get slist index = get_elem? slist.elems index

-- slist_len()
unfoldable pub slist_len : Slist → ℕ
slist_len slist = length slist.elems

has_loop : Str → List Str → Bool
has_loop str [] = false
has_loop str (e ∷ rest) = if str_eq e str then true else has_loop str rest

-- slist_has()
unfoldable pub slist_has : Slist → Str → Bool
unfolding has_loop
slist_has slist str = has_loop str slist.elems

-- The loop of slist_join() that sums up the lengths.
unfoldable pub elems_len : List Str → ℕ
elems_len [] = 0
elems_len (e ∷ rest) = length e + elems_len rest

-- A write of the bytes `s` and a NUL at the end of the string in a buffer of `buf_len` bytes.
unfoldable pub buf_append : ℕ → Str → Str → Option Str
buf_append buf_len buf s = if leb (length buf + length s + 1) buf_len then some (buf ++ s) else none

-- What a string grows by when a byte is written to its end: nothing, if the byte is NUL.
unfoldable pub delim_bytes : ℕ → Str
delim_bytes delim = if delim == 0 then [] else delim ∷ []

-- The loop of slist_join() that copies, from the element after the first on: `buf` is the string
-- that the buffer holds.
unfoldable pub join_loop : ℕ → ℕ → Str → List Str → Option Str
unfolding buf_append delim_bytes
join_loop buf_len delim buf [] = some buf
join_loop buf_len delim buf (e ∷ rest) = elim (buf_append buf_len buf (delim_bytes delim)) [
  | none ↦ none
  | some delimited ↦ elim (buf_append buf_len delimited e) [
    | none ↦ none
    | some filled ↦ join_loop buf_len delim filled rest
  ]
]

-- The round of that loop for i == 0, which writes no delimiter.
join_first : ℕ → ℕ → List Str → Option Str
unfolding join_loop
join_first buf_len delim [] = some []
join_first buf_len delim (e ∷ rest) = elim (buf_append buf_len [] e) [
  | none ↦ none
  | some filled ↦ join_loop buf_len delim filled rest
]

-- slist_join()
unfoldable pub slist_join : Slist → ℕ → Option Str
unfolding join_first elems_len slist_len
slist_join slist delim =
    if slist_len slist == 0
    then some []
    else join_first (elems_len slist.elems + slist_len slist) delim slist.elems

-- strchrnul(s, delim), as the bytes before the delimiter found, and what begins with it.
unfoldable pub strchrnul : Str → ℕ → Str × Str
strchrnul [] delim = ([], [])
strchrnul (c ∷ s) delim =
    let (left, end) = strchrnul s delim in if c == delim then ([], c ∷ s) else (c ∷ left, end)

-- The loop of slist_split(), on fuel; `none` means that the fuel ran out.
unfoldable pub split_loop : ℕ → ℕ → Slist → Str → Option Slist
unfolding append strchrnul
split_loop zero delim slist left = none
split_loop (suc fuel) delim slist left =
    let (elem, end) = strchrnul left delim in
    elim end [
      | [] ↦ some (append slist elem)
      | c ∷ next ↦ split_loop fuel delim (append slist elem) next
    ]

-- slist_split()
unfoldable pub slist_split : Str → ℕ → Option Slist
unfolding split_loop slist_create
slist_split str delim =
    if length str == 0
    then some slist_create
    else split_loop (length str + 1) delim slist_create str
