-- ===== src/Slist/Join.antt =====
-- slist_join() of common/slist.c: the buffer that it allocates suffices, and what it fills in.
use xcm.Base.{
  ℕ, suc, ◌+◌, ◌≡◌, ◌≤◌, refl, some, List, [], ◌∷◌, ◌++◌, arith, Str, length, length-append,
  append_assoc, le→leb, ◌∙◌, ap,
}
use xcm.Slist.{
  Slist, slist_join, elems_len, buf_append, join_loop, join_first, slist_len, delim_bytes,
}
use xcm.Slist.Spec.{joined, joined_from}

buf_append_fits :
    (n : ℕ) (buf s : Str) → length buf + length s + 1 ≤ n → buf_append n buf s ≡ some (buf ++ s)
unfolding buf_append
buf_append_fits n buf s h = rw (le→leb _ _ h)

-- What the buffer holds after the loop, in the order in which the loop adds it.
joined_tail : (delim : ℕ) → Str → List Str → Str
joined_tail delim buf [] = buf
joined_tail delim buf (e ∷ rest) = joined_tail delim ((buf ++ delim_bytes delim) ++ e) rest

joined_tail-from :
    (delim : ℕ) (buf e : Str) (rest : List Str)
    → joined_tail delim (buf ++ e) rest ≡ buf ++ joined_from delim e rest
unfolding joined_tail joined_from
joined_tail-from delim buf e [] = refl
joined_tail-from delim buf e (f ∷ rest) =
    joined_tail-from delim ((buf ++ e) ++ delim_bytes delim) f rest ∙ simp append_assoc

delim_bytes-length : (delim : ℕ) → length (delim_bytes delim) ≤ 1
unfolding delim_bytes
delim_bytes-length delim = ground arith

join_loop_lem :
    (n delim : ℕ) (buf : Str) (rest : List Str)
    → length buf + (elems_len rest + length rest) + 1 ≤ n
    → join_loop n delim buf rest ≡ some (joined_tail delim buf rest)
unfolding join_loop joined_tail elems_len
join_loop_lem n delim buf [] h = refl
join_loop_lem n delim buf (e ∷ rest) h =
    let delimited : Str = buf ++ delim_bytes delim in
    let one : length (delim_bytes delim) ≤ 1 = delim_bytes-length delim in
    let room : length delimited ≡ length buf + length (delim_bytes delim) =
      length-append {0} buf (delim_bytes delim) in
    let ih : join_loop n delim (delimited ++ e) rest
        ≡ some (joined_tail delim (delimited ++ e) rest) =
      join_loop_lem n delim (delimited ++ e) rest
        (omega (arith, one, room, length-append {0} delimited e)) in
    rw (join_loop, buf_append_fits n buf (delim_bytes delim) (omega (arith, one)))
      (rw (join_loop, buf_append_fits n delimited e (omega (arith, one, room))) ih)

join_first_lem :
    (delim : ℕ) (xs : List Str)
    → join_first (elems_len xs + length xs) delim xs ≡ some (joined delim xs)
unfolding join_first elems_len joined
join_first_lem delim [] = refl
join_first_lem delim (e ∷ rest) =
    let n : ℕ = length e + elems_len rest + suc (length rest) in
    rw (join_first, buf_append_fits n [] e (omega arith))
      (join_loop_lem n delim e rest (omega arith) ∙ ap some (joined_tail-from delim [] e rest))

-- slist_join() never writes outside the buffer that it allocates, and returns the strings in
-- order with one delimiter between each two of them, or with nothing between them if it is NUL.
pub slist_join_lem :
    (slist : Slist) (delim : ℕ) → slist_join slist delim ≡ some (joined delim slist.elems)
unfolding slist_join slist_len joined
slist_join_lem slist delim = ground (arith, join_first_lem delim slist.elems)
