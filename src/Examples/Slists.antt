-- ===== src/Examples/Slists.antt =====
-- common/slist.c on the string "a,,bc".
use xcm.Base.{ℕ, ◌↔◌, true, ◌≡◌, refl, some, arith, [], ◌∷◌, Str, c_str}
use xcm.Slist.{Slist, slist_get, slist_has, slist_join, slist_split}
use xcm.Slist.Spec.{joined, slist_has_iff}
use xcm.Slist.Split.{split-join, join-split}
use xcm.Slist.Join.{slist_join_lem}

abbrev fields : Slist
fields = record { elems = c_str "a" ∷ c_str "" ∷ c_str "bc" ∷ [] }

split_fields : slist_split (c_str "a,,bc") b',' ≡ some fields
unfolding slist_split
split_fields = refl

join_fields : slist_join fields b',' ≡ some (c_str "a,,bc")
unfolding slist_join
join_fields = refl

split-join_example :
    (s : Str) × (slist_join fields b',' ≡ some s) × (slist_split s b',' ≡ some fields)
split-join_example = split-join fields b',' (omega arith) (omega arith) (λ e. cc)

join-split_example :
    (slist : Slist) × (slist_split (c_str "a,,bc") b',' ≡ some slist)
    × (slist_join slist b',' ≡ some (c_str "a,,bc"))
join-split_example = join-split (c_str "a,,bc") b',' (omega arith)

slist_join_example : slist_join fields b',' ≡ some (joined b',' fields.elems)
slist_join_example = slist_join_lem fields b','

slist_has_example :
    (slist_has fields (c_str "bc") ≡ true) ↔ ((i : ℕ) × (slist_get fields i ≡ some (c_str "bc")))
slist_has_example = slist_has_iff fields (c_str "bc")
