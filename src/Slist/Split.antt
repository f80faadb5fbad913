-- ===== src/Slist/Split.antt =====
-- slist_split() of common/slist.c: it ends, and it and slist_join() are inverse to one another.
use xcm.Base.{
  ℕ, zero, suc, ◌+◌, ◌≡◌, ◌≢◌, ◌⊎◌, ◌<◌, refl, some, List, [], ◌∷◌, ◌++◌, arith, Str, length,
  append_assoc, if◌then◌else◌, ◌∙◌, ap, ◌==◌, All, Bool-cases, inl, inr,
}
use xcm.Slist.{Slist, slist_create, slist_join, slist_split, split_loop, append, strchrnul}
use xcm.Slist.Spec.{joined, joined_from, IsFree, delim_bytes-ne, append_lem}
use xcm.Slist.Join.{slist_join_lem}

-- The pieces that the loop finds: the first, and the others.
pieces : Str → ℕ → Str × List Str
pieces [] delim = ([], [])
pieces (c ∷ s) delim =
    let (first, others) = pieces s delim in
    if c == delim then ([], first ∷ others) else (c ∷ first, others)

strchrnul-pieces :
    (s : Str) (delim : ℕ)
    → ((strchrnul s delim).1 ≡ []) × (pieces s delim ≡ ((strchrnul s delim).0, []))
      ⊎ ((c : ℕ) × (next : Str) × ((strchrnul s delim).1 ≡ c ∷ next)
          × (length next < length s)
          × (pieces s delim
              ≡ ((strchrnul s delim).0, (pieces next delim).0 ∷ (pieces next delim).1)))
unfolding strchrnul pieces
strchrnul-pieces [] delim = inl (refl, refl)
strchrnul-pieces (c ∷ s) delim = elim (Bool-cases (c == delim)) [
  | inl e ↦ inr (c, s, rw e, omega arith, rw e)
  | inr e ↦ elim (strchrnul-pieces s delim) [
    | inl (p, q) ↦ inl (rw e p, rw (e, q))
    | inr (d, next, p, q, r) ↦ inr (d, next, rw e p, omega arith, rw (e, r))
  ]
]

split_loop_lem :
    (fuel delim : ℕ) (slist : Slist) (left : Str)
    → length left < fuel
    → split_loop fuel delim slist left
      ≡ some (record { elems = slist.elems ++ ((pieces left delim).0 ∷ (pieces left delim).1) })
unfolding split_loop
split_loop_lem zero delim slist left h = elim h [ ]
split_loop_lem (suc fuel) delim slist left h = elim (strchrnul-pieces left delim) [
  | inl (p, q) ↦ rw (split_loop, p) (rw q (ap some (append_lem slist (strchrnul left delim).0)))
  | inr (c, next, p, q, r) ↦
      rw (split_loop, p)
        (rw r (
          split_loop_lem fuel delim (append slist (strchrnul left delim).0) next (omega arith)
          ∙ ap (λ l. some (record { elems = l ++ ((pieces next delim).0 ∷ (pieces next delim).1) }))
              (ap (λ s. s.elems) (append_lem slist (strchrnul left delim).0))
          ∙ simp append_assoc))
]

joined_from-cons :
    (delim c : ℕ) (e : Str) (rest : List Str)
    → joined_from delim (c ∷ e) rest ≡ c ∷ joined_from delim e rest
unfolding joined_from
joined_from-cons delim c e [] = refl
joined_from-cons delim c e (f ∷ rest) = refl

joined-pieces :
    (s : Str) (delim : ℕ) → delim ≢ 0 → joined_from delim (pieces s delim).0 (pieces s delim).1 ≡ s
unfolding pieces joined_from
joined-pieces [] delim h = refl
joined-pieces (c ∷ s) delim h = ground (
  arith,
  joined-pieces s delim h,
  delim_bytes-ne delim h,
  joined_from-cons delim c (pieces s delim).0 (pieces s delim).1,
)

pieces-free :
    (delim : ℕ) (e s : Str)
    → IsFree delim e
    → pieces (e ++ (delim ∷ s)) delim ≡ (e, (pieces s delim).0 ∷ (pieces s delim).1)
unfolding pieces
pieces-free delim [] s h = ground arith
pieces-free delim (c ∷ e) s h = ground (arith, pieces-free delim e s h.1)

pieces-free_last : (delim : ℕ) (e : Str) → IsFree delim e → pieces e delim ≡ (e, [])
unfolding pieces
pieces-free_last delim [] h = refl
pieces-free_last delim (c ∷ e) h = ground (arith, pieces-free_last delim e h.1)

pieces-joined :
    (delim : ℕ) (e : Str) (rest : List Str)
    → delim ≢ 0
    → IsFree delim e
    → All (IsFree delim) rest
    → pieces (joined_from delim e rest) delim ≡ (e, rest)
unfolding joined_from
pieces-joined delim e [] ne h k = pieces-free_last delim e h
pieces-joined delim e (f ∷ rest) ne h k =
    ap (λ d. pieces (e ++ (d ++ joined_from delim f rest)) delim) (delim_bytes-ne delim ne)
    ∙ pieces-free delim e (joined_from delim f rest) h
    ∙ rw (pieces-joined delim f rest ne k.0 k.1)

split-pieces :
    (s : Str) (delim : ℕ)
    → s ≢ []
    → slist_split s delim ≡ some (record { elems = (pieces s delim).0 ∷ (pieces s delim).1 })
unfolding slist_split slist_create
split-pieces [] delim h = absurd (h refl)
split-pieces (c ∷ s) delim h =
    ground (arith, split_loop_lem (length (c ∷ s) + 1) delim slist_create (c ∷ s))

-- The pieces of a string without NUL, joined.
joined-pieces_free :
    (s : Str) (delim : ℕ) → IsFree 0 s → joined_from delim (pieces s delim).0 (pieces s delim).1 ≡ s
unfolding joined_from
joined-pieces_free s zero h = rw (pieces-free_last zero s h) refl
joined-pieces_free s (suc n) h = joined-pieces s (suc n) (λ e. cc)

-- slist_split() ends for every string, which is to say bytes other than NUL, and for every
-- delimiter, NUL among them; and slist_join() of its result with the same delimiter is that string
-- again.
pub join-split :
    (s : Str) (delim : ℕ)
    → IsFree 0 s
    → (slist : Slist) × (slist_split s delim ≡ some slist) × (slist_join slist delim ≡ some s)
unfolding slist_split slist_create joined
join-split [] delim h = (record { elems = [] }, refl, slist_join_lem (record { elems = [] }) delim)
join-split (c ∷ s) delim h =
    let slist : Slist = record { elems = (pieces (c ∷ s) delim).0 ∷ (pieces (c ∷ s) delim).1 } in
    (
      slist,
      split-pieces (c ∷ s) delim (λ e. cc),
      slist_join_lem slist delim ∙ ap some (joined-pieces_free (c ∷ s) delim h),
    )

joined_from-ne-nil :
    (delim : ℕ) (e : Str) (rest : List Str)
    → delim ≢ 0
    → ◌≢◌ {A = List Str} (e ∷ rest) ([] ∷ [])
    → joined_from delim e rest ≢ []
unfolding joined_from
joined_from-ne-nil delim [] [] ne h = absurd (h refl)
joined_from-ne-nil delim (c ∷ e) [] ne h = λ p. cc
joined_from-ne-nil delim [] (f ∷ rest) ne h = λ p. ground (arith, p, delim_bytes-ne delim ne)
joined_from-ne-nil delim (c ∷ e) (f ∷ rest) ne h = λ p. cc

split-joined :
    (delim : ℕ) (xs : List Str)
    → delim ≢ 0
    → All (IsFree delim) xs
    → ◌≢◌ {A = List Str} xs ([] ∷ [])
    → slist_split (joined delim xs) delim ≡ some (record { elems = xs })
unfolding joined
split-joined delim [] ne h k = unfold slist_split slist_create in refl
split-joined delim (e ∷ rest) ne h k =
    split-pieces (joined_from delim e rest) delim (joined_from-ne-nil delim e rest ne k)
    ∙ rw (pieces-joined delim e rest ne h.0 h.1)

-- slist_split() of what slist_join() returns is the list that was joined, if none of its strings
-- holds the delimiter, which is not NUL, and it is not the list of one empty string.
pub split-join :
    (slist : Slist) (delim : ℕ)
    → delim ≢ 0
    → All (IsFree delim) slist.elems
    → slist.elems ≢ [] ∷ []
    → (s : Str) × (slist_join slist delim ≡ some s) × (slist_split s delim ≡ some slist)
split-join slist delim ne h k =
    (joined delim slist.elems, slist_join_lem slist delim, split-joined delim slist.elems ne h k)
