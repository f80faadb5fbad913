-- ===== src/ActiveFd/Users.antt =====
-- libxcm/tp/common/active_fd.c as a count of users for each descriptor.
use xcm.Base.{
  subst, ℕ, ◌+◌, ◌-◌, ◌≡◌, ◌≢◌, ◌≤◌, ◌<◌, ◌⊎◌, inl, inr, refl, sym, ap, Bool, true, false, none,
  some, List, [], ◌∷◌, ℤ, pos, minus_one, eq_ℤ, eq_ℤ_iff, ltb, ◌==◌, if◌then◌else◌, arith,
  Bool-cases, Option-cases,
}
use xcm.Kernel.{Kernel}
use xcm.ActiveFd.{
  ActiveFd, max_users_per_fd, fd_retrieve, put_loop, fd_create, active_fd_get, active_fd_put,
}

-- The number of users of a descriptor.
unfoldable pub users : ℤ → List ActiveFd → ℕ
users fd [] = 0
users fd (a ∷ rest) = if eq_ℤ a.fd fd then a.cnt else users fd rest

-- Each descriptor stands on the list once, with 1 to 100 users.
abbrev pub IsValid : List ActiveFd → Type 0
IsValid [] = Unit {0}
IsValid (a ∷ rest) = (0 < a.cnt) × (a.cnt ≤ max_users_per_fd) × (users a.fd rest ≡ 0) × IsValid rest

-- `ys` is `xs` with one user more of `fd`.
pub record OneMore (fd : ℤ) (xs ys : List ActiveFd) : Type 0 where
  pub valid : IsValid ys
  pub counts : (j : ℤ) → users j ys ≡ users j xs + (if eq_ℤ fd j then 1 else 0)

users-apart : (i j : ℤ) (xs : List ActiveFd) → users i xs ≡ 0 → 0 < users j xs → eq_ℤ i j ≡ false
users-apart i j xs h k = elim (Bool-cases (eq_ℤ i j)) [
  | inr e ↦ e
  | inl e ↦ absurd (omega (arith, ap (λ f. users f xs) ((eq_ℤ_iff i j).0 e)))
]

retrieve_lem :
    (xs : List ActiveFd)
    → IsValid xs
    → (fd_retrieve xs ≡ none)
      ⊎ ((fd : ℤ) × (ys : List ActiveFd) × (fd_retrieve xs ≡ some (fd, ys))
          × (0 < users fd xs)
          × OneMore fd xs ys)
unfolding fd_retrieve users
retrieve_lem [] v = inl refl
retrieve_lem (a ∷ xs) v = elim (Bool-cases (ltb a.cnt max_users_per_fd)) [
  | inl room ↦ inr (
    a.fd,
    record a { cnt = a.cnt + 1 } ∷ xs,
    rw room,
    ground (arith, v.0, eq_ℤ_iff a.fd a.fd),
    record {
      valid = (omega arith, ground (arith, room), v.2, v.3);
      counts = λ j. ground (arith, eq_ℤ_iff a.fd j, v.2);
    },
  )
  | inr full ↦ elim (retrieve_lem xs v.3) [
    | inl nothing ↦ inl (rw (full, nothing))
    | inr (fd, ys, found, used, more) ↦ inr (
      fd,
      a ∷ ys,
      rw (full, found),
      ground (arith, used, users-apart a.fd fd xs v.2 used),
      record {
        valid = (
          v.0,
          v.1,
          ground (
            arith,
            more.counts a.fd,
            v.2,
            users-apart a.fd fd xs v.2 used,
            eq_ℤ_iff a.fd fd,
            eq_ℤ_iff fd a.fd,
          ),
          more.valid,
        );
        counts = λ j. ground (
          arith,
          more.counts j,
          users-apart a.fd fd xs v.2 used,
          eq_ℤ_iff a.fd j,
          eq_ℤ_iff fd j,
          eq_ℤ_iff a.fd fd,
        );
      },
    )
  ]
]

-- `ys` is `xs` with one user less of `fd`.
pub record OneLess (fd : ℤ) (xs ys : List ActiveFd) : Type 0 where
  pub valid : IsValid ys
  pub counts : (j : ℤ) → users j ys + (if eq_ℤ fd j then 1 else 0) ≡ users j xs

put_lem :
    (fd : ℤ) (xs : List ActiveFd)
    → IsValid xs
    → 0 < users fd xs
    → (last : Bool) × (ys : List ActiveFd) × (put_loop fd xs ≡ some (last, ys))
      × (last ≡ (users fd xs == 1))
      × OneLess fd xs ys
unfolding put_loop users
put_lem fd [] v h = absurd (omega arith)
put_lem fd (a ∷ xs) v h = elim (Bool-cases (eq_ℤ a.fd fd)) [
  | inr other ↦
      let (last, ys, found, which, less) = put_lem fd xs v.3 (ground (arith, other)) in
      (
        last,
        a ∷ ys,
        rw (other, found),
        rw other which,
        record {
          valid = (v.0, v.1, ground (arith, less.counts a.fd, v.2), less.valid);
          counts = λ j.
              ground
                (arith, less.counts j, other, eq_ℤ_iff a.fd j, eq_ℤ_iff fd j, eq_ℤ_iff a.fd fd);
        },
      )
  | inl this ↦ elim (Bool-cases (a.cnt - 1 == 0)) [
    | inl last ↦ (
      true,
      xs,
      rw (this, last),
      ground (arith, this, last, v.0),
      record {
        valid = v.3;
        counts = λ j.
            ground (arith, this, last, v.0, v.2, eq_ℤ_iff a.fd j, eq_ℤ_iff fd j, eq_ℤ_iff a.fd fd);
      },
    )
    | inr more ↦ (
      false,
      record a { cnt = a.cnt - 1 } ∷ xs,
      rw (this, more),
      ground (arith, this, more, v.0),
      record {
        valid = (ground (arith, more, v.0), omega arith, v.2, v.3);
        counts =
            λ j. ground (arith, this, more, v.0, eq_ℤ_iff a.fd j, eq_ℤ_iff fd j, eq_ℤ_iff a.fd fd);
      },
    )
  ]
]

put-none : (fd : ℤ) (xs : List ActiveFd) → users fd xs ≡ 0 → IsValid xs → put_loop fd xs ≡ none
unfolding put_loop users
put-none fd [] h v = refl
put-none fd (a ∷ xs) h v = ground (arith, v.0, put-none fd xs)

module _ {K : Type 0} (kernel : Kernel K) where
  -- What active_fd_get() leaves of the list `xs`.
  abbrev pub Gets : List ActiveFd → K → ℤ × List ActiveFd × K → Type 0
  Gets xs k r =
      ((r.0 ≡ minus_one) × (r.1 ≡ xs) × ((kernel.eventfd k).0 ≢ none)) ⊎ OneMore r.0 xs r.1

  -- active_fd_get() keeps the list valid, so that no descriptor ever has more than 100 users. It
  -- returns a descriptor that has one user more than before, all others as many as before; only if
  -- eventfd() fails it returns -1, and the list is as it was. The descriptor that eventfd()
  -- returns is not on the list.
  pub active_fd_get_lem :
      (xs : List ActiveFd) (k : K)
      → IsValid xs
      → users (pos (kernel.eventfd k).1) xs ≡ 0
      → Gets xs k (active_fd_get kernel xs k)
  unfolding active_fd_get fd_create users
  active_fd_get_lem xs k v new = elim (retrieve_lem xs v) [
    | inr (fd, ys, found, used, more) ↦
        let result : active_fd_get kernel xs k ≡ (fd, ys, k) = rw (found, active_fd_get) in
        subst (Gets xs k) (sym result) (inr more)
    | inl nothing ↦ elim (Option-cases (kernel.eventfd k).0) [
      | inr (e, failed) ↦
          let result : active_fd_get kernel xs k ≡ (minus_one, xs, (kernel.eventfd k).2) =
            ground (arith, nothing, failed) in
          subst (Gets xs k) (sym result) (inl (refl, refl, (λ p. cc)))
      | inl made ↦
          let fd : ℤ = pos (kernel.eventfd k).1 in
          let ys : List ActiveFd = record { fd = fd; cnt = 1 } ∷ xs in
          let more : OneMore fd xs ys = record {
            valid = (omega arith, omega arith, new, v);
            counts = λ j. ground (arith, new, eq_ℤ_iff fd j);
          } in
          let result : active_fd_get kernel xs k ≡ (fd, ys, (kernel.eventfd k).2) =
            ground (arith, nothing, made) in
          subst (Gets xs k) (sym result) (inr more)
    ]
  ]

  -- active_fd_put() aborts for a descriptor without users. Otherwise it keeps the list valid, takes
  -- one user off the descriptor and none off the others, and closes it exactly if that was the last.
  pub active_fd_put_lem :
      (fd : ℤ) (xs : List ActiveFd) (k : K)
      → IsValid xs
      → (users fd xs ≡ 0 → active_fd_put kernel fd xs k ≡ none)
        × (0 < users fd xs
            → (ys : List ActiveFd) × (active_fd_put kernel fd xs k
                ≡ some (ys, if users fd xs == 1 then kernel.close fd k else k))
              × OneLess fd xs ys)
  unfolding active_fd_put
  active_fd_put_lem fd xs k v = (
    (λ h. ground (arith, put-none fd xs h v)),
    λ h.
        let (last, ys, found, which, less) = put_lem fd xs v h in
        (ys, rw (found, active_fd_put) (rw which), less),
  )
