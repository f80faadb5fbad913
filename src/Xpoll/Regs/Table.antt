-- ===== src/Xpoll/Regs/Table.antt =====
-- What holds of the table of file descriptors of libxcm/core/xpoll.c between two calls.
use xcm.Base.{
  ℕ, zero, suc, ◌+◌, ◌-◌, ◌*◌, ◌≡◌, ◌≢◌, ◌⊎◌, inl, inr, refl, ap, ◌∙◌, Bool, true, false, some,
  List, [], ◌∷◌, ℤ, pos, minus_one, eq_ℤ, eq_ℤ_iff, is_nonneg, length, get_elem?, replicate, ◌==◌,
  arith, Bool-cases,
}
use xcm.Base.Counting.{
  count, count-append, count-replicate, count_all, get_elem?-extend, get_elem?-extend_at,
  get_elem?-append_left,
}
use xcm.Xpoll.{FdReg}
use xcm.Xpoll.Regs.{
  Regs, free_reg, find_loop, find_fd, has_fd, allocate_fd_reg_idx, regs_extend_capacity,
  next_capacity,
}

abbrev pub is_used : FdReg → Bool
is_used reg = is_nonneg reg.fd

-- What holds of the table and its number of entries in use.
pub record TableInv (fd_regs : List FdReg) (num : ℕ) : Type 0 where
  pub counted : count is_used fd_regs ≡ num
  pub unique :
      (i j : ℕ) (a b : FdReg)
      → get_elem? fd_regs i ≡ some a
      → get_elem? fd_regs j ≡ some b
      → is_used a ≡ true
      → a.fd ≡ b.fd
      → i ≡ j
  pub marked :
      (i : ℕ) (a : FdReg) → get_elem? fd_regs i ≡ some a → is_used a ≡ false → a.fd ≡ minus_one

-- No entry has the descriptor.
abbrev pub Absent : ℤ → List FdReg → Type 0
Absent fd xs = (j : ℕ) (a : FdReg) → get_elem? xs j ≡ some a → a.fd ≢ fd

Absent-cons : (fd : ℤ) (x : FdReg) (xs : List FdReg) → x.fd ≢ fd → Absent fd xs → Absent fd (x ∷ xs)
Absent-cons fd x xs h k zero a e = λ p. h (let same : x ≡ a = cc in ap (λ r. r.fd) same ∙ p)
Absent-cons fd x xs h k (suc j) a e = k j a e

-- The loop finds an entry with the descriptor, unless there is none.
pub find_loop_lem :
    (fd : ℤ) (i : ℕ) (xs : List FdReg)
    → ((find_loop fd i xs ≡ minus_one) × Absent fd xs)
      ⊎ ((n : ℕ) × (a : FdReg) × (find_loop fd i xs ≡ pos (i + n))
          × (get_elem? xs n ≡ some a)
          × (a.fd ≡ fd))
unfolding find_loop
find_loop_lem fd i [] = inl (refl, (λ j a h. cc))
find_loop_lem fd i (x ∷ xs) = elim (Bool-cases (eq_ℤ x.fd fd)) [
  | inl e ↦ inr (0, x, ground (arith, e), refl, (eq_ℤ_iff x.fd fd).0 e)
  | inr e ↦ elim (find_loop_lem fd (i + 1) xs) [
    | inl (p, q) ↦ inl (rw e p, Absent-cons fd x xs (λ h. ground (arith, e, eq_ℤ_iff x.fd fd)) q)
    | inr (n, a, p, q, r) ↦ inr (suc n, a, ground (arith, e, p), q, r)
  ]
]

-- has_fd() is false exactly when no entry has the descriptor.
pub has_fd-Absent : (xs : List FdReg) (fd : ℤ) → has_fd xs fd ≡ false → Absent fd xs
unfolding has_fd
has_fd-Absent xs fd h = elim (find_loop_lem fd 0 xs) [
  | inl (p, q) ↦ q
  | inr (n, a, p, q, r) ↦ absurd (ground (arith, p))
]

-- What allocate_fd_reg_idx() leaves: `idx` is a free entry of the table `table`, which holds the
-- entries of `fd_regs` where they were, and otherwise free ones.
pub record Allocated (fd_regs table : List FdReg) (idx : ℕ) : Type 0 where
  pub slot : (a : FdReg) × (get_elem? table idx ≡ some a) × (a.fd ≡ minus_one)
  pub kept : (j : ℕ) (a : FdReg) → get_elem? fd_regs j ≡ some a → get_elem? table j ≡ some a
  pub only :
      (j : ℕ) (a : FdReg)
      → get_elem? table j ≡ some a
      → (get_elem? fd_regs j ≡ some a) ⊎ (free_reg ≡ a)
  pub same_count : count is_used table ≡ count is_used fd_regs

extended :
    (fd_regs : List FdReg)
    → Allocated fd_regs
        (regs_extend_capacity fd_regs (next_capacity (length fd_regs)))
        (length fd_regs)
unfolding regs_extend_capacity next_capacity
extended fd_regs =
    let n : ℕ = (length fd_regs + 1) * 2 - length fd_regs in
    record {
      slot = (free_reg, get_elem?-extend_at fd_regs n free_reg (omega arith), refl);
      kept = λ j a h. get_elem?-append_left fd_regs (replicate n free_reg) j a h;
      only = λ j a h. get_elem?-extend fd_regs n j free_reg a h;
      same_count = omega (
        arith,
        count-append is_used fd_regs (replicate n free_reg),
        count-replicate is_used n free_reg refl,
      );
    }

-- With a valid table the allocation finds a free entry.
pub allocate_lem :
    {K : Type 0} (x : Regs K)
    → TableInv x.fd_regs x.num_fd_regs
    → (idx : ℕ) × (table : List FdReg) × (allocate_fd_reg_idx x
        ≡ (pos idx, record x { fd_regs = table; num_fd_regs = x.num_fd_regs + 1 }))
      × Allocated x.fd_regs table idx
unfolding allocate_fd_reg_idx find_fd
allocate_lem x v = elim (Bool-cases (x.num_fd_regs == length x.fd_regs)) [
  | inl full ↦ (
    length x.fd_regs,
    regs_extend_capacity x.fd_regs (next_capacity (length x.fd_regs)),
    rw full,
    extended x.fd_regs,
  )
  | inr room ↦ elim (find_loop_lem minus_one 0 x.fd_regs) [
    | inl (p, q) ↦ absurd (
        ground (
          arith,
          room,
          v.counted,
          count_all is_used x.fd_regs (λ i a e. elim (Bool-cases (is_used a)) [
            | inl used ↦ used
            | inr free ↦ absurd (q i a e (v.marked i a e free))
          ]),
        ))
    | inr (n, a, p, q, r) ↦ (
      n,
      x.fd_regs,
      ground (arith, room, p),
      record { slot = (a, q, r); kept = λ j b h. h; only = λ j b h. inl h; same_count = refl },
    )
  ]
]
