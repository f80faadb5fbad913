-- ===== src/Xpoll/Regs/Ops.antt =====
-- Registering, changing and removing a file descriptor in libxcm/core/xpoll.c: the table stays
-- valid, and the kernel's interest list agrees with it.
use xcm.Base.{
  ℕ, ◌+◌, ◌-◌, ◌≡◌, ◌≢◌, ◌<◌, ◌⊎◌, inl, inr, refl, sym, ap, ◌∙◌, subst, true, false, Option, none,
  some, List, ℤ, pos, minus_one, eq_ℤ, eq_ℤ_iff, is_nonneg, length, get_elem?, set, ◌==◌,
  if◌then◌else◌, arith, Bool-cases, Option-cases, get_elem?-set_self, get_elem?-set_ne,
}
use xcm.Base.Counting.{count-set, get_elem?-lt, get_elem?-set_cases}
use xcm.Errno.{Errno, ebadf, enoent, eperm}
use xcm.Kernel.{Kernel, EpollLaws, ctl_add, ctl_mod, ctl_del}
use xcm.Xpoll.{FdReg}
use xcm.Xpoll.Regs.{Regs, has_fd, reg_epoll_mod, fd_reg_store, is_ignored, xpoll_fd_reg_add}
use xcm.Xpoll.Regs.Table.{TableInv, is_used, Absent, Allocated, allocate_lem, has_fd-Absent}

-- The kernel's entry for a descriptor that is registered for the events.
abbrev pub wanted : ℕ → Option ℕ
wanted event = if event == 0 then none else some event

-- Writing a slot, if no other entry in use has the descriptor.
set-TableInv :
    (xs : List FdReg) (num idx : ℕ) (old new : FdReg)
    → TableInv xs num
    → get_elem? xs idx ≡ some old
    → (is_used new ≡ false → new.fd ≡ minus_one)
    → ((j : ℕ) (a : FdReg) → j ≢ idx → get_elem? xs j ≡ some a → is_used a ≡ true → a.fd ≢ new.fd)
    → TableInv
        (set xs idx new)
        (num + (if is_used new then 1 else 0) - (if is_used old then 1 else 0))
set-TableInv xs num idx old new v h w z = record {
  counted = omega (arith, count-set is_used xs idx old new h, v.counted);
  unique = λ i j a b p q used same. elim (get_elem?-set_cases xs idx i new a p) [
    | inl (pi, pa) ↦ elim (get_elem?-set_cases xs idx j new b q) [
      | inl (qj, qb) ↦ pi ∙ sym qj
      | inr (qj, qb) ↦
          let fds : b.fd ≡ new.fd = sym same ∙ ap (λ r. r.fd) pa in
          absurd (z j b qj qb (ap is_nonneg (sym same) ∙ used) fds)
    ]
    | inr (pi, pa) ↦ elim (get_elem?-set_cases xs idx j new b q) [
      | inl (qj, qb) ↦ absurd (z i a pi pa used (same ∙ ap (λ r. r.fd) qb))
      | inr (qj, qb) ↦ v.unique i j a b pa qb used same
    ]
  ];
  marked = λ i a p free. elim (get_elem?-set_cases xs idx i new a p) [
    | inl (pi, pa) ↦ ap (λ r. r.fd) pa ∙ w (ap (λ r. is_used r) (sym pa) ∙ free)
    | inr (pi, pa) ↦ v.marked i a pa free
  ];
}

-- An entry in use of the table that an allocation leaves was there before.
Allocated-used :
    (xs table : List FdReg) (idx : ℕ)
    → Allocated xs table idx
    → (j : ℕ) (a : FdReg) → get_elem? table j ≡ some a
    → is_used a ≡ true
    → get_elem? xs j ≡ some a
Allocated-used xs table idx alloc j a e used = elim (alloc.only j a e) [
  | inl p ↦ p
  | inr p ↦ absurd (let free : is_used a ≡ false = ap is_used (sym p) in cc)
]

Allocated-TableInv :
    (xs table : List FdReg) (num idx : ℕ)
    → Allocated xs table idx
    → TableInv xs num
    → TableInv table num
Allocated-TableInv xs table num idx alloc v = record {
  counted = alloc.same_count ∙ v.counted;
  unique = λ i j a b p q used same.
      v.unique i j a b (Allocated-used xs table idx alloc i a p used)
        (Allocated-used xs table idx alloc j b q (ap is_nonneg (sym same) ∙ used)) used same;
  marked = λ i a p free. elim (alloc.only i a p) [
    | inl old ↦ v.marked i a old free
    | inr new ↦ ap (λ r. r.fd) (sym new)
  ];
}

-- An entry in use is not the one that was allocated.
apart_slot :
    (xs table : List FdReg) (idx j : ℕ) (a : FdReg)
    → Allocated xs table idx
    → get_elem? xs j ≡ some a
    → is_used a ≡ true
    → idx ≢ j
apart_slot xs table idx j a alloc e used = λ same.
    let (old, at, free) = alloc.slot in
    let here : get_elem? table j ≡ some old = ap (λ i. get_elem? table i) (sym same) ∙ at in
    let found : some old ≡ some a = sym here ∙ alloc.kept j a e in
    let both : old ≡ a = cc in
    let unused : is_used old ≡ false = ap is_nonneg free in
    let agree : is_used old ≡ is_used a = ap (λ r. is_used r) both in cc

is_ignored_lem : (e : Errno) → is_ignored e ≡ true → (e ≡ ebadf) ⊎ (e ≡ enoent) ⊎ (e ≡ eperm)
is_ignored_lem e h = ground arith

module _ {K : Type 0} (kernel : Kernel K) (interest : K → ℤ → Option ℕ)
    (laws : EpollLaws kernel interest) where
  -- The table is valid, and the kernel's interest list holds for each registered descriptor the
  -- events that the table does, and nothing for any other.
  pub record RegsInv (x : Regs K) : Type 0 where
    pub table : TableInv x.fd_regs x.num_fd_regs
    pub synced :
        (i : ℕ) (a : FdReg)
        → get_elem? x.fd_regs i ≡ some a
        → is_used a ≡ true
        → interest x.kernel_state a.fd ≡ wanted a.event
    pub quiet :
        (fd : ℤ) → is_nonneg fd ≡ true → Absent fd x.fd_regs → interest x.kernel_state fd ≡ none

  -- reg_epoll_mod() leaves the entry with the new events, and the kernel too, unless a call fails
  -- that it does not expect to fail.
  reg_epoll_mod_lem :
      (reg : FdReg) (event : ℕ) (k : K)
      → interest k reg.fd ≡ wanted reg.event
      → (reg_epoll_mod kernel reg event k ≡ none)
        ⊎ ((k' : K) × (reg_epoll_mod kernel reg event k ≡ some (record reg { event = event }, k'))
            × ((j : ℤ) → interest k' j ≡ (if eq_ℤ j reg.fd then wanted event else interest k j)))
  unfolding reg_epoll_mod
  reg_epoll_mod_lem reg event k h = elim (Bool-cases (reg.event == event)) [
    | inl same ↦ inr (k, ground (arith, same), λ j. ground (arith, same, h, eq_ℤ_iff j reg.fd))
    | inr change ↦ elim (Bool-cases (event == 0)) [
      | inl zero_event ↦ elim (Option-cases (kernel.epoll_ctl ctl_del reg.fd 0 k).0) [
        | inl done ↦ inr (
          (kernel.epoll_ctl ctl_del reg.fd 0 k).1,
          ground (arith, change, zero_event, done),
          λ j. laws.ctl_succeeds ctl_del reg.fd j 0 k done ∙ ground (arith, zero_event),
        )
        | inr (e, failed) ↦ elim (Bool-cases (is_ignored e)) [
          | inl ignored ↦ absurd (
              ground (
                arith,
                change,
                zero_event,
                h,
                laws.del_absent reg.fd 0 k e failed (is_ignored_lem e ignored),
              ))
          | inr fatal ↦ inl (ground (arith, change, zero_event, failed, fatal))
        ]
      ]
      | inr some_event ↦ elim (Bool-cases (reg.event == 0)) [
        | inl new ↦ elim (Option-cases (kernel.epoll_ctl ctl_add reg.fd event k).0) [
          | inl done ↦ inr (
            (kernel.epoll_ctl ctl_add reg.fd event k).1,
            ground (arith, change, some_event, new, done),
            λ j. laws.ctl_succeeds ctl_add reg.fd j event k done ∙ ground (arith, some_event),
          )
          | inr (e, failed) ↦ inl (ground (arith, change, some_event, new, failed))
        ]
        | inr old ↦ elim (Option-cases (kernel.epoll_ctl ctl_mod reg.fd event k).0) [
          | inl done ↦ inr (
            (kernel.epoll_ctl ctl_mod reg.fd event k).1,
            ground (arith, change, some_event, old, done),
            λ j. laws.ctl_succeeds ctl_mod reg.fd j event k done ∙ ground (arith, some_event),
          )
          | inr (e, failed) ↦ inl (ground (arith, change, some_event, old, failed))
        ]
      ]
    ]
  ]

  new_reg_fails :
      (fd : ℤ) (event : ℕ) (k : K)
      → reg_epoll_mod kernel (record { fd = fd; event = 0 }) event k ≡ none
      → (kernel.epoll_ctl ctl_add fd event k).0 ≢ none
  unfolding reg_epoll_mod
  new_reg_fails fd event k h = λ ok. ground (arith, ok, h)

  -- The entry of a new descriptor in the table that the allocation leaves.
  stored-RegsInv :
      (x : Regs K) (fd : ℤ) (event idx : ℕ) (table : List FdReg) (k' : K)
      → RegsInv x
      → is_nonneg fd ≡ true
      → Absent fd x.fd_regs
      → Allocated x.fd_regs table idx
      → ((j : ℤ) → interest k' j ≡ (if eq_ℤ j fd then wanted event else interest x.kernel_state j))
      → RegsInv (record {
        fd_regs = set table idx (record { fd = fd; event = event });
        num_fd_regs = x.num_fd_regs + 1;
        kernel_state = k';
      })
  stored-RegsInv x fd event idx table k' inv nonneg absent alloc upd =
      let new : FdReg = record { fd = fd; event = event } in
      let (old, at, free) = alloc.slot in
      let within : idx < length table = get_elem?-lt table idx old at in
      let apart : (j : ℕ) (a : FdReg)
          → j ≢ idx
          → get_elem? table j ≡ some a
          → is_used a ≡ true
          → a.fd ≢ fd =
        (λ j a ne e used. absent j a (Allocated-used x.fd_regs table idx alloc j a e used)) in
      record {
        table = subst (TableInv (set table idx new)) (ground (arith, nonneg, free)) (
            set-TableInv table x.num_fd_regs idx old new
              (Allocated-TableInv x.fd_regs table x.num_fd_regs idx alloc inv.table) at
              (λ f. absurd (ground (arith, f, nonneg))) apart);
        synced = λ i a e used. elim (get_elem?-set_cases table idx i new a e) [
          | inl (pi, pa) ↦
              subst (λ r. interest k' r.fd ≡ wanted r.event) (sym pa)
                (upd fd ∙ ground (arith, eq_ℤ_iff fd fd))
          | inr (pi, pa) ↦
              upd a.fd
              ∙ ground (arith, eq_ℤ_iff a.fd fd, apart i a pi pa used)
              ∙ inv.synced i a (Allocated-used x.fd_regs table idx alloc i a pa used) used
        ];
        quiet = λ j nj away.
            let other : fd ≢ j = away idx new (get_elem?-set_self table idx new within) in
            upd j
            ∙ ground (arith, eq_ℤ_iff j fd, other)
            ∙ inv.quiet j nj (λ i a e p.
              let used : is_used a ≡ true = ap is_nonneg p ∙ nj in
              let ne : idx ≢ i = apart_slot x.fd_regs table idx i a alloc e used in
              away i a (get_elem?-set_ne table {i = idx} {j = i} new ne ∙ alloc.kept i a e) p);
      }

  -- If the table and the interest list agree, xpoll_fd_reg_add() of a descriptor that is not
  -- negative and not registered either fails in
  -- epoll_ctl(), or returns the index of an entry that was free: it holds the descriptor and its
  -- events, every entry that was in use is as it was, and the table and the interest list agree.
  pub fd_reg_add_lem :
      (x : Regs K) (fd : ℤ) (event : ℕ)
      → RegsInv x
      → is_nonneg fd ≡ true
      → has_fd x.fd_regs fd ≡ false
      → ((xpoll_fd_reg_add kernel x fd event ≡ none)
          × ((kernel.epoll_ctl ctl_add fd event x.kernel_state).0 ≢ none))
        ⊎ ((idx : ℕ) × (x' : Regs K) × (xpoll_fd_reg_add kernel x fd event ≡ some (pos idx, x'))
            × RegsInv x'
            × (get_elem? x'.fd_regs idx ≡ some (record { fd = fd; event = event }))
            × ((j : ℕ) (a : FdReg)
                → get_elem? x.fd_regs j ≡ some a
                → is_used a ≡ true
                → get_elem? x'.fd_regs j ≡ some a)
            × (x'.num_fd_regs ≡ x.num_fd_regs + 1))
  unfolding xpoll_fd_reg_add fd_reg_store
  fd_reg_add_lem x fd event inv nonneg new =
      let absent : Absent fd x.fd_regs = has_fd-Absent x.fd_regs fd new in
      let (idx, table, allocated, alloc) = allocate_lem x inv.table in
      let (old, at, free) = alloc.slot in
      let within : idx < length table = get_elem?-lt table idx old at in
      let reg : FdReg = record { fd = fd; event = event } in
      elim (reg_epoll_mod_lem (record { fd = fd; event = 0 }) event x.kernel_state
        (inv.quiet fd nonneg absent)) [
          | inl fails ↦ inl (
            ground (arith, nonneg, new, allocated, fails),
            new_reg_fails fd event x.kernel_state fails,
          )
          | inr (k', done, upd) ↦ inr (
            idx,
            record {
              fd_regs = set table idx reg;
              num_fd_regs = x.num_fd_regs + 1;
              kernel_state = k';
            },
            ground (arith, nonneg, new, allocated, done, within),
            stored-RegsInv x fd event idx table k' inv nonneg absent alloc upd,
            get_elem?-set_self table idx reg within,
            λ j a e used.
                get_elem?-set_ne table {i = idx} {j = j} reg
                  (apart_slot x.fd_regs table idx j a alloc e used)
                ∙ alloc.kept j a e,
            refl,
          )
        ]
