-- ===== src/Xpoll/Bells.antt =====
-- The table of bells of libxcm/core/xpoll.c, and the active file descriptor that makes the epoll
-- instance readable while one of them rings.
use xcm.Base.{
  ℕ, ◌+◌, ◌-◌, Bool, true, false, not, ◌&&◌, ◌||◌, Option, none, some, List, [], ◌∷◌, ◌++◌, ℤ, pos,
  negsuc, minus_one, is_nonneg, length, get_elem?, set, replicate, ltb, ◌==◌, if◌then◌else◌,
}
use xcm.Kernel.{Kernel}
use xcm.ActiveFd.{ActiveFd, active_fd_get, active_fd_put}
use xcm.Xpoll.{BellReg}
use xcm.Xpoll.Regs.{Regs, next_capacity, xpoll_fd_reg_add, xpoll_fd_reg_mod, xpoll_fd_reg_del}

-- EPOLLIN of <sys/epoll.h>.
abbrev pub epollin : ℕ
epollin = 1

-- struct xpoll with the table of file descriptors in `regs`, and the list of the process's active
-- descriptors, which libxcm/tp/common/active_fd.c keeps.
pub record Xpoll (K : Type 0) : Type 0 where
  pub regs : Regs K
  pub active_fd : ℤ
  pub active_fd_reg_id : ℤ
  pub bell_regs : List BellReg
  pub num_bell_regs : ℕ
  pub active_fds : List ActiveFd

-- A new entry of bell_regs_extend_capacity(). Its `ringing` is not set, nor read before it is.
abbrev pub free_bell : BellReg
free_bell = record { free = true; ringing = false }

-- bell_regs_extend_capacity()
unfoldable pub bell_regs_extend_capacity : List BellReg → ℕ → List BellReg
bell_regs_extend_capacity bell_regs new_capacity =
    bell_regs ++ replicate (new_capacity - length bell_regs) free_bell

-- The loop of find_free_bell_reg_idx(), from index `i` on.
unfoldable pub find_free_loop : ℕ → List BellReg → Option ℕ
find_free_loop i [] = none
find_free_loop i (reg ∷ rest) = if reg.free then some i else find_free_loop (i + 1) rest

-- find_free_bell_reg_idx(): none for -1.
unfoldable pub find_free_bell_reg_idx : List BellReg → Option ℕ
unfolding find_free_loop
find_free_bell_reg_idx bell_regs = find_free_loop 0 bell_regs

-- The entry that allocate_bell_reg_idx() returns stops being free.
unfoldable pub bell_occupy : List BellReg → Option ℕ → Option (ℕ × List BellReg)
bell_occupy bell_regs none = none
bell_occupy bell_regs (some new_reg_idx) = elim (get_elem? bell_regs new_reg_idx) [
  | none ↦ none
  | some reg ↦ some (new_reg_idx, set bell_regs new_reg_idx (record reg { free = false }))
]

-- allocate_bell_reg_idx(): the index and the table.
unfoldable pub allocate_bell_reg_idx : List BellReg → ℕ → Option (ℕ × List BellReg)
unfolding bell_regs_extend_capacity find_free_bell_reg_idx bell_occupy next_capacity
allocate_bell_reg_idx bell_regs num_bell_regs =
    let capacity = length bell_regs in
    if num_bell_regs == capacity
    then bell_occupy (bell_regs_extend_capacity bell_regs (next_capacity capacity)) (some capacity)
    else bell_occupy bell_regs (find_free_bell_reg_idx bell_regs)

-- deallocate_bell_reg_idx()
unfoldable pub deallocate_bell_reg_idx : {K : Type 0} → Xpoll K → ℕ → BellReg → Xpoll K
deallocate_bell_reg_idx xpoll reg_idx reg = record xpoll {
  bell_regs = set xpoll.bell_regs reg_idx (record reg { free = true });
  num_bell_regs = xpoll.num_bell_regs - 1;
}

-- has_ringing_bell()
unfoldable pub has_ringing_bell : List BellReg → Bool
has_ringing_bell [] = false
has_ringing_bell (reg ∷ rest) = if not reg.free && reg.ringing then true else has_ringing_bell rest

-- get_bell_reg(): the index as a number, and the entry.
unfoldable pub get_bell_reg : List BellReg → ℤ → Option (ℕ × BellReg)
get_bell_reg bell_regs (negsuc n) = none
get_bell_reg bell_regs (pos i) = elim (get_elem? bell_regs i) [
  | none ↦ none
  | some reg ↦ if reg.free then none else some (i, reg)
]

module _ {K : Type 0} (kernel : Kernel K) where
  -- The first branch of update_active_fd(): the last bell is gone.
  unfoldable pub release_active_fd : Xpoll K → Option (Xpoll K)
  release_active_fd xpoll = elim (xpoll_fd_reg_del kernel xpoll.regs xpoll.active_fd_reg_id) [
    | none ↦ none
    | some regs ↦ elim (active_fd_put kernel xpoll.active_fd xpoll.active_fds regs.kernel_state) [
      | none ↦ none
      | some (active_fds, k) ↦ some (record xpoll {
        regs = record regs { kernel_state = k };
        active_fd_reg_id = minus_one;
        active_fd = minus_one;
        active_fds = active_fds;
      })
    ]
  ]

  -- The second branch of update_active_fd(): the first bell has come.
  unfoldable pub acquire_active_fd : Xpoll K → Option (Xpoll K)
  acquire_active_fd xpoll =
      let (fd, active_fds, k) = active_fd_get kernel xpoll.active_fds xpoll.regs.kernel_state in
      elim (xpoll_fd_reg_add kernel (record xpoll.regs { kernel_state = k }) fd 0) [
        | none ↦ none
        | some (reg_id, regs) ↦ some (record xpoll {
          regs = regs;
          active_fd = fd;
          active_fd_reg_id = reg_id;
          active_fds = active_fds;
        })
      ]

  -- The two branches of update_active_fd().
  unfoldable pub switch_active_fd : Xpoll K → Option (Xpoll K)
  switch_active_fd xpoll =
      if xpoll.num_bell_regs == 0 && is_nonneg xpoll.active_fd
      then release_active_fd xpoll
      else if ltb 0 xpoll.num_bell_regs && not (is_nonneg xpoll.active_fd)
      then acquire_active_fd xpoll
      else some xpoll

  -- The end of update_active_fd(): the events that the active descriptor is registered for.
  unfoldable pub signal_active_fd : Xpoll K → Option (Xpoll K)
  signal_active_fd xpoll =
      let event = if has_ringing_bell xpoll.bell_regs then epollin else 0 in
      if is_nonneg xpoll.active_fd
      then elim (xpoll_fd_reg_mod kernel xpoll.regs xpoll.active_fd_reg_id event) [
        | none ↦ none
        | some regs ↦ some (record xpoll { regs = regs })
      ]
      else some xpoll

  -- update_active_fd()
  unfoldable pub update_active_fd : Xpoll K → Option (Xpoll K)
  update_active_fd xpoll = elim (switch_active_fd xpoll) [
    | none ↦ none
    | some xpoll' ↦ signal_active_fd xpoll'
  ]

  -- xpoll_bell_reg_add()
  unfoldable pub xpoll_bell_reg_add : Xpoll K → Bool → Option (ℕ × Xpoll K)
  xpoll_bell_reg_add xpoll ringing =
      elim (allocate_bell_reg_idx xpoll.bell_regs xpoll.num_bell_regs) [
        | none ↦ none
        | some (new_reg_idx, bell_regs) ↦
            let reg : BellReg = record { free = false; ringing = ringing } in
            elim (update_active_fd (record xpoll {
              bell_regs = set bell_regs new_reg_idx reg;
              num_bell_regs = xpoll.num_bell_regs + 1;
            })) [ none ↦ none | some xpoll' ↦ some (new_reg_idx, xpoll') ]
      ]

  -- xpoll_bell_reg_mod()
  unfoldable pub xpoll_bell_reg_mod : Xpoll K → ℤ → Bool → Option (Xpoll K)
  xpoll_bell_reg_mod xpoll reg_idx ringing = elim (get_bell_reg xpoll.bell_regs reg_idx) [
    | none ↦ none
    | some (i, reg) ↦
        if (reg.ringing && not ringing) || (not reg.ringing && ringing)
        then update_active_fd
            (record xpoll { bell_regs = set xpoll.bell_regs i (record reg { ringing = ringing }) })
        else some xpoll
  ]

  -- xpoll_bell_reg_del()
  unfoldable pub xpoll_bell_reg_del : Xpoll K → ℤ → Option (Xpoll K)
  xpoll_bell_reg_del xpoll reg_idx = elim (get_bell_reg xpoll.bell_regs reg_idx) [
    | none ↦ none
    | some (i, reg) ↦ update_active_fd (deallocate_bell_reg_idx xpoll i reg)
  ]

  -- xpoll_bell_reg_del_if_valid()
  unfoldable pub xpoll_bell_reg_del_if_valid : Xpoll K → ℤ → Option (Xpoll K)
  xpoll_bell_reg_del_if_valid xpoll reg_id =
      if is_nonneg reg_id then xpoll_bell_reg_del xpoll reg_id else some xpoll
