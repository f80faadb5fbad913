-- ===== src/Xpoll/Regs.antt =====
-- The table of file descriptors of libxcm/core/xpoll.c, and its epoll_ctl() calls.
pub mod Table
pub mod Ops
use xcm.Base.{
  ℕ, zero, suc, ◌+◌, ◌-◌, ◌*◌, Bool, true, false, not, ◌&&◌, ◌||◌, Option, none, some, List, [],
  ◌∷◌, ◌++◌, ℤ, pos, negsuc, minus_one, eq_ℤ, is_nonneg, pos_part, length, get_elem?, set,
  replicate, ltb, ◌==◌, if◌then◌else◌,
}
use xcm.Errno.{Errno, ebadf, enoent, eperm}
use xcm.Kernel.{Kernel, EpollOp, ctl_add, ctl_mod, ctl_del}
use xcm.Xpoll.{FdReg}

-- The fields `fd_regs` and `num_fd_regs` of struct xpoll, and the kernel's state.
pub record Regs (K : Type 0) : Type 0 where
  pub fd_regs : List FdReg
  pub num_fd_regs : ℕ
  pub kernel_state : K

-- A new entry of regs_extend_capacity(). Its `event` is not set, nor read before it is.
abbrev pub free_reg : FdReg
free_reg = record { fd = minus_one; event = 0 }

-- regs_extend_capacity()
unfoldable pub regs_extend_capacity : List FdReg → ℕ → List FdReg
regs_extend_capacity fd_regs new_capacity =
    fd_regs ++ replicate (new_capacity - length fd_regs) free_reg

-- The loop of find_fd(), from index `i` on.
unfoldable pub find_loop : ℤ → ℕ → List FdReg → ℤ
find_loop fd i [] = minus_one
find_loop fd i (reg ∷ rest) = if eq_ℤ reg.fd fd then pos i else find_loop fd (i + 1) rest

-- find_fd()
unfoldable pub find_fd : List FdReg → ℤ → ℤ
unfolding find_loop
find_fd fd_regs fd = find_loop fd 0 fd_regs

-- has_fd()
unfoldable pub has_fd : List FdReg → ℤ → Bool
unfolding find_fd
has_fd fd_regs fd = is_nonneg (find_fd fd_regs fd)

-- next_capacity()
unfoldable pub next_capacity : ℕ → ℕ
next_capacity current_capacity = (current_capacity + 1) * 2

-- allocate_fd_reg_idx(): the index, which is -1 if a table with room has no free entry.
unfoldable pub allocate_fd_reg_idx : {K : Type 0} → Regs K → ℤ × Regs K
unfolding regs_extend_capacity find_fd next_capacity
allocate_fd_reg_idx x =
    let capacity = length x.fd_regs in
    if x.num_fd_regs == capacity
    then (
      pos capacity,
      record x {
        fd_regs = regs_extend_capacity x.fd_regs (next_capacity capacity);
        num_fd_regs = x.num_fd_regs + 1;
      },
    )
    else (find_fd x.fd_regs minus_one, record x { num_fd_regs = x.num_fd_regs + 1 })

-- deallocate_fd_reg_idx()
unfoldable pub deallocate_fd_reg_idx : {K : Type 0} → Regs K → ℕ → FdReg → Regs K
deallocate_fd_reg_idx x reg_idx reg = record x {
  fd_regs = set x.fd_regs reg_idx (record reg { fd = minus_one });
  num_fd_regs = x.num_fd_regs - 1;
}

-- The failures of a removal that reg_epoll_mod() ignores.
abbrev pub is_ignored : Errno → Bool
is_ignored ebadf = true
is_ignored enoent = true
is_ignored eperm = true
is_ignored _ = false

-- get_fd_reg(): the index as a number, and the entry.
unfoldable pub get_fd_reg : List FdReg → ℤ → Option (ℕ × FdReg)
get_fd_reg fd_regs (negsuc n) = none
get_fd_reg fd_regs (pos i) = elim (get_elem? fd_regs i) [
  | none ↦ none
  | some reg ↦ if is_nonneg reg.fd then some (i, reg) else none
]

module _ {K : Type 0} (kernel : Kernel K) where
  -- reg_epoll_mod(): the entry and the kernel's state.
  unfoldable pub reg_epoll_mod : FdReg → ℕ → K → Option (FdReg × K)
  reg_epoll_mod reg new_event k =
      let (add_error, add_k) = kernel.epoll_ctl ctl_add reg.fd new_event k in
      let (mod_error, mod_k) = kernel.epoll_ctl ctl_mod reg.fd new_event k in
      let (del_error, del_k) = kernel.epoll_ctl ctl_del reg.fd 0 k in
      if reg.event == new_event
      then some (reg, k)
      else if reg.event == 0 && not (new_event == 0)
      then elim add_error [ none ↦ some (record reg { event = new_event }, add_k) | some e ↦ none ]
      else if not (reg.event == 0) && not (new_event == 0)
      then elim mod_error [ none ↦ some (record reg { event = new_event }, mod_k) | some e ↦ none ]
      else elim del_error [
        | none ↦ some (record reg { event = new_event }, del_k)
        | some e ↦ if is_ignored e then some (record reg { event = new_event }, del_k) else none
      ]

  -- xpoll_fd_reg_add() after the index has been allocated.
  unfoldable pub fd_reg_store : ℤ → ℕ → ℤ → Regs K → Option (ℤ × Regs K)
  fd_reg_store fd event (negsuc n) x = none
  fd_reg_store fd event (pos new_reg_idx) x =
      elim (reg_epoll_mod (record { fd = fd; event = 0 }) event x.kernel_state) [
        | none ↦ none
        | some (new_reg, k) ↦
            if ltb new_reg_idx (length x.fd_regs)
            then some (
              pos new_reg_idx,
              record x { fd_regs = set x.fd_regs new_reg_idx new_reg; kernel_state = k },
            )
            else none
      ]

  -- xpoll_fd_reg_add()
  unfoldable pub xpoll_fd_reg_add : Regs K → ℤ → ℕ → Option (ℤ × Regs K)
  xpoll_fd_reg_add x fd event =
      if not (is_nonneg fd)
      then none
      else if has_fd x.fd_regs fd
      then none
      else let (new_reg_idx, x') = allocate_fd_reg_idx x in fd_reg_store fd event new_reg_idx x'

  -- xpoll_fd_reg_mod()
  unfoldable pub xpoll_fd_reg_mod : Regs K → ℤ → ℕ → Option (Regs K)
  xpoll_fd_reg_mod x reg_idx new_event = elim (get_fd_reg x.fd_regs reg_idx) [
    | none ↦ none
    | some (i, reg) ↦ elim (reg_epoll_mod reg new_event x.kernel_state) [
      | none ↦ none
      | some (reg', k) ↦ some (record x { fd_regs = set x.fd_regs i reg'; kernel_state = k })
    ]
  ]

  -- xpoll_fd_reg_del()
  unfoldable pub xpoll_fd_reg_del : Regs K → ℤ → Option (Regs K)
  xpoll_fd_reg_del x reg_idx = elim (get_fd_reg x.fd_regs reg_idx) [
    | none ↦ none
    | some (i, reg) ↦ elim (reg_epoll_mod reg 0 x.kernel_state) [
      | none ↦ none
      | some (reg', k) ↦ some (deallocate_fd_reg_idx (record x { kernel_state = k }) i reg')
    ]
  ]

  -- xpoll_fd_reg_del_if_valid()
  unfoldable pub xpoll_fd_reg_del_if_valid : Regs K → ℤ → Option (Regs K)
  xpoll_fd_reg_del_if_valid x reg_id =
      if is_nonneg reg_id then xpoll_fd_reg_del x reg_id else some x
