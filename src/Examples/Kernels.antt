-- ===== src/Examples/Kernels.antt =====
-- libxcm/core/xpoll.c and libxcm/tp/common/active_fd.c over a kernel that keeps its interest list as
-- a function.
use xcm.Base.{
  ℕ, ◌+◌, ◌≡◌, ◌≢◌, ◌<◌, ◌⊎◌, inl, inr, refl, true, Option, none, some, List, [], ◌∷◌, ℤ, pos, eq_ℤ,
  get_elem?, ◌==◌, if◌then◌else◌, arith, Option-cases,
}
use xcm.Errno.{Errno, other, enoent}
use xcm.Kernel.{written, Kernel, EpollOp, EpollLaws, ctl_add, ctl_mod, ctl_del}
use xcm.ActiveFd.{ActiveFd, active_fd_get, active_fd_put}
use xcm.ActiveFd.Users.{Gets, IsValid, OneLess, users, active_fd_get_lem, active_fd_put_lem}
use xcm.Xpoll.{FdReg}
use xcm.Xpoll.Regs.{Regs, has_fd, xpoll_fd_reg_add}
use xcm.Xpoll.Regs.Table.{TableInv, is_used}
use xcm.Xpoll.Regs.Ops.{RegsInv, fd_reg_add_lem}

record Epoll : Type 0 where
  entries : ℤ → Option ℕ
  next : ℕ

abbrev write : ℤ → Option ℕ → Epoll → Option Errno × Epoll
write fd event k = (none, record k { entries = λ j. if eq_ℤ j fd then event else k.entries j })

abbrev epoll_ctl : EpollOp → ℤ → ℕ → Epoll → Option Errno × Epoll
epoll_ctl ctl_add fd event k = elim (k.entries fd) [
  | none ↦ write fd (some event) k
  | some old ↦ (some (other 17), k)
]
epoll_ctl ctl_mod fd event k = elim (k.entries fd) [
  | none ↦ (some enoent, k)
  | some old ↦ write fd (some event) k
]
epoll_ctl ctl_del fd event k = elim (k.entries fd) [
  | none ↦ (some enoent, k)
  | some old ↦ write fd none k
]

abbrev kernel : Kernel Epoll
kernel = record {
  epoll_ctl = epoll_ctl;
  eventfd = λ k. (none, k.next, record k { next = k.next + 1 });
  close = λ fd k. k;
}

abbrev interest : Epoll → ℤ → Option ℕ
interest k = k.entries

epoll_succeeds :
    (op : EpollOp) (fd j : ℤ) (event : ℕ) (k : Epoll)
    → (epoll_ctl op fd event k).0 ≡ none
    → interest (epoll_ctl op fd event k).1 j
      ≡ (if eq_ℤ j fd then written kernel interest op event else interest k j)
epoll_succeeds ctl_add fd j event k h = elim (Option-cases (k.entries fd)) [
  | inl e ↦ ground (arith, e)
  | inr (old, e) ↦ absurd (ground (arith, e, h))
]
epoll_succeeds ctl_mod fd j event k h = elim (Option-cases (k.entries fd)) [
  | inl e ↦ absurd (ground (arith, e, h))
  | inr (old, e) ↦ ground (arith, e)
]
epoll_succeeds ctl_del fd j event k h = elim (Option-cases (k.entries fd)) [
  | inl e ↦ absurd (ground (arith, e, h))
  | inr (old, e) ↦ ground (arith, e)
]

epoll_fails :
    (op : EpollOp) (fd j : ℤ) (event : ℕ) (k : Epoll) (e : Errno)
    → (epoll_ctl op fd event k).0 ≡ some e
    → interest (epoll_ctl op fd event k).1 j ≡ interest k j
epoll_fails ctl_add fd j event k e h = elim (Option-cases (k.entries fd)) [
  | inl p ↦ absurd (ground (arith, p, h))
  | inr (old, p) ↦ ground (arith, p)
]
epoll_fails ctl_mod fd j event k e h = elim (Option-cases (k.entries fd)) [
  | inl p ↦ ground (arith, p)
  | inr (old, p) ↦ absurd (ground (arith, p, h))
]
epoll_fails ctl_del fd j event k e h = elim (Option-cases (k.entries fd)) [
  | inl p ↦ ground (arith, p)
  | inr (old, p) ↦ absurd (ground (arith, p, h))
]

epoll_absent :
    (fd : ℤ) (event : ℕ) (k : Epoll) (e : Errno)
    → (epoll_ctl ctl_del fd event k).0 ≡ some e
    → interest k fd ≡ none
epoll_absent fd event k e h = elim (Option-cases (k.entries fd)) [
  | inl p ↦ p
  | inr (old, p) ↦ absurd (ground (arith, p, h))
]

kernel-EpollLaws : EpollLaws kernel interest
kernel-EpollLaws = record {
  ctl_succeeds = epoll_succeeds;
  ctl_fails = epoll_fails;
  del_absent = λ fd event k e h which. epoll_absent fd event k e h;
  eventfd_keeps = λ k j. refl;
}

abbrev booted : Epoll
booted = record { entries = λ j. none; next = 5 }

-- Descriptor 4 with 100 users.
abbrev full : List ActiveFd
full = record { fd = pos 4; cnt = 100 } ∷ []

full-IsValid : IsValid full
unfolding users
full-IsValid = (omega arith, omega arith, refl, tt)

active_fd_get_example : Gets kernel full booted (active_fd_get kernel full booted)
unfolding users
active_fd_get_example = active_fd_get_lem kernel full booted full-IsValid refl

active_fd_put_example :
    (users (pos 4) full ≡ 0 → active_fd_put kernel (pos 4) full booted ≡ none)
    × (0 < users (pos 4) full
        → (ys : List ActiveFd) × (active_fd_put kernel (pos 4) full booted
            ≡ some (ys, if users (pos 4) full == 1 then kernel.close (pos 4) booted else booted))
          × OneLess (pos 4) full ys)
active_fd_put_example = active_fd_put_lem kernel (pos 4) full booted full-IsValid

abbrev empty_regs : Regs Epoll
empty_regs = record { fd_regs = []; num_fd_regs = 0; kernel_state = booted }

empty-TableInv : TableInv [] 0
empty-TableInv = record {
  counted = refl;
  unique = λ i j a b p q used same. absurd (cc);
  marked = λ i a p free. absurd (cc);
}

empty-RegsInv : RegsInv kernel interest kernel-EpollLaws empty_regs
empty-RegsInv = record {
  table = empty-TableInv;
  synced = λ i a e used. absurd (cc);
  quiet = λ fd nonneg absent. refl;
}

fd_reg_add_example :
    ((xpoll_fd_reg_add kernel empty_regs (pos 7) 1 ≡ none)
      × ((kernel.epoll_ctl ctl_add (pos 7) 1 booted).0 ≢ none))
    ⊎ ((idx : ℕ) × (x' : Regs Epoll) × (xpoll_fd_reg_add kernel empty_regs (pos 7) 1
          ≡ some (pos idx, x'))
        × RegsInv kernel interest kernel-EpollLaws x'
        × (get_elem? x'.fd_regs idx ≡ some (record { fd = pos 7; event = 1 }))
        × ((j : ℕ) (a : FdReg)
            → get_elem? empty_regs.fd_regs j ≡ some a
            → is_used a ≡ true
            → get_elem? x'.fd_regs j ≡ some a)
        × (x'.num_fd_regs ≡ empty_regs.num_fd_regs + 1))
unfolding has_fd
fd_reg_add_example =
    fd_reg_add_lem kernel interest kernel-EpollLaws empty_regs (pos 7) 1 empty-RegsInv refl refl
