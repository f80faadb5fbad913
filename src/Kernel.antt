-- ===== src/Kernel.antt =====
-- The system calls that libxcm/core/xpoll.c and libxcm/tp/common/active_fd.c make, as an interface:
-- the kernel is not part of the repository. `K` is the kernel's state.
use xcm.Base.{ℕ, ◌≡◌, ◌⊎◌, Option, none, some, ℤ, eq_ℤ, if◌then◌else◌}
use xcm.Errno.{Errno, ebadf, enoent, eperm}

-- The `op` of epoll_ctl(2).
pub data EpollOp : Type 0 where
  ctl_add ctl_mod ctl_del : EpollOp

-- epoll_ctl(2) with errno if it fails, eventfd(2) with errno if it fails, and close(2).
pub record Kernel (K : Type 0) : Type 0 where
  pub epoll_ctl : EpollOp → ℤ → ℕ → K → Option Errno × K
  pub eventfd : K → Option Errno × ℕ × K
  pub close : ℤ → K → K

-- What epoll_ctl(2) documents, for one epoll instance: `interest` is its interest list, the events
-- of a file descriptor if it is there. A call that succeeds changes the entry of its descriptor
-- only, and one that fails changes nothing; a removal fails with EBADF, ENOENT or EPERM only for a
-- descriptor that is not on the list. Opening and closing other descriptors leaves the list alone.
module _ {K : Type 0} (kernel : Kernel K) (interest : K → ℤ → Option ℕ) where
  abbrev pub written : EpollOp → ℕ → Option ℕ
  written ctl_add event = some event
  written ctl_mod event = some event
  written ctl_del event = none

  pub record EpollLaws : Type 0 where
    pub ctl_succeeds :
        (op : EpollOp) (fd j : ℤ) (event : ℕ) (k : K)
        → (kernel.epoll_ctl op fd event k).0 ≡ none
        → interest (kernel.epoll_ctl op fd event k).1 j
          ≡ (if eq_ℤ j fd then written op event else interest k j)
    pub ctl_fails :
        (op : EpollOp) (fd j : ℤ) (event : ℕ) (k : K) (e : Errno)
        → (kernel.epoll_ctl op fd event k).0 ≡ some e
        → interest (kernel.epoll_ctl op fd event k).1 j ≡ interest k j
    pub del_absent :
        (fd : ℤ) (event : ℕ) (k : K) (e : Errno)
        → (kernel.epoll_ctl ctl_del fd event k).0 ≡ some e
        → (e ≡ ebadf) ⊎ (e ≡ enoent) ⊎ (e ≡ eperm)
        → interest k fd ≡ none
    pub eventfd_keeps : (k : K) (j : ℤ) → interest (kernel.eventfd k).2 j ≡ interest k j
