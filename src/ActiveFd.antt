-- ===== src/ActiveFd.antt =====
-- libxcm/tp/common/active_fd.c: always readable event file descriptors, each shared by at most 100
-- users. `active_fds` is the list of that name, the newest first. The mutex makes each of the two
-- operations one step. A result `none` is the failed assertion of active_fd_put().
pub mod Users
use xcm.Base.{
  ℕ, zero, suc, ◌+◌, ◌-◌, Bool, true, false, Option, none, some, List, [], ◌∷◌, ℤ, pos, minus_one,
  eq_ℤ, ltb, ◌==◌, if◌then◌else◌,
}
use xcm.Errno.{Errno}
use xcm.Kernel.{Kernel}

abbrev pub max_users_per_fd : ℕ
max_users_per_fd = 100

-- struct active_fd
pub record ActiveFd : Type 0 where
  pub fd : ℤ
  pub cnt : ℕ

-- fd_retrieve(): the descriptor and the list, if one has room.
unfoldable pub fd_retrieve : List ActiveFd → Option (ℤ × List ActiveFd)
fd_retrieve [] = none
fd_retrieve (active_fd ∷ rest) =
    let later = fd_retrieve rest in
    if ltb active_fd.cnt max_users_per_fd
    then some (active_fd.fd, record active_fd { cnt = active_fd.cnt + 1 } ∷ rest)
    else elim later [ none ↦ none | some (fd, rest') ↦ some (fd, active_fd ∷ rest') ]

-- The loop of active_fd_put(): the list, and whether the descriptor is to be closed.
unfoldable pub put_loop : ℤ → List ActiveFd → Option (Bool × List ActiveFd)
put_loop fd [] = none
put_loop fd (active_fd ∷ rest) =
    let later = put_loop fd rest in
    if eq_ℤ active_fd.fd fd
    then (if active_fd.cnt - 1 == 0
        then some (true, rest)
        else some (false, record active_fd { cnt = active_fd.cnt - 1 } ∷ rest))
    else elim later [ none ↦ none | some (last, rest') ↦ some (last, active_fd ∷ rest') ]

module _ {K : Type 0} (kernel : Kernel K) where
  -- fd_create()
  unfoldable pub fd_create : List ActiveFd → K → Option ℤ × List ActiveFd × K
  fd_create active_fds k =
      let (error, n, k') = kernel.eventfd k in
      elim error [
        | some e ↦ (none, active_fds, k')
        | none ↦ (some (pos n), record { fd = pos n; cnt = 1 } ∷ active_fds, k')
      ]

  -- active_fd_get()
  unfoldable pub active_fd_get : List ActiveFd → K → ℤ × List ActiveFd × K
  unfolding fd_retrieve fd_create
  active_fd_get active_fds k = elim (fd_retrieve active_fds) [
    | some (fd, active_fds') ↦ (fd, active_fds', k)
    | none ↦
        let (created, active_fds', k') = fd_create active_fds k in
        (elim created [ none ↦ minus_one | some fd ↦ fd ], active_fds', k')
  ]

  -- active_fd_put()
  unfoldable pub active_fd_put : ℤ → List ActiveFd → K → Option (List ActiveFd × K)
  unfolding put_loop
  active_fd_put fd active_fds k = elim (put_loop fd active_fds) [
    | none ↦ none
    | some (last, active_fds') ↦ some (active_fds', if last then kernel.close fd k else k)
  ]
