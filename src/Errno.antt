-- ===== src/Errno.antt =====
-- The values of `errno` that the modelled code sets or tests, and the outcomes of its functions.
use xcm.Base.{ℕ, ◌≡◌, refl, ◌⊎◌, inl, inr, Bool, true, false}

pub data Errno : Type 0 where
  eacces eagain econnrefused einprogress einval emsgsize enametoolong enoent : Errno
  eoverflow epipe eproto enospc ebadf eperm etimedout enoprotoopt enotsup : Errno
  other : ℕ → Errno

-- errno == EAGAIN
abbrev pub is_eagain : Errno → Bool
is_eagain eagain = true
is_eagain _ = false

-- errno == EPIPE
abbrev pub is_epipe : Errno → Bool
is_epipe epipe = true
is_epipe _ = false

-- errno == EINPROGRESS
abbrev pub is_einprogress : Errno → Bool
is_einprogress einprogress = true
is_einprogress _ = false

-- errno == EOVERFLOW
abbrev pub is_eoverflow : Errno → Bool
is_eoverflow eoverflow = true
is_eoverflow _ = false

-- What a function that reports by its return value does: it returns a value that is no error, it
-- returns -1 (or NULL) with `errno` set, or it ends the process by a failed assertion.
pub data Outcome {ℓ} (A : Type ℓ) : Type ℓ where
  ret : A → Outcome A
  fail : Errno → Outcome A
  abort : Outcome A

pub Outcome-cases {ℓ} :
    {A : Type ℓ} (o : Outcome A)
    → ((a : A) × (o ≡ ret a)) ⊎ ((e : Errno) × (o ≡ fail e)) ⊎ (o ≡ abort)
Outcome-cases (ret a) = inl (a, refl)
Outcome-cases (fail e) = inr (inl (e, refl))
Outcome-cases abort = inr (inr refl)
