-- ===== src/Tcp/Interface.antt =====
-- What libxcm/tp/tcp/xcm_tp_tcp.c uses of the BTCP socket below it, as an interface.
use xcm.Base.{ℕ, ◌≡◌, ◌≢◌, ◌<◌, ◌≤◌, ◌++◌, [], Option, List, length, take, All, All}
use xcm.Errno.{Errno}

-- The number of bytes that were accepted, or -1 and errno.
pub data SendResult : Type 0 where
  accepted : ℕ → SendResult
  refused : Errno → SendResult

-- The bytes stored in the caller's buffer (none: the connection is closed), or -1 and errno.
pub data ReceiveResult : Type 0 where
  received : List ℕ → ReceiveResult
  not_received : Errno → ReceiveResult

-- xcm_tp_socket_send(), _receive() with a capacity, and _finish() with errno, if it fails.
pub record Lower (L : Type 0) : Type 0 where
  pub send : List ℕ → L → SendResult × L
  pub receive : ℕ → L → ReceiveResult × L
  pub finish : L → Option Errno × L

-- What include/xcm.h documents of a byte stream: a send accepts some first bytes of the buffer,
-- which join the stream in order, or fails and accepts none; a receive stores the next bytes of
-- the incoming stream, at most as many as the capacity, or none. `sent` and `arrived` are the bytes
-- that the socket has accepted and handed out since it was created.
module _ {L : Type 0} (lower : Lower L) (sent arrived : L → List ℕ) where
  pub record Stream : Type 0 where
    pub send_accepted :
        (buf : List ℕ) (l : L) (n : ℕ)
        → buf ≢ []
        → (lower.send buf l).0 ≡ accepted n
        → (0 < n) × (n ≤ length buf) × (sent (lower.send buf l).1 ≡ sent l ++ take n buf)
    pub send_refused :
        (buf : List ℕ) (l : L) (e : Errno)
        → (lower.send buf l).0 ≡ refused e
        → sent (lower.send buf l).1 ≡ sent l
    pub send_keeps : (buf : List ℕ) (l : L) → arrived (lower.send buf l).1 ≡ arrived l
    pub receive_received :
        (capacity : ℕ) (l : L) (bytes : List ℕ)
        → (lower.receive capacity l).0 ≡ received bytes
        → (length bytes ≤ capacity)
          × All (λ b. b < 256) bytes
          × (arrived (lower.receive capacity l).1 ≡ arrived l ++ bytes)
    pub receive_failed :
        (capacity : ℕ) (l : L) (e : Errno)
        → (lower.receive capacity l).0 ≡ not_received e
        → arrived (lower.receive capacity l).1 ≡ arrived l
    pub receive_keeps : (capacity : ℕ) (l : L) → sent (lower.receive capacity l).1 ≡ sent l
    pub finish_keeps :
        (l : L) → (sent (lower.finish l).1 ≡ sent l) × (arrived (lower.finish l).1 ≡ arrived l)
