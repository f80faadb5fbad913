-- ===== src/Tcp/Receiver/Inv.antt =====
-- What holds of the receiving half of a TCP connection between two calls.
use xcm.Base.{
  ℕ, ◌+◌, ◌*◌, ◌≡◌, ◌≤◌, ◌<◌, inl, inr, List, [], ◌∷◌, ◌++◌, length, drop, refl, ◌∙◌, sym, ap, All,
  arith,
}
use xcm.Mbuf.{wire_len, mbuf_msg_max, htonl, ntohl}
use xcm.Mbuf.Frame.{frame, frames, IsShort}
use xcm.Tcp.Conn.{TcpConn}
use xcm.Tcp.Sender.Inv.{SendInv}

abbrev pub AllBytes : List ℕ → Type 0
AllBytes = All (λ b. b < 256)

-- What BTCP has handed out are the messages `got` that tcp_receive() has delivered, in wire format
-- and in order, and what is in the receive buffer, which is at most one frame.
pub record ReceiveInv {L : Type 0} (arrived : L → List ℕ) (s : TcpConn L) (got : List (List ℕ))
    : Type 0 where
  pub stream : arrived s.btcp_socket ≡ frames got ++ s.receive_mbuf.wire_data
  pub bytes : AllBytes s.receive_mbuf.wire_data
  pub partial :
      4 ≤ wire_len s.receive_mbuf
      → ntohl s.receive_mbuf.wire_data ≤ mbuf_msg_max
      → wire_len s.receive_mbuf ≤ ntohl s.receive_mbuf.wire_data + 4
  pub short : All IsShort got
  pub delivered : s.cnts.to_app_msgs ≡ length got
  pub buffered : s.cnts.from_lower_msgs ≡ length got

-- What receiving leaves of the sending half.
pub record SameSender {L : Type 0} (sent : L → List ℕ) (s t : TcpConn L) : Type 0 where
  pub send_mbuf : t.send_mbuf ≡ s.send_mbuf
  pub mbuf_sent : t.mbuf_sent ≡ s.mbuf_sent
  pub sent_bytes : sent t.btcp_socket ≡ sent s.btcp_socket
  pub from_app : t.cnts.from_app_msgs ≡ s.cnts.from_app_msgs
  pub to_lower : t.cnts.to_lower_msgs ≡ s.cnts.to_lower_msgs

pub SameSender-SendInv :
    {L : Type 0} (sent : L → List ℕ) (s t : TcpConn L) (msgs : List (List ℕ))
    → SameSender sent s t
    → SendInv sent s msgs
    → SendInv sent t msgs
SameSender-SendInv sent s t msgs h inv = record {
  stream = (λ i. h.sent_bytes i ++ drop (h.mbuf_sent i) (h.send_mbuf i).wire_data) ∙ inv.stream;
  pending = elim inv.pending [
    | inl (a, b, c) ↦ inl (ap (λ m. m.wire_data) h.send_mbuf ∙ a, h.mbuf_sent ∙ b, h.to_lower ∙ c)
    | inr (msg, a, b, c, d) ↦ inr (
      msg,
      ap (λ m. m.wire_data) h.send_mbuf ∙ a,
      b,
      omega (arith, c, h.mbuf_sent, ap (λ m. wire_len m) h.send_mbuf),
      omega (arith, d, h.to_lower),
    )
  ];
  short = inv.short;
  counted = h.from_app ∙ inv.counted;
}

pub SameSender-trans :
    {L : Type 0} (sent : L → List ℕ) {s t u : TcpConn L}
    → SameSender sent s t
    → SameSender sent t u
    → SameSender sent s u
SameSender-trans sent p q = record {
  send_mbuf = q.send_mbuf ∙ p.send_mbuf;
  mbuf_sent = q.mbuf_sent ∙ p.mbuf_sent;
  sent_bytes = q.sent_bytes ∙ p.sent_bytes;
  from_app = q.from_app ∙ p.from_app;
  to_lower = q.to_lower ∙ p.to_lower;
}

pub AllBytes-append : (xs ys : List ℕ) → AllBytes xs → AllBytes ys → AllBytes (xs ++ ys)
AllBytes-append [] ys h k = k
AllBytes-append (x ∷ xs) ys h k = (h.0, AllBytes-append xs ys h.1 k)

-- The header of a buffer that holds one is not changed by what is appended.
pub ntohl-append : (w rest : List ℕ) → 4 ≤ length w → ntohl (w ++ rest) ≡ ntohl w
unfolding ntohl
ntohl-append (a ∷ b ∷ c ∷ d ∷ w) rest h = refl
ntohl-append (a ∷ b ∷ c ∷ []) rest h = absurd (omega arith)
ntohl-append (a ∷ b ∷ []) rest h = absurd (omega arith)
ntohl-append (a ∷ []) rest h = absurd (omega arith)
ntohl-append [] rest h = absurd (omega arith)

htonl_self :
    (a b c d n : ℕ)
    → a < 256
    → b < 256
    → c < 256
    → d < 256
    → n ≡ a * 16777216 + b * 65536 + c * 256 + d
    → htonl n ≡ a ∷ b ∷ c ∷ d ∷ []
unfolding htonl
htonl_self a b c d n ha hb hc hd e = ground arith

-- A buffer that holds as many bytes as its header says is the frame of its payload.
pub wire-frame :
    (w : List ℕ)
    → AllBytes w
    → 4 ≤ length w
    → length w ≡ ntohl w + 4
    → (w ≡ frame (drop 4 w)) × (length (drop 4 w) ≡ ntohl w)
unfolding ntohl frame
wire-frame (a ∷ b ∷ c ∷ d ∷ w) (ha, (hb, (hc, (hd, hw)))) h e =
    (sym (ap (λ t. t ++ w) (htonl_self a b c d (length w) ha hb hc hd (omega arith))), omega arith)
wire-frame (a ∷ b ∷ c ∷ []) bs h e = absurd (omega arith)
wire-frame (a ∷ b ∷ []) bs h e = absurd (omega arith)
wire-frame (a ∷ []) bs h e = absurd (omega arith)
wire-frame [] bs h e = absurd (omega arith)
