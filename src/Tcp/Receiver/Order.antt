-- ===== src/Tcp/Receiver/Order.antt =====
-- From the tcp_send() of one connection to the tcp_receive() of its peer.
use xcm.Base.{
  ℕ, ◌≡◌, refl, sym, ap, ◌∙◌, List, [], ◌∷◌, ◌++◌, length, length-append, append_assoc, drop, take,
  arith, All, take-length-append, drop-length-append,
}
use xcm.Mbuf.{htonl, ntohl}
use xcm.Mbuf.Frame.{frame, frames, IsShort, length-frame, ntohl-htonl}
use xcm.Tcp.Conn.{TcpConn}
use xcm.Tcp.Sender.Inv.{SendInv}
use xcm.Tcp.Receiver.Inv.{ReceiveInv}

-- A stream that begins with a frame has one message and one rest.
frame_unique :
    (x y rest rest' : List ℕ)
    → IsShort x
    → IsShort y
    → frame x ++ rest ≡ frame y ++ rest'
    → (x ≡ y) × (rest ≡ rest')
unfolding frame
frame_unique x y rest rest' hx hy e =
    let e' : htonl (length x) ++ (x ++ rest) ≡ htonl (length y) ++ (y ++ rest') =
      sym (append_assoc (htonl (length x)) x rest) ∙ e ∙ append_assoc (htonl (length y)) y rest' in
    let len : length x ≡ length y =
      sym (ntohl-htonl (length x) (x ++ rest) (omega arith))
      ∙ ap ntohl e'
      ∙ ntohl-htonl (length y) (y ++ rest') (omega arith) in
    let bodies : x ++ rest ≡ y ++ rest' = unfold htonl in ap (drop 4) e' in
    (
      sym (take-length-append x rest)
          ∙ ap (take (length x)) bodies
          ∙ ap (λ n. take n (y ++ rest')) len
          ∙ take-length-append y rest',
      sym (drop-length-append x rest)
          ∙ ap (drop (length x)) bodies
          ∙ ap (λ n. drop n (y ++ rest')) len
          ∙ drop-length-append y rest',
    )

-- Messages in wire format are the first of a stream of messages only if they are its first ones.
frames_prefix :
    (xs ys : List (List ℕ)) (rest : List ℕ)
    → All IsShort xs
    → All IsShort ys
    → frames xs ++ rest ≡ frames ys
    → (zs : List (List ℕ)) × (ys ≡ xs ++ zs) × (rest ≡ frames zs)
unfolding frames
frames_prefix [] ys rest hx hy e = (ys, refl, e)
frames_prefix (x ∷ xs) [] rest hx hy e = absurd (
    omega (
      arith,
      ap length e,
      length-append {0} (frame x ++ frames xs) rest,
      length-append {0} (frame x) (frames xs),
      length-frame x,
    ))
frames_prefix (x ∷ xs) (y ∷ ys) rest hx hy e =
    let (same, others) =
      frame_unique x y (frames xs ++ rest) (frames ys) hx.0 hy.0
        (sym (append_assoc (frame x) (frames xs) rest) ∙ e) in
    let (zs, p, q) = frames_prefix xs ys rest hx.1 hy.1 others in (zs, (λ i. sym same i ∷ p i), q)

-- What the invariants of the two ends say of the messages between them.
pub invariants-in_order :
    {L M : Type 0} (sent : L → List ℕ) (arrived : M → List ℕ) (s : TcpConn L) (t : TcpConn M)
    (msgs got : List (List ℕ)) (on_its_way : List ℕ)
    → SendInv sent s msgs
    → ReceiveInv arrived t got
    → arrived t.btcp_socket ++ on_its_way ≡ sent s.btcp_socket
    → (others : List (List ℕ)) × (msgs ≡ got ++ others)
      × (t.receive_mbuf.wire_data ++ (on_its_way ++ drop s.mbuf_sent s.send_mbuf.wire_data)
          ≡ frames others)
invariants-in_order sent arrived s t msgs got on_its_way si ri link =
    let left : List ℕ = drop s.mbuf_sent s.send_mbuf.wire_data in
    let buffered : List ℕ = t.receive_mbuf.wire_data in
    frames_prefix got msgs (buffered ++ (on_its_way ++ left)) ri.short si.short (
      sym (append_assoc (frames got) buffered (on_its_way ++ left))
      ∙ ap (λ b. b ++ (on_its_way ++ left)) (sym ri.stream)
      ∙ sym (append_assoc (arrived t.btcp_socket) on_its_way left)
      ∙ ap (λ b. b ++ left) link
      ∙ si.stream)
