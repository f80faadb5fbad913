-- ===== src/Api/Send/Bytes.antt =====
-- xcm_send() of libxcm/core/xcm.c on a blocking socket of a bytestream transport.
use xcm.Base.{
  ℕ, zero, suc, ◌+◌, ◌-◌, ◌≡◌, ◌≢◌, ◌≤◌, ◌<◌, ◌⊎◌, inl, inr, refl, sym, ap, ◌∙◌, true, Option, some,
  List, [], ◌∷◌, ◌++◌, append_assoc, append-nil, arith, length, length-drop, take, drop, take_all,
  ltb, Bool-cases, Option-cases,
}
use native.Mathlib.Nat.{suc-add}
use xcm.Errno.{Errno, is_eagain, Outcome, Outcome-cases, ret, fail, abort}
use xcm.Socket.{Socket, conn}
use xcm.Socket.Ops.{TpOps, Env}
use xcm.Socket.Calls.{
  failed_for_good, failed_for_now, error_of, xcm_tp_socket_send, xcm_tp_socket_is_bytestream,
}
use xcm.Api.{bytestream_bsend, bsend, finish_send, xcm_send, xcm_so_sendable}
use xcm.Api.Send.{Keeps, Wakes, after_send, after_call-view, socket_wait-view, socket_finish_lem}

take_nil : (n : ℕ) → take {A = ℕ} n [] ≡ []
take_nil zero = refl
take_nil (suc n) = refl

take-add : (k n : ℕ) (xs : List ℕ) → take (k + n) xs ≡ take k xs ++ take n (drop k xs)
take-add zero n xs = ground arith
take-add (suc k) n [] = ground (arith, take_nil (suc k + n), take_nil n)
take-add (suc k) n (x ∷ xs) = rw suc-add (ap (λ r. x ∷ r) (take-add k n xs))

module _ {W : Type 0} (ops : TpOps W) (env : Env W) (accepted : W → List ℕ) where
  -- What a bytestream transport promises: `accepted` are the bytes that it has accepted. A send that
  -- succeeds accepts some first bytes of the buffer, at least one if it has any; one that fails
  -- accepts none.
  pub record ByteTransport : Type 0 where
    pub send_accepts :
        (s : Socket) (buf : List ℕ) (w : W) (n : ℕ)
        → (ops.send s buf w).0 ≡ ret n
        → (n ≤ length buf)
          × (0 < length buf → 0 < n)
          × (accepted (ops.send s buf w).1 ≡ accepted w ++ take n buf)
    pub send_fails :
        (s : Socket) (buf : List ℕ) (w : W) (e : Errno)
        → (ops.send s buf w).0 ≡ fail e
        → accepted (ops.send s buf w).1 ≡ accepted w
    pub never_aborts : (s : Socket) (buf : List ℕ) (w : W) → (ops.send s buf w).0 ≢ abort

  abbrev pub SentCases : List ℕ → List ℕ → Outcome ℕ → W → Type 0
  SentCases buf before outcome after =
      ((outcome ≡ ret (length buf)) × (accepted after ≡ before ++ buf))
      ⊎ ((e : Errno) × (k : ℕ) × (outcome ≡ fail e)
          × (k ≤ length buf)
          × (accepted after ≡ before ++ take k buf))

  -- The buffer is sent whole if the call succeeds, and some first bytes of it if it fails.
  pub record SentBytes (buf before : List ℕ) (result : Option (Outcome ℕ × Socket × W))
      : Type 0 where
    pub outcome : Outcome ℕ
    pub socket : Socket
    pub after : W
    pub result_eq : result ≡ some (outcome, socket, after)
    pub cases : SentCases buf before outcome after

  module _ (contract : ByteTransport) (keeps : Keeps ops env accepted) (rounds : W → ℕ)
      (wakes : Wakes ops env rounds) where
    send-view :
        (s : Socket) (buf : List ℕ) (w : W)
        → accepted (xcm_tp_socket_send ops env s buf w).2 ≡ accepted (ops.send s buf w).1
    unfolding xcm_tp_socket_send
    send-view s buf w =
        after_call-view ops env accepted keeps (failed_for_good (error_of (ops.send s buf w).0))
          (failed_for_now (error_of (ops.send s buf w).0)) s (ops.send s buf w).1

    send-result :
        (s : Socket) (buf : List ℕ) (w : W)
        → (xcm_tp_socket_send ops env s buf w).0 ≡ (ops.send s buf w).0
    unfolding xcm_tp_socket_send
    send-result s buf w = refl

    failed-view :
        (s : Socket) (buf : List ℕ) (w : W) (e : Errno)
        → (xcm_tp_socket_send ops env s buf w).0 ≡ fail e
        → accepted (xcm_tp_socket_send ops env s buf w).2 ≡ accepted w
    failed-view s buf w e failed =
        send-view s buf w ∙ contract.send_fails s buf w e (sym (send-result s buf w) ∙ failed)

    again-view :
        (s : Socket) (buf : List ℕ) (w : W) (e : Errno)
        → (xcm_tp_socket_send ops env s buf w).0 ≡ fail e
        → accepted (after_send ops env s buf w).2 ≡ accepted w
    again-view s buf w e failed =
        socket_wait-view ops env accepted keeps (xcm_tp_socket_send ops env s buf w).1
          xcm_so_sendable (xcm_tp_socket_send ops env s buf w).2
        ∙ failed-view s buf w e failed

    -- What bytestream_bsend() leaves, with no more rounds to wait for than before if it succeeds.
    record Looped (buf before : List ℕ) (w : W) (result : Option (Outcome ℕ × Socket × W))
        : Type 0 where
      sent : SentBytes buf before result
      fewer : (n : ℕ) → sent.outcome ≡ ret n → rounds sent.after ≤ rounds w

    stopped :
        (buf before : List ℕ) (k : ℕ) (w : W) (result : Option (Outcome ℕ × Socket × W)) (e : Errno)
        (s' : Socket) (w' : W)
        → result ≡ some (fail e, s', w')
        → k ≤ length buf
        → accepted w' ≡ before ++ take k buf
        → Looped buf before w result
    stopped buf before k w result e s' w' eq within view = record {
      sent = record {
        outcome = fail e;
        socket = s';
        after = w';
        result_eq = eq;
        cases = inr (e, k, refl, within, view);
      };
      fewer = λ n o. cc;
    }

    -- A loop that goes on from a state with no more rounds.
    continued :
        (buf before : List ℕ) (w w' : W) (result result' : Option (Outcome ℕ × Socket × W))
        → result ≡ result'
        → rounds w' ≤ rounds w
        → Looped buf before w' result'
        → Looped buf before w result
    continued buf before w w' result result' step less loop = record {
      sent = record {
        outcome = loop.sent.outcome;
        socket = loop.sent.socket;
        after = loop.sent.after;
        result_eq = step ∙ loop.sent.result_eq;
        cases = loop.sent.cases;
      };
      fewer = λ n o. omega (arith, loop.fewer n o, less);
    }

    finished :
        (buf before : List ℕ) (w : W) (result : Option (Outcome ℕ × Socket × W)) (k : ℕ)
        (s' : Socket) (w' : W)
        → result ≡ some (ret k, s', w')
        → k ≡ length buf
        → rounds w' ≤ rounds w
        → accepted w' ≡ before ++ take k buf
        → Looped buf before w result
    finished buf before w result k s' w' eq all less view = record {
      sent = record {
        outcome = ret k;
        socket = s';
        after = w';
        result_eq = eq;
        cases =
            inl (ap ret all, view ∙ ap (λ b. before ++ b) (take_all k buf (omega (arith, all))));
      };
      fewer = λ n o. less;
    }

    bytestream_bsend_lem :
        (fuel : ℕ) (s : Socket) (buf before : List ℕ) (k : ℕ) (w : W)
        → k ≤ length buf
        → accepted w ≡ before ++ take k buf
        → rounds w + (length buf - k) < fuel
        → Looped buf before w (bytestream_bsend ops env fuel s buf k w)
    unfolding bytestream_bsend
    bytestream_bsend_lem zero s buf before k w within view h = elim h [ ]
    bytestream_bsend_lem (suc fuel) s buf before k w within view h =
        let left : List ℕ = drop k buf in
        let size : length left ≡ length buf - k = length-drop {0} k buf in
        let r : Outcome ℕ × Socket × W = xcm_tp_socket_send ops env s left w in
        let q : Option Errno × Socket × W = after_send ops env s left w in
        elim (Outcome-cases r.0) [
          | inr (inr aborts) ↦
              absurd (contract.never_aborts s left w (sym (send-result s left w) ∙ aborts))
          | inl (n, done) ↦
              let (most, some_byte, joined) =
                contract.send_accepts s left w n (sym (send-result s left w) ∙ done) in
              let moved : accepted r.2 ≡ before ++ take (k + n) buf =
                send-view s left w
                ∙ joined
                ∙ ap (λ a. a ++ take n left) view
                ∙ append_assoc before (take k buf) (take n left)
                ∙ ap (λ a. before ++ a) (sym (take-add k n buf)) in
              let less : rounds r.2 ≤ rounds w = wakes.send_done s left w n done in
              elim (Bool-cases (ltb (k + n) (length buf))) [
                | inl more ↦ continued buf before w r.2 _ _ (ground (arith, done, more)) less (
                    bytestream_bsend_lem fuel r.1 buf before (k + n) r.2 (ground (arith, more))
                      moved (ground (arith, more, some_byte, size, less)))
                | inr all ↦
                    finished buf before w _ (k + n) r.1 r.2 (ground (arith, done, all))
                      (ground (arith, all, most, size)) less moved
              ]
          | inr (inl (e, failed)) ↦ elim (Bool-cases (is_eagain e)) [
            | inr over ↦
                stopped buf before k w _ e r.1 r.2 (ground (arith, failed, over)) within
                  (failed-view s left w e failed ∙ view)
            | inl again ↦ elim (Option-cases q.0) [
              | inr (e', lost) ↦
                  stopped buf before k w _ e' q.1 q.2 (ground (arith, failed, again, lost)) within
                    (again-view s left w e failed ∙ view)
              | inl woken ↦
                  let fewer : rounds q.2 < rounds w =
                    wakes.send_wakes s left w e failed again woken in
                  let kept : accepted q.2 ≡ before ++ take k buf =
                    again-view s left w e failed ∙ view in
                  elim (Bool-cases (ltb k (length buf))) [
                    | inl more ↦
                        continued buf before w q.2 _ _ (ground (arith, failed, again, woken, more))
                          (omega arith)
                          (bytestream_bsend_lem fuel q.1 buf before k q.2 within kept
                            (omega (arith, fewer)))
                    | inr all ↦
                        finished buf before w _ k q.1 q.2
                          (ground (arith, failed, again, woken, all)) (ground (arith, all))
                          (omega arith) kept
                  ]
            ]
          ]
        ]

    -- xcm_send() of a blocking connection over a bytestream transport ends, and never aborts. If it
    -- succeeds, it returns the length of the buffer, and the transport has accepted all of it. If it
    -- fails, the transport has accepted some first bytes of the buffer.
    pub xcm_send_bytes_lem :
        (fuel : ℕ) (s : Socket) (buf : List ℕ) (w : W)
        → s.type ≡ conn
        → s.is_blocking ≡ true
        → xcm_tp_socket_is_bytestream ops env ≡ true
        → rounds w + length buf < fuel
        → SentBytes buf (accepted w) (xcm_send ops env fuel s buf w)
    unfolding xcm_send bsend finish_send
    xcm_send_bytes_lem fuel s buf w is_conn blocks bytes enough =
        let loop : Looped buf (accepted w) w (bytestream_bsend ops env fuel s buf 0 w) =
          bytestream_bsend_lem fuel s buf (accepted w) 0 w (omega arith)
            (sym (append-nil (accepted w))) (omega (arith, enough)) in
        let sent : SentBytes buf (accepted w) (bytestream_bsend ops env fuel s buf 0 w) =
          loop.sent in
        elim sent.cases [
          | inr (e, k, failed, within, view) ↦ record {
            outcome = fail e;
            socket = sent.socket;
            after = sent.after;
            result_eq = ground (arith, is_conn, blocks, bytes, sent.result_eq, failed);
            cases = inr (e, k, refl, within, view);
          }
          | inl (done, view) ↦
              let (rc, s', w', finish, same) =
                socket_finish_lem ops env accepted keeps rounds wakes fuel sent.socket sent.after
                  (omega (arith, loop.fewer (length buf) done)) in
              elim (Option-cases rc) [
                | inl ok ↦ record {
                  outcome = ret (length buf);
                  socket = s';
                  after = w';
                  result_eq =
                      ground (arith, is_conn, blocks, bytes, sent.result_eq, done, finish, ok);
                  cases = inl (refl, same ∙ view);
                }
                | inr (e, failed) ↦ record {
                  outcome = fail e;
                  socket = s';
                  after = w';
                  result_eq =
                      ground (arith, is_conn, blocks, bytes, sent.result_eq, done, finish, failed);
                  cases = inr (
                    e,
                    length buf,
                    refl,
                    omega arith,
                    same
                        ∙ view
                        ∙ ap (λ b. accepted w ++ b) (sym (take_all (length buf) buf (omega arith))),
                  );
                }
              ]
        ]
