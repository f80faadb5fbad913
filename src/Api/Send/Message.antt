-- ===== src/Api/Send/Message.antt =====
-- xcm_send() of libxcm/core/xcm.c on a blocking socket of a messaging transport.
use xcm.Base.{
  ℕ, zero, suc, ◌≡◌, ◌≢◌, ◌≤◌, ◌<◌, ◌⊎◌, inl, inr, refl, sym, subst, ◌∙◌, true, false, Option, some,
  List, [], ◌∷◌, ◌++◌, arith, Bool-cases, Option-cases,
}
use xcm.Errno.{Errno, is_eagain, Outcome, Outcome-cases, ret, fail, abort}
use xcm.Socket.{Socket, conn}
use xcm.Socket.Ops.{TpOps, Env}
use xcm.Socket.Calls.{
  failed_for_good, failed_for_now, error_of, xcm_tp_socket_send, xcm_tp_socket_is_bytestream,
}
use xcm.Api.{msg_bsend, bsend, finish_send, xcm_send, xcm_so_sendable}
use xcm.Api.Send.{Keeps, Wakes, after_send, after_call-view, socket_wait-view, socket_finish_lem}

module _ {W : Type 0} (ops : TpOps W) (env : Env W) (accepted : W → List (List ℕ)) where
  -- What a messaging transport promises: `accepted` are the messages that it has accepted. A send
  -- that succeeds accepts the message, one that fails with EAGAIN does not, and one that fails
  -- otherwise may have accepted it.
  pub record MessageTransport : Type 0 where
    pub send_accepts :
        (s : Socket) (buf : List ℕ) (w : W) (n : ℕ)
        → (ops.send s buf w).0 ≡ ret n
        → accepted (ops.send s buf w).1 ≡ accepted w ++ (buf ∷ [])
    pub send_again :
        (s : Socket) (buf : List ℕ) (w : W) (e : Errno)
        → (ops.send s buf w).0 ≡ fail e
        → is_eagain e ≡ true
        → accepted (ops.send s buf w).1 ≡ accepted w
    pub send_fails :
        (s : Socket) (buf : List ℕ) (w : W) (e : Errno)
        → (ops.send s buf w).0 ≡ fail e
        → (accepted (ops.send s buf w).1 ≡ accepted w)
          ⊎ (accepted (ops.send s buf w).1 ≡ accepted w ++ (buf ∷ []))
    pub never_aborts : (s : Socket) (buf : List ℕ) (w : W) → (ops.send s buf w).0 ≢ abort

  abbrev pub SentCases : List ℕ → List (List ℕ) → Outcome ℕ → W → Type 0
  SentCases buf before outcome after =
      ((outcome ≡ ret 0) × (accepted after ≡ before ++ (buf ∷ [])))
      ⊎ ((e : Errno) × (outcome ≡ fail e)
          × ((accepted after ≡ before) ⊎ (accepted after ≡ before ++ (buf ∷ []))))

  -- A message is sent once if the call succeeds, and once or not at all if it fails.
  pub record SentOnce (buf : List ℕ) (w : W) (result : Option (Outcome ℕ × Socket × W))
      : Type 0 where
    pub outcome : Outcome ℕ
    pub socket : Socket
    pub after : W
    pub result_eq : result ≡ some (outcome, socket, after)
    pub cases : SentCases buf (accepted w) outcome after

  module _ (contract : MessageTransport) (keeps : Keeps ops env accepted) (rounds : W → ℕ)
      (wakes : Wakes ops env rounds) where
    send-view :
        (s : Socket) (buf : List ℕ) (w : W)
        → accepted (xcm_tp_socket_send ops env s buf w).2 ≡ accepted (ops.send s buf w).1
    unfolding xcm_tp_socket_send
    send-view s buf w =
        after_call-view ops env accepted keeps (failed_for_good (error_of (ops.send s buf w).0))
          (failed_for_now (error_of (ops.send s buf w).0)) s (ops.send s buf w).1

    send-result :
        (s : Socket) (buf : List ℕ) (w : W)
        → (xcm_tp_socket_send ops env s buf w).0 ≡ (ops.send s buf w).0
    unfolding xcm_tp_socket_send
    send-result s buf w = refl

    -- A wait after EAGAIN finds the accepted messages as they were.
    again-view :
        (s : Socket) (buf : List ℕ) (w : W) (e : Errno)
        → (xcm_tp_socket_send ops env s buf w).0 ≡ fail e
        → is_eagain e ≡ true
        → accepted (after_send ops env s buf w).2 ≡ accepted w
    again-view s buf w e failed again =
        socket_wait-view ops env accepted keeps (xcm_tp_socket_send ops env s buf w).1
          xcm_so_sendable (xcm_tp_socket_send ops env s buf w).2
        ∙ send-view s buf w
        ∙ contract.send_again s buf w e (sym (send-result s buf w) ∙ failed) again

    failed-view :
        (s : Socket) (buf : List ℕ) (w : W) (e : Errno)
        → (xcm_tp_socket_send ops env s buf w).0 ≡ fail e
        → (accepted (xcm_tp_socket_send ops env s buf w).2 ≡ accepted w)
          ⊎ (accepted (xcm_tp_socket_send ops env s buf w).2 ≡ accepted w ++ (buf ∷ []))
    failed-view s buf w e failed =
        elim (contract.send_fails s buf w e (sym (send-result s buf w) ∙ failed)) [
          | inl same ↦ inl (send-view s buf w ∙ same)
          | inr more ↦ inr (send-view s buf w ∙ more)
        ]

    -- What msg_bsend() leaves, with no more rounds to wait for than before if it succeeds.
    record Looped (fuel : ℕ) (s : Socket) (buf : List ℕ) (w : W) : Type 0 where
      sent : SentOnce buf w (msg_bsend ops env fuel s buf w)
      fewer : (n : ℕ) → sent.outcome ≡ ret n → rounds sent.after ≤ rounds w

    stopped :
        (fuel : ℕ) (s : Socket) (buf : List ℕ) (w : W) (e : Errno) (s' : Socket) (w' : W)
        → msg_bsend ops env fuel s buf w ≡ some (fail e, s', w')
        → (accepted w' ≡ accepted w) ⊎ (accepted w' ≡ accepted w ++ (buf ∷ []))
        → Looped fuel s buf w
    stopped fuel s buf w e s' w' result view = record {
      sent = record {
        outcome = fail e;
        socket = s';
        after = w';
        result_eq = result;
        cases = inr (e, refl, view);
      };
      fewer = λ n o. cc;
    }

    msg_bsend_lem :
        (fuel : ℕ) (s : Socket) (buf : List ℕ) (w : W) → rounds w < fuel → Looped fuel s buf w
    unfolding msg_bsend
    msg_bsend_lem zero s buf w h = elim h [ ]
    msg_bsend_lem (suc fuel) s buf w h =
        let r : Outcome ℕ × Socket × W = xcm_tp_socket_send ops env s buf w in
        let q : Option Errno × Socket × W = after_send ops env s buf w in
        elim (Outcome-cases r.0) [
          | inl (n, done) ↦ record {
            sent = record {
              outcome = ret 0;
              socket = r.1;
              after = r.2;
              result_eq = ground (arith, done);
              cases = inl (
                refl,
                send-view s buf w
                    ∙ contract.send_accepts s buf w n (sym (send-result s buf w) ∙ done),
              );
            };
            fewer = λ m e. wakes.send_done s buf w n done;
          }
          | inr (inr aborts) ↦
              absurd (contract.never_aborts s buf w (sym (send-result s buf w) ∙ aborts))
          | inr (inl (e, failed)) ↦ elim (Bool-cases (is_eagain e)) [
            | inr over ↦
                stopped (suc fuel) s buf w e r.1 r.2 (ground (arith, failed, over))
                  (failed-view s buf w e failed)
            | inl again ↦ elim (Option-cases q.0) [
              | inr (e', lost) ↦
                  stopped (suc fuel) s buf w e' q.1 q.2 (ground (arith, failed, again, lost))
                    (inl (again-view s buf w e failed again))
              | inl woken ↦
                  let fewer : rounds q.2 < rounds w =
                    wakes.send_wakes s buf w e failed again woken in
                  let loop : Looped fuel q.1 buf q.2 =
                    msg_bsend_lem fuel q.1 buf q.2 (omega arith) in
                  let step : msg_bsend ops env (suc fuel) s buf w
                      ≡ msg_bsend ops env fuel q.1 buf q.2 =
                    ground (arith, failed, again, woken) in
                  record {
                    sent = record {
                      outcome = loop.sent.outcome;
                      socket = loop.sent.socket;
                      after = loop.sent.after;
                      result_eq = step ∙ loop.sent.result_eq;
                      cases =
                          subst (λ a. SentCases buf a loop.sent.outcome loop.sent.after)
                            (again-view s buf w e failed again) loop.sent.cases;
                    };
                    fewer = λ n o. omega (arith, loop.fewer n o, fewer);
                  }
            ]
          ]
        ]

    -- xcm_send() of a blocking connection over a messaging transport ends, and never aborts. If it
    -- returns 0, the transport has accepted the message once. If it fails, it has accepted it once
    -- or not at all.
    pub xcm_send_lem :
        (fuel : ℕ) (s : Socket) (buf : List ℕ) (w : W)
        → s.type ≡ conn
        → s.is_blocking ≡ true
        → xcm_tp_socket_is_bytestream ops env ≡ false
        → rounds w < fuel
        → SentOnce buf w (xcm_send ops env fuel s buf w)
    unfolding xcm_send bsend finish_send
    xcm_send_lem fuel s buf w is_conn blocks messages enough =
        let loop : Looped fuel s buf w = msg_bsend_lem fuel s buf w enough in
        let sent : SentOnce buf w (msg_bsend ops env fuel s buf w) = loop.sent in
        elim sent.cases [
          | inr (e, failed, view) ↦ record {
            outcome = fail e;
            socket = sent.socket;
            after = sent.after;
            result_eq = ground (arith, is_conn, blocks, messages, sent.result_eq, failed);
            cases = inr (e, refl, view);
          }
          | inl (done, view) ↦
              let (rc, s', w', finished, same) =
                socket_finish_lem ops env accepted keeps rounds wakes fuel sent.socket sent.after
                  (omega (arith, loop.fewer 0 done)) in
              elim (Option-cases rc) [
                | inl ok ↦ record {
                  outcome = ret 0;
                  socket = s';
                  after = w';
                  result_eq =
                      ground (arith, is_conn, blocks, messages, sent.result_eq, done, finished, ok);
                  cases = inl (refl, same ∙ view);
                }
                | inr (e, failed) ↦ record {
                  outcome = fail e;
                  socket = s';
                  after = w';
                  result_eq =
                      ground
                        (arith, is_conn, blocks, messages, sent.result_eq, done, finished, failed);
                  cases = inr (e, refl, inr (same ∙ view));
                }
              ]
        ]
