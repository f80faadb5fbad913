-- ===== src/Api/Open/SetAttrs.antt =====
-- set_attrs() of libxcm/core/xcm.c ends and keeps what the socket holds.
use xcm.Base.{
  ℕ, ◌≡◌, ◌<◌, inl, inr, refl, ap, ◌∙◌, Bool, true, false, Option, none, some, List, [], ◌∷◌,
  if◌then◌else◌, arith, Option-cases,
}
use xcm.Errno.{Errno}
use xcm.AttrMap.{str, Attr, AttrMap}
use xcm.Socket.{Socket}
use xcm.Socket.Ops.{TpOps, Env}
use xcm.Api.Attrs.{xcm_attr_set, set_attrs}
use xcm.Api.Send.{Wakes}
use xcm.Api.Attrs.{xcm_attr_set_str, set_default_attrs, set_user_loop, set_user_attrs}
use xcm.Api.Open.Setters.{at_once}
use xcm.Api.Open.Ledger.{Ledger, Set, Accounts}
use xcm.Api.Open.Settables.{attr_set-Set}

module _ {W : Type 0} (ops : TpOps W) (env : Env W) where
  module _ (ledger : W → Ledger) (accounts : Accounts ops env ledger) (rounds : W → ℕ)
      (wakes : Wakes ops env rounds) (fuel : ℕ) (enough : (w : W) → rounds w < fuel) where
    -- A second setter after a first, which is left out if the first fails.
    then-Set :
        (s : Socket) (w : W) (first result : Option (Option Errno × Socket × W))
        (next : Socket → W → Option (Option Errno × Socket × W))
        → Set ops env ledger s w first
        → ((s' : Socket) (w' : W) → Set ops env ledger s' w' (next s' w'))
        → ((e : Errno) (s' : Socket) (w' : W)
            → first ≡ some (some e, s', w')
            → result ≡ some (some e, s', w'))
        → ((s' : Socket) (w' : W) → first ≡ some (none, s', w') → result ≡ next s' w')
        → Set ops env ledger s w result
    then-Set s w first result next done step fails goes = elim (Option-cases done.rc) [
      | inr (e, failed) ↦ record {
        rc = some e;
        socket = done.socket;
        after = done.after;
        result_eq =
            fails e done.socket done.after
              (done.result_eq ∙ ap (λ rc. some (rc, done.socket, done.after)) failed);
        same_ledger = done.same_ledger;
        same_ctl = done.same_ctl;
      }
      | inl ok ↦
          let more : Set ops env ledger done.socket done.after (next done.socket done.after) =
            step done.socket done.after in
          record {
            rc = more.rc;
            socket = more.socket;
            after = more.after;
            result_eq =
                goes done.socket done.after
                  (done.result_eq ∙ ap (λ rc. some (rc, done.socket, done.after)) ok)
                ∙ more.result_eq;
            same_ledger = more.same_ledger ∙ done.same_ledger;
            same_ctl = more.same_ctl ∙ done.same_ctl;
          }
    ]

    user-Set :
        (attrs : List Attr) (s : Socket) (w : W)
        → Set ops env ledger s w (set_user_loop ops env fuel s attrs w)
    unfolding set_user_loop
    user-Set [] s w =
        at_once ops env ledger accounts rounds wakes fuel enough s s w none _ refl refl
    user-Set (attr ∷ rest) s w =
        then-Set s w (xcm_attr_set ops env fuel s attr.name attr.type attr.value w)
          (set_user_loop ops env fuel s (attr ∷ rest) w)
          (λ s' w'. set_user_loop ops env fuel s' rest w')
          (attr_set-Set ops env ledger accounts rounds wakes fuel enough s attr.name attr.type
            attr.value w)
          (λ s' w'. user-Set rest s' w') (λ e s' w' h. ground (arith, h))
          (λ s' w' h. ground (arith, h))

    users-Set :
        (attrs : Option AttrMap) (s : Socket) (w : W)
        → Set ops env ledger s w (set_user_attrs ops env fuel s attrs w)
    unfolding set_user_attrs
    users-Set none s w =
        at_once ops env ledger accounts rounds wakes fuel enough s s w none _ refl refl
    users-Set (some m) s w = user-Set m.attrs s w

    if_Set :
        (s : Socket) (w : W) (b : Bool) (yes_r no_r : Option (Option Errno × Socket × W))
        → Set ops env ledger s w yes_r
        → Set ops env ledger s w no_r
        → Set ops env ledger s w (if b then yes_r else no_r)
    if_Set s w true yes_r no_r a b = a
    if_Set s w false yes_r no_r a b = b

    default-Set :
        (s : Socket) (parent_s : Option Socket) (attrs : Option AttrMap) (w : W)
        → Set ops env ledger s w (set_default_attrs ops env fuel s parent_s attrs w)
    unfolding set_default_attrs xcm_attr_set_str
    default-Set s parent_s attrs w =
        if_Set s w _ _ _
          (at_once ops env ledger accounts rounds wakes fuel enough s s w none _ refl refl)
          (attr_set-Set ops env ledger accounts rounds wakes fuel enough s _ str _ w)

    pub set_attrs-Set :
        (s : Socket) (parent_s : Option Socket) (attrs : Option AttrMap) (w : W)
        → Set ops env ledger s w (set_attrs ops env fuel s parent_s attrs w)
    unfolding set_attrs
    set_attrs-Set s parent_s attrs w =
        then-Set s w (set_default_attrs ops env fuel s parent_s attrs w)
          (set_attrs ops env fuel s parent_s attrs w)
          (λ s' w'. set_user_attrs ops env fuel s' attrs w') (default-Set s parent_s attrs w)
          (λ s' w'. users-Set attrs s' w') (λ e s' w' h. ground (arith, h))
          (λ s' w' h. ground (arith, h))
