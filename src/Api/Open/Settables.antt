-- ===== src/Api/Open/Settables.antt =====
-- The setters of all attributes of a socket ends and keeps what the socket holds.
use xcm.Base.{
  subst, ℕ, ◌≡◌, ◌<◌, inl, inr, refl, sym, ap, ◌∙◌, some, List, [], ◌∷◌, ◌++◌, Str, c_str, str_eq,
  length, arith, Bool-cases, Option-cases,
}
use xcm.Errno.{einval, eacces}
use xcm.AttrMap.{AttrType, int64, type_eq, str}
use xcm.Socket.{Socket, SocketType-cases, TpAttr}
use xcm.Socket.Ops.{TpOps, Env}
use xcm.Socket.Calls.{xcm_tp_socket_attr_foreach, xcm_tp_socket_is_bytestream}
use xcm.Socket.Attrs.{set_local_attr, common_attrs, common_conn_attrs}
use xcm.Api.Attrs.{
  valid_set_attr_len, find_attr, xcm_tp_common_attr_foreach, socket_attr_lookup, set_found,
  xcm_attr_set,
}
use xcm.Api.Send.{Wakes}
use xcm.Socket.Attrs.{
  get_type_attr, get_transport_attr, get_service_attr, get_local_attr, get_remote_attr, read_only,
  msg_cnt_attrs, bytestream_cnt_attrs, get_max_msg_attr,
}
use xcm.Api.Attrs.{msg_conn_attrs, bytestream_conn_attrs, server_attrs}
use xcm.AttrMap.Lookup.{type_eq_iff}
use xcm.Api.Open.Setters.{
  at_once, read_only-AllSettable, read_only-Settable, service-Settable, local-Settable,
  blocking-Settable,
}
use xcm.Errno.{enoent}
use xcm.Api.Open.Ledger.{Ledger, Set, Settable, AllSettable, Accounts}

module _ {W : Type 0} (ops : TpOps W) (env : Env W) where
  module _ (ledger : W → Ledger) (accounts : Accounts ops env ledger) (rounds : W → ℕ)
      (wakes : Wakes ops env rounds) (fuel : ℕ) (enough : (w : W) → rounds w < fuel) where
    append-AllSettable :
        (attrs more : List (TpAttr W))
        → AllSettable ops env ledger attrs
        → AllSettable ops env ledger more
        → AllSettable ops env ledger (attrs ++ more)
    append-AllSettable [] more a b = b
    append-AllSettable (attr ∷ attrs) more a b = (a.0, append-AllSettable attrs more a.1 b)

    common-AllSettable : AllSettable ops env ledger (common_attrs ops env)
    unfolding common_attrs
    common-AllSettable = (
      read_only-Settable ops env ledger accounts rounds wakes fuel enough (c_str "xcm.type") str
          (get_type_attr ops env),
      (
        read_only-Settable ops env ledger accounts rounds wakes fuel enough (c_str "xcm.transport")
            str (get_transport_attr ops env),
        (
          service-Settable ops env ledger accounts rounds wakes fuel enough (c_str "xcm.service")
              (get_service_attr ops env),
          tt,
        ),
      ),
    )

    common_conn-AllSettable : AllSettable ops env ledger (common_conn_attrs ops env)
    unfolding common_conn_attrs
    common_conn-AllSettable =
        append-AllSettable (common_attrs ops env)
          (record {
            name = c_str "xcm.local_addr";
            type = str;
            set = some (set_local_attr ops env);
            get = some (get_local_attr ops env);
          }
            ∷ read_only (c_str "xcm.remote_addr") str (get_remote_attr ops env)
            ∷ [])
          common-AllSettable
          (
            local-Settable ops env ledger accounts rounds wakes fuel enough (c_str "xcm.local_addr")
                (get_local_attr ops env),
            (
              read_only-Settable ops env ledger accounts rounds wakes fuel enough
                  (c_str "xcm.remote_addr") str (get_remote_attr ops env),
              tt,
            ),
          )

    msg_cnt-AllSettable : AllSettable ops env ledger (msg_cnt_attrs ops env)
    unfolding msg_cnt_attrs
    msg_cnt-AllSettable =
        read_only-AllSettable ops env ledger accounts rounds wakes fuel enough
          (msg_cnt_attrs ops env) refl

    bytestream_cnt-AllSettable : AllSettable ops env ledger (bytestream_cnt_attrs ops env)
    unfolding bytestream_cnt_attrs
    bytestream_cnt-AllSettable =
        read_only-AllSettable ops env ledger accounts rounds wakes fuel enough
          (bytestream_cnt_attrs ops env) refl

    msg_conn-AllSettable : AllSettable ops env ledger (msg_conn_attrs ops env fuel)
    unfolding msg_conn_attrs
    msg_conn-AllSettable = (
      blocking-Settable ops env ledger accounts rounds wakes fuel enough,
      append-AllSettable (common_conn_attrs ops env)
          (read_only (c_str "xcm.max_msg_size") int64 (get_max_msg_attr ops env)
            ∷ msg_cnt_attrs ops env)
          common_conn-AllSettable
          (
            read_only-Settable ops env ledger accounts rounds wakes fuel enough
                (c_str "xcm.max_msg_size") int64 (get_max_msg_attr ops env),
            msg_cnt-AllSettable,
          ),
    )

    bytestream_conn-AllSettable : AllSettable ops env ledger (bytestream_conn_attrs ops env fuel)
    unfolding bytestream_conn_attrs
    bytestream_conn-AllSettable = (
      blocking-Settable ops env ledger accounts rounds wakes fuel enough,
      append-AllSettable (common_conn_attrs ops env) (bytestream_cnt_attrs ops env)
          common_conn-AllSettable bytestream_cnt-AllSettable,
    )

    server-AllSettable : AllSettable ops env ledger (server_attrs ops env fuel)
    unfolding server_attrs
    server-AllSettable = (
      blocking-Settable ops env ledger accounts rounds wakes fuel enough,
      append-AllSettable (common_attrs ops env)
          (read_only (c_str "xcm.local_addr") str (get_local_attr ops env) ∷ []) common-AllSettable
          (
            read_only-Settable ops env ledger accounts rounds wakes fuel enough
                (c_str "xcm.local_addr") str (get_local_attr ops env),
            tt,
          ),
    )

    foreach-AllSettable :
        (s : Socket) → AllSettable ops env ledger (xcm_tp_common_attr_foreach ops env fuel s)
    unfolding xcm_tp_common_attr_foreach
    foreach-AllSettable s = elim (SocketType-cases s.type) [
      | inr is_server ↦
          subst (AllSettable ops env ledger) (sym (ground (arith, is_server))) server-AllSettable
      | inl is_conn ↦ elim (Bool-cases (xcm_tp_socket_is_bytestream ops env)) [
        | inl bytes ↦
            subst (AllSettable ops env ledger) (sym (ground (arith, is_conn, bytes)))
              bytestream_conn-AllSettable
        | inr messages ↦
            subst (AllSettable ops env ledger) (sym (ground (arith, is_conn, messages)))
              msg_conn-AllSettable
      ]
    ]

    find-Set :
        (name : Str) (attrs : List (TpAttr W)) (attr : TpAttr W)
        → AllSettable ops env ledger attrs
        → find_attr name attrs ≡ some attr
        → Settable ops env ledger attr
    unfolding find_attr
    find-Set name [] attr a h = ground (arith, h)
    find-Set name (x ∷ attrs) attr a h = elim (Bool-cases (str_eq x.name name)) [
      | inl equal ↦
          let here : x ≡ attr = ground (arith, h, equal) in subst (Settable ops env ledger) here a.0
      | inr other ↦ find-Set name attrs attr a.1 (ground (arith, h, other))
    ]

    lookup-Settable :
        (s : Socket) (name : Str) (w : W) (attr : TpAttr W)
        → socket_attr_lookup ops env fuel s name w ≡ some attr
        → Settable ops env ledger attr
    unfolding socket_attr_lookup
    lookup-Settable s name w attr h =
        elim (Option-cases (find_attr name (xcm_tp_common_attr_foreach ops env fuel s))) [
          | inr (x, found) ↦
              find-Set name (xcm_tp_common_attr_foreach ops env fuel s) attr (foreach-AllSettable s)
                (ground (arith, h, found))
          | inl missing ↦
              find-Set name (xcm_tp_socket_attr_foreach ops env s w) attr (accounts.own_attrs s w)
                (ground (arith, h, missing))
        ]

    pub attr_set-Set :
        (s : Socket) (name : Str) (type : AttrType) (value : List ℕ) (w : W)
        → Set ops env ledger s w (xcm_attr_set ops env fuel s name type value w)
    unfolding xcm_attr_set set_found
    attr_set-Set s name type value w = elim (Bool-cases (valid_set_attr_len type (length value))) [
      | inr wrong ↦
          at_once ops env ledger accounts rounds wakes fuel enough s s w (some einval) _
            (ground (arith, wrong)) refl
      | inl right ↦ elim (Option-cases (socket_attr_lookup ops env fuel s name w)) [
        | inl missing ↦
            at_once ops env ledger accounts rounds wakes fuel enough s s w (some enoent) _
              (ground (arith, right, missing)) refl
        | inr (attr, found) ↦ elim (Option-cases attr.set) [
          | inl no_set ↦
              at_once ops env ledger accounts rounds wakes fuel enough s s w (some eacces) _
                (ground (arith, right, found, no_set)) refl
          | inr (setter, there) ↦ elim (Bool-cases (type_eq type attr.type)) [
            | inr other ↦
                at_once ops env ledger accounts rounds wakes fuel enough s s w (some einval) _
                  (ground (arith, right, found, there, other)) refl
            | inl same ↦
                subst (Set ops env ledger s w) (sym (ground (arith, right, found, there, same))) (
                  lookup-Settable s name w attr found setter value s w there (
                    ap (λ t. valid_set_attr_len t (length value))
                      (sym (type_eq_iff type attr.type same))
                    ∙ right))
          ]
        ]
      ]
    ]
