-- ===== src/Api/Attrs/All.antt =====
-- xcm_attr_get_all() of libxcm/core/xcm.c, and the attribute xcm.blocking.
use xcm.Base.{
  ℕ, zero, suc, ◌+◌, ◌*◌, ◌≡◌, ◌≢◌, ◌≤◌, ◌<◌, inl, inr, refl, sym, ap, ◌∙◌, Bool, true, false, none,
  some, List, [], ◌∷◌, ◌++◌, Str, c_str, str_eq, ltb, if◌then◌else◌, arith, Bool-cases,
}
use xcm.Errno.{Errno, eoverflow, is_eoverflow, Outcome, Outcome-cases, ret, fail, abort}
use xcm.AttrMap.{AttrType, bool, type_eq}
use xcm.Socket.{Socket, SocketType-cases, TpAttr}
use xcm.Socket.Ops.{TpOps, Env}
use xcm.Socket.Calls.{xcm_tp_socket_attr_foreach, xcm_tp_socket_is_bytestream}
use xcm.Socket.Attrs.{bool_byte, xcm_tp_get_bool_attr, xcm_tp_set_bool_attr}
use xcm.Api.{xcm_set_blocking}
use xcm.Api.Attrs.{
  find_attr, socket_attr_lookup, blocking_attr, set_blocking_attr, get_blocking_attr, set_found,
  xcm_tp_common_attr_foreach, msg_conn_attrs, bytestream_conn_attrs, server_attrs, xcm_attr_set,
  xcm_attr_set_bool, xcm_attr_get, xcm_attr_get_bool, attr_get_with_type, grow_loop,
  attr_forward_cb, forward_loop, xcm_attr_get_all,
}

-- A getter that has a value of at most `size` bytes, or fails with something other than EOVERFLOW:
-- it fails with EOVERFLOW for every capacity below the size, and for no other.
pub record IsSized (limit : ℕ) (getter : ℕ → Outcome (List ℕ)) : Type 0 where
  pub size : ℕ
  pub result : Outcome (List ℕ)
  pub small : size ≤ limit
  pub not_abort : result ≢ abort
  pub not_overflow : (e : Errno) → result ≡ fail e → is_eoverflow e ≡ false
  pub getter_eq :
      (capacity : ℕ) → getter capacity ≡ (if ltb capacity size then fail eoverflow else result)

grow_loop_lem :
    (limit fuel capacity : ℕ) (getter : ℕ → Outcome (List ℕ)) (sized : IsSized limit getter)
    → 0 < capacity
    → limit < capacity + fuel
    → 0 < fuel
    → grow_loop fuel getter capacity ≡ some sized.result
unfolding grow_loop
grow_loop_lem limit zero capacity getter sized some_room enough h = elim h [ ]
grow_loop_lem limit (suc fuel) capacity getter sized some_room enough h =
    elim (Bool-cases (ltb capacity sized.size)) [
      | inl short ↦
          let overflow : getter capacity ≡ fail eoverflow =
            sized.getter_eq capacity ∙ ground (arith, short) in
          let rest : grow_loop fuel getter (capacity * 2) ≡ some sized.result =
            grow_loop_lem limit fuel (capacity * 2) getter sized (omega arith) (omega arith)
              (ground (arith, short, sized.small)) in
          ground (arith, overflow, rest)
      | inr fits ↦
          let value : getter capacity ≡ sized.result =
            sized.getter_eq capacity ∙ ground (arith, fits) in
          elim (Outcome-cases sized.result) [
            | inl (v, done) ↦ ground (arith, value, done)
            | inr (inl (e, failed)) ↦ ground (arith, value, failed, sized.not_overflow e failed)
            | inr (inr aborts) ↦ absurd (sized.not_abort aborts)
          ]
    ]

-- An attribute that can be read, with a getter of that kind.
pub record IsReadable {W : Type 0} (limit : ℕ) (s : Socket) (w : W) (attr : TpAttr W) : Type 0 where
  pub getter : ℕ → Socket → W → Outcome (List ℕ)
  pub has_getter : attr.get ≡ some getter
  pub sized : IsSized limit (λ capacity. getter capacity s w)

-- The attributes of a list that can be read.
abbrev pub AllReadable : {W : Type 0} → ℕ → Socket → W → List (TpAttr W) → Type 0
AllReadable limit s w [] = Unit {0}
AllReadable limit s w (attr ∷ rest) = IsReadable limit s w attr × AllReadable limit s w rest

-- Their names, types and values, less those that cannot be read now.
unfoldable pub values :
    {W : Type 0} (limit : ℕ) (s : Socket) (w : W) (attrs : List (TpAttr W))
    → AllReadable limit s w attrs
    → List (Str × AttrType × List ℕ)
values limit s w [] r = []
values limit s w (attr ∷ rest) r =
    let later = values limit s w rest r.1 in
    elim r.0.sized.result [
      | ret value ↦ (attr.name, attr.type, value) ∷ later
      | fail e ↦ later
      | abort ↦ later
    ]

forward_loop_lem :
    {W : Type 0} (limit fuel : ℕ) (s : Socket) (w : W) (attrs : List (TpAttr W))
    (r : AllReadable limit s w attrs)
    → limit < fuel
    → forward_loop fuel s w attrs ≡ some (values limit s w attrs r)
unfolding forward_loop attr_forward_cb values
forward_loop_lem limit fuel s w [] r h = refl
forward_loop_lem limit fuel s w (attr ∷ rest) r h =
    let grown : grow_loop fuel (λ capacity. r.0.getter capacity s w) 256 ≡ some r.0.sized.result =
      grow_loop_lem limit fuel 256 (λ capacity. r.0.getter capacity s w) r.0.sized (omega arith)
        (omega arith) (omega arith) in
    let later : forward_loop fuel s w rest ≡ some (values limit s w rest r.1) =
      forward_loop_lem limit fuel s w rest r.1 h in
    elim (Outcome-cases r.0.sized.result) [
      | inl (v, done) ↦ ground (arith, r.0.has_getter, grown, later, done)
      | inr (inl (e, failed)) ↦ ground (arith, r.0.has_getter, grown, later, failed)
      | inr (inr aborts) ↦ absurd (r.0.sized.not_abort aborts)
    ]

module _ {W : Type 0} (ops : TpOps W) (env : Env W) where
  -- If every attribute of the socket can be read and has a value of at most `limit` bytes,
  -- xcm_attr_get_all() ends, and calls the user's function with the name, the type and the value of
  -- each, in order, but for those whose getter fails.
  pub xcm_attr_get_all_lem :
      (limit fuel grow_fuel : ℕ) (s : Socket) (w : W)
      (r : AllReadable limit s w
        (xcm_tp_common_attr_foreach ops env fuel s ++ xcm_tp_socket_attr_foreach ops env s w))
      → limit < grow_fuel
      → xcm_attr_get_all ops env fuel grow_fuel s w
        ≡ some (
            values limit s w
              (xcm_tp_common_attr_foreach ops env fuel s ++ xcm_tp_socket_attr_foreach ops env s w)
              r)
  unfolding xcm_attr_get_all
  xcm_attr_get_all_lem limit fuel grow_fuel s w r h =
      forward_loop_lem limit grow_fuel s w
        (xcm_tp_common_attr_foreach ops env fuel s ++ xcm_tp_socket_attr_foreach ops env s w) r h

  common-blocking :
      (fuel : ℕ) (s : Socket)
      → find_attr (c_str "xcm.blocking") (xcm_tp_common_attr_foreach ops env fuel s)
        ≡ some (blocking_attr ops env fuel)
  unfolding xcm_tp_common_attr_foreach msg_conn_attrs bytestream_conn_attrs server_attrs find_attr
      str_eq blocking_attr
  common-blocking fuel s = elim (SocketType-cases s.type) [
    | inr is_server ↦ ground (arith, is_server)
    | inl is_conn ↦ elim (Bool-cases (xcm_tp_socket_is_bytestream ops env)) [
      | inl bytes ↦ ground (arith, is_conn, bytes)
      | inr messages ↦ ground (arith, is_conn, messages)
    ]
  ]

  lookup-blocking :
      (fuel : ℕ) (s : Socket) (w : W)
      → socket_attr_lookup ops env fuel s (c_str "xcm.blocking") w
        ≡ some (blocking_attr ops env fuel)
  unfolding socket_attr_lookup
  lookup-blocking fuel s w = ground (arith, common-blocking fuel s)

  set_bool-blocking :
      (fuel : ℕ) (s : Socket) (value : Bool) (w : W)
      → xcm_attr_set_bool ops env fuel s (c_str "xcm.blocking") value w
        ≡ xcm_set_blocking ops env fuel s value w
  unfolding xcm_attr_set_bool xcm_attr_set set_found blocking_attr set_blocking_attr type_eq
      xcm_tp_set_bool_attr
  set_bool-blocking fuel s true w = rw (lookup-blocking fuel s w) refl
  set_bool-blocking fuel s false w = rw (lookup-blocking fuel s w) refl

  get-blocking :
      (fuel : ℕ) (s : Socket) (w : W)
      → xcm_attr_get ops env fuel s (c_str "xcm.blocking") 1 w
        ≡ ret (bool, bool_byte s.is_blocking ∷ [])
  unfolding xcm_attr_get blocking_attr get_blocking_attr xcm_tp_get_bool_attr
  get-blocking fuel s w = rw (lookup-blocking fuel s w, xcm_attr_get) refl

  get_bool-blocking :
      (fuel : ℕ) (s : Socket) (w : W)
      → xcm_attr_get_bool ops env fuel s (c_str "xcm.blocking") w
        ≡ ret (bool_byte s.is_blocking ∷ [])
  unfolding xcm_attr_get_bool attr_get_with_type type_eq
  get_bool-blocking fuel s w =
      rw (get-blocking fuel s w, xcm_attr_get_bool, attr_get_with_type) refl

  set-is_blocking :
      (fuel : ℕ) (s s' : Socket) (value : Bool) (w w' : W)
      → xcm_set_blocking ops env fuel s value w ≡ some (none, s', w')
      → s'.is_blocking ≡ value
  unfolding xcm_set_blocking
  set-is_blocking fuel s s' value w w' h = ground (arith, h)

  -- Setting the attribute xcm.blocking is xcm_set_blocking(), for every socket and every transport;
  -- and if it returns 0, reading the attribute gives the value that was set.
  pub xcm_set_blocking_lem :
      (fuel : ℕ) (s : Socket) (value : Bool) (w : W)
      → (xcm_attr_set_bool ops env fuel s (c_str "xcm.blocking") value w
          ≡ xcm_set_blocking ops env fuel s value w)
        × ((s' : Socket) (w' : W)
            → xcm_attr_set_bool ops env fuel s (c_str "xcm.blocking") value w ≡ some (none, s', w')
            → xcm_attr_get_bool ops env fuel s' (c_str "xcm.blocking") w'
              ≡ ret (bool_byte value ∷ []))
  xcm_set_blocking_lem fuel s value w = (
    set_bool-blocking fuel s value w,
    λ s' w' h.
        get_bool-blocking fuel s' w'
        ∙ ap (λ b. ret (bool_byte b ∷ []))
            (set-is_blocking fuel s s' value w w' (sym (set_bool-blocking fuel s value w) ∙ h)),
  )
