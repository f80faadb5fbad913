-- ===== src/Addr/Names/RoundTrip.antt =====
-- Making and parsing the UX and UXF addresses of libxcm/core/xcm_addr.c.
use xcm.Base.{
  Option-cases, ℕ, zero, suc, ◌+◌, ◌≡◌, ◌≢◌, ◌≤◌, ◌<◌, ◌⊎◌, inl, inr, refl, sym, ap, ◌∙◌, false,
  ◌||◌, some, [], ◌∷◌, ◌++◌, Str, str_eq_iff, str_eq_self, length, length-append, take_all, All,
  ◌==◌, arith, Bool-cases,
}
use xcm.Errno.{Errno, Outcome, ret, fail, abort}
use xcm.Addr.{
  xcm_addr_max, xcm_addr_max_proto_len, proto_sep, has_space, strchr, proto_addr_parse, make_result,
}
use xcm.Addr.Names.{
  xcm_ux_proto, xcm_uxf_proto, xcm_addr_parse_ux, xcm_addr_parse_uxf, xcm_addr_make_ux,
  xcm_addr_make_uxf, ux_name_max, addr_parse_ux_uxf, addr_make_ux_uxf,
}

-- The separator does not occur in the string, nor a space.
abbrev pub IsWord : Str → Type 0
IsWord = All (λ c. c ≢ proto_sep)

pub strchr-append : (p s : Str) (c : ℕ) → All (λ x. x ≢ c) p → strchr (p ++ (c ∷ s)) c ≡ some (p, s)
unfolding strchr
strchr-append [] s c h = ground arith
strchr-append (x ∷ p) s c h = ground (arith, strchr-append p s c h.1)

pub append-strchr : (t : Str) (c : ℕ) (p s : Str) → strchr t c ≡ some (p, s) → t ≡ p ++ (c ∷ s)
unfolding strchr
append-strchr [] c p s h = cc
append-strchr (x ∷ t) c p s h = elim (Bool-cases (x == c)) [
  | inl e ↦ ground (arith, e, h)
  | inr e ↦ elim (Option-cases (strchr t c)) [
    | inl none_later ↦ absurd (ground (arith, e, h, none_later))
    | inr (found, later) ↦ ground (arith, e, h, later, append-strchr t c found.0 found.1 later)
  ]
]

pub has_space-append : (p s : Str) → has_space (p ++ s) ≡ (has_space p || has_space s)
unfolding has_space
has_space-append [] s = refl
has_space-append (x ∷ p) s = ground (arith, has_space-append p s)

pub make_result_fits :
    (text : Str) (capacity : ℕ) → length text < capacity → make_result capacity text ≡ ret text
unfolding make_result
make_result_fits text zero h = elim h [ ]
make_result_fits text (suc n) h = ground (arith, take_all n text)

-- Making an address and parsing it, for any protocol.
make-parse_name :
    (proto name : Str) (capacity parse_capacity : ℕ)
    → IsWord proto
    → length proto ≤ xcm_addr_max_proto_len
    → has_space proto ≡ false
    → has_space name ≡ false
    → 0 < length name
    → length name ≤ ux_name_max
    → length proto + length name + 1 < capacity
    → length name < parse_capacity
    → (addr : Str) × (addr_make_ux_uxf proto name capacity ≡ ret addr)
      × (addr_parse_ux_uxf proto addr parse_capacity ≡ ret name)
make-parse_name proto name capacity parse_capacity word short p_free n_free some_name name_fits fits
      parse_fits =
    let addr : Str = proto ++ (proto_sep ∷ name) in
    let size : length addr ≡ length proto + (length name + 1) =
      length-append {0} proto (proto_sep ∷ name) ∙ omega arith in
    let spaces : has_space addr ≡ false =
      has_space-append proto (proto_sep ∷ name)
      ∙ (unfold has_space in ground (arith, p_free, n_free)) in
    let parsed : proto_addr_parse addr (xcm_addr_max_proto_len + 1) (xcm_addr_max + 1)
        ≡ ret (proto, name) =
      unfold proto_addr_parse in
      ground (arith, size, spaces, strchr-append proto name proto_sep word) in
    (
      addr,
      unfold addr_make_ux_uxf in ground (arith, make_result_fits addr capacity),
      unfold addr_parse_ux_uxf in ground (arith, parsed, str_eq_self proto),
    )

-- What proto_addr_parse() returns, with a separator between, is the address.
proto_addr_parse-append :
    (s proto name : Str) (m n : ℕ)
    → proto_addr_parse s m n ≡ ret (proto, name)
    → s ≡ proto ++ (proto_sep ∷ name)
unfolding proto_addr_parse
proto_addr_parse-append s proto name m n h = elim (Option-cases (strchr s proto_sep)) [
  | inl absent ↦ absurd (ground (arith, absent, h))
  | inr ((p, q), found) ↦
      append-strchr s proto_sep proto name
        (let same : strchr s proto_sep ≡ some (proto, name) = ground (arith, found, h) in same)
]

ret-cases :
    (o : Outcome (Str × Str))
    → ((p : Str) × (q : Str) × (o ≡ ret (p, q))) ⊎ ((e : Errno) × (o ≡ fail e)) ⊎ (o ≡ abort)
ret-cases (ret (p, q)) = inl (p, q, refl)
ret-cases (fail e) = inr (inl (e, refl))
ret-cases abort = inr (inr refl)

-- Parsing an address and making it again, for any protocol.
parse-make_name :
    (proto s name : Str) (capacity parse_capacity : ℕ)
    → addr_parse_ux_uxf proto s parse_capacity ≡ ret name
    → length s < capacity
    → addr_make_ux_uxf proto name capacity ≡ ret s
unfolding addr_parse_ux_uxf
parse-make_name proto s name capacity parse_capacity h fits =
    elim (ret-cases (proto_addr_parse s (xcm_addr_max_proto_len + 1) (xcm_addr_max + 1))) [
      | inr (inl (e, p)) ↦ absurd (ground (arith, p, h))
      | inr (inr p) ↦ absurd (ground (arith, p, h))
      | inl (q, r, p) ↦
          let same : (q ≡ proto) × (r ≡ name) × (length name ≤ ux_name_max) =
            ground (arith, p, h, str_eq_iff q proto) in
          let split : s ≡ q ++ (proto_sep ∷ r) = proto_addr_parse-append s q r _ _ p in
          let addr : s ≡ proto ++ (proto_sep ∷ name) =
            split
            ∙ ap (λ x. x ++ (proto_sep ∷ r)) same.0
            ∙ ap (λ x. proto ++ (proto_sep ∷ x)) same.1 in
          let made : make_result capacity (proto ++ (proto_sep ∷ name)) ≡ ret s =
            ap (λ t. make_result capacity t) (sym addr) ∙ make_result_fits s capacity fits in
          unfold addr_make_ux_uxf in ground (arith, made, same)
    ]

-- A name of 1 to 107 bytes without spaces is what xcm_addr_parse_ux() returns for the address that
-- xcm_addr_make_ux() makes of it, if the buffers have room, and the same holds of UXF.
pub make-parse_ux :
    (name : Str) (capacity parse_capacity : ℕ)
    → has_space name ≡ false
    → 0 < length name
    → length name ≤ ux_name_max
    → length name + 4 < capacity
    → length name < parse_capacity
    → ((addr : Str) × (xcm_addr_make_ux name capacity ≡ ret addr)
        × (xcm_addr_parse_ux addr parse_capacity ≡ ret name))
      × ((addr : Str) × (xcm_addr_make_uxf name capacity ≡ ret addr)
          × (xcm_addr_parse_uxf addr parse_capacity ≡ ret name))
unfolding xcm_addr_make_ux xcm_addr_parse_ux xcm_addr_make_uxf xcm_addr_parse_uxf has_space
make-parse_ux name capacity parse_capacity free some_name name_fits fits parse_fits = (
  make-parse_name xcm_ux_proto name capacity parse_capacity (omega arith, (omega arith, tt))
      (omega arith) refl free some_name name_fits (omega arith) parse_fits,
  make-parse_name xcm_uxf_proto name capacity parse_capacity
      (omega arith, (omega arith, (omega arith, tt))) (omega arith) refl free some_name name_fits
      (omega arith) parse_fits,
)

-- Of a name that xcm_addr_parse_ux() returns, xcm_addr_make_ux() makes the address again that was
-- parsed, if the buffer has room, and the same holds of UXF.
pub parse-make_ux :
    (s name : Str) (capacity parse_capacity : ℕ)
    → length s < capacity
    → (xcm_addr_parse_ux s parse_capacity ≡ ret name → xcm_addr_make_ux name capacity ≡ ret s)
      × (xcm_addr_parse_uxf s parse_capacity ≡ ret name → xcm_addr_make_uxf name capacity ≡ ret s)
unfolding xcm_addr_make_ux xcm_addr_parse_ux xcm_addr_make_uxf xcm_addr_parse_uxf
parse-make_ux s name capacity parse_capacity fits = (
  (λ h. parse-make_name xcm_ux_proto s name capacity parse_capacity h fits),
  (λ h. parse-make_name xcm_uxf_proto s name capacity parse_capacity h fits),
)
