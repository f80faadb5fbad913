-- ===== src/Addr.antt =====
-- libxcm/core/xcm_addr.c: the protocol and the rest of an XCM address, with the limits of
-- common/xcm_addr_limits.h. A result `ret` holds the strings that the function writes to its
-- buffers. The children add the addresses of names (UX, UXF) and those of hosts and ports.
pub mod Names
pub mod Hosts
use xcm.Base.{
  ℕ, zero, suc, take, ◌+◌, ◌-◌, Bool, true, false, ◌&&◌, ◌||◌, Option, none, some, List, [], ◌∷◌,
  ◌++◌, Str, c_str, length, ltb, leb, ◌==◌, if◌then◌else◌,
}
use xcm.Errno.{Errno, einval, enametoolong, Outcome, ret, fail, abort}

abbrev pub xcm_addr_max_proto_len : ℕ
xcm_addr_max_proto_len = 32

abbrev pub xcm_addr_max_host_len : ℕ
xcm_addr_max_host_len = 512

abbrev pub xcm_addr_max_port_len : ℕ
xcm_addr_max_port_len = 32

abbrev pub xcm_addr_max_total_sep_len : ℕ
xcm_addr_max_total_sep_len = 2

abbrev pub xcm_addr_max : ℕ
xcm_addr_max =
    xcm_addr_max_proto_len + xcm_addr_max_host_len + xcm_addr_max_port_len
    + xcm_addr_max_total_sep_len

abbrev pub proto_sep : ℕ
proto_sep = b':'

-- isspace(c) in the C locale
abbrev pub isspace : ℕ → Bool
isspace c = c == 32 || (leb 9 c && leb c 13)

-- has_space()
unfoldable pub has_space : Str → Bool
has_space [] = false
has_space (c ∷ s) = if isspace c then true else has_space s

-- strchr(s, c), as the bytes before the first `c` and those after it.
unfoldable pub strchr : Str → ℕ → Option (Str × Str)
strchr [] c = none
strchr (x ∷ s) c =
    let later = strchr s c in
    if x == c
    then some ([], s)
    else elim later [ none ↦ none | some (before, after) ↦ some (x ∷ before, after) ]

-- proto_addr_parse(): the protocol and the rest.
unfoldable pub proto_addr_parse : Str → ℕ → ℕ → Outcome (Str × Str)
unfolding has_space strchr
proto_addr_parse addr_s proto_capacity proto_addr_capacity =
    if ltb xcm_addr_max (length addr_s) || has_space addr_s
    then fail einval
    else elim (strchr addr_s proto_sep) [
      | none ↦ fail einval
      | some (proto, proto_addr) ↦
          if ltb xcm_addr_max_proto_len (length proto)
          then fail einval
          else if leb proto_capacity (length proto)
          then fail enametoolong
          else if leb proto_addr_capacity (length proto_addr)
          then fail enametoolong
          else ret (proto, proto_addr)
    ]

-- xcm_addr_parse_proto()
unfoldable pub xcm_addr_parse_proto : Str → ℕ → Outcome Str
xcm_addr_parse_proto addr_s capacity = elim (proto_addr_parse addr_s capacity (xcm_addr_max + 1)) [
  | ret (proto, proto_addr) ↦ ret proto
  | fail e ↦ fail e
  | abort ↦ abort
]

-- What snprintf() leaves in a buffer of `capacity` bytes.
abbrev pub printed : ℕ → Str → Str
printed zero s = []
printed (suc n) s = take n s

-- The end of the functions that make an address: the test of what snprintf() returns, the length
-- of the whole text.
unfoldable pub make_result : ℕ → Str → Outcome Str
make_result capacity text =
    if length text == capacity then fail enametoolong else ret (printed capacity text)
