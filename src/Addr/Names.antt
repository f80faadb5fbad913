-- ===== src/Addr/Names.antt =====
-- The UX and UXF addresses of libxcm/core/xcm_addr.c: a protocol and a name.
pub mod RoundTrip
use xcm.Base.{
  ℕ, ◌+◌, ◌-◌, Bool, true, false, not, ◌||◌, List, [], ◌∷◌, ◌++◌, Str, c_str, str_eq, length, ltb,
  leb, ◌==◌, if◌then◌else◌,
}
use xcm.Errno.{Errno, einval, enametoolong, Outcome, ret, fail, abort}
use xcm.Addr.{xcm_addr_max, xcm_addr_max_proto_len, proto_sep, proto_addr_parse, make_result}

abbrev pub xcm_ux_proto : Str
xcm_ux_proto = c_str "ux"

abbrev pub xcm_uxf_proto : Str
xcm_uxf_proto = c_str "uxf"

-- UNIX_PATH_MAX of <linux/un.h>
abbrev pub unix_path_max : ℕ
unix_path_max = 108

abbrev pub ux_name_max : ℕ
ux_name_max = unix_path_max - 1

-- addr_parse_ux_uxf()
unfoldable pub addr_parse_ux_uxf : Str → Str → ℕ → Outcome Str
addr_parse_ux_uxf ux_proto ux_addr_s capacity =
    elim (proto_addr_parse ux_addr_s (xcm_addr_max_proto_len + 1) (xcm_addr_max + 1)) [
      | fail e ↦ fail e
      | abort ↦ abort
      | ret (proto, name) ↦
          if not (str_eq proto ux_proto) || ltb ux_name_max (length name) || length name == 0
          then fail einval
          else if leb capacity (length name)
          then fail enametoolong
          else ret name
    ]

-- xcm_addr_parse_ux()
unfoldable pub xcm_addr_parse_ux : Str → ℕ → Outcome Str
xcm_addr_parse_ux ux_addr_s capacity = addr_parse_ux_uxf xcm_ux_proto ux_addr_s capacity

-- xcm_addr_parse_uxf()
unfoldable pub xcm_addr_parse_uxf : Str → ℕ → Outcome Str
xcm_addr_parse_uxf uxf_addr_s capacity = addr_parse_ux_uxf xcm_uxf_proto uxf_addr_s capacity

-- addr_make_ux_uxf()
unfoldable pub addr_make_ux_uxf : Str → Str → ℕ → Outcome Str
unfolding make_result
addr_make_ux_uxf ux_proto ux_name capacity =
    if ltb (unix_path_max - 1) (length ux_name)
    then fail einval
    else make_result capacity (ux_proto ++ (proto_sep ∷ ux_name))

-- xcm_addr_make_ux()
unfoldable pub xcm_addr_make_ux : Str → ℕ → Outcome Str
xcm_addr_make_ux ux_name capacity = addr_make_ux_uxf xcm_ux_proto ux_name capacity

-- xcm_addr_make_uxf()
unfoldable pub xcm_addr_make_uxf : Str → ℕ → Outcome Str
xcm_addr_make_uxf uxf_name capacity = addr_make_ux_uxf xcm_uxf_proto uxf_name capacity
