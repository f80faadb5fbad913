-- ===== src/Examples/Addrs.antt =====
-- libxcm/core/xcm_addr.c and libxcm/tp/tls/item.c at concrete inputs.
use xcm.Base.{none, str_eq, ◌≡◌, refl, true, some, Str, c_str, arith}
use xcm.Errno.{fail, einval, ret}
use xcm.Addr.{has_space}
use xcm.Addr.Hosts.{Net, xcm_addr_type_name, host_parse, xcm_addr_make_tcp, xcm_addr_parse_tcp}
use xcm.Addr.Hosts.Ports.{make-parse_tcp}
use xcm.Addr.Names.{
  addr_make_ux_uxf, xcm_addr_make_ux, xcm_addr_make_uxf, xcm_addr_parse_ux, xcm_addr_parse_uxf,
}
use xcm.Addr.Names.RoundTrip.{make-parse_ux, parse-make_ux}
use xcm.Item.{
  Item, item_type_value, item_init, item_is_set, item_load, item_copy, item_unsensitive_data,
}
use xcm.Item.Copy.{IsValid, item_copy_lem}

make-parse_ux_example :
    ((addr : Str) × (xcm_addr_make_ux (c_str "sock") 32 ≡ ret addr)
      × (xcm_addr_parse_ux addr 8 ≡ ret (c_str "sock")))
    × ((addr : Str) × (xcm_addr_make_uxf (c_str "sock") 32 ≡ ret addr)
        × (xcm_addr_parse_uxf addr 8 ≡ ret (c_str "sock")))
unfolding has_space
make-parse_ux_example =
    make-parse_ux (c_str "sock") 32 8 refl (omega arith) (omega arith) (omega arith) (omega arith)

parse-make_ux_example :
    (xcm_addr_parse_ux (c_str "ux:sock") 8 ≡ ret (c_str "sock")
      → xcm_addr_make_ux (c_str "sock") 32 ≡ ret (c_str "ux:sock"))
    × (xcm_addr_parse_uxf (c_str "ux:sock") 8 ≡ ret (c_str "sock")
        → xcm_addr_make_uxf (c_str "sock") 32 ≡ ret (c_str "ux:sock"))
parse-make_ux_example = parse-make_ux (c_str "ux:sock") (c_str "sock") 32 8 (omega arith)

-- Eight bytes are too many for a buffer of five, and are cut off without an error.
truncated : xcm_addr_make_ux (c_str "sock1") 5 ≡ ret (c_str "ux:s")
unfolding xcm_addr_make_ux addr_make_ux_uxf
truncated = refl

abbrev key : Item
key = record { type = item_type_value; sensitive = true; item_data = some (c_str "key") }

key-IsValid : IsValid key
unfolding item_is_set
key-IsValid = record { with_data = λ h. (c_str "key", refl); unset = λ h. cc }

item_init-IsValid : IsValid item_init
unfolding item_is_set item_init
item_init-IsValid = record { with_data = λ h. cc; unset = λ h. (refl, refl) }

item_copy_example :
    (copy : Item) × (item_copy key item_init ≡ some copy)
    × IsValid copy
    × (item_load ret copy ≡ item_load ret key)
    × (item_unsensitive_data copy ≡ some (c_str "key"))
item_copy_example = item_copy_lem key item_init ret key-IsValid item_init-IsValid

-- No string is a number address, and every one a DNS name.
abbrev names_only : Net
names_only = record {
  inet_pton4 = λ s. none;
  inet_pton6 = λ s. none;
  inet_ntop = λ addr. fail einval;
  matches_dns_re = λ s. true;
}

make-parse_tcp_example :
    (addr : Str) × (xcm_addr_make_tcp names_only (xcm_addr_type_name (c_str "host")) 513 32
      ≡ ret addr)
    × (xcm_addr_parse_tcp names_only addr ≡ ret (xcm_addr_type_name (c_str "host"), 513))
unfolding has_space host_parse str_eq
make-parse_tcp_example =
    make-parse_tcp names_only (c_str "host") 513 32 refl (omega arith) refl (omega arith)
      (omega arith)
