-- ===== src/Addr/Hosts.antt =====
-- The addresses of libxcm/core/xcm_addr.c with a host and a port, and xcm_dns_is_valid_name() of
-- libxcm/tp/dns/xcm_dns.c.
pub mod Numbers
pub mod Ports
use xcm.Base.{
  ℕ, zero, suc, ◌+◌, ◌-◌, ◌*◌, ◌/◌, ◌%◌, ◌^◌, Bool, true, false, not, ◌&&◌, ◌||◌, Option, none,
  some, List, [], ◌∷◌, ◌++◌, ℤ, pos, negsuc, is_nonneg, pos_part, to_int, Str, c_str, str_eq,
  length, get_elem?, take, drop, replicate, ltb, leb, ◌==◌, if◌then◌else◌,
}
use xcm.Errno.{Errno, einval, enametoolong, enospc, Outcome, ret, fail, abort}
use xcm.Addr.{
  xcm_addr_max, xcm_addr_max_proto_len, xcm_addr_max_host_len, proto_sep, isspace, proto_addr_parse,
  make_result,
}

abbrev pub port_sep : ℕ
port_sep = b':'

abbrev pub ip6_begin : ℕ
ip6_begin = b'['

abbrev pub ip6_end : ℕ
ip6_end = b']'

abbrev pub dns_max_len : ℕ
dns_max_len = 253

-- struct xcm_addr_ip: `ip4` for AF_INET, with the number in network byte order, and `ip6` for
-- AF_INET6, with the 16 bytes.
pub data Ip : Type 0 where
  ip4 : ℕ → Ip
  ip6 : List ℕ → Ip

-- struct xcm_addr_host
pub data Host : Type 0 where
  xcm_addr_type_name : Str → Host
  xcm_addr_type_ip : Ip → Host

-- What the code takes from outside: inet_pton() for either family, inet_ntop() with errno, and
-- whether regexec() finds the expression of a DNS name in a string.
pub record Net : Type 0 where
  pub inet_pton4 : Str → Option ℕ
  pub inet_pton6 : Str → Option (List ℕ)
  pub inet_ntop : Ip → Outcome Str
  pub matches_dns_re : Str → Bool

-- The digits at the start of a string, as a number, and the rest. The first argument is the number
-- before.
unfoldable pub strtol_digits : ℕ → Str → ℕ × Str
strtol_digits n [] = (n, [])
strtol_digits n (c ∷ s) =
    let rest = strtol_digits (n * 10 + (c - 48)) s in
    if leb 48 c && leb c 57 then rest else (n, c ∷ s)

-- A number with a sign, between LONG_MIN and LONG_MAX.
abbrev pub to_long : Bool → ℕ → ℤ
to_long false n = pos (if ltb (2 ^ 63 - 1) n then 2 ^ 63 - 1 else n)
to_long true zero = pos 0
to_long true (suc n) = negsuc (if ltb (2 ^ 63 - 1) n then 2 ^ 63 - 1 else n)

-- The spaces that strtol() skips.
unfoldable pub skip_spaces : Str → Str
skip_spaces [] = []
skip_spaces (c ∷ s) = if isspace c then skip_spaces s else c ∷ s

-- strtol(s, &end, 10) after the sign: the number and *end, which is `s` if there is no digit.
unfoldable pub strtol_number : Bool → Str → Str → ℤ × Str
unfolding strtol_digits
strtol_number negative s digits =
    let (n, end) = strtol_digits 0 digits in
    if length end == length digits then (pos 0, s) else (to_long negative n, end)

-- strtol(s, &end, 10) of a string whose spaces at the start are skipped.
unfoldable pub strtol_signed : Str → Str → ℤ × Str
unfolding strtol_number
strtol_signed s [] = (pos 0, s)
strtol_signed s (c ∷ t) =
    if c == b'-'
    then strtol_number true s t
    else if c == b'+'
    then strtol_number false s t
    else strtol_number false s (c ∷ t)

-- strtol(s, &end, 10): the number and *end.
unfoldable pub strtol : Str → ℤ × Str
unfolding strtol_signed skip_spaces
strtol s = strtol_signed s (skip_spaces s)

-- ntohs() of a little-endian machine
unfoldable pub ntohs : ℕ → ℕ
ntohs v = v % 256 * 256 + v / 256 % 256

-- strrchr(s, c), as the bytes before the last `c` and those after it.
unfoldable pub strrchr : Str → ℕ → Option (Str × Str)
strrchr [] c = none
strrchr (x ∷ s) c = elim (strrchr s c) [
  | some (before, after) ↦ some (x ∷ before, after)
  | none ↦ if x == c then some ([], s) else none
]

module _ (net : Net) where
  -- xcm_dns_is_valid_name()
  unfoldable pub xcm_dns_is_valid_name : Str → Bool
  xcm_dns_is_valid_name s = if ltb dns_max_len (length s) then false else net.matches_dns_re s

  -- The first branch of host_parse(), for a string that begins with '['.
  unfoldable pub host_parse_ip6 : Str → Outcome Host
  host_parse_ip6 host_s =
      let ip6_s = take (length host_s - 1 - 1) (drop 1 host_s) in
      let closed : Bool = elim (get_elem? host_s (length host_s - 1)) [
        | none ↦ false
        | some c ↦ c == ip6_end
      ] in
      if ltb (length host_s) 2 || not closed
      then fail einval
      else if str_eq ip6_s (c_str "*")
      then ret (xcm_addr_type_ip (ip6 (replicate 16 0)))
      else elim (net.inet_pton6 ip6_s) [
        | some bytes ↦ ret (xcm_addr_type_ip (ip6 bytes))
        | none ↦ fail einval
      ]

  -- The rest of host_parse(), for a string that does not.
  unfoldable pub host_parse_other : Str → Outcome Host
  unfolding xcm_dns_is_valid_name
  host_parse_other host_s =
      if str_eq host_s (c_str "*")
      then ret (xcm_addr_type_ip (ip4 0))
      else elim (net.inet_pton4 host_s) [
        | some addr ↦ ret (xcm_addr_type_ip (ip4 addr))
        | none ↦
            if xcm_dns_is_valid_name host_s then ret (xcm_addr_type_name host_s) else fail einval
      ]

  -- host_parse()
  unfoldable pub host_parse : Str → Outcome Host
  unfolding host_parse_ip6 host_parse_other
  host_parse [] = fail einval
  host_parse (c ∷ s) = if c == ip6_begin then host_parse_ip6 (c ∷ s) else host_parse_other (c ∷ s)

  -- host_port_parse() from the port on: the host and the port in network byte order.
  unfoldable pub port_parse : Str → Str → Outcome (Host × ℕ)
  port_parse host_start port_start =
      let (value, end) = strtol port_start in
      let lport = to_int value in
      if not (length end == 0)
      then fail einval
      else if not (is_nonneg lport) || ltb 65535 (pos_part lport)
      then fail einval
      else if ltb xcm_addr_max_host_len (length host_start) || length host_start == 0
      then fail einval
      else elim (host_parse host_start) [
        | ret host ↦ ret (host, ntohs (pos_part lport))
        | fail e ↦ fail e
        | abort ↦ abort
      ]

  -- host_port_parse()
  unfoldable pub host_port_parse : Str → Str → Outcome (Host × ℕ)
  host_port_parse proto addr_s =
      elim (proto_addr_parse addr_s (xcm_addr_max_proto_len + 1) (xcm_addr_max + 1)) [
        | fail e ↦ fail e
        | abort ↦ abort
        | ret (actual_proto, paddr) ↦
            if not (str_eq proto actual_proto) then fail einval else elim (strrchr paddr port_sep) [
              | none ↦ fail einval
              | some (host_start, port_start) ↦ port_parse host_start port_start
            ]
      ]

  -- xcm_addr_parse_utls() and the five others
  unfoldable pub xcm_addr_parse_utls : Str → Outcome (Host × ℕ)
  xcm_addr_parse_utls utls_addr_s = host_port_parse (c_str "utls") utls_addr_s

  unfoldable pub xcm_addr_parse_tls : Str → Outcome (Host × ℕ)
  xcm_addr_parse_tls tls_addr_s = host_port_parse (c_str "tls") tls_addr_s

  unfoldable pub xcm_addr_parse_tcp : Str → Outcome (Host × ℕ)
  xcm_addr_parse_tcp tcp_addr_s = host_port_parse (c_str "tcp") tcp_addr_s

  unfoldable pub xcm_addr_parse_sctp : Str → Outcome (Host × ℕ)
  xcm_addr_parse_sctp sctp_addr_s = host_port_parse (c_str "sctp") sctp_addr_s

  unfoldable pub xcm_addr_parse_btcp : Str → Outcome (Host × ℕ)
  xcm_addr_parse_btcp btcp_addr_s = host_port_parse (c_str "btcp") btcp_addr_s

  unfoldable pub xcm_addr_parse_btls : Str → Outcome (Host × ℕ)
  xcm_addr_parse_btls btls_addr_s = host_port_parse (c_str "btls") btls_addr_s

-- The "%d" of snprintf(), for a number of at most `fuel` digits.
unfoldable pub decimal : ℕ → ℕ → Str
decimal zero n = []
decimal (suc fuel) n =
    let higher = decimal fuel (n / 10) in
    if ltb n 10 then (n + 48) ∷ [] else higher ++ ((n % 10 + 48) ∷ [])

-- The "%d" of a port, which has five digits at most.
unfoldable pub port_text : ℕ → Str
unfolding decimal ntohs
port_text port = decimal 5 (ntohs port)

-- name_port_make()
unfoldable pub name_port_make : Str → Str → ℕ → ℕ → Outcome Str
unfolding port_text make_result
name_port_make proto domain_name port capacity =
    make_result capacity (proto ++ (proto_sep ∷ domain_name) ++ (port_sep ∷ port_text port))

-- The text that ip_port_make() prints for the address.
abbrev pub ip_text : Ip → Str → Str
ip_text (ip4 addr) ip_s = ip_s
ip_text (ip6 bytes) ip_s = (ip6_begin ∷ ip_s) ++ (ip6_end ∷ [])

-- The error of inet_ntop() as ip_port_make() passes it on.
abbrev pub ntop_error : Errno → Errno
ntop_error enospc = enametoolong
ntop_error e = e

module _ (net : Net) where
  -- ip_port_make()
  unfoldable pub ip_port_make : Str → Ip → ℕ → ℕ → Outcome Str
  unfolding port_text make_result
  ip_port_make proto addr port capacity = elim (net.inet_ntop addr) [
    | fail e ↦ fail (ntop_error e)
    | abort ↦ abort
    | ret ip_s ↦
        make_result capacity
          (proto ++ (proto_sep ∷ ip_text addr ip_s) ++ (port_sep ∷ port_text port))
  ]

  -- host_port_make()
  unfoldable pub host_port_make : Str → Host → ℕ → ℕ → Outcome Str
  unfolding name_port_make ip_port_make
  host_port_make proto (xcm_addr_type_name domain_name) port capacity =
      name_port_make proto domain_name port capacity
  host_port_make proto (xcm_addr_type_ip addr) port capacity = ip_port_make proto addr port capacity

  -- xcm_addr_make_utls() and the five others
  unfoldable pub xcm_addr_make_utls : Host → ℕ → ℕ → Outcome Str
  xcm_addr_make_utls host port capacity = host_port_make (c_str "utls") host port capacity

  unfoldable pub xcm_addr_make_tls : Host → ℕ → ℕ → Outcome Str
  xcm_addr_make_tls host port capacity = host_port_make (c_str "tls") host port capacity

  unfoldable pub xcm_addr_make_tcp : Host → ℕ → ℕ → Outcome Str
  xcm_addr_make_tcp host port capacity = host_port_make (c_str "tcp") host port capacity

  unfoldable pub xcm_addr_make_sctp : Host → ℕ → ℕ → Outcome Str
  xcm_addr_make_sctp host port capacity = host_port_make (c_str "sctp") host port capacity

  unfoldable pub xcm_addr_make_btcp : Host → ℕ → ℕ → Outcome Str
  xcm_addr_make_btcp host port capacity = host_port_make (c_str "btcp") host port capacity

  unfoldable pub xcm_addr_make_btls : Host → ℕ → ℕ → Outcome Str
  xcm_addr_make_btls host port capacity = host_port_make (c_str "btls") host port capacity
