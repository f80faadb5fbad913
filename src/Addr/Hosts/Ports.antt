-- ===== src/Addr/Hosts/Ports.antt =====
-- Making and parsing the addresses of libxcm/core/xcm_addr.c that have a host and a port.
use xcm.Base.{
  ℕ, ◌+◌, ◌^◌, ◌≡◌, ◌≤◌, ◌<◌, refl, ◌∙◌, false, none, some, [], ◌∷◌, ◌++◌, Str, c_str, str_eq_self,
  length, length-append, arith,
}
use xcm.Errno.{ret}
use xcm.Addr.{
  xcm_addr_max, xcm_addr_max_proto_len, xcm_addr_max_host_len, proto_sep, has_space,
  proto_addr_parse,
}
use xcm.Addr.Names.RoundTrip.{IsWord, strchr-append, has_space-append, make_result_fits}
use xcm.Addr.Hosts.{
  Host, Net, xcm_addr_type_name, port_sep, strrchr, host_parse, port_parse, host_port_parse,
  port_text, name_port_make, host_port_make, xcm_addr_make_tcp, xcm_addr_parse_tcp,
}
use xcm.Addr.Hosts.Numbers.{IsDigits, port_text_lem}

digits-has_space : (xs : Str) → IsDigits xs → has_space xs ≡ false
unfolding has_space
digits-has_space [] h = refl
digits-has_space (x ∷ xs) h = ground (arith, h.0, digits-has_space xs h.1)

strrchr-digits : (xs : Str) → IsDigits xs → strrchr xs port_sep ≡ none
unfolding strrchr
strrchr-digits [] h = refl
strrchr-digits (x ∷ xs) h = ground (arith, h.0, strrchr-digits xs h.1)

strrchr-append : (p xs : Str) → IsDigits xs → strrchr (p ++ (port_sep ∷ xs)) port_sep ≡ some (p, xs)
unfolding strrchr
strrchr-append [] xs h = rw (strrchr-digits xs h)
strrchr-append (x ∷ p) xs h = rw (strrchr-append p xs h)

module _ (net : Net) where
  host-nonempty : (text : Str) (host : Host) → host_parse net text ≡ ret host → 0 < length text
  unfolding host_parse
  host-nonempty [] host h = cc
  host-nonempty (c ∷ s) host h = omega arith

  port_parse_lem :
      (text : Str) (host : Host) (port : ℕ)
      → 0 < length text
      → length text ≤ xcm_addr_max_host_len
      → host_parse net text ≡ ret host
      → port < 2 ^ 16
      → port_parse net text (port_text port) ≡ ret (host, port)
  unfolding port_parse
  port_parse_lem text host port some_text short parsed small =
      let (digits, read, fits, max, back, len) = port_text_lem port small in
      ground (arith, read, fits, max, back, parsed, some_text, short)

  -- The text of an address, parsed.
  host_port_parse_lem :
      (proto text : Str) (host : Host) (port : ℕ)
      → IsWord proto
      → length proto ≤ xcm_addr_max_proto_len
      → has_space proto ≡ false
      → has_space text ≡ false
      → 0 < length text
      → length text ≤ xcm_addr_max_host_len
      → host_parse net text ≡ ret host
      → port < 2 ^ 16
      → host_port_parse net proto (proto ++ (proto_sep ∷ text ++ (port_sep ∷ port_text port)))
        ≡ ret (host, port)
  unfolding host_port_parse
  host_port_parse_lem proto text host port word short p_free t_free some_text fits parsed small =
      let paddr : Str = text ++ (port_sep ∷ port_text port) in
      let (digits, read, in_int, max, back, len) = port_text_lem port small in
      let inner : length paddr ≡ length text + (length (port_text port) + 1) =
        length-append {0} text (port_sep ∷ port_text port) ∙ omega arith in
      let size : length (proto ++ (proto_sep ∷ paddr)) ≡ length proto + (length paddr + 1) =
        length-append {0} proto (proto_sep ∷ paddr) ∙ omega arith in
      let later : has_space paddr ≡ false =
        has_space-append text (port_sep ∷ port_text port)
        ∙ (unfold has_space in ground (arith, t_free, digits-has_space (port_text port) digits)) in
      let spaces : has_space (proto ++ (proto_sep ∷ paddr)) ≡ false =
        has_space-append proto (proto_sep ∷ paddr)
        ∙ (unfold has_space in ground (arith, p_free, later)) in
      let split : proto_addr_parse (proto ++ (proto_sep ∷ paddr)) (xcm_addr_max_proto_len + 1)
            (xcm_addr_max + 1)
          ≡ ret (proto, paddr) =
        unfold proto_addr_parse in
        ground (arith, size, inner, spaces, strchr-append proto paddr proto_sep word, len) in
      ground (
        arith,
        split,
        str_eq_self proto,
        strrchr-append text (port_text port) digits,
        port_parse_lem text host port some_text fits parsed small,
      )

  -- A domain name that host_parse() returns as such, of at most 512 bytes and without spaces, is
  -- with its port what xcm_addr_parse_tcp() returns for the address that xcm_addr_make_tcp() makes
  -- of the two, if the buffer has room.
  pub make-parse_tcp :
      (host_name : Str) (port capacity : ℕ)
      → has_space host_name ≡ false
      → length host_name ≤ xcm_addr_max_host_len
      → host_parse net host_name ≡ ret (xcm_addr_type_name host_name)
      → port < 2 ^ 16
      → length host_name + 10 < capacity
      → (addr : Str) × (xcm_addr_make_tcp net (xcm_addr_type_name host_name) port capacity
          ≡ ret addr)
        × (xcm_addr_parse_tcp net addr ≡ ret (xcm_addr_type_name host_name, port))
  unfolding xcm_addr_make_tcp xcm_addr_parse_tcp host_port_make name_port_make
  make-parse_tcp host_name port capacity free fits parsed small room =
      let (digits, read, in_int, max, back, len) = port_text_lem port small in
      let paddr : Str = host_name ++ (port_sep ∷ port_text port) in
      let addr : Str = c_str "tcp" ++ (proto_sep ∷ paddr) in
      let inner : length paddr ≡ length host_name + (length (port_text port) + 1) =
        length-append {0} host_name (port_sep ∷ port_text port) ∙ omega arith in
      (
        addr,
        make_result_fits addr capacity (omega (arith, inner, len)),
        host_port_parse_lem (c_str "tcp") host_name (xcm_addr_type_name host_name) port
            (omega arith, (omega arith, (omega arith, tt))) (omega arith) (unfold has_space in refl)
            free (host-nonempty host_name (xcm_addr_type_name host_name) parsed) fits parsed small,
      )
