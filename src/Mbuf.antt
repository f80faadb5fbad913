-- ===== src/Mbuf.antt =====
-- libxcm/tp/common/mbuf.h: a buffer for a message on its way, in wire format: a header of four
-- bytes with the length of the payload in network byte order, and the payload. `wire_data` is the
-- list of the `wire_len` bytes that are in use; what the allocation holds behind them is never read.
-- A result `none` is a failed assert().
pub mod Frame
use xcm.Base.{
  ℕ, zero, suc, ◌+◌, ◌-◌, ◌*◌, ◌/◌, ◌%◌, ◌^◌, Bool, true, false, ◌&&◌, not, Option, none, some,
  List, [], ◌∷◌, ◌++◌, ℤ, pos, negsuc, length, drop, ltb, leb, ◌==◌, if◌then◌else◌,
}

abbrev pub mbuf_msg_max : ℕ
mbuf_msg_max = 65535

abbrev pub mbuf_hdr_len : ℕ
mbuf_hdr_len = 4

abbrev pub mbuf_wire_max : ℕ
mbuf_wire_max = 65539

-- uint32_t
abbrev pub u32 : ℕ → ℕ
u32 n = n % 2 ^ 32

-- The conversion of a uint32_t to an int.
abbrev pub to_int : ℕ → ℤ
to_int n = if ltb n (2 ^ 31) then pos n else negsuc (2 ^ 32 - 1 - n)

-- struct mbuf
pub record Mbuf : Type 0 where
  pub wire_data : List ℕ
  pub wire_capacity : ℕ

-- b->wire_len
abbrev pub wire_len : Mbuf → ℕ
wire_len b = length b.wire_data

-- The bytes of htonl(n) in memory, and ntohl() of the bytes in memory.
unfoldable pub htonl : ℕ → List ℕ
htonl n = (n / 2 ^ 24 % 256) ∷ (n / 2 ^ 16 % 256) ∷ (n / 2 ^ 8 % 256) ∷ (n % 256) ∷ []

-- The length field at the start of the data.
unfoldable pub ntohl : List ℕ → ℕ
ntohl (a ∷ b ∷ c ∷ d ∷ rest) = a * 2 ^ 24 + b * 2 ^ 16 + c * 2 ^ 8 + d
ntohl _ = 0

-- mbuf_init()
unfoldable pub mbuf_init : Mbuf
mbuf_init = record { wire_data = []; wire_capacity = 0 }

-- mbuf_reset()
unfoldable pub mbuf_reset : Mbuf → Mbuf
mbuf_reset b = record b { wire_data = [] }

-- mbuf_wire_ensure_capacity()
unfoldable pub mbuf_wire_ensure_capacity : Mbuf → ℕ → Option Mbuf
mbuf_wire_ensure_capacity b capacity =
    if ltb b.wire_capacity capacity
    then (if leb capacity mbuf_wire_max then some (record b { wire_capacity = capacity }) else none)
    else some b

-- mbuf_wire_ensure_spare_capacity()
unfoldable pub mbuf_wire_ensure_spare_capacity : Mbuf → ℕ → Option Mbuf
unfolding mbuf_wire_ensure_capacity
mbuf_wire_ensure_spare_capacity b spare_capacity =
    mbuf_wire_ensure_capacity b (u32 (wire_len b + spare_capacity))

-- mbuf_wire_appended(), with the bytes that the caller has stored at mbuf_wire_end().
unfoldable pub mbuf_wire_appended : Mbuf → List ℕ → Option Mbuf
mbuf_wire_appended b bytes =
    if leb (wire_len b + length bytes) b.wire_capacity
    then some (record b { wire_data = b.wire_data ++ bytes })
    else none

-- mbuf_wire_len()
unfoldable pub mbuf_wire_len : Mbuf → ℕ
mbuf_wire_len b = wire_len b

-- mbuf_wire_capacity_left()
unfoldable pub mbuf_wire_capacity_left : Mbuf → ℕ
mbuf_wire_capacity_left b = mbuf_wire_max - wire_len b

-- mbuf_is_empty()
unfoldable pub mbuf_is_empty : Mbuf → Bool
unfolding mbuf_wire_len
mbuf_is_empty b = mbuf_wire_len b == 0

-- mbuf_set()
unfoldable pub mbuf_set : Mbuf → List ℕ → Option Mbuf
unfolding htonl mbuf_wire_ensure_capacity
mbuf_set b msg = elim (mbuf_wire_ensure_capacity b (u32 (mbuf_hdr_len + length msg))) [
  | none ↦ none
  | some grown ↦ some (record grown { wire_data = htonl (u32 (length msg)) ++ msg })
]

-- mbuf_hdr_left()
unfoldable pub mbuf_hdr_left : Mbuf → ℕ
mbuf_hdr_left b = if ltb (wire_len b) mbuf_hdr_len then mbuf_hdr_len - wire_len b else 0

-- mbuf_has_complete_hdr()
unfoldable pub mbuf_has_complete_hdr : Mbuf → Bool
unfolding mbuf_hdr_left
mbuf_has_complete_hdr b = mbuf_hdr_left b == 0

-- mbuf_complete_payload_len()
unfoldable pub mbuf_complete_payload_len : Mbuf → Option ℕ
unfolding mbuf_has_complete_hdr ntohl
mbuf_complete_payload_len b = if mbuf_has_complete_hdr b then some (ntohl b.wire_data) else none

-- mbuf_is_hdr_valid()
unfoldable pub mbuf_is_hdr_valid : Mbuf → Bool
unfolding mbuf_complete_payload_len
mbuf_is_hdr_valid b = elim (mbuf_complete_payload_len b) [
  | none ↦ false
  | some len ↦ leb len mbuf_msg_max
]

-- mbuf_payload_buffered()
unfoldable pub mbuf_payload_buffered : Mbuf → ℕ
unfolding mbuf_has_complete_hdr
mbuf_payload_buffered b = if mbuf_has_complete_hdr b then wire_len b - mbuf_hdr_len else 0

-- mbuf_payload_left(): the difference of two uint32_t, as an int.
unfoldable pub mbuf_payload_left : Mbuf → Option ℤ
unfolding mbuf_complete_payload_len mbuf_payload_buffered
mbuf_payload_left b = elim (mbuf_complete_payload_len b) [
  | none ↦ none
  | some len ↦ some (to_int (u32 (len + 2 ^ 32 - mbuf_payload_buffered b)))
]

-- mbuf_is_complete()
unfoldable pub mbuf_is_complete : Mbuf → Bool
unfolding mbuf_complete_payload_len mbuf_payload_buffered
mbuf_is_complete b = elim (mbuf_complete_payload_len b) [
  | none ↦ false
  | some len ↦ len == mbuf_payload_buffered b
]

-- mbuf_is_partial()
unfoldable pub mbuf_is_partial : Mbuf → Bool
unfolding mbuf_is_empty mbuf_is_complete
mbuf_is_partial b = not (mbuf_is_empty b) && not (mbuf_is_complete b)

-- The payload, from mbuf_payload_start() on.
unfoldable pub mbuf_payload : Mbuf → List ℕ
mbuf_payload b = drop mbuf_hdr_len b.wire_data
