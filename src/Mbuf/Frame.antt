-- ===== src/Mbuf/Frame.antt =====
-- The wire format of libxcm/tp/common/mbuf.h: what mbuf_set() writes is read back.
use xcm.Base.{
  ℕ, ◌+◌, ◌^◌, ◌≡◌, ◌≤◌, ◌<◌, refl, ap, sym, ◌∙◌, append-nil, append_assoc, drop, le→leb, true,
  none, some, List, [], ◌∷◌, ◌++◌, length, arith, length-append, ltb, leb, if◌then◌else◌, All,
}
use xcm.Mbuf.{
  Mbuf, wire_len, mbuf_set, mbuf_complete_payload_len, mbuf_is_complete, mbuf_is_hdr_valid,
  mbuf_payload, mbuf_msg_max, mbuf_hdr_len, htonl, ntohl, mbuf_wire_max, mbuf_wire_ensure_capacity,
}

-- A message in wire format.
unfoldable pub frame : List ℕ → List ℕ
frame msg = htonl (length msg) ++ msg

pub length-htonl : (n : ℕ) → length (htonl n) ≡ 4
unfolding htonl
length-htonl n = refl

pub length-frame : (msg : List ℕ) → length (frame msg) ≡ length msg + 4
unfolding frame htonl
length-frame msg = omega arith

-- The length field of a frame, whatever follows it, is the length of its message.
pub ntohl-htonl : (n : ℕ) (rest : List ℕ) → n < 2 ^ 32 → ntohl (htonl n ++ rest) ≡ n
unfolding ntohl htonl
ntohl-htonl n rest h = omega arith

-- A buffer that holds a header has the length that it says, and one that does not has none.
pub complete_payload_len_lem :
    (b : Mbuf)
    → mbuf_complete_payload_len b ≡ (if leb 4 (wire_len b) then some (ntohl b.wire_data) else none)
unfolding mbuf_complete_payload_len
complete_payload_len_lem b = ground arith

pub ensure_capacity_fits :
    (b : Mbuf) (n : ℕ)
    → n ≤ mbuf_wire_max
    → mbuf_wire_ensure_capacity b n
      ≡ some (record b { wire_capacity = if ltb b.wire_capacity n then n else b.wire_capacity })
unfolding mbuf_wire_ensure_capacity
ensure_capacity_fits b n h = ground arith

-- What the readers return on a buffer that holds the frame of a message.
pub frame_readers :
    (b : Mbuf) (msg : List ℕ)
    → length msg ≤ mbuf_msg_max
    → b.wire_data ≡ frame msg
    → (mbuf_complete_payload_len b ≡ some (length msg))
      × (mbuf_is_complete b ≡ true)
      × (mbuf_is_hdr_valid b ≡ true)
      × (mbuf_payload b ≡ msg)
frame_readers b msg h e =
    let size : wire_len b ≡ length msg + 4 = ap length e ∙ length-frame msg in
    let len : mbuf_complete_payload_len b ≡ some (length msg) =
      complete_payload_len_lem b
      ∙ rw (le→leb 4 (wire_len b) (omega arith))
          (rw e (unfold frame in rw (ntohl-htonl (length msg) msg (omega arith)))) in
    (
      len,
      unfold mbuf_is_complete in ground (arith, len),
      unfold mbuf_is_hdr_valid in ground (arith, len),
      unfold mbuf_payload frame htonl in ap (drop 4) e,
    )

-- mbuf_set() of a message within MBUF_MSG_MAX never fails its assertion: the buffer then holds a
-- complete frame with a valid header, whose payload is the message, within MBUF_WIRE_MAX.
pub mbuf_set_lem :
    (b : Mbuf) (msg : List ℕ)
    → length msg ≤ mbuf_msg_max
    → (b' : Mbuf) × (mbuf_set b msg ≡ some b')
      × (b'.wire_data ≡ frame msg)
      × (mbuf_complete_payload_len b' ≡ some (length msg))
      × (mbuf_is_complete b' ≡ true)
      × (mbuf_is_hdr_valid b' ≡ true)
      × (mbuf_payload b' ≡ msg)
      × (wire_len b' ≤ mbuf_wire_max)
mbuf_set_lem b msg h =
    let n : ℕ = mbuf_hdr_len + length msg in
    let b' : Mbuf = record {
      wire_data = frame msg;
      wire_capacity = if ltb b.wire_capacity n then n else b.wire_capacity;
    } in
    let (len, complete, valid, payload) = frame_readers b' msg h refl in
    (
      b',
      unfold mbuf_set frame in ground arith,
      refl,
      len,
      complete,
      valid,
      payload,
      omega (arith, length-frame msg),
    )

-- The messages in wire format, one after the other.
unfoldable pub frames : List (List ℕ) → List ℕ
frames [] = []
frames (msg ∷ msgs) = frame msg ++ frames msgs

pub frames-append : (xs ys : List (List ℕ)) → frames (xs ++ ys) ≡ frames xs ++ frames ys
unfolding frames
frames-append [] ys = refl
frames-append (x ∷ xs) ys =
    rw (frames-append xs ys) (sym (append_assoc (frame x) (frames xs) (frames ys)))

pub frames-snoc : (xs : List (List ℕ)) (y : List ℕ) → frames (xs ++ (y ∷ [])) ≡ frames xs ++ frame y
unfolding frames
frames-snoc xs y = frames-append xs (y ∷ []) ∙ ap (λ r. frames xs ++ r) (append-nil (frame y))

-- The message fits a frame.
abbrev pub IsShort : List ℕ → Type 0
IsShort msg = length msg ≤ mbuf_msg_max

pub All-snoc :
    (msgs : List (List ℕ)) (msg : List ℕ)
    → All IsShort msgs
    → IsShort msg
    → All IsShort (msgs ++ (msg ∷ []))
All-snoc [] msg h k = (k, tt)
All-snoc (m ∷ msgs) msg h k = (h.0, All-snoc msgs msg h.1 k)

pub length-snoc :
    (msgs : List (List ℕ)) (msg : List ℕ) → length (msgs ++ (msg ∷ [])) ≡ length msgs + 1
length-snoc msgs msg = length-append {0} msgs (msg ∷ [])
