-- ===== src/Vpn/Frame.antt =====
-- app/openvpn/src/vpn_client.cpp and vpn_peer.cpp: the frames of the tunnel, one byte of type and
-- four bytes of big-endian length before the payload. `size_t` has 64 bits, so `HEADER_LEN + len`
-- does not wrap.
pub mod Decoder
pub mod RoundTrip
use grace_server.Base.{
  ℕ, zero, suc, ◌+◌, ◌-◌, ◌%◌, ◌^◌, Option, none, some, List, [], ◌∷◌, ◌++◌, arith, length, drop,
  take, ltb, if◌then◌else◌, Bytes,
}
use grace_server.Wire.BigEndian.{htonl, ntohl, u32_mod}

abbrev pub header_len : ℕ
header_len = 5

abbrev pub type_ip_assign : ℕ
type_ip_assign = 0x01

abbrev pub type_data : ℕ
type_data = 0x02

abbrev pub type_disconnect : ℕ
type_disconnect = 0x03

pub record Frame : Type 0 where
  pub type : ℕ
  pub payload : Bytes

-- `vpn_client::encode_frame`: the length is the low 32 bits of the payload's size.
unfoldable pub encode_frame : ℕ → Bytes → Bytes
encode_frame type payload = type ∷ (htonl (length payload % u32_mod) ++ payload)

-- What `try_decode_frame` writes to its three outputs.
pub record Decoded : Type 0 where
  pub frame : Frame
  pub consumed : ℕ

-- The decoding of the bytes from `offset` on; fewer than five of them are no header.
unfoldable pub decode_at : Bytes → Option Decoded
decode_at (t ∷ a ∷ b ∷ c ∷ d ∷ body) =
    let len = ntohl a b c d in
    if ltb (header_len + length body) (header_len + len)
    then none
    else some (record {
      frame = record { type = t; payload = take len body };
      consumed = header_len + len;
    })
decode_at _ = none

-- `vpn_client::try_decode_frame`.
unfoldable pub try_decode_frame : Bytes → ℕ → Option Decoded
unfolding decode_at
try_decode_frame buf offset = decode_at (drop offset buf)

-- The loop of `process_frames`, in the client and in the server's peer: the frames that it hands
-- to its switch, in order, and the number of bytes consumed.
unfoldable pub collect : ℕ → Bytes → ℕ → List Frame × ℕ
collect zero buf consumed = ([], consumed)
collect (suc fuel) buf consumed = elim (try_decode_frame buf consumed) [
  | none ↦ ([], consumed)
  | some r ↦ let rest = collect fuel buf (consumed + r.consumed) in (r.frame ∷ rest.0, rest.1)
]

-- Each frame takes at least five bytes, so the buffer's length bounds the rounds.
unfoldable pub process_frames : Bytes → List Frame × ℕ
process_frames buf = collect (suc (length buf)) buf 0

-- `handle_read`: the new bytes go behind the buffer, and what the frames took is erased.
unfoldable pub receive : Bytes → Bytes → List Frame × Bytes
unfolding process_frames
receive recv_buf bytes =
    let buf = recv_buf ++ bytes in
    let (frames, consumed) = process_frames buf in (frames, drop consumed buf)
