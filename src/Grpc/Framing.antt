-- ===== src/Grpc/Framing.antt =====
-- app/src/grpc_session.cpp: the length-prefixed messages. `decode_frame` compares and erases with
-- `5u + len`, a sum of 32 bits, which wraps. The inflated body comes from zlib, so the result of
-- `gzip_inflate` is a parameter ("" on failure).
pub mod RoundTrip
pub mod Overflow
use grace_server.Base.{
  ℕ, zero, suc, ◌+◌, ◌%◌, ◌^◌, Bool, true, false, not, ◌&&◌, List, [], ◌∷◌, ◌++◌, length, drop,
  take, ltb, ◌==◌, if◌then◌else◌, Bytes, is_empty,
}
use grace_server.Wire.BigEndian.{htonl, ntohl, u32_mod}

-- `grpc_session::encode_frame`.
unfoldable pub encode_frame : Bytes → Bytes
encode_frame payload = 0 ∷ (htonl (length payload % u32_mod) ++ payload)

-- `5u + len`.
abbrev pub frame_end : ℕ → ℕ
frame_end len = (5 + len) % u32_mod

module _ (gzip_inflate : Bytes → Bytes) where
  -- The Compressed-Flag is bit 0 of the first byte. A body that does not inflate is dropped.
  unfoldable pub frame_payload : ℕ → Bytes → Bytes
  frame_payload flag payload =
      if flag % 2 == 1
      then (let inflated = gzip_inflate payload in
          if is_empty inflated && not (is_empty payload) then [] else inflated)
      else payload

  -- `grpc_session::decode_frame`: the message, and what it leaves in the buffer.
  unfoldable pub decode_frame : Bytes → Bytes × Bytes
  unfolding frame_payload
  decode_frame (flag ∷ a ∷ b ∷ c ∷ d ∷ body) =
      let buf : Bytes = flag ∷ a ∷ b ∷ c ∷ d ∷ body in
      let len = ntohl a b c d in
      if ltb (length buf) (frame_end len)
      then ([], buf)
      else (frame_payload flag (take len body), drop (frame_end len) buf)
  decode_frame buf = ([], buf)

  -- The loop of `on_request_stream`: the messages handed to the handler, and the buffer left.
  -- A round that takes nothing off the buffer ends it.
  unfoldable pub dispatch_frames : ℕ → Bytes → List Bytes × Bytes
  dispatch_frames zero body = ([], body)
  dispatch_frames (suc fuel) body =
      let msg = (decode_frame body).0 in
      let left = (decode_frame body).1 in
      let rest = dispatch_frames fuel left in
      if ltb (length body) 5
      then ([], body)
      else if length left == length body
      then ([], left)
      else (msg ∷ rest.0, rest.1)

  -- Every round but the last shortens the buffer, so its length bounds the rounds.
  unfoldable pub drain_messages : Bytes → List Bytes × Bytes
  drain_messages body = dispatch_frames (suc (length body)) body
