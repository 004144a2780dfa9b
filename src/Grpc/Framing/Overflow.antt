-- ===== src/Grpc/Framing/Overflow.antt =====
-- The wrap of `5u + len`, at lengths within five of 2^32.
use grace_server.Base.{ℕ, ◌+◌, ◌-◌, ◌^◌, ◌≤◌, ◌<◌, ◌≡◌, ◌∷◌, arith, length, drop, take-le, Bytes}
use grace_server.Wire.BigEndian.{ntohl}
use grace_server.Grpc.Framing.{decode_frame, frame_payload, frame_end}

-- A header that announces `len` bytes, 2^32 - 5 or more, is not waited for: whatever part of the
-- body has arrived is handed over as the whole message, and fewer than five bytes are erased, so
-- the same header bytes are read again as part of the next frame.
pub decode_frame_wraps :
    (gzip_inflate : Bytes → Bytes) (flag a b c d : ℕ) (body : Bytes)
    → 2 ^ 32 ≤ 5 + ntohl a b c d
    → ntohl a b c d < 2 ^ 32
    → length body < ntohl a b c d
    → (decode_frame gzip_inflate (flag ∷ a ∷ b ∷ c ∷ d ∷ body) ≡ (
      frame_payload gzip_inflate flag body,
      drop (5 + ntohl a b c d - 2 ^ 32) (flag ∷ a ∷ b ∷ c ∷ d ∷ body),
    ))
      × (5 + ntohl a b c d - 2 ^ 32 < 5)
unfolding decode_frame
decode_frame_wraps z flag a b c d body h k l =
    let e : frame_end (ntohl a b c d) ≡ 5 + ntohl a b c d - 2 ^ 32 = omega arith in
    (rw e (ground (arith, take-le (ntohl a b c d) body (omega arith))), omega arith)
