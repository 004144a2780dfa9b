-- ===== src/Grpc/Framing/RoundTrip.antt =====
-- The loop over framed messages.
use grace_server.Base.{
  ℕ, zero, suc, ◌+◌, ◌%◌, ◌^◌, ◌≤◌, ◌<◌, ◌≡◌, ap, ◌∙◌, inl, inr, List, [], ◌∷◌, ◌++◌, arith, length,
  length-append, drop, take, take-append, drop-append, drop-all, take-all, append_assoc, Bytes,
  length-drop, ◌==◌, Bool-cases,
}
use grace_server.Wire.BigEndian.{ntohl, ntohl-htonl}
use grace_server.Grpc.Framing.{
  encode_frame, frame_end, decode_frame, dispatch_frames, drain_messages,
}

-- The payloads whose frame has an end that 32 bits hold.
abbrev pub Fit : List Bytes → Type 0
Fit [] = Unit {0}
Fit (m ∷ ms) = (length m + 5 < 2 ^ 32) × Fit ms

abbrev pub encode_all : List Bytes → Bytes
encode_all [] = []
encode_all (m ∷ ms) = encode_frame m ++ encode_all ms

module _ (gzip_inflate : Bytes → Bytes) where
  decode_frame_body :
      (a b c d n : ℕ) (body : Bytes)
      → ntohl a b c d ≡ n
      → n ≤ length body
      → n + 5 < 2 ^ 32
      → decode_frame gzip_inflate (0 ∷ a ∷ b ∷ c ∷ d ∷ body) ≡ (take n body, drop n body)
  unfolding decode_frame
  decode_frame_body a b c d n body e h k =
      let m : (5 + n) % 2 ^ 32 ≡ suc (suc (suc (suc (suc n)))) = omega arith in
      rw (e, m) (ground arith)

  -- A frame is decoded to the payload that was encoded, and to what stands behind it.
  pub decode_frame-encode_frame :
      (p rest : Bytes)
      → length p + 5 < 2 ^ 32
      → decode_frame gzip_inflate (encode_frame p ++ rest) ≡ (p, rest)
  unfolding encode_frame
  decode_frame-encode_frame p rest h =
      let m : length p % 2 ^ 32 ≡ length p = omega arith in
      rw m (
        decode_frame_body _ _ _ _ (length p) (p ++ rest) (ntohl-htonl (length p) (omega arith))
          (omega (arith, length-append p rest)) h
        ∙ ground (
          arith,
          take-append (length p) p rest (omega arith),
          take-all p,
          drop-append (length p) p rest (omega arith),
          drop-all p,
        ))

  -- The buffer never grows.
  pub decode_frame-le : (b : Bytes) → length (decode_frame gzip_inflate b).1 ≤ length b
  unfolding decode_frame
  decode_frame-le (f ∷ a ∷ b ∷ c ∷ d ∷ body) =
      ground (arith, length-drop (frame_end (ntohl a b c d)) (f ∷ a ∷ b ∷ c ∷ d ∷ body))
  decode_frame-le _ = omega arith

  -- A part of a frame: no header yet, or a header whose payload has not all arrived.
  abbrev pub IsPartial : Bytes → Type 0
  IsPartial b = decode_frame gzip_inflate b ≡ ([], b)

  dispatch_frames_step :
      (b m r : Bytes) (f : ℕ)
      → decode_frame gzip_inflate b ≡ (m, r)
      → 5 ≤ length b
      → length r < length b
      → dispatch_frames gzip_inflate (suc f) b
        ≡ (m ∷ (dispatch_frames gzip_inflate f r).0, (dispatch_frames gzip_inflate f r).1)
  unfolding dispatch_frames
  dispatch_frames_step b m r f e h k = ground arith

  dispatch_frames_partial :
      (b : Bytes) (f : ℕ) → IsPartial b → dispatch_frames gzip_inflate (suc f) b ≡ ([], b)
  unfolding dispatch_frames
  dispatch_frames_partial b f e = ground arith

  length-encode_frame : (m : Bytes) → length (encode_frame m) ≡ 5 + length m
  unfolding encode_frame
  length-encode_frame m = omega arith

  dispatch_frames-encode_all :
      (ms : List Bytes) (rest : Bytes) (f : ℕ)
      → Fit ms
      → IsPartial rest
      → length (encode_all ms ++ rest) < f
      → dispatch_frames gzip_inflate f (encode_all ms ++ rest) ≡ (ms, rest)
  dispatch_frames-encode_all ms rest zero h e l = elim l [ ]
  dispatch_frames-encode_all [] rest (suc f) h e l = dispatch_frames_partial rest f e
  dispatch_frames-encode_all (m ∷ ms) rest (suc f) h e l =
      let tail = encode_all ms ++ rest in
      let re = append_assoc (encode_frame m) (encode_all ms) rest in
      let whole = length-append (encode_frame m) tail in
      let head = length-encode_frame m in
      let total = ap length re in
      rw re (
        rw (
          dispatch_frames_step (encode_frame m ++ tail) m tail f
              (decode_frame-encode_frame m tail h.0) (omega arith) (omega arith),
          dispatch_frames-encode_all ms rest f h.1 e (omega arith),
        ))

  -- The stream handler is given exactly the messages that were framed, in order, if each with its
  -- header is shorter than 2^32 bytes; what follows them, if it is no whole frame, stays in the
  -- buffer.
  pub drain_messages-encode_all :
      (ms : List Bytes) (rest : Bytes)
      → Fit ms
      → decode_frame gzip_inflate rest ≡ ([], rest)
      → drain_messages gzip_inflate (encode_all ms ++ rest) ≡ (ms, rest)
  unfolding drain_messages
  drain_messages-encode_all ms rest h e = dispatch_frames-encode_all ms rest _ h e (omega arith)

  -- The loop ends by its own tests, never for want of fuel: with fuel above the buffer's length,
  -- more fuel changes nothing.
  pub dispatch_frames_fuel :
      (f g : ℕ) (b : Bytes)
      → length b < f
      → length b < g
      → dispatch_frames gzip_inflate f b ≡ dispatch_frames gzip_inflate g b
  unfolding dispatch_frames
  dispatch_frames_fuel zero g b h k = elim h [ ]
  dispatch_frames_fuel (suc f) zero b h k = elim k [ ]
  dispatch_frames_fuel (suc f) (suc g) b h k =
      let left = (decode_frame gzip_inflate b).1 in
      let le = decode_frame-le b in
      elim (Bool-cases (length left == length b)) [
        | inl same ↦ rw same
        | inr less ↦ rw (less, dispatch_frames_fuel f g left (ground arith) (ground arith))
      ]
