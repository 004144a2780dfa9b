-- ===== src/Vpn/Frame/RoundTrip.antt =====
-- The frames of one end, at the other end.
use grace_server.Base.{
  append-nil, sym, refl, ℕ, zero, suc, ◌%◌, ◌^◌, ◌≤◌, ◌<◌, ◌≡◌, ap, ◌∙◌, none, some, List, [], ◌∷◌,
  ◌++◌, arith, length, length-append, drop, take, take-append, drop-append, drop-all, take-all,
  append_assoc, Bytes,
}
use grace_server.Wire.BigEndian.{ntohl, ntohl-htonl}
use grace_server.Wire.Stream.{drain, drain_all, drain-some, drain-none}
use grace_server.Vpn.Frame.{Frame, encode_frame, decode_at, try_decode_frame, receive}
use grace_server.Vpn.Frame.Decoder.{next_frame, next_frame-IsDecoder, receive-drain}

-- The stream that carries these frames.
abbrev pub encode_all : List Frame → Bytes
encode_all [] = []
encode_all (f ∷ fs) = encode_frame f.type f.payload ++ encode_all fs

-- The payloads whose sizes the length field can hold.
abbrev pub Fit : List Frame → Type 0
Fit [] = Unit {0}
Fit (f ∷ fs) = (length f.payload < 2 ^ 32) × Fit fs

next_frame_body :
    (t a b c d n : ℕ) (body : Bytes)
    → ntohl a b c d ≡ n
    → n ≤ length body
    → next_frame (t ∷ a ∷ b ∷ c ∷ d ∷ body)
      ≡ some (record { type = t; payload = take n body }, drop n body)
unfolding next_frame decode_at
next_frame_body t a b c d n body e h = ground arith

next_frame-encode_frame :
    (t : ℕ) (p rest : Bytes)
    → length p < 2 ^ 32
    → next_frame (encode_frame t p ++ rest) ≡ some (record { type = t; payload = p }, rest)
unfolding encode_frame
next_frame-encode_frame t p rest h =
    let m : length p % 2 ^ 32 ≡ length p = omega arith in
    rw m (
      next_frame_body t _ _ _ _ (length p) (p ++ rest) (ntohl-htonl (length p) h)
        (omega (arith, length-append p rest))
      ∙ ground (
        arith,
        take-append (length p) p rest (omega arith),
        take-all p,
        drop-append (length p) p rest (omega arith),
        drop-all p,
      ))

drain-encode_all :
    (fs : List Frame) (rest : Bytes) (f : ℕ)
    → Fit fs
    → next_frame rest ≡ none
    → length (encode_all fs ++ rest) < f
    → drain next_frame f (encode_all fs ++ rest) ≡ (fs, rest)
drain-encode_all fs rest zero h e l = elim l [ ]
drain-encode_all [] rest (suc f) h e l = drain-none next_frame (suc f) rest e
drain-encode_all (x ∷ fs) rest (suc f) h e l =
    let step = next_frame-encode_frame x.type x.payload (encode_all fs ++ rest) h.0 in
    let s = next_frame-IsDecoder.shrinks _ _ _ step in
    let re = append_assoc (encode_frame x.type x.payload) (encode_all fs) rest in
    let l' = ap length re in
    rw re (rw (drain-some next_frame f _ step, drain-encode_all fs rest f h.1 e (omega arith)))

try_decode_frame-none : (b : Bytes) → try_decode_frame b 0 ≡ none → next_frame b ≡ none
unfolding try_decode_frame next_frame
try_decode_frame-none b e = ground arith

-- Whatever frames are sent, with payloads shorter than 2^32 bytes, and whatever follows them that
-- is no whole frame, the receiver handles exactly those frames, in order, and keeps the rest for
-- later.
pub receive-encode_all :
    (fs : List Frame) (rest : Bytes)
    → Fit fs
    → try_decode_frame rest 0 ≡ none
    → receive [] (encode_all fs ++ rest) ≡ (fs, rest)
unfolding drain_all
receive-encode_all fs rest h e =
    receive-drain [] (encode_all fs ++ rest)
    ∙ drain-encode_all fs rest _ h (try_decode_frame-none rest e) (omega arith)

-- One frame and nothing else.
pub receive_one :
    (t : ℕ) (p : Bytes)
    → length p < 2 ^ 32
    → receive [] (encode_frame t p) ≡ (record { type = t; payload = p } ∷ [], [])
unfolding decode_at try_decode_frame
receive_one t p k =
    let one : List Frame = record { type = t; payload = p } ∷ [] in
    let same : encode_all one ++ [] ≡ encode_frame t p =
      append-nil (encode_all one) ∙ append-nil (encode_frame t p) in
    sym (ap (receive []) same) ∙ receive-encode_all one [] (k, tt) refl
