-- ===== src/Vpn/Frame/Decoder.antt =====
-- The frame decoder and the laws of `Wire.Stream`.
use grace_server.Base.{
  ℕ, zero, suc, ◌+◌, ◌<◌, ◌≡◌, refl, inl, inr, Option, none, some, ◌∷◌, ◌++◌, arith, length,
  length-append, length-drop, drop, Bytes, drop-add, drop-append, take-append, append_assoc,
  Option-cases,
}
use grace_server.Wire.BigEndian.{ntohl}
use grace_server.Wire.Stream.{drain, IsDecoder, drain_all, drain_all_done, drain_all-append}
use grace_server.Vpn.Frame.{Frame, decode_at, try_decode_frame, collect, receive}

-- One frame off the front of a buffer.
unfoldable pub next_frame : Bytes → Option (Frame × Bytes)
next_frame b = elim (decode_at b) [ none ↦ none | some r ↦ some (r.frame, drop r.consumed b) ]

next_frame-shrinks :
    (b : Bytes) (a : Frame) (r : Bytes) → next_frame b ≡ some (a, r) → length r < length b
unfolding next_frame decode_at
next_frame-shrinks (t ∷ a ∷ b ∷ c ∷ d ∷ body) f r e =
    ground (arith, length-drop (ntohl a b c d) body)
next_frame-shrinks _ f r e = cc

next_frame-extends :
    (b c : Bytes) (a : Frame) (r : Bytes)
    → next_frame b ≡ some (a, r)
    → next_frame (b ++ c) ≡ some (a, r ++ c)
unfolding next_frame decode_at
next_frame-extends (t ∷ x ∷ y ∷ z ∷ w ∷ body) c f r e = ground (
  arith,
  length-append body c,
  take-append (ntohl x y z w) body c,
  drop-append (ntohl x y z w) body c,
)
next_frame-extends _ c f r e = cc

pub next_frame-IsDecoder : IsDecoder next_frame
next_frame-IsDecoder = record { shrinks = next_frame-shrinks; extends = next_frame-extends }

-- The loop over offsets finds what `drain` finds in the bytes from the offset on.
collect-drain :
    (f : ℕ) (buf : Bytes) (k : ℕ)
    → ((collect f buf k).0 ≡ (drain next_frame f (drop k buf)).0)
      × (drop (collect f buf k).1 buf ≡ (drain next_frame f (drop k buf)).1)
unfolding collect try_decode_frame drain next_frame
collect-drain zero buf k = (refl, refl)
collect-drain (suc f) buf k = elim (Option-cases (decode_at (drop k buf))) [
  | inl e ↦ rw (e, collect, drain, next_frame, try_decode_frame) (refl, refl)
  | inr (r, e) ↦
      let (items, left) = collect-drain f buf (k + r.consumed) in
      ground (arith, e, items, left, drop-add k r.consumed buf)
]

pub receive-drain : (b c : Bytes) → receive b c ≡ drain_all next_frame (b ++ c)
unfolding receive drain_all
receive-drain b c =
    let (items, left) = collect-drain (suc (length (b ++ c))) (b ++ c) 0 in
    ground (arith, items, left)

-- Handing the stream over in two pieces gives the same frames, in the same order, and leaves the
-- same bytes in the buffer, as handing it over at once.
pub receive-append :
    (buf c d : Bytes)
    → receive buf (c ++ d)
      ≡ ((receive buf c).0 ++ (receive (receive buf c).1 d).0, (receive (receive buf c).1 d).1)
receive-append buf c d =
    rw (receive-drain buf (c ++ d), receive-drain buf c, ← append_assoc buf c d)
      (rw (receive-drain (drain_all next_frame (buf ++ c)).1 d)
        (drain_all-append next_frame next_frame-IsDecoder (buf ++ c) d))

next_frame-none : (b : Bytes) → next_frame b ≡ none → decode_at b ≡ none
unfolding next_frame
next_frame-none b e = ground arith

-- No whole frame is left in the buffer: the loop does not stop early.
pub receive_done : (buf c : Bytes) → try_decode_frame (receive buf c).1 0 ≡ none
unfolding try_decode_frame
receive_done buf c =
    let e = drain_all_done next_frame next_frame-IsDecoder (buf ++ c) in
    rw (receive-drain buf c) (next_frame-none _ e)
