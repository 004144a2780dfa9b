-- ===== src/Gnmi/Client/Delivery.antt =====
-- What a subscription's callback is given of the bytes that come.
use grace_server.Base.{
  ℕ, zero, suc, ◌+◌, ◌-◌, ◌%◌, ◌^◌, ◌≤◌, ◌<◌, ◌≡◌, refl, ap, ◌∙◌, true, false, List, [], ◌∷◌, ◌++◌,
  arith, length, length-append, drop, take, take-append, drop-append, take-all, drop-all,
  append_assoc, ltb, Bytes,
}
use grace_server.Grpc.Framing.{encode_frame, frame_end}
use grace_server.Grpc.Framing.RoundTrip.{Fit, encode_all}
use grace_server.Wire.BigEndian.{ntohl, ntohl-htonl}
use grace_server.Gnmi.Client.Streams.{SubConnection, deliver, on_data, notify_all}

-- A part of a frame: no header yet, or a header whose payload has not all arrived.
abbrev pub IsPart : Bytes → Type 0
IsPart (flag ∷ a ∷ b ∷ c ∷ d ∷ body) =
    ltb (length (flag ∷ a ∷ b ∷ c ∷ d ∷ body)) (frame_end (ntohl a b c d)) ≡ true
IsPart _ = Unit

deliver-IsPart : (rest : Bytes) (f : ℕ) → IsPart rest → deliver (suc f) rest ≡ ([], rest)
unfolding deliver
deliver-IsPart (flag ∷ a ∷ b ∷ c ∷ d ∷ body) f p = rw p refl
deliver-IsPart [] f p = refl
deliver-IsPart (a ∷ []) f p = refl
deliver-IsPart (a ∷ b ∷ []) f p = refl
deliver-IsPart (a ∷ b ∷ c ∷ []) f p = refl
deliver-IsPart (a ∷ b ∷ c ∷ d ∷ []) f p = refl

deliver_body :
    (flag a b c d n f : ℕ) (body : Bytes)
    → ntohl a b c d ≡ n
    → n ≤ length body
    → n + 5 < 2 ^ 32
    → deliver (suc f) (flag ∷ a ∷ b ∷ c ∷ d ∷ body)
      ≡ (take n body ∷ (deliver f (drop n body)).0, (deliver f (drop n body)).1)
unfolding deliver
deliver_body flag a b c d n f body e h k =
    let m : (5 + n) % 2 ^ 32 ≡ suc (suc (suc (suc (suc n)))) = omega arith in
    rw (e, m) (ground arith)

deliver_step :
    (m tail : Bytes) (f : ℕ)
    → length m + 5 < 2 ^ 32
    → deliver (suc f) (encode_frame m ++ tail) ≡ (m ∷ (deliver f tail).0, (deliver f tail).1)
unfolding encode_frame
deliver_step m tail f h =
    let e : length m % 2 ^ 32 ≡ length m = omega arith in
    rw e (
      deliver_body 0 _ _ _ _ (length m) f (m ++ tail) (ntohl-htonl (length m) (omega arith))
        (omega (arith, length-append m tail)) h
      ∙ rw
          (
            take-append (length m) m tail (omega arith),
            take-all m,
            drop-append (length m) m tail (omega arith),
            drop-all m,
          )
          refl)

length-encode_frame : (m : Bytes) → length (encode_frame m) ≡ 5 + length m
unfolding encode_frame
length-encode_frame m = omega arith

deliver-encode_all :
    (ms : List Bytes) (rest : Bytes) (f : ℕ)
    → Fit ms
    → IsPart rest
    → length (encode_all ms ++ rest) < f
    → deliver f (encode_all ms ++ rest) ≡ (ms, rest)
deliver-encode_all ms rest zero h p l = elim l [ ]
deliver-encode_all [] rest (suc f) h p l = deliver-IsPart rest f p
deliver-encode_all (m ∷ ms) rest (suc f) h p l =
    let tail = encode_all ms ++ rest in
    let re = append_assoc (encode_frame m) (encode_all ms) rest in
    let whole = length-append (encode_frame m) tail in
    let head = length-encode_frame m in
    let total = ap length re in
    ap (deliver (suc f)) re
    ∙ deliver_step m tail f h.0
    ∙ ap (λ (r : List Bytes × Bytes). (m ∷ r.0, r.1))
        (deliver-encode_all ms rest f h.1 p (omega arith))

-- A subscription's callback is given exactly the messages that were framed, in order, if each with
-- its header is shorter than 2^32 bytes: when what was left of earlier data and the data that comes
-- make up the frames of some messages and a part of a frame, the callback gets those messages, and
-- the part is kept.
pub on_data-encode_all :
    (c : SubConnection) (d : Bytes) (ms : List Bytes) (rest : Bytes)
    → c.rxbuf ++ d ≡ encode_all ms ++ rest
    → Fit ms
    → IsPart rest
    → on_data c d ≡ (record c { rxbuf = rest }, notify_all c.on_notif ms)
unfolding on_data
on_data-encode_all c d ms rest e h p =
    ap (λ (r : List Bytes × Bytes). (record c { rxbuf = r.1 }, notify_all c.on_notif r.0))
      (ap (λ b. deliver (suc (length b)) b) e
        ∙ deliver-encode_all ms rest (suc (length (encode_all ms ++ rest))) h p (omega arith))

never_below : (n : ℕ) → ltb n 0 ≡ false
never_below n = ground arith

-- A frame whose header announces 2^32 - 5 bytes makes the loop run for ever: `5u + len` is 0, so
-- the frame counts as whole, nothing is erased, and after any number of rounds the buffer is as it
-- was and the callback has been called once for each round.
pub deliver_diverges :
    (flag a b c d : ℕ) (body : Bytes) (fuel : ℕ)
    → ntohl a b c d ≡ 2 ^ 32 - 5
    → ((deliver fuel (flag ∷ a ∷ b ∷ c ∷ d ∷ body)).1 ≡ flag ∷ a ∷ b ∷ c ∷ d ∷ body)
      × (length (deliver fuel (flag ∷ a ∷ b ∷ c ∷ d ∷ body)).0 ≡ fuel)
unfolding deliver
deliver_diverges flag a b c d body zero e = (refl, refl)
deliver_diverges flag a b c d body (suc fuel) e =
    let z : frame_end (ntohl a b c d) ≡ 0 = omega arith in
    let (p, q) = deliver_diverges flag a b c d body fuel e in
    rw (z, never_below (length (flag ∷ a ∷ b ∷ c ∷ d ∷ body))) (p, ap suc q)
