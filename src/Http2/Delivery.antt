-- ===== src/Http2/Delivery.antt =====
-- From `push_stream_data` and `submit_response` to the data provider.
use grace_server.Base.{
  ℕ, zero, suc, ◌<◌, ◌≡◌, refl, sym, ap, ◌∙◌, ◌⊎◌, inl, inr, Bool, true, false, ◌&&◌, Option, none,
  some, List, [], ◌∷◌, ◌++◌, append-nil, append_assoc, arith, Bytes, is_empty, length, take, drop,
  min, take-append-drop, length-drop, Bool-cases,
}
use grace_server.Base.Dict.{lookup, insert, lookup-insert_self}
use grace_server.Base.Keys.{num_key}
use grace_server.Http2.Provider.{Answer, deferred, gives, response_body_read}
use grace_server.Http2.Submit.{push_stream_data, finish_stream}
use grace_server.Http2.{Streams, StreamCtx}

-- The application pushes and finishes; nghttp2 pulls.
pub data Move : Type 0 where
  pushes : Bytes → Move
  finishes : Move
  pulls : ℕ → Move

abbrev pub given : Answer → Bytes
given deferred = []
given (gives b eof no_end) = b

-- nghttp2's call of the provider, on the entry that `source.ptr` points to.
unfoldable pub pull : Streams → ℕ → ℕ → Streams × Answer
pull m sid size = elim (lookup sid m) [
  | none ↦ (m, deferred)
  | some c ↦ (insert sid (response_body_read c size).0 m, (response_body_read c size).1)
]

abbrev pub apply : Streams → ℕ → Move → Streams × Bytes
apply m sid (pushes chunk) = ((push_stream_data m sid chunk).0, [])
apply m sid finishes = ((finish_stream m sid).0, [])
apply m sid (pulls size) = ((pull m sid size).0, given (pull m sid size).1)

abbrev pub apply_all : Streams → ℕ → List Move → Streams × Bytes
apply_all m sid [] = (m, [])
apply_all m sid (x ∷ xs) = (
  (apply_all (apply m sid x).0 sid xs).0,
  (apply m sid x).1 ++ (apply_all (apply m sid x).0 sid xs).1,
)

abbrev pub pushed : List Move → Bytes
pushed [] = []
pushed (pushes chunk ∷ xs) = chunk ++ pushed xs
pushed (finishes ∷ xs) = pushed xs
pushed (pulls size ∷ xs) = pushed xs

read_splits :
    (c : StreamCtx) (size : ℕ)
    → (given (response_body_read c size).1 ++ (response_body_read c size).0.resp_body ≡ c.resp_body)
      × ((response_body_read c size).0.streaming ≡ c.streaming)
unfolding response_body_read
read_splits c size = elim (Bool-cases (is_empty c.resp_body)) [
  | inl e ↦ ground arith
  | inr e ↦ rw e (take-append-drop (min size (length c.resp_body)) c.resp_body, refl)
]

-- One move on a stream that is there.
apply-splits :
    (m : Streams) (sid : ℕ) (c : StreamCtx) (x : Move)
    → lookup sid m ≡ some c
    → (c' : StreamCtx) × (lookup sid (apply m sid x).0 ≡ some c')
      × ((apply m sid x).1 ++ c'.resp_body ≡ c.resp_body ++ pushed (x ∷ []))
unfolding push_stream_data finish_stream pull
apply-splits m sid c (pushes chunk) e = (
  record c { resp_body = c.resp_body ++ chunk },
  rw (e, push_stream_data) (lookup-insert_self sid _ m),
  rw (append-nil chunk),
)
apply-splits m sid c finishes e = (
  record c { finished = true },
  rw (e, finish_stream) (lookup-insert_self sid _ m),
  rw (append-nil c.resp_body),
)
apply-splits m sid c (pulls size) e = (
  (response_body_read c size).0,
  rw (e, pull) (lookup-insert_self sid _ m),
  rw (e, pull) ((read_splits c size).0 ∙ sym (append-nil c.resp_body)),
)

pushed-cons : (x : Move) (xs : List Move) → pushed (x ∷ []) ++ pushed xs ≡ pushed (x ∷ xs)
pushed-cons (pushes chunk) xs = rw (append-nil chunk)
pushed-cons finishes xs = refl
pushed-cons (pulls size) xs = refl

-- On an open stream, however pushes and pulls interleave and whatever sizes nghttp2 asks for, the
-- bytes given to nghttp2, followed by those still staged, are the bytes that were staged at first,
-- followed by all that was pushed.
pub apply_all_delivers :
    (m : Streams) (sid : ℕ) (c : StreamCtx) (xs : List Move)
    → lookup sid m ≡ some c
    → (c' : StreamCtx) × (lookup sid (apply_all m sid xs).0 ≡ some c')
      × ((apply_all m sid xs).1 ++ c'.resp_body ≡ c.resp_body ++ pushed xs)
apply_all_delivers m sid c [] e = (c, e, sym (append-nil c.resp_body))
apply_all_delivers m sid c (x ∷ xs) e =
    let (c1, e1, q1) = apply-splits m sid c x e in
    let m1 = (apply m sid x).0 in
    let (c2, e2, q2) = apply_all_delivers m1 sid c1 xs e1 in
    (
      c2,
      e2,
      append_assoc (apply m sid x).1 (apply_all m1 sid xs).1 c2.resp_body
          ∙ ap (◌++◌ (apply m sid x).1) q2
          ∙ sym (append_assoc (apply m sid x).1 c1.resp_body (pushed xs))
          ∙ ap (λ b. b ++ pushed xs) q1
          ∙ append_assoc c.resp_body (pushed (x ∷ [])) (pushed xs)
          ∙ ap (◌++◌ c.resp_body) (pushed-cons x xs),
    )

-- A streaming response is ended only when the application has finished it and nothing is staged,
-- and then by a trailer if it has one; until it is finished an empty stage defers. No bytes are
-- given with the end.
pub streaming_eof :
    (c : StreamCtx) (size : ℕ) (b : Bytes) (eof no_end : Bool)
    → c.streaming ≡ true
    → (response_body_read c size).1 ≡ gives b eof no_end
    → ((eof ≡ true)
        × (c.finished ≡ true)
        × (c.resp_body ≡ [])
        × (b ≡ [])
        × (no_end ≡ c.trailer_mode))
      ⊎ ((eof ≡ false) × (no_end ≡ false) × (is_empty c.resp_body ≡ false))
unfolding response_body_read
streaming_eof c size b eof no_end s e = ground arith

-- nghttp2 pulls until the end: the bytes given, and whether NO_END_STREAM was set.
abbrev pub pull_all : ℕ → ℕ → StreamCtx → Option (Bytes × Bool)
pull_all zero size c = none
pull_all (suc fuel) size c = elim (response_body_read c size).1 [
  | deferred ↦ none
  | gives b eof no_end ↦ elim eof [
    | true ↦ some (b, no_end)
    | false ↦ elim (pull_all fuel size (response_body_read c size).0) [
      | none ↦ none
      | some (later, flag) ↦ some (b ++ later, flag)
    ]
  ]
]

abbrev rest_of : ℕ → StreamCtx → Bytes
rest_of size c = drop (min size (length c.resp_body)) c.resp_body

abbrev piece_of : ℕ → StreamCtx → Bytes
piece_of size c = take (min size (length c.resp_body)) c.resp_body

read_empty :
    (c : StreamCtx) (size : ℕ)
    → c.streaming ≡ false
    → is_empty c.resp_body ≡ true
    → response_body_read c size ≡ (c, gives [] true c.trailer_mode)
unfolding response_body_read
read_empty c size s e = ground arith

read_piece :
    (c : StreamCtx) (size : ℕ) (last : Bool)
    → c.streaming ≡ false
    → is_empty c.resp_body ≡ false
    → is_empty (rest_of size c) ≡ last
    → response_body_read c size ≡ (
      record c { resp_body = rest_of size c },
      gives (piece_of size c) last (last && c.trailer_mode),
    )
unfolding response_body_read
read_piece c size last s e l = rw (e, ← l, s) refl

empty_of : {A : Type 0} (xs : List A) → is_empty xs ≡ true → xs ≡ []
empty_of [] h = refl
empty_of (x ∷ xs) h = absurd (cc h)

length_pos : {A : Type 0} (xs : List A) → is_empty xs ≡ false → 0 < length xs
length_pos [] h = absurd (cc h)
length_pos (x ∷ xs) h = omega arith

-- A unary response is given whole, by pulls of one size that is not 0, in at most one round more
-- than it has bytes, and its end is left to the trailer exactly if it has one.
pub pull_all_unary :
    (fuel size : ℕ) (c : StreamCtx)
    → c.streaming ≡ false
    → 0 < size
    → length c.resp_body < fuel
    → pull_all fuel size c ≡ some (c.resp_body, c.trailer_mode)
pull_all_unary zero size c s p h = elim h [ ]
pull_all_unary (suc fuel) size c s p h = elim (Bool-cases (is_empty c.resp_body)) [
  | inl e ↦ rw (read_empty c size s e, pull_all) (ground (arith, empty_of c.resp_body e))
  | inr e ↦
      let whole = take-append-drop (min size (length c.resp_body)) c.resp_body in
      elim (Bool-cases (is_empty (rest_of size c))) [
        | inl l ↦
            rw (read_piece c size true s e l, pull_all)
              (ap (λ b. some (b, c.trailer_mode))
                (sym (append-nil (piece_of size c))
                  ∙ ap (◌++◌ (piece_of size c)) (sym (empty_of (rest_of size c) l))
                  ∙ whole))
        | inr l ↦
            let short = length-drop (min size (length c.resp_body)) c.resp_body in
            let some_left = length_pos c.resp_body e in
            let later =
              pull_all_unary fuel size (record c { resp_body = rest_of size c }) s p
                (omega arith) in
            rw (read_piece c size false s e l, pull_all)
              (rw (read_piece c size false s e l, later) (ap (λ b. some (b, c.trailer_mode)) whole))
      ]
]
