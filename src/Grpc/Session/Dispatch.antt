-- ===== src/Grpc/Session/Dispatch.antt =====
-- How a request is answered, by what its method is registered as.
use grace_server.Base.{
  ℕ, ◌+◌, ◌^◌, ◌<◌, ◌≡◌, refl, sym, ap, subst, ◌∙◌, to_string, ◌⊎◌, inl, inr, true, false, none,
  some, List, [], ◌∷◌, ◌++◌, Bytes, codes, length, Bool-cases, Option-cases,
}
use grace_server.Base.Dict.{lookup, insert, is_some, lookup-insert_self}
use grace_server.Base.Keys.{num_key, bytes_key}
use grace_server.Http2.Submit.{
  submit_response, submit_trailer, respond, trailer, respond_stream, finish_stream,
}
use grace_server.Http2.{Request, StreamCtx, ctx_of}
use grace_server.Grpc.Framing.RoundTrip.{decode_frame-encode_frame}
use grace_server.Grpc.Framing.{encode_frame, decode_frame, drain_messages}
use grace_server.Grpc.Session.{
  Session, Output, h2, flush, opened, handed_over, started, messages, on_request,
  on_request_headers, on_request_stream, dispatch_decoded, close_client_stream, stream_finish,
  send_unary_response, register_unary, is_grpc, was_opened, grpc_headers, h2_all,
}

-- Of the outputs, the responses and trailers that nghttp2 is given, and the hand-overs of a request
-- to its handler; what is left out are flushes, resumptions and messages delivered.
abbrev pub answers : List Output → List Output
answers [] = []
answers (h2 (submit_response sid headers provider) ∷ os) =
    h2 (submit_response sid headers provider) ∷ answers os
answers (h2 (submit_trailer sid trailers) ∷ os) = h2 (submit_trailer sid trailers) ∷ answers os
answers (handed_over handler sid pb ∷ os) = handed_over handler sid pb ∷ answers os
answers (started handler sid pb ∷ os) = started handler sid pb ∷ answers os
answers (_ ∷ os) = answers os

-- A response with status 200 and a body that is read from the stream's context.
abbrev pub response : ℕ → Output
response sid = h2 (submit_response sid ((codes ":status", to_string 200) ∷ grpc_headers) true)

abbrev pub trailer_of : ℕ → ℕ → Output
trailer_of sid status = h2 (submit_trailer sid ((codes "grpc-status", to_string status) ∷ []))

answers-messages :
    (handler sid : ℕ) (ms : List Bytes) (os : List Output)
    → answers (messages handler sid ms ++ os) ≡ answers os
answers-messages handler sid [] os = refl
answers-messages handler sid (m ∷ ms) os = answers-messages handler sid ms os

unary_answers :
    (s : Session) (sid status : ℕ) (body : Bytes)
    → (send_unary_response s sid status body).1
      ≡ response sid ∷ flush ∷ trailer_of sid status ∷ flush ∷ []
unfolding send_unary_response respond trailer encode_frame
unary_answers s sid status body = refl

finish_answers :
    (s : Session) (sid status : ℕ)
    → answers (stream_finish s sid status).1 ≡ trailer_of sid status ∷ []
unfolding stream_finish finish_stream trailer
finish_answers s sid status = elim (Option-cases (lookup sid s.streams)) [
  | inl e ↦ rw (e, finish_stream) refl
  | inr (c, e) ↦ rw (e, finish_stream) refl
]

module _ (gzip_inflate : Bytes → Bytes) (unary : ℕ → Bytes → ℕ × Bytes) where
  -- How a request for a path that takes no messages on the way, with message `pb`, is answered, by
  -- the first registry that has the path: the response that a stream's handler fills, and the call
  -- of that handler; the call of an asynchronous handler; the response and a trailer with the status
  -- that a unary handler gives; or, if no registry has it, with 12.
  abbrev pub IsCalled : Session → ℕ → Bytes → Bytes → List Output → Type 0
  IsCalled s sid path pb os =
      ((n : ℕ) × (lookup path s.stream_handlers ≡ some n)
        × (os ≡ response sid ∷ started n sid pb ∷ []))
      ⊎ ((n : ℕ) × (lookup path s.stream_handlers ≡ none)
          × (lookup path s.async_handlers ≡ some n)
          × (os ≡ handed_over n sid pb ∷ []))
      ⊎ ((n : ℕ) × (lookup path s.stream_handlers ≡ none)
          × (lookup path s.async_handlers ≡ none)
          × (lookup path s.handlers ≡ some n)
          × (os ≡ response sid ∷ trailer_of sid (unary n pb).0 ∷ []))
      ⊎ ((lookup path s.stream_handlers ≡ none)
          × (lookup path s.async_handlers ≡ none)
          × (lookup path s.handlers ≡ none)
          × (os ≡ response sid ∷ trailer_of sid 12 ∷ []))

  -- How any request is answered: with 415 and no body if it is not gRPC; with the trailer of the
  -- response that is open, if its path is registered for messages and as bidirectional; with a
  -- response and a trailer, if for messages only; otherwise as above, with the message of its body.
  abbrev pub IsAnswered : Session → ℕ → Request → List Output → Type 0
  IsAnswered s sid req os =
      ((is_grpc (lookup (codes "content-type") req.headers) ≡ false)
        × (os ≡ h2 (submit_response sid ((codes ":status", to_string 415) ∷ []) false) ∷ []))
      ⊎ ((is_grpc (lookup (codes "content-type") req.headers) ≡ true)
          × (is_some (lookup req.path s.client_stream_handlers) ≡ true)
          × (is_some (lookup req.path s.bidi_open_handlers) ≡ true)
          × (os ≡ trailer_of sid 0 ∷ []))
      ⊎ ((is_grpc (lookup (codes "content-type") req.headers) ≡ true)
          × (is_some (lookup req.path s.client_stream_handlers) ≡ true)
          × (is_some (lookup req.path s.bidi_open_handlers) ≡ false)
          × (os ≡ response sid ∷ trailer_of sid 0 ∷ []))
      ⊎ ((is_grpc (lookup (codes "content-type") req.headers) ≡ true)
          × (lookup req.path s.client_stream_handlers ≡ none)
          × IsCalled s sid req.path (decode_frame gzip_inflate req.body).0 os)

  dispatch_decoded-IsCalled :
      (s : Session) (sid : ℕ) (path pb : Bytes)
      → IsCalled s sid path pb (answers (dispatch_decoded gzip_inflate unary s sid path pb).1)
  unfolding dispatch_decoded respond_stream
  dispatch_decoded-IsCalled s sid path pb = elim (Option-cases (lookup path s.stream_handlers)) [
    | inr (n, e) ↦ rw (e, dispatch_decoded) (inl (n, refl, refl))
    | inl e ↦ elim (Option-cases (lookup path s.async_handlers)) [
      | inr (n, f) ↦ rw (e, f, dispatch_decoded) (inr (inl (n, refl, refl, refl)))
      | inl f ↦ elim (Option-cases (lookup path s.handlers)) [
        | inr (n, g) ↦
            rw (e, f, g, dispatch_decoded)
              (inr (
                inr (
                  inl (
                    n,
                    refl,
                    refl,
                    refl,
                    ap answers (unary_answers s sid (unary n pb).0 (unary n pb).1),
                  ))))
        | inl g ↦
            rw (e, f, g, dispatch_decoded)
              (inr (inr (inr (refl, refl, refl, ap answers (unary_answers s sid 12 [])))))
      ]
    ]
  ]

  on_request_stream_messages :
      (s : Session) (sid : ℕ) (path body : Bytes)
      → (n : ℕ) × (ms : List Bytes) × ((on_request_stream gzip_inflate s sid path body).0
          ≡ messages n sid ms)
  unfolding on_request_stream
  on_request_stream_messages s sid path body =
      elim (Option-cases (lookup path s.client_stream_handlers)) [
        | inl e ↦ (0, [], rw (e, on_request_stream) refl)
        | inr (n, e) ↦ (n, (drain_messages gzip_inflate body).0, rw (e, on_request_stream) refl)
      ]

  -- The end of the client's messages, of a method that is bidirectional, and of one that is not.
  close_client_stream_bidi :
      (s : Session) (sid : ℕ) (req : Request)
      → is_some (lookup req.path s.bidi_open_handlers) ≡ true
      → answers (close_client_stream gzip_inflate unary s sid req).1 ≡ trailer_of sid 0 ∷ []
  unfolding close_client_stream
  close_client_stream_bidi s sid req b =
      let (n, ms, e) = on_request_stream_messages s sid req.path req.body in
      rw (b, e) (answers-messages n sid ms (stream_finish s sid 0).1 ∙ finish_answers s sid 0)

  close_client_stream_plain :
      (s : Session) (sid : ℕ) (req : Request)
      → is_some (lookup req.path s.bidi_open_handlers) ≡ false
      → answers (close_client_stream gzip_inflate unary s sid req).1
        ≡ response sid ∷ trailer_of sid 0 ∷ []
  unfolding close_client_stream
  close_client_stream_plain s sid req b =
      let (n, ms, e) = on_request_stream_messages s sid req.path req.body in
      rw (b, e)
        (answers-messages n sid ms (send_unary_response s sid 0 []).1
          ∙ ap answers (unary_answers s sid 0 []))

  -- Whatever is registered and whatever the request holds, it is answered exactly once, on its own
  -- stream and in the way of its method: with 415 if it is not gRPC; by the trailer alone on the
  -- response that is open, if the method is bidirectional; by a response and a trailer with status
  -- 0, if it takes messages otherwise; by a response and the call of its handler, if it streams
  -- its answers; by the hand-over to its handler, if it is asynchronous; by a response and a
  -- trailer with the handler's status, if it is unary; and with status 12, if it is unknown.
  pub on_request-IsAnswered :
      (s : Session) (sid : ℕ) (req : Request)
      → IsAnswered s sid req (answers (on_request gzip_inflate unary s sid req).1)
  unfolding on_request respond
  on_request-IsAnswered s sid req =
      elim (Bool-cases (is_grpc (lookup (codes "content-type") req.headers))) [
        | inr b ↦ rw b (inl (refl, refl))
        | inl b ↦ elim (Option-cases (lookup req.path s.client_stream_handlers)) [
          | inl e ↦
              rw (b, e, on_request)
                (inr (
                  inr (
                    inr (
                      refl,
                      refl,
                      dispatch_decoded-IsCalled s sid req.path
                          (decode_frame gzip_inflate req.body).0,
                    ))))
          | inr (n, e) ↦ elim (Bool-cases (is_some (lookup req.path s.bidi_open_handlers))) [
            | inl o ↦
                rw (b, e, on_request)
                  (inr (inl (refl, refl, o, close_client_stream_bidi s sid req o)))
            | inr o ↦
                rw (b, e, on_request)
                  (inr (inr (inl (refl, refl, o, close_client_stream_plain s sid req o))))
          ]
        ]
      ]

  on_request_decoded :
      (s : Session) (sid : ℕ) (req : Request)
      → is_grpc (lookup (codes "content-type") req.headers) ≡ true
      → lookup req.path s.client_stream_handlers ≡ none
      → on_request gzip_inflate unary s sid req
        ≡ dispatch_decoded gzip_inflate unary s sid req.path (decode_frame gzip_inflate req.body).0
  unfolding on_request
  on_request_decoded s sid req ct c = rw (ct, c, on_request) refl

  dispatch_decoded_unary :
      (s : Session) (sid n : ℕ) (path pb : Bytes)
      → lookup path s.stream_handlers ≡ none
      → lookup path s.async_handlers ≡ none
      → lookup path s.handlers ≡ some n
      → dispatch_decoded gzip_inflate unary s sid path pb
        ≡ send_unary_response s sid (unary n pb).0 (unary n pb).1
  unfolding dispatch_decoded
  dispatch_decoded_unary s sid n path pb st a h = rw (st, a, h, dispatch_decoded) refl

  on_request_unary_call :
      (s : Session) (sid n : ℕ) (req : Request) (pb rest : Bytes)
      → is_grpc (lookup (codes "content-type") req.headers) ≡ true
      → lookup req.path s.client_stream_handlers ≡ none
      → lookup req.path s.stream_handlers ≡ none
      → lookup req.path s.async_handlers ≡ none
      → req.body ≡ encode_frame pb ++ rest
      → length pb + 5 < 2 ^ 32
      → on_request gzip_inflate unary (register_unary s req.path n) sid req
        ≡ send_unary_response (register_unary s req.path n) sid (unary n pb).0 (unary n pb).1
  unfolding register_unary
  on_request_unary_call s sid n req pb rest ct c st a e l =
      let d : (decode_frame gzip_inflate req.body).0 ≡ pb =
        ap (λ b. (decode_frame gzip_inflate b).0) e
        ∙ ap (λ r. r.0) (decode_frame-encode_frame gzip_inflate pb rest l) in
      on_request_decoded (register_unary s req.path n) sid req ct c
      ∙ ap (dispatch_decoded gzip_inflate unary (register_unary s req.path n) sid req.path) d
      ∙ dispatch_decoded_unary (register_unary s req.path n) sid n req.path pb st a
          (lookup-insert_self req.path n s.handlers)

  -- The body that nghttp2 is to read for a stream, with trailers behind it.
  abbrev pub IsStaged : Session → ℕ → Bytes → Type 0
  IsStaged s sid body =
      (ctx : StreamCtx) × (lookup sid s.streams ≡ some ctx)
      × (ctx.resp_body ≡ body)
      × (ctx.trailer_mode ≡ true)

  staged :
      (s : Session) (sid status : ℕ) (body : Bytes)
      → IsStaged (send_unary_response s sid status body).0 sid (encode_frame body)
  unfolding send_unary_response respond
  staged s sid status body = (
    record (ctx_of s.streams sid) { resp_body = encode_frame body; trailer_mode = true },
    lookup-insert_self sid _ s.streams,
    refl,
    refl,
  )

  -- A gRPC request to a path that is registered as unary and not otherwise, whose body starts with
  -- a framed message shorter than 2^32 - 5 bytes: the handler is given that message, whatever
  -- follows the frame; a response with status 200 is submitted, then a trailer with the status that
  -- the handler answers, each flushed; and the body staged for the stream is the frame of the
  -- message that the handler answers.
  pub on_request_unary :
      (s : Session) (sid n : ℕ) (req : Request) (pb rest : Bytes)
      → is_grpc (lookup (codes "content-type") req.headers) ≡ true
      → lookup req.path s.client_stream_handlers ≡ none
      → lookup req.path s.stream_handlers ≡ none
      → lookup req.path s.async_handlers ≡ none
      → req.body ≡ encode_frame pb ++ rest
      → length pb + 5 < 2 ^ 32
      → ((on_request gzip_inflate unary (register_unary s req.path n) sid req).1
          ≡ response sid ∷ flush ∷ trailer_of sid (unary n pb).0 ∷ flush ∷ [])
        × IsStaged
            (on_request gzip_inflate unary (register_unary s req.path n) sid req).0
            sid
            (encode_frame (unary n pb).1)
  on_request_unary s sid n req pb rest ct c st a e l =
      let call = on_request_unary_call s sid n req pb rest ct c st a e l in
      let s' = register_unary s req.path n in
      (
        ap (λ r. r.1) call ∙ unary_answers s' sid (unary n pb).0 (unary n pb).1,
        subst (λ (x : Session). IsStaged x sid (encode_frame (unary n pb).1))
            (sym (ap (λ r. r.0) call)) (staged s' sid (unary n pb).0 (unary n pb).1),
      )

headers_unknown :
    (s : Session) (sid : ℕ) (req : Request)
    → lookup req.path s.bidi_open_handlers ≡ none
    → on_request_headers s sid req ≡ (s, [])
unfolding on_request_headers
headers_unknown s sid req e = rw (e, on_request_headers) refl

headers_again :
    (s : Session) (sid n : ℕ) (req : Request)
    → lookup req.path s.bidi_open_handlers ≡ some n
    → was_opened (lookup sid s.bidi_opened) ≡ true
    → on_request_headers s sid req ≡ (s, [])
unfolding on_request_headers
headers_again s sid n req e o = rw (e, o, on_request_headers) refl

headers_first :
    (s : Session) (sid n : ℕ) (req : Request)
    → lookup req.path s.bidi_open_handlers ≡ some n
    → was_opened (lookup sid s.bidi_opened) ≡ false
    → on_request_headers s sid req ≡ (
      record s {
        bidi_opened = insert sid true s.bidi_opened;
        streams = (respond_stream s.streams sid 200 grpc_headers).0;
      },
      h2_all (respond_stream s.streams sid 200 grpc_headers).1 ++ flush ∷ opened n sid ∷ [],
    )
unfolding on_request_headers
headers_first s sid n req e o = rw (e, o, on_request_headers) refl

-- A bidirectional stream is opened once: when its headers are seen again, as with its trailers,
-- nothing is sent and no handler is called.
pub on_request_headers_once :
    (s : Session) (sid : ℕ) (req : Request)
    → on_request_headers (on_request_headers s sid req).0 sid req
      ≡ ((on_request_headers s sid req).0, [])
unfolding was_opened
on_request_headers_once s sid req = elim (Option-cases (lookup req.path s.bidi_open_handlers)) [
  | inl e ↦ rw (headers_unknown s sid req e) (headers_unknown s sid req e)
  | inr (n, e) ↦ elim (Bool-cases (was_opened (lookup sid s.bidi_opened))) [
    | inl o ↦ rw (headers_again s sid n req e o) (headers_again s sid n req e o)
    | inr o ↦
        rw (headers_first s sid n req e o)
          (headers_again _ sid n req e (rw (lookup-insert_self sid true s.bidi_opened) refl))
  ]
]
