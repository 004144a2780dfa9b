-- ===== src/Tests/Streams.antt =====
-- One HTTP/2 stream, and a session with a few methods.
use grace_server.Base.{
  ℕ, ◌≡◌, refl, true, some, List, [], ◌∷◌, ◌++◌, arith, Bytes, codes, starts_with, equal,
}
use grace_server.Base.Dict.{lookup}
use grace_server.Base.Keys.{num_key, bytes_key}
use grace_server.Http2.{Streams, StreamCtx, Request, empty_ctx, empty_request}
use grace_server.Http2.Delivery.{
  Move, pushes, finishes, pulls, apply_all, pushed, pull_all, apply_all_delivers, pull_all_unary,
}
use grace_server.Grpc.Framing.{encode_frame, decode_frame, drain_messages}
use grace_server.Grpc.Framing.RoundTrip.{encode_all, drain_messages-encode_all}
use grace_server.Grpc.Session.{
  Session, on_request, register_unary, register_bidi_stream, flush, is_grpc, has_part,
}
use grace_server.Grpc.Session.Dispatch.{
  IsAnswered, on_request-IsAnswered, on_request_unary, answers, response, trailer_of, IsStaged,
}

abbrev ctx : StreamCtx
ctx = record empty_ctx { streaming = true; resp_body = 1 ∷ 2 ∷ [] }

abbrev streams : Streams
streams = (5, ctx) ∷ []

abbrev moves : List Move
moves = pulls 1 ∷ pushes (3 ∷ 4 ∷ []) ∷ pulls 2 ∷ finishes ∷ []

apply_all_delivers_example :
    (c' : StreamCtx) × (lookup 5 (apply_all streams 5 moves).0 ≡ some c')
    × ((apply_all streams 5 moves).1 ++ c'.resp_body ≡ ctx.resp_body ++ pushed moves)
unfolding lookup
apply_all_delivers_example = apply_all_delivers streams 5 ctx moves refl

abbrev finished_ctx : StreamCtx
finished_ctx = record empty_ctx { streaming = true; finished = true; trailer_mode = true }

abbrev unary_ctx : StreamCtx
unary_ctx = record empty_ctx { resp_body = 1 ∷ 2 ∷ 3 ∷ []; trailer_mode = true }

pull_all_unary_example : pull_all 4 2 unary_ctx ≡ some (unary_ctx.resp_body, true)
pull_all_unary_example = pull_all_unary 4 2 unary_ctx refl (omega arith) (omega arith)

-- No body here is compressed.
abbrev inflate : Bytes → Bytes
inflate b = b

abbrev two_messages : List Bytes
two_messages = (8 ∷ 1 ∷ []) ∷ (10 ∷ []) ∷ []

drain_messages-encode_all_example :
    drain_messages inflate (encode_all two_messages ++ 0 ∷ 0 ∷ []) ≡ (two_messages, 0 ∷ 0 ∷ [])
unfolding decode_frame
drain_messages-encode_all_example =
    drain_messages-encode_all inflate two_messages (0 ∷ 0 ∷ []) (omega arith, (omega arith, tt))
      refl

abbrev buffer : Bytes
buffer = 0 ∷ 0 ∷ 0 ∷ 0 ∷ 1 ∷ 7 ∷ 0 ∷ []

-- Each method answers with what it was given.
abbrev echo : ℕ → Bytes → ℕ × Bytes
echo n pb = (0, pb)

abbrev session : Session
session = record {
  streams = [];
  handlers = [];
  async_handlers = [];
  stream_handlers = [];
  client_stream_handlers = [];
  bidi_open_handlers = [];
  bidi_opened = [];
  alive = true;
}

abbrev request : Request
request = record empty_request {
  path = codes "/gnmi.gNMI/Get";
  headers = (codes "content-type", codes "application/grpc") ∷ [];
  body = encode_frame (8 ∷ 1 ∷ []) ++ [];
}

on_request-IsAnswered_example :
    IsAnswered inflate echo session 3 request
      (answers (on_request inflate echo session 3 request).1)
on_request-IsAnswered_example = on_request-IsAnswered inflate echo session 3 request

on_request_unary_example :
    ((on_request inflate echo (register_unary session request.path 1) 3 request).1
      ≡ response 3 ∷ flush ∷ trailer_of 3 0 ∷ flush ∷ [])
    × IsStaged inflate echo
        (on_request inflate echo (register_unary session request.path 1) 3 request).0
        3
        (encode_frame (8 ∷ 1 ∷ []))
unfolding lookup is_grpc has_part starts_with equal
on_request_unary_example =
    on_request_unary inflate echo session 3 1 request (8 ∷ 1 ∷ []) [] refl refl refl refl refl
      (omega arith)

abbrev chat : Session
unfolding register_bidi_stream
chat = register_bidi_stream session request.path 1 2
