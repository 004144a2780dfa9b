-- ===== src/Grpc/Session.antt =====
-- app/src/grpc_session.cpp: the registries of handlers, and the dispatch of requests. A handler is
-- named by a number. What a unary handler answers is a parameter; the calls of the other handlers,
-- of nghttp2 and of `flush` are outputs, in order.
pub mod Dispatch
use grace_server.Base.{
  ℕ, suc, Bool, true, false, not, ◌&&◌, Option, none, some, List, [], ◌∷◌, ◌++◌, length, ltb, ◌==◌,
  if◌then◌else◌, Bytes, codes, equal, is_empty, to_string, starts_with,
}
use grace_server.Base.Dict.{Dict, lookup, insert, erase, is_some}
use grace_server.Base.Keys.{num_key, bytes_key}
use grace_server.Grpc.Framing.{encode_frame, decode_frame, drain_messages}
use grace_server.Http2.Submit.{
  Effect, Headers, respond, trailer, respond_stream, push_stream_data, finish_stream,
}
use grace_server.Http2.{Streams, Request}

pub record Session : Type 0 where
  pub streams : Streams
  pub handlers : Dict Bytes ℕ
  pub async_handlers : Dict Bytes ℕ
  pub stream_handlers : Dict Bytes ℕ
  pub client_stream_handlers : Dict Bytes ℕ
  pub bidi_open_handlers : Dict Bytes ℕ
  pub bidi_opened : Dict ℕ Bool
  pub alive : Bool

pub data Output : Type 0 where
  h2 : Effect → Output
  flush : Output
  opened : ℕ → ℕ → Output
  message : ℕ → ℕ → Bytes → Output
  started : ℕ → ℕ → Bytes → Output
  handed_over : ℕ → ℕ → Bytes → Output

unfoldable pub register_unary : Session → Bytes → ℕ → Session
register_unary s path handler = record s { handlers = insert path handler s.handlers }

unfoldable pub register_server_stream : Session → Bytes → ℕ → Session
register_server_stream s path handler = record s {
  stream_handlers = insert path handler s.stream_handlers;
}

unfoldable pub register_client_stream : Session → Bytes → ℕ → Session
register_client_stream s path handler = record s {
  client_stream_handlers = insert path handler s.client_stream_handlers;
}

unfoldable pub register_unary_async : Session → Bytes → ℕ → Session
register_unary_async s path handler = record s {
  async_handlers = insert path handler s.async_handlers;
}

unfoldable pub register_bidi_stream : Session → Bytes → ℕ → ℕ → Session
register_bidi_stream s path on_open on_message = record s {
  bidi_open_handlers = insert path on_open s.bidi_open_handlers;
  client_stream_handlers = insert path on_message s.client_stream_handlers;
}

abbrev pub grpc_headers : Headers
grpc_headers = (codes "content-type", codes "application/grpc+proto") ∷ []

abbrev pub h2_all : List Effect → List Output
h2_all [] = []
h2_all (e ∷ es) = h2 e ∷ h2_all es

unfoldable pub stream_send : Session → ℕ → Bytes → Session × List Output
stream_send s sid message_pb =
    let r = push_stream_data s.streams sid (encode_frame message_pb) in
    (record s { streams = r.0 }, h2_all r.2 ++ flush ∷ [])

abbrev pub status_trailer : ℕ → ℕ → List Effect
status_trailer sid status = trailer sid ((codes "grpc-status", to_string status) ∷ [])

unfoldable pub stream_finish : Session → ℕ → ℕ → Session × List Output
stream_finish s sid grpc_status =
    let r = finish_stream s.streams sid in
    (
      record s { streams = r.0 },
      h2_all r.2 ++ (flush ∷ (h2_all (status_trailer sid grpc_status) ++ flush ∷ [])),
    )

unfoldable pub send_unary_response : Session → ℕ → ℕ → Bytes → Session × List Output
send_unary_response s sid grpc_status body_pb =
    let r = respond s.streams sid 200 grpc_headers (encode_frame body_pb) true in
    (
      record s { streams = r.0 },
      h2_all r.1 ++ (flush ∷ (h2_all (status_trailer sid grpc_status) ++ flush ∷ [])),
    )

-- The `respond` callback of an asynchronous handler; `alive` is false once the session is gone.
unfoldable pub respond_later : Session → ℕ → ℕ → Bytes → Session × List Output
unfolding send_unary_response
respond_later s sid status body =
    if not s.alive then (s, []) else send_unary_response s sid status body

-- The destructor.
unfoldable pub end_session : Session → Session
end_session s = record s { alive = false }

unfoldable pub was_opened : Option Bool → Bool
was_opened none = false
was_opened (some b) = b

unfoldable pub on_request_headers : Session → ℕ → Request → Session × List Output
unfolding was_opened
on_request_headers s sid req = elim (lookup req.path s.bidi_open_handlers) [
  | none ↦ (s, [])
  | some handler ↦
      if was_opened (lookup sid s.bidi_opened)
      then (s, [])
      else let r = respond_stream s.streams sid 200 grpc_headers in
        (
          record s { bidi_opened = insert sid true s.bidi_opened; streams = r.0 },
          h2_all r.1 ++ flush ∷ opened handler sid ∷ [],
        )
]

abbrev pub messages : ℕ → ℕ → List Bytes → List Output
messages handler sid [] = []
messages handler sid (m ∷ ms) = message handler sid m ∷ messages handler sid ms

-- `s.find(p) != npos`.
unfoldable pub has_part : Bytes → Bytes → Bool
has_part p [] = is_empty p
has_part p (x ∷ xs) = let later = has_part p xs in if starts_with (x ∷ xs) p then true else later

unfoldable pub is_grpc : Option Bytes → Bool
is_grpc none = false
is_grpc (some ct) = has_part (codes "application/grpc") ct

module _ (gzip_inflate : Bytes → Bytes) where
  -- The calls made, and the body left.
  unfoldable pub on_request_stream : Session → ℕ → Bytes → Bytes → List Output × Bytes
  on_request_stream s sid path body = elim (lookup path s.client_stream_handlers) [
    | none ↦ ([], body)
    | some handler ↦ let r = drain_messages gzip_inflate body in (messages handler sid r.0, r.1)
  ]

  module _ (unary : ℕ → Bytes → ℕ × Bytes) where
    -- The client has half-closed a method whose messages were delivered as they came.
    unfoldable pub close_client_stream : Session → ℕ → Request → Session × List Output
    unfolding stream_finish send_unary_response
    close_client_stream s sid req =
        let last = on_request_stream s sid req.path req.body in
        if is_some (lookup req.path s.bidi_open_handlers)
        then (let r = stream_finish s sid 0 in
            (record (r.0) { bidi_opened = erase sid s.bidi_opened }, last.0 ++ r.1))
        else (let r = send_unary_response s sid 0 [] in (r.0, last.0 ++ r.1))

    -- The lookups behind the client-streaming test: server-streaming, asynchronous, unary, unknown.
    unfoldable pub dispatch_decoded : Session → ℕ → Bytes → Bytes → Session × List Output
    unfolding send_unary_response
    dispatch_decoded s sid path request_pb = elim (lookup path s.stream_handlers) [
      | some handler ↦
          let r = respond_stream s.streams sid 200 grpc_headers in
          (record s { streams = r.0 }, h2_all r.1 ++ flush ∷ started handler sid request_pb ∷ [])
      | none ↦ elim (lookup path s.async_handlers) [
        | some handler ↦ (s, handed_over handler sid request_pb ∷ [])
        | none ↦ elim (lookup path s.handlers) [
          | none ↦ send_unary_response s sid 12 []
          | some handler ↦
              let answer = unary handler request_pb in send_unary_response s sid answer.0 answer.1
        ]
      ]
    ]

    unfoldable pub on_request : Session → ℕ → Request → Session × List Output
    unfolding is_grpc close_client_stream dispatch_decoded
    on_request s sid req =
        if is_grpc (lookup (codes "content-type") req.headers)
        then elim (lookup req.path s.client_stream_handlers) [
          | some handler ↦ close_client_stream s sid req
          | none ↦ dispatch_decoded s sid req.path (decode_frame gzip_inflate req.body).0
        ]
        else let r = respond s.streams sid 415 [] [] false in
          (record s { streams = r.0 }, h2_all r.1 ++ flush ∷ [])
