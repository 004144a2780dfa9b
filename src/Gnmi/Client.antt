-- ===== src/Gnmi/Client.antt =====
-- app/src/gnmi_client.cpp: the client's connections. A unary call has one `gnmi_connection`, a
-- subscription one `gnmi_sub_connection`; a callback is named by a number, and an empty one is
-- `none`. What HTTP/2 does with bytes (`http2_session::recv` and `drain_send_buf`) is nghttp2's: a
-- read comes with what they answer, and `std::stoi` is a parameter, `none` where it throws. Nothing
-- catches that: what follows `throws` does not happen.
pub mod Once
pub mod Streams
pub mod Delivery
use grace_server.Base.{
  ℕ, suc, ◌+◌, ◌*◌, ◌^◌, ◌%◌, ◌-◌, Bool, true, false, not, Option, none, some, List, [], ◌∷◌, ◌++◌,
  length, ltb, ◌==◌, if◌then◌else◌, Bytes, codes, is_empty,
}
use grace_server.Base.Dict.{Dict, lookup, remove_if}
use grace_server.Base.Keys.{bytes_key}
use grace_server.Gnmi.{ℤ, pos, negsuc, Response}
use grace_server.Gnmi.Json.{show_int}
use grace_server.Grpc.Framing.{encode_frame, decode_frame}

-- `gnmi_connection`.
pub record Connection : Type 0 where
  pub host : Bytes
  pub rpc_path : Bytes
  pub request_pb : Bytes
  pub on_done : Option ℕ
  pub response : Response
  pub done : Bool

-- `tx`, `submit_request` of a path, host and body, a line for the log, and calls of `on_done` and
-- `on_notif`, and an exception.
pub data Effect : Type 0 where
  tx : Bytes → Effect
  submit_request : Bytes → Bytes → Dict Bytes Bytes → Bytes → Effect
  complain : Bytes → Effect
  calls : ℕ → Response → Effect
  notifies : ℕ → Bytes → Effect
  throws : Effect

abbrev pub no_response : Response
no_response = record { grpc_status = negsuc 0; grpc_message = []; body_pb = [] }

unfoldable pub gnmi_connection : Bytes → Bytes → Bytes → Option ℕ → Connection
gnmi_connection host rpc_path request_pb on_done = record {
  host = host;
  rpc_path = rpc_path;
  request_pb = request_pb;
  on_done = on_done;
  response = no_response;
  done = false;
}

-- `drain_send_buf` gave the bytes.
unfoldable pub flush : Bytes → List Effect
flush out = if is_empty out then [] else tx out ∷ []

abbrev pub call_done : Option ℕ → Response → List Effect
call_done none r = []
call_done (some cb) r = calls cb r ∷ []

unfoldable pub finish : Connection → Response → Connection × List Effect
finish c r =
    if c.done then (c, []) else (record c { response = r; done = true }, call_done c.on_done r)

abbrev pub failed : Bytes → Response
failed message = record { grpc_status = negsuc 0; grpc_message = message; body_pb = [] }

abbrev pub grpc_headers : Dict Bytes Bytes
grpc_headers =
    (codes "content-type", codes "application/grpc+proto") ∷ (codes "te", codes "trailers") ∷ []

-- The bytes drained before and after the request are given.
unfoldable pub handle_connect : Connection → Bytes → Bytes → List Effect
unfolding flush
handle_connect c preface frames =
    flush preface
    ++ submit_request c.rpc_path c.host grpc_headers (encode_frame c.request_pb) ∷ flush frames

abbrev pub or_nothing : Option Bytes → Bytes
or_nothing none = []
or_nothing (some b) = b

-- What `recv` made of the bytes: it failed, or an answer may be complete.
pub data Received : Type 0 where
  recv_error : ℤ → Received
  received : Option (Dict Bytes Bytes × Bytes) → Received

abbrev pub status_or : (Bytes → Option ℤ) → ℤ → Option Bytes → Option ℤ
status_or stoi z none = some z
status_or stoi z (some s) = stoi s

module _ (gzip_inflate : Bytes → Bytes) (stoi : Bytes → Option ℤ) where
  -- The answer's headers and body.
  unfoldable pub capture_response : Connection → Dict Bytes Bytes → Bytes → Connection × List Effect
  unfolding finish
  capture_response c headers body =
      elim (status_or stoi (negsuc 0) (lookup (codes "grpc-status") headers)) [
        | none ↦ (c, throws ∷ [])
        | some status ↦ finish c (record {
          grpc_status = status;
          grpc_message = or_nothing (lookup (codes "grpc-message") headers);
          body_pb = (decode_frame gzip_inflate body).0;
        })
      ]

  abbrev captured : Connection → Option (Dict Bytes Bytes × Bytes) → Connection × List Effect
  captured c none = (c, [])
  captured c (some (headers, body)) = capture_response c headers body

  -- The bytes drained behind the read are given.
  unfoldable pub handle_read : Connection → Received → Bytes → Connection × List Effect
  unfolding capture_response finish flush
  handle_read c (recv_error code) out =
      let r = finish c (failed (codes "http2 protocol error")) in
      (r.0, complain (codes "[gnmi_connection] http2 recv error: " ++ show_int code) ∷ r.1)
  handle_read c (received answer) out = let r = captured c answer in (r.0, r.1 ++ flush out)

unfoldable pub handle_event : Connection → Connection × List Effect
unfolding finish
handle_event c =
    let r = finish c (failed (codes "timeout")) in
    (r.0, complain (codes "[gnmi_connection] timed out") ∷ r.1)

unfoldable pub handle_close : Connection → Connection × List Effect
unfolding finish
handle_close c =
    let r = finish c (failed (codes "connection closed before response")) in
    if not c.done
    then (r.0, complain (codes "[gnmi_connection] connection closed before response") ∷ r.1)
    else (c, [])

-- `s_active`: finished connections go, and the new one is put last.
unfoldable pub push_async : List Connection → Connection → List Connection
push_async active c = remove_if (λ (d : Connection). d.done) active ++ c ∷ []
