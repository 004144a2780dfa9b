-- ===== src/Http2.antt =====
-- app/src/http2.cpp over nghttp2: the stream table, the header and data callbacks, the calls that
-- submit responses, and the data providers. nghttp2 itself is outside: what the code asks of it is
-- a list of effects, and what it reports is the argument of a callback.
pub mod Submit
pub mod Callbacks
pub mod Provider
pub mod Delivery
use grace_server.Base.{ℕ, Bool, true, false, Option, none, some, [], Bytes}
use grace_server.Base.Dict.{Dict, lookup, insert}
use grace_server.Base.Keys.{num_key, bytes_key}

-- `http2_session::request`.
pub record Request : Type 0 where
  pub method : Bytes
  pub path : Bytes
  pub authority : Bytes
  pub scheme : Bytes
  pub status : ℕ
  pub headers : Dict Bytes Bytes
  pub body : Bytes

-- `http2_session::stream_ctx`.
pub record StreamCtx : Type 0 where
  pub req : Request
  pub resp_body : Bytes
  pub trailer_mode : Bool
  pub streaming : Bool
  pub finished : Bool

abbrev pub empty_request : Request
empty_request = record {
  method = [];
  path = [];
  authority = [];
  scheme = [];
  status = 0;
  headers = [];
  body = [];
}

abbrev pub empty_ctx : StreamCtx
empty_ctx = record {
  req = empty_request;
  resp_body = [];
  trailer_mode = false;
  streaming = false;
  finished = false;
}

-- `m_streams`.
abbrev pub Streams : Type 0
Streams = Dict ℕ StreamCtx

abbrev pub or_empty : Option StreamCtx → StreamCtx
or_empty none = empty_ctx
or_empty (some c) = c

-- `m_streams[stream_id]`, which makes the entry if it is missing.
unfoldable pub ctx_of : Streams → ℕ → StreamCtx
ctx_of m sid = or_empty (lookup sid m)
