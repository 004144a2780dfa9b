-- ===== src/Http2/Submit.antt =====
-- The calls that give nghttp2 a response, a trailer or a request.
use grace_server.Base.{
  ℕ, Bool, true, false, not, ◌&&◌, Option, none, some, List, [], ◌∷◌, ◌++◌, Bytes, codes, is_empty,
  to_string, if◌then◌else◌,
}
use grace_server.Base.Dict.{lookup, insert}
use grace_server.Base.Keys.{num_key}
use grace_server.Http2.{Streams, ctx_of}

abbrev pub Headers : Type 0
Headers = List (Bytes × Bytes)

-- What nghttp2 is asked to do. The flag of `submit_response` says whether a data provider comes
-- with it; without one the HEADERS frame ends the stream.
pub data Effect : Type 0 where
  submit_response : ℕ → Headers → Bool → Effect
  submit_trailer : ℕ → Headers → Effect
  resume_data : ℕ → Effect
  submit_request : Headers → Option Bytes → Effect

unfoldable pub respond : Streams → ℕ → ℕ → Headers → Bytes → Bool → Streams × List Effect
respond m sid status extra body with_trailers =
    let ctx = record (ctx_of m sid) { resp_body = body; trailer_mode = with_trailers } in
    let nva = (codes ":status", to_string status) ∷ extra in
    let provider = not (is_empty body && not with_trailers) in
    (insert sid ctx m, submit_response sid nva provider ∷ [])

unfoldable pub trailer : ℕ → Headers → List Effect
trailer sid trailers = submit_trailer sid trailers ∷ []

unfoldable pub respond_stream : Streams → ℕ → ℕ → Headers → Streams × List Effect
respond_stream m sid status extra =
    let ctx = record (ctx_of m sid) {
      resp_body = [];
      streaming = true;
      finished = false;
      trailer_mode = true;
    } in
    (insert sid ctx m, submit_response sid ((codes ":status", to_string status) ∷ extra) true ∷ [])

-- The flag is the result: `true` for 0, `false` for -1.
unfoldable pub push_stream_data : Streams → ℕ → Bytes → Streams × Bool × List Effect
push_stream_data m sid chunk = elim (lookup sid m) [
  | none ↦ (m, false, [])
  | some c ↦
      (insert sid (record c { resp_body = c.resp_body ++ chunk }) m, true, resume_data sid ∷ [])
]

unfoldable pub finish_stream : Streams → ℕ → Streams × Bool × List Effect
finish_stream m sid = elim (lookup sid m) [
  | none ↦ (m, false, [])
  | some c ↦ (insert sid (record c { finished = true }) m, true, resume_data sid ∷ [])
]

-- `submit_request`: the body, if there is one, is copied for the provider.
unfoldable pub request : Bytes → Bytes → Bytes → Bytes → Headers → Bytes → List Effect
request method path authority scheme extra body =
    let nva =
      (codes ":method", method)
      ∷ (codes ":path", path)
      ∷ (codes ":scheme", scheme)
      ∷ (codes ":authority", authority)
      ∷ extra in
    submit_request nva (if is_empty body then none else some body) ∷ []
