-- ===== src/Http2/Provider.antt =====
-- The data providers: nghttp2 asks for up to `length` bytes, and is told when the body is at an end.
use grace_server.Base.{
  ℕ, Bool, true, false, not, ◌&&◌, [], Bytes, is_empty, length, take, drop, min, if◌then◌else◌,
}
use grace_server.Http2.{StreamCtx}

-- The answer to nghttp2: `NGHTTP2_ERR_DEFERRED`, or bytes with the flags EOF and NO_END_STREAM.
pub data Answer : Type 0 where
  deferred : Answer
  gives : Bytes → Bool → Bool → Answer

-- `http2_session::response_body_read`.
unfoldable pub response_body_read : StreamCtx → ℕ → StreamCtx × Answer
response_body_read ctx size =
    if is_empty ctx.resp_body
    then (if ctx.streaming && not ctx.finished
        then (ctx, deferred)
        else (ctx, gives [] true ctx.trailer_mode))
    else let n = min size (length ctx.resp_body) in
      let left = drop n ctx.resp_body in
      let eof = not ctx.streaming && is_empty left in
      (record ctx { resp_body = left }, gives (take n ctx.resp_body) eof (eof && ctx.trailer_mode))

-- `http2_session::request_body_read`, on the copied body; it is freed at EOF.
unfoldable pub request_body_read : Bytes → ℕ → Bytes × Answer
request_body_read body size =
    let n = min size (length body) in
    (drop n body, gives (take n body) (is_empty (drop n body)) false)
