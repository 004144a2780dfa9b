-- ===== src/Http2/Callbacks.antt =====
-- nghttp2's callbacks: frames come in, streams fill up, and the application's handlers are told.
use grace_server.Base.{
  ℕ, Bool, true, false, not, ◌&&◌, ◌||◌, Option, none, some, List, [], ◌∷◌, ◌++◌, Bytes, codes,
  equal, is_empty, if◌then◌else◌,
}
use grace_server.Base.Dict.{lookup, insert, erase, is_some}
use grace_server.Base.Keys.{num_key, bytes_key}
use grace_server.Http2.{Streams, StreamCtx, Request, empty_ctx}

pub data FrameType : Type 0 where
  headers_frame data_frame other_frame : FrameType

pub data Category : Type 0 where
  cat_request cat_response cat_headers cat_push : Category

-- The parts of `nghttp2_frame` that the callbacks read.
pub record Frame : Type 0 where
  pub type : FrameType
  pub category : Category
  pub stream_id : ℕ
  pub end_stream : Bool

-- Which handlers are set (`if (self->m_on_...)`).
pub record Handlers : Type 0 where
  pub on_request_headers : Bool
  pub on_request_stream : Bool
  pub handler : Bool
  pub on_data : Bool

-- The calls of the handlers, in order.
pub data Notice : Type 0 where
  request_headers : ℕ → Request → Notice
  request_stream : ℕ → Bytes → Bytes → Bool → Notice
  request_done : ℕ → Request → Notice
  data_chunk : ℕ → Bytes → Notice

opens_stream : FrameType → Category → Bool
opens_stream headers_frame cat_request = true
opens_stream headers_frame cat_response = true
opens_stream _ _ = false

-- `try_emplace`: an entry that is there stays.
unfoldable pub on_begin_headers : Streams → Frame → Streams
unfolding opens_stream
on_begin_headers m f =
    if opens_stream f.type f.category && not (is_some (lookup f.stream_id m))
    then insert f.stream_id empty_ctx m
    else m

carries_headers : FrameType → Category → Bool
carries_headers headers_frame cat_request = true
carries_headers headers_frame cat_response = true
carries_headers headers_frame cat_headers = true
carries_headers _ _ = false

-- The ladder over the header's name. `stoi` gives the number of a `:status`, and
-- is meant for texts that are numbers: on another it throws.
unfoldable pub set_header : (Bytes → ℕ) → Request → Bytes → Bytes → Request
set_header stoi req k v =
    if equal k (codes ":method")
    then record req { method = v }
    else if equal k (codes ":path")
    then record req { path = v }
    else if equal k (codes ":authority")
    then record req { authority = v }
    else if equal k (codes ":scheme")
    then record req { scheme = v }
    else if equal k (codes ":status")
    then record req { status = stoi v }
    else record req { headers = insert k v req.headers }

unfoldable pub on_header : (Bytes → ℕ) → Streams → Frame → Bytes → Bytes → Streams
unfolding carries_headers set_header
on_header stoi m f k v =
    if carries_headers f.type f.category
    then elim (lookup f.stream_id m) [
      | none ↦ m
      | some c ↦ insert f.stream_id (record c { req = set_header stoi c.req k v }) m
    ]
    else m

unfoldable pub on_data_chunk_recv : Handlers → Streams → ℕ → Bytes → Streams × List Notice
on_data_chunk_recv hs m sid bytes =
    let told = if hs.on_data then data_chunk sid bytes ∷ [] else [] in
    elim (lookup sid m) [
      | none ↦ (m, told)
      | some c ↦
          (insert sid (record c { req = record (c.req) { body = c.req.body ++ bytes } }) m, told)
    ]

is_headers : FrameType → Bool
is_headers headers_frame = true
is_headers _ = false

is_data : FrameType → Bool
is_data data_frame = true
is_data _ = false

-- A request that has its path.
abbrev pub with_path : Option StreamCtx → (StreamCtx → List Notice) → List Notice
with_path none k = []
with_path (some c) k = if is_empty c.req.path then [] else k c

abbrev pub with_stream : Option StreamCtx → (StreamCtx → List Notice) → List Notice
with_stream none k = []
with_stream (some c) k = k c

-- What `on_frame_recv` tells the handlers of headers, of data, and at the end of a stream.
-- The request-stream handler may consume the body before the last of them sees it.
unfoldable pub headers_notice : Handlers → Streams → Frame → List Notice
unfolding is_headers
headers_notice hs m f =
    if is_headers f.type && hs.on_request_headers
    then with_path (lookup f.stream_id m) (λ c. request_headers f.stream_id c.req ∷ [])
    else []

unfoldable pub data_notice : Handlers → Streams → Frame → List Notice
unfolding is_data
data_notice hs m f =
    if is_data f.type && hs.on_request_stream
    then with_path (lookup f.stream_id m)
        (λ c. request_stream f.stream_id c.req.path c.req.body f.end_stream ∷ [])
    else []

unfoldable pub end_notice : Handlers → Streams → Frame → List Notice
unfolding is_headers is_data
end_notice hs m f =
    if f.end_stream && (is_headers f.type || is_data f.type) && hs.handler
    then with_stream (lookup f.stream_id m) (λ c. request_done f.stream_id c.req ∷ [])
    else []

-- `consume` is what the handlers of headers and data do to the table before the end is reported.
unfoldable pub on_frame_recv :
    (Streams → List Notice → Streams) → Handlers → Streams → Frame → Streams × List Notice
unfolding headers_notice data_notice end_notice
on_frame_recv consume hs m f =
    let first = headers_notice hs m f in
    let m1 = consume m first in
    let second = data_notice hs m1 f in
    let m2 = consume m1 second in (m2, first ++ second ++ end_notice hs m2 f)

unfoldable pub on_stream_close : Streams → ℕ → Streams
on_stream_close m sid = erase sid m
