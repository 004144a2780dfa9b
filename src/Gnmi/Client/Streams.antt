-- ===== src/Gnmi/Client/Streams.antt =====
-- `gnmi_sub_connection` of app/src/gnmi_client.cpp: the messages of a subscription, as they come.
use grace_server.Base.{
  ℕ, zero, suc, Bool, true, Option, none, some, List, [], ◌∷◌, ◌++◌, length, drop, take, ltb,
  if◌then◌else◌, Bytes, codes,
}
use grace_server.Base.Dict.{Dict, lookup, remove_if}
use grace_server.Base.Keys.{bytes_key}
use grace_server.Gnmi.{ℤ, pos, Response}
use grace_server.Gnmi.Client.{
  Effect, submit_request, notifies, throws, flush, call_done, grpc_headers, or_nothing, status_or,
  failed,
}
use grace_server.Grpc.Framing.{encode_frame, frame_end}
use grace_server.Wire.BigEndian.{ntohl}

pub record SubConnection : Type 0 where
  pub host : Bytes
  pub request_pb : Bytes
  pub rxbuf : Bytes
  pub on_notif : Option ℕ
  pub on_done : Option ℕ
  pub done : Bool

unfoldable pub handle_connect : SubConnection → Bytes → Bytes → List Effect
unfolding flush encode_frame
handle_connect c preface frames =
    flush preface
    ++ submit_request (codes "/gnmi.gNMI/Subscribe") c.host grpc_headers (encode_frame c.request_pb)
      ∷ flush frames

-- The loop of `on_data`, as many rounds as the fuel allows: the payloads, and the buffer left.
unfoldable pub deliver : ℕ → Bytes → List Bytes × Bytes
deliver zero buf = ([], buf)
deliver (suc fuel) (flag ∷ a ∷ b ∷ c ∷ d ∷ body) =
    let buf : Bytes = flag ∷ a ∷ b ∷ c ∷ d ∷ body in
    let len = ntohl a b c d in
    let rest = deliver fuel (drop (frame_end len) buf) in
    if ltb (length buf) (frame_end len) then ([], buf) else (take len body ∷ rest.0, rest.1)
deliver (suc fuel) buf = ([], buf)

abbrev pub notify_all : Option ℕ → List Bytes → List Effect
notify_all none ps = []
notify_all (some cb) [] = []
notify_all (some cb) (p ∷ ps) = notifies cb p ∷ notify_all (some cb) ps

-- As many rounds as bytes, and one more.
unfoldable pub on_data : SubConnection → Bytes → SubConnection × List Effect
unfolding deliver
on_data c d =
    let buf = c.rxbuf ++ d in
    let r = deliver (suc (length buf)) buf in (record c { rxbuf = r.1 }, notify_all c.on_notif r.0)

unfoldable pub finish : SubConnection → Response → SubConnection × List Effect
finish c r = if c.done then (c, []) else (record c { done = true }, call_done c.on_done r)

unfoldable pub capture_response :
    (Bytes → Option ℤ) → SubConnection → Dict Bytes Bytes → SubConnection × List Effect
unfolding finish
capture_response stoi c headers =
    elim (status_or stoi (pos 0) (lookup (codes "grpc-status") headers)) [
      | none ↦ (c, throws ∷ [])
      | some status ↦ finish c (record {
        grpc_status = status;
        grpc_message = or_nothing (lookup (codes "grpc-message") headers);
        body_pb = [];
      })
    ]

unfoldable pub handle_close : SubConnection → SubConnection × List Effect
unfolding finish
handle_close c =
    finish c (record { grpc_status = pos 0; grpc_message = codes "stream closed"; body_pb = [] })

-- What `recv` calls back with, of the bytes read: chunks of data, and the end of the stream.
pub data Part : Type 0 where
  data_comes : Bytes → Part
  ends : Dict Bytes Bytes → Part

unfoldable pub take_part : (Bytes → Option ℤ) → SubConnection → Part → SubConnection × List Effect
unfolding on_data capture_response
take_part stoi c (data_comes d) = on_data c d
take_part stoi c (ends headers) = capture_response stoi c headers

unfoldable pub take_parts :
    (Bytes → Option ℤ) → SubConnection → List Part → SubConnection × List Effect
unfolding take_part
take_parts stoi c [] = (c, [])
take_parts stoi c (p ∷ ps) =
    let r = take_part stoi c p in let rest = take_parts stoi r.0 ps in (rest.0, r.1 ++ rest.1)

-- A read that `recv` takes, and one that it refuses.
unfoldable pub handle_read :
    (Bytes → Option ℤ) → SubConnection → List Part → Bytes → SubConnection × List Effect
unfolding take_parts flush
handle_read stoi c parts out = let r = take_parts stoi c parts in (r.0, r.1 ++ flush out)

unfoldable pub read_error : SubConnection → SubConnection × List Effect
unfolding finish
read_error c = finish c (failed (codes "http2 protocol error"))

-- `s_active_sub`.
unfoldable pub subscribe_async : List SubConnection → SubConnection → List SubConnection
subscribe_async active c = remove_if (λ (d : SubConnection). d.done) active ++ c ∷ []
