-- ===== src/Openvpn/Forward.antt =====
-- What the MQTT callbacks of app/openvpn/src/openvpn_server.cpp and app/openvpn/src/vpn_peer.cpp
-- read and write: an RPC's path and its message, with a zero byte between them.
use grace_server.Base.{◌≡◌, Option, some, ◌∷◌, ◌++◌, Bytes, split_at}
use grace_server.Base.Split.{Lacks, split_at-Lacks}
use grace_server.Gnmi.{Response}
use grace_server.Gnmi.Json.{show_int}

-- The path and the message of a payload; none without a zero byte, which covers an empty payload.
unfoldable pub read_request : Bytes → Option (Bytes × Bytes)
read_request payload = split_at 0 payload

unfoldable pub response_payload : Bytes → Response → Bytes
response_payload rpc_path r =
    rpc_path ++ 0 ∷ (show_int r.grpc_status ++ 0 ∷ (r.grpc_message ++ 0 ∷ r.body_pb))

-- The command line's payload, a path without a zero byte and then any message, is taken apart into
-- that path and that message.
pub read_request-framed :
    (rpc_path proto_bytes : Bytes)
    → Lacks 0 rpc_path
    → read_request (rpc_path ++ 0 ∷ proto_bytes) ≡ some (rpc_path, proto_bytes)
unfolding read_request
read_request-framed rpc_path proto_bytes h = split_at-Lacks 0 rpc_path proto_bytes h
