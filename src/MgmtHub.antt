-- ===== src/MgmtHub.antt =====
-- app/inc/mgmt_hub.hpp: the devices' open Subscribe sessions of the dial-out collector, and the
-- requests sent to them. A `grpc_session *` is a number; `SerializeToString` and `PackFrom` are
-- parameters. The random numbers of `m_dist` are an argument. Session ids count up from 1 and are
-- taken not to run out.
pub mod Sessions
pub mod Requests
pub mod Console
use grace_server.Base.{
  ℕ, suc, ◌+◌, ◌/◌, ◌%◌, Bool, true, false, not, ◌&&◌, Option, none, some, List, [], ◌∷◌, ◌++◌, map,
  length, ltb, ◌==◌, if◌then◌else◌, Bytes, codes, is_empty,
}
use grace_server.Base.Dict.{Dict, lookup, insert, remove_if, select}
use grace_server.Base.Keys.{bytes_key}
use grace_server.Gnmi.Json.{hex_digit}

-- `mgmt_hub::sess`.
pub record Sess : Type 0 where
  pub grpc : ℕ
  pub sid : ℕ
  pub id : ℕ
  pub since : ℕ
  pub device : Bytes
  pub hostname : Bytes
  pub role : Bytes

pub record Hub : Type 0 where
  pub sessions : List Sess
  pub next_id : ℕ
  pub pending : Dict Bytes Bytes
  pub notif : Dict Bytes ℕ

-- `mgmt_hub::session_info`.
pub record SessionInfo : Type 0 where
  pub id : ℕ
  pub since : ℕ
  pub device : Bytes
  pub hostname : Bytes
  pub role : Bytes

-- `stream_send(grpc, sid, pb)`.
pub data Effect : Type 0 where
  stream_send : ℕ → ℕ → Bytes → Effect

-- A packed operation, as `google.protobuf.Any` holds it.
pub record DeviceRequest : Type 0 where
  pub rpc_id : Bytes
  pub device_id : Bytes
  pub request : Bytes

-- `tnmi::DeviceRequest::CliRequest`; the timeout is seconds and nanoseconds, if it is set.
pub record CliRequest : Type 0 where
  pub cmd : Bytes
  pub args : List Bytes
  pub cec_cli : Bool
  pub json : Bool
  pub timeout : Option (ℕ × ℕ)

unfoldable pub add_session : Hub → ℕ → ℕ → ℕ → Hub × ℕ
add_session h g sid now =
    let id = h.next_id + 1 in
    (
      record h {
        next_id = id;
        sessions =
            h.sessions
            ++ record {
              grpc = g;
              sid = sid;
              id = id;
              since = now;
              device = [];
              hostname = [];
              role = [];
            }
              ∷ [];
      },
      id,
    )

abbrev pub on_grpc : ℕ → Sess → Bool
on_grpc g s = s.grpc == g

abbrev pub ids : List Sess → List ℕ
ids = map λ s. s.id

unfoldable pub remove_by_stream : Hub → ℕ → Hub × List ℕ
remove_by_stream h g =
    (record h { sessions = remove_if (on_grpc g) h.sessions }, ids (select (on_grpc g) h.sessions))

unfoldable pub size : Hub → ℕ
size h = length h.sessions

unfoldable pub snapshot : Hub → List SessionInfo
snapshot h = map info h.sessions
  where
    info : Sess → SessionInfo
    info s = record {
      id = s.id;
      since = s.since;
      device = s.device;
      hostname = s.hostname;
      role = s.role;
    }

abbrev pub is_stream : ℕ → ℕ → Sess → Bool
is_stream g sid s = s.grpc == g && s.sid == sid

-- The loop `for (auto &s : m_sessions) if (s.grpc == g && s.sid == sid) ...`.
unfoldable pub update_stream : ℕ → ℕ → (Sess → Sess) → List Sess → List Sess
update_stream g sid f [] = []
update_stream g sid f (s ∷ ss) = (if is_stream g sid s then f s else s) ∷ update_stream g sid f ss

unfoldable pub note_device : Hub → ℕ → ℕ → Bytes → Hub
unfolding update_stream
note_device h g sid device_id = if is_empty device_id then h else record h {
  sessions = update_stream g sid (λ s. record s { device = device_id }) h.sessions;
}

abbrev pub keep_if_empty : Bytes → Bytes → Bytes
keep_if_empty new old = if is_empty new then old else new

unfoldable pub set_identity : Hub → ℕ → ℕ → Bytes → Bytes → Hub
unfolding update_stream
set_identity h g sid hostname role = record h {
  sessions =
      update_stream g sid
        (λ s. record s {
          hostname = keep_if_empty hostname s.hostname;
          role = keep_if_empty role s.role;
        })
        h.sessions;
}

unfoldable pub send_all : List Sess → Bytes → List Effect
send_all [] pb = []
send_all (s ∷ ss) pb = stream_send s.grpc s.sid pb ∷ send_all ss pb

-- `gen_rpc_id`, from the twelve numbers that `m_dist` gives.
unfoldable pub gen_rpc_id : List ℕ → Bytes
gen_rpc_id draws = codes "r-" ++ map (λ n. hex_digit (n % 16)) draws

unfoldable pub cli_timeout : ℕ → Option (ℕ × ℕ)
cli_timeout timeout_ns =
    if ltb 0 timeout_ns then some (timeout_ns / 1000000000, timeout_ns % 1000000000) else none

module _ (encode : DeviceRequest → Bytes) where
  -- The id is empty if no session is open.
  unfoldable pub send_device_request :
      Hub → List ℕ → DeviceRequest → Bytes → Hub × Bytes × List Effect
  unfolding gen_rpc_id send_all
  send_device_request h draws req label =
      if is_empty h.sessions
      then (h, [], [])
      else let rpc_id = gen_rpc_id draws in
        (
          record h { pending = insert rpc_id label h.pending },
          rpc_id,
          send_all h.sessions (encode (record req { rpc_id = rpc_id })),
        )

  -- `op` is the packed operation.
  unfoldable pub send_request : Hub → List ℕ → Bytes → Bytes → Bytes → Hub × Bytes × List Effect
  unfolding gen_rpc_id send_all
  send_request h draws op device_id label =
      if is_empty h.sessions
      then (h, [], [])
      else let rpc_id = gen_rpc_id draws in
        (
          record h { pending = insert rpc_id label h.pending },
          rpc_id,
          send_all h.sessions
              (encode (record { rpc_id = rpc_id; device_id = device_id; request = op })),
        )

  module _ (pack : CliRequest → Bytes) where
    unfoldable pub send_cli :
        Hub → List ℕ → Bytes → List Bytes → Bytes → Bool → Bool → ℕ → Hub × Bytes × List Effect
    unfolding send_request cli_timeout
    send_cli h draws cmd args device_id cec_cli json timeout_ns =
        send_request h draws
          (pack (record {
            cmd = cmd;
            args = args;
            cec_cli = cec_cli;
            json = json;
            timeout = cli_timeout timeout_ns;
          }))
          device_id cmd

or_nothing : Option Bytes → Bytes
or_nothing none = []
or_nothing (some b) = b

unfoldable pub command_for : Hub → Bytes → Bytes
unfolding or_nothing
command_for h rpc_id = or_nothing (lookup rpc_id h.pending)

or_zero : Option ℕ → ℕ
or_zero none = 0
or_zero (some n) = n

unfoldable pub next_notif : Hub → Bytes → Hub × ℕ
unfolding or_zero
next_notif h rpc_id =
    let n = or_zero (lookup rpc_id h.notif) + 1 in (record h { notif = insert rpc_id n h.notif }, n)
