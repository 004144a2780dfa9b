-- ===== src/Tests/Service.antt =====
-- A server with one connection, on channel 7, that subscribes, registers a target and closes.
use grace_server.Base.{ℕ, true, false, none, some, List, [], ◌∷◌, codes}
use grace_server.Base.Keys.{num_key, bytes_key}
use grace_server.Gnmi.{string_val, SetRequest}
use grace_server.Service.{State}
use grace_server.Service.Unary as Unary
use grace_server.Service.Targets as Targets
use grace_server.Service.Close.Live.{
  Codecs, Event, connects, subscribes, registers, device_opens, closes, run, IsLive,
}
use grace_server.Service.Close.Invariant.{run-IsLive}
use grace_server.Tunnel.Hub.{empty_hub}

abbrev state : State
state = record {
  sinks = 3 ∷ 4 ∷ [];
  subs = [];
  tunnels = empty_hub;
  mgmt = record { sessions = []; next_id = 0; pending = []; notif = [] };
  mgmt_dialout_mode = false;
}

abbrev request : SetRequest
request = record {
  updates = record { path = []; val = string_val (codes "up") } ∷ [];
  replaces = [];
  deletes = [] ∷ [];
}

-- A request is one byte; messages are not told apart.
abbrev unary_codec : Unary.Codec
unary_codec = record {
  parse_capability_request = λ b. true;
  capability_response = λ es. [];
  parse_get_request = λ b. none;
  get_response = λ ps. [];
  parse_set_request = λ b. some (codes "ADMIN", request);
  set_response = λ rs. [];
  subscribe_response = λ r. [];
  show_double = λ d. [];
}

abbrev codecs : Codecs
codecs = record {
  streaming = record {
    parse_subscribe_request = λ b. some (record { subscriptions = []; streaming = true });
    parse_subscribe_response = λ b. none;
    subscribe_response = λ r. [];
    show_double = λ d. [];
    date_text = λ n. [];
  };
  targets = record {
    parse_register_op = λ b. some (
        Targets.of_target
          (record { op = Targets.op_add; accept = false; target = b; target_type = [] }));
    register_op = λ op. [];
    parse_data = λ b. none;
    encoding = record { session_pb = λ s. []; data_pb = λ d. [] };
  };
  devices = record {
    parse_device_response = λ b. none;
    get_request = λ id p. [];
    show_double = λ d. [];
  };
}

abbrev events : List (ℕ × Event)
events =
    (7, connects (record { this = 70; grpc = 71 }))
    ∷ (7, subscribes 1 [])
    ∷ (7, registers 3 0 (codes "r1"))
    ∷ (7, device_opens 5 0)
    ∷ (7, closes)
    ∷ []

run-IsLive_example : IsLive (run codecs (record { clients = []; state = state }) events)
run-IsLive_example = run-IsLive codecs (record { clients = []; state = state }) events (tt, tt, tt)
