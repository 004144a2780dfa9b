-- ===== src/Tests/Console.antt =====
-- The console's commands, the client's connections and the configuration.
use grace_server.Base.{
  ◌≡◌, ◌↔◌, refl, ap, Bool, Option, true, false, none, some, List, [], ◌∷◌, ◌++◌, map, arith, Bytes,
  codes, length, equal, split_at, if◌then◌else◌,
}
use grace_server.Base.Dict.{remove_if}
use grace_server.Base.Every.{All}
use grace_server.Gnmi.Json.{set_typed_value}
use grace_server.Gnmi.Paths.{parse_yang_path}
use grace_server.Gnmi.{ℤ, pos, negsuc, string_val, Update}
use grace_server.Gnmi.Client.{Connection, gnmi_connection, received}
use grace_server.Gnmi.Client.Once.{Event, reads, times_out, closes, handed, IsOnce, run, run-IsOnce}
use grace_server.Gnmi.Client.Streams.{SubConnection, deliver, on_data, notify_all}
use grace_server.Gnmi.Client.Delivery.{on_data-encode_all, deliver_diverges}
use grace_server.Grpc.Framing.{encode_frame}
use grace_server.Wire.BigEndian.{ntohl}
use grace_server.Gnmi.Command as Command
use grace_server.Gnmi.Command.{dispatch}
use grace_server.Gnmi.Command.EndToEnd.{IsAccepted, get_paths, subscriptions, dispatch-Accepts}
use grace_server.Service.{State}
use grace_server.Service.Unary as Unary
use grace_server.Service.Streaming as Streaming
use grace_server.Service.Streaming.{pack_all, indent}
use grace_server.Service.Streaming.Packing.{IsPacking, pack_all-IsPacking}
use grace_server.Tunnel.Hub.{empty_hub}
use grace_server.Config.{
  of_value, of_table, string_value, lua_integer, Table, no_members, member, ok,
}
use grace_server.Config.Peer.{resolve_entry, PeerConfig}
use grace_server.Config.Peer.Forms.{resolve_entry_forms}
use grace_server.Config.Listeners.{Listener, read_listeners}
use grace_server.Config.Listeners.Ports.{Lists, read_listeners_iff}

abbrev connection : Connection
connection = gnmi_connection (codes "h") (codes "/gnmi.gNMI/Get") [] (some 9)

abbrev outcomes : List Event
outcomes = reads (received none) (1 ∷ []) ∷ times_out ∷ closes ∷ []

run-IsOnce_example :
    IsOnce
      (run 9 (λ b. b) (λ b. some (pos 0)) connection outcomes).0
      (handed (run 9 (λ b. b) (λ b. some (pos 0)) connection outcomes).1)
unfolding gnmi_connection
run-IsOnce_example = run-IsOnce 9 (λ b. b) (λ b. some (pos 0)) connection outcomes refl refl

abbrev subscription : SubConnection
subscription = record {
  host = codes "h";
  request_pb = [];
  rxbuf = 0 ∷ 0 ∷ [];
  on_notif = some 5;
  on_done = none;
  done = false;
}

-- The rest of a frame of one byte, and the start of the next.
on_data-encode_all_example :
    on_data subscription (0 ∷ 0 ∷ 1 ∷ 8 ∷ 0 ∷ [])
    ≡ (record subscription { rxbuf = 0 ∷ [] }, notify_all (some 5) ((8 ∷ []) ∷ []))
unfolding encode_frame
on_data-encode_all_example =
    on_data-encode_all subscription (0 ∷ 0 ∷ 1 ∷ 8 ∷ 0 ∷ []) ((8 ∷ []) ∷ []) (0 ∷ []) refl
      (omega arith, tt) tt

deliver_diverges_example :
    ((deliver 3 (0 ∷ 255 ∷ 255 ∷ 255 ∷ 251 ∷ 7 ∷ [])).1 ≡ 0 ∷ 255 ∷ 255 ∷ 255 ∷ 251 ∷ 7 ∷ [])
    × (length (deliver 3 (0 ∷ 255 ∷ 255 ∷ 255 ∷ 251 ∷ 7 ∷ [])).0 ≡ 3)
unfolding ntohl
deliver_diverges_example = deliver_diverges 0 255 255 255 251 (7 ∷ []) 3 refl

-- A request is written as a marker; the other side knows what the marker stands for.
abbrev client : Command.Codec
client = record {
  set_request = λ t us. codes "set";
  get_request = λ t ps. codes "get";
  subscribe_request = λ t streaming ss. if streaming then codes "sub" else codes "once";
  scaled = λ digits mult. mult;
}

-- What the line below asks for.
abbrev updates : List Update
updates =
    record { path = record { name = codes "a"; keys = [] } ∷ []; val = string_val (codes "1") } ∷ []

abbrev unary_codec : Unary.Codec
unary_codec = record {
  parse_capability_request = λ b. true;
  capability_response = λ es. [];
  parse_get_request = λ b. some (record {
    prefix = record { target = codes "VIEWER"; elems = [] };
    paths = get_paths (codes "/a:1");
  });
  get_response = λ ps. [];
  parse_set_request =
      λ b. some (codes "ADMIN", record { updates = updates; replaces = []; deletes = [] });
  set_response = λ rs. [];
  subscribe_response = λ r. [];
  show_double = λ d. [];
}

abbrev streaming_codec : Streaming.Codec
streaming_codec = record {
  parse_subscribe_request = λ b. some (record {
    subscriptions =
        map (λ (x : Command.Subscription). x.path) (subscriptions client (codes "/a:1"));
    streaming = equal b (codes "sub");
  });
  parse_subscribe_response = λ b. none;
  subscribe_response = λ r. [];
  show_double = λ d. [];
  date_text = λ n. [];
}

abbrev state : State
state = record {
  sinks = [];
  subs = [];
  tunnels = empty_hub;
  mgmt = record { sessions = []; next_id = 0; pending = []; notif = [] };
  mgmt_dialout_mode = false;
}

read_mode : (mode : Bool) → equal (if mode then codes "sub" else codes "once") (codes "sub") ≡ mode
unfolding equal
read_mode true = refl
read_mode false = refl

abbrev asked : Bool → Option Streaming.SubscriptionList
asked mode = some (record {
  subscriptions = map (λ (x : Command.Subscription). x.path) (subscriptions client (codes "/a:1"));
  streaming = mode;
})

dispatch-Accepts_example :
    All
      (IsAccepted client unary_codec streaming_codec state
        (record { this = 1; grpc = 2 })
        (pos 0)
        3
        (codes "/a:1"))
      (dispatch client (record { host = codes "h"; port = 90 }) (codes "gnmi set /a:1")).1
unfolding Command.read_pairs Command.pieces Command.first_line split_at Command.read_verb equal
    parse_yang_path set_typed_value remove_if
dispatch-Accepts_example =
    dispatch-Accepts client unary_codec streaming_codec state (record { this = 1; grpc = 2 })
      (pos 0) 3 (record { host = codes "h"; port = 90 }) (codes "gnmi set /a:1")
      (record {
        set_agrees = refl;
        get_agrees = refl;
        subscribe_agrees = λ mode. ap asked (read_mode mode);
      })

pack_all-IsPacking_example :
    IsPacking (codes "a=1" ∷ codes "b=2" ∷ []) (pack_all indent (codes "a=1" ∷ codes "b=2" ∷ []))
pack_all-IsPacking_example = pack_all-IsPacking (codes "a=1" ∷ codes "b=2" ∷ [])

-- Two texts are numbers, all others are not.
abbrev strtol : Bytes → ℤ
unfolding equal
strtol s =
    if equal s (codes "90") then pos 90 else if equal s (codes "91") then pos 91 else negsuc 0

resolve_entry_forms_example :
    resolve_entry strtol
      (λ d. pos d)
      (some (of_value (string_value (codes "h" ++ b':' ∷ codes "90"))))
      (codes "local")
    ≡ resolve_entry strtol
        (λ d. pos d)
        (some (
          of_table (
            member
              (codes "ip")
              (of_value (string_value (codes "h")))
              (member (codes "port") (of_value (lua_integer (strtol (codes "90")))) no_members))))
        (codes "local")
unfolding strtol
resolve_entry_forms_example =
    resolve_entry_forms strtol (λ d. pos d) (codes "h") (codes "90") (codes "local") refl refl
      (refl, (refl, tt)) (omega arith)

abbrev listed : Table
listed = member (codes "90") (of_value (string_value (codes "r1"))) no_members

abbrev listeners : List Listener
listeners = record { port = 90; target = codes "r1" } ∷ []

read_listeners_iff_example :
    (read_listeners strtol listed ≡ ok listeners) ↔ Lists strtol listed listeners
read_listeners_iff_example = read_listeners_iff strtol listed listeners

abbrev side : Bytes → Table
side port =
    member (codes "endpoint") (of_value (string_value (codes "h" ++ b':' ∷ port))) no_members

abbrev root : Table
root =
    member (codes "local") (of_table (side (codes "90")))
      (member (codes "remote") (of_table (side (codes "91"))) no_members)

abbrev config : PeerConfig
config = record {
  local = record { host = codes "h"; port = 90 };
  remote = record { host = codes "h"; port = 91 };
  tls = record { enabled = false; cert_file = []; key_file = []; ca_file = [] };
  colors = record {
    remote = codes "cyan";
    ok_colour = codes "green";
    error_colour = codes "amber";
    echo = codes "dim";
  };
}
