-- ===== src/Tests/Clients.antt =====
-- Clients of the two VPNs, and the devices of the dial-out collector.
use grace_server.Base.{
  ◌≡◌, refl, true, false, Option, some, List, [], ◌∷◌, ◌++◌, map, arith, Bytes, codes, equal,
  starts_with,
}
use grace_server.Base.Dict.{is_some}
use grace_server.Vpn.Frame.{encode_frame, type_ip_assign}
use grace_server.Vpn.Frame.RoundTrip.{encode_all}
use grace_server.Vpn.Server.{ip_assign_payload}
use grace_server.Vpn.Client.{Link, Client, tun_write, handle_read}
use grace_server.Vpn.Client.Reading.{data_frames, client_read-append, client_assigned, client_data}
use grace_server.Openvpn.Forward.{read_request, read_request-framed}
use grace_server.Openvpn.Mgmt.{State, Reader}
use grace_server.Openvpn.Mgmt as Mgmt
use grace_server.Openvpn.Mgmt.Tracking.{IsTracked}
use grace_server.Openvpn.Mgmt.Tables as Tables
use grace_server.Openvpn.Mgmt.Tables.{lists, table-IsTracked}
use grace_server.Openvpn.Mgmt.Reading.{handle_read-append}
use grace_server.Openvpn.Diff.Effects.{of_server, without_logs}
use grace_server.Openvpn.Diff.Agreement.{reports, parse_lines-reports}
use grace_server.MgmtHub.{Hub, DeviceRequest, send_request, gen_rpc_id}
use grace_server.MgmtHub.Sessions.{Call, opens, closes, notes, run, IsWf, session_ids}
use grace_server.MgmtHub.Requests.{IsSent, send_request-IsSent}

abbrev link : Link
link = record {
  tun_name = [];
  assigned_ip = [];
  tun_up = false;
  ip_assigned = false;
  gnmi_port = 58989;
  gnmi_fwd_ip = codes "10.0.0.9";
  gnmi_fwd_port = 58989;
}

abbrev client : Client
client = record { recv_buf = []; link = link }

abbrev device : Option Bytes
device = some (codes "tun0")

client_read-append_example : handle_read device 9 client ((2 ∷ 0 ∷ 0 ∷ []) ++ 0 ∷ 0 ∷ []) false ≡ (
  (handle_read device 9
      (handle_read device 9 client (2 ∷ 0 ∷ 0 ∷ []) false).0
      (0 ∷ 0 ∷ [])
      false).0,
  (handle_read device 9 client (2 ∷ 0 ∷ 0 ∷ []) false).1
      ++ (handle_read device 9
          (handle_read device 9 client (2 ∷ 0 ∷ 0 ∷ []) false).0
          (0 ∷ 0 ∷ [])
          false).1,
)
client_read-append_example = client_read-append device 9 client (2 ∷ 0 ∷ 0 ∷ []) (0 ∷ 0 ∷ [])

abbrev ip : Bytes
ip = codes "10.8.0.2"

abbrev netmask : Bytes
netmask = codes "255.255.255.0"

client_assigned_example :
    (l' : Link) × ((handle_read device 9 client
        (encode_frame type_ip_assign (ip_assign_payload ip netmask))
        false).0
      ≡ record { recv_buf = []; link = l' })
    × (l'.assigned_ip ≡ ip)
    × (l'.ip_assigned ≡ true)
    × (l'.tun_up ≡ is_some device)
unfolding ip_assign_payload
client_assigned_example =
    client_assigned device 9 link ip netmask
      (refl, (refl, (refl, (refl, (refl, (refl, (refl, (refl, tt)))))))) (omega arith)

abbrev up : Link
up = record link { tun_up = true }

abbrev packets : List Bytes
packets = (69 ∷ 0 ∷ []) ∷ (69 ∷ 1 ∷ []) ∷ []

client_data_example :
    handle_read device 9
      (record { recv_buf = []; link = up })
      (encode_all (data_frames packets))
      false
    ≡ (record { recv_buf = []; link = up }, map tun_write packets)
client_data_example = client_data device 9 up packets refl (omega arith, (omega arith, tt))

read_request-framed_example :
    read_request ((47 ∷ 71 ∷ []) ++ 0 ∷ 8 ∷ 0 ∷ []) ≡ some (47 ∷ 71 ∷ [], 8 ∷ 0 ∷ [])
read_request-framed_example = read_request-framed (47 ∷ 71 ∷ []) (8 ∷ 0 ∷ []) (refl, (refl, tt))

abbrev reader : Reader
reader = record {
  buf = [];
  clients = record {
    in_table = false;
    polled = [];
    active = [];
    peers = [];
    mqtt = true;
    event_mqtt = true;
  };
}

abbrev status : Bytes
status =
    codes "ROUTING TABLE"
    ++ 10 ∷ (codes "10.8.0.6,vpn-client,1.2.3.4" ++ 10 ∷ (codes "END" ++ 10 ∷ []))

-- A client has gone since the last table, and another has come.
abbrev before : State
before = record {
  in_table = false;
  polled = [];
  active = codes "10.8.0.9" ∷ [];
  peers = codes "10.8.0.9" ∷ [];
  mqtt = true;
  event_mqtt = true;
}

abbrev rows : List Bytes
rows = (codes "10.8.0.6,vpn-client,1.2.3.4" ++ 13 ∷ []) ∷ []

table-IsTracked_example :
    (Mgmt.member (codes "10.8.0.9") (Mgmt.parse_lines before (Tables.table rows)).0.peers
      ≡ lists (codes "10.8.0.9") rows)
    × IsTracked (Mgmt.parse_lines before (Tables.table rows)).0
unfolding Mgmt.chomp starts_with equal
table-IsTracked_example =
    table-IsTracked before rows (codes "10.8.0.9") (refl, λ v. refl) ((refl, refl, refl), tt)

handle_read-append_example : Mgmt.handle_read reader (status ++ codes "RO") false ≡ (
  (Mgmt.handle_read (Mgmt.handle_read reader status false).0 (codes "RO") false).0,
  (Mgmt.handle_read reader status false).1
      ++ (Mgmt.handle_read (Mgmt.handle_read reader status false).0 (codes "RO") false).1,
)
handle_read-append_example = handle_read-append reader status (codes "RO")

abbrev table : List Bytes
table =
    codes "ROUTING TABLE"
    ∷ (codes "10.8.0.6,vpn-client,1.2.3.4" ++ 13 ∷ [])
    ∷ codes ">LOG:1,I,note"
    ∷ codes "END"
    ∷ []

parse_lines-reports_example :
    ((reports (of_server reader.clients) (map Mgmt.chomp table)).0
      ≡ of_server (Mgmt.parse_lines reader.clients table).0)
    × (without_logs (Mgmt.parse_lines reader.clients table).1
        ≡ (reports (of_server reader.clients) (map Mgmt.chomp table)).1)
parse_lines-reports_example = parse_lines-reports reader.clients table ((refl, λ v. refl), refl, tt)

abbrev hub : Hub
hub = record {
  sessions =
      record { grpc = 4; sid = 1; id = 1; since = 9; device = []; hostname = []; role = [] } ∷ [];
  next_id = 1;
  pending = [];
  notif = [];
}

abbrev calls : List Call
calls = opens 5 1 10 ∷ notes 5 1 (codes "r1") ∷ closes 4 ∷ []

session_ids_example : IsWf (run hub calls)
session_ids_example = session_ids hub calls (omega arith, omega arith)

-- A request is written as its id and its operation.
abbrev encode : DeviceRequest → Bytes
encode r = r.rpc_id ++ r.request

send_request-IsSent_example :
    IsSent hub
      (gen_rpc_id (1 ∷ 31 ∷ []))
      (encode (record { rpc_id = gen_rpc_id (1 ∷ 31 ∷ []); device_id = []; request = 8 ∷ [] }))
      (codes "show version")
      (send_request encode hub (1 ∷ 31 ∷ []) (8 ∷ []) [] (codes "show version"))
send_request-IsSent_example =
    send_request-IsSent encode hub (1 ∷ 31 ∷ []) (8 ∷ []) [] (codes "show version")
