-- ===== src/Vpn/Client.antt =====
-- app/openvpn/src/vpn_client.cpp: what the client does with the server's frames, and when the
-- connection ends. Whether the kernel gives a TUN device, and its name, is an argument; the calls of
-- the system are effects.
pub mod Reading
use grace_server.Base.{
  ℕ, Bool, true, false, not, ◌&&◌, ◌||◌, Option, none, some, List, [], ◌∷◌, ◌++◌, ◌==◌,
  if◌then◌else◌, Bytes, codes, is_empty, split_at, to_string,
}
use grace_server.Vpn.Frame.{Frame, receive, type_ip_assign, type_data, type_disconnect}

-- The members of `vpn_client`, less the receive buffer and the server's address. `tun_up` is
-- `m_tun_fd >= 0`.
pub record Link : Type 0 where
  pub tun_name : Bytes
  pub assigned_ip : Bytes
  pub tun_up : Bool
  pub ip_assigned : Bool
  pub gnmi_port : ℕ
  pub gnmi_fwd_ip : Bytes
  pub gnmi_fwd_port : ℕ

-- With `m_recv_buf`.
pub record Client : Type 0 where
  pub recv_buf : Bytes
  pub link : Link

pub data Effect : Type 0 where
  assign_tun_ip : Bytes → Bytes → Bytes → Effect
  tun_close : Effect
  tun_write : Bytes → Effect
  system : Bytes → Effect
  write_table : Bytes → List (Bytes × Bytes) → Effect
  arm_reconnect : Effect
  log_unknown : ℕ → Effect

-- The two rules differ in the option: -A or -D.
unfoldable pub dnat_rule : Bytes → Link → Bytes → Bytes
dnat_rule option l vip =
    codes "iptables -t nat "
    ++ option
    ++ codes " PREROUTING -d "
    ++ vip
    ++ codes " -p tcp --dport "
    ++ to_string l.gnmi_port
    ++ codes " -j DNAT --to-destination "
    ++ l.gnmi_fwd_ip
    ++ codes ":"
    ++ to_string l.gnmi_fwd_port

unfoldable pub setup_nat_forwarding : Link → Bytes → List Effect
unfolding dnat_rule
setup_nat_forwarding l vip =
    if is_empty l.gnmi_fwd_ip || is_empty vip
    then []
    else system (codes "sysctl -w net.ipv4.ip_forward=1 >/dev/null 2>&1")
      ∷ system (dnat_rule (codes "-A") l vip)
      ∷ system (codes "iptables -t nat -A POSTROUTING -j MASQUERADE >/dev/null 2>&1")
      ∷ []

unfoldable pub teardown_nat_forwarding : Link → Bytes → List Effect
unfolding dnat_rule
teardown_nat_forwarding l vip =
    if is_empty l.gnmi_fwd_ip || is_empty vip
    then []
    else system (dnat_rule (codes "-D") l vip) ∷ []

unfoldable pub close_tun : Link → Link × List Effect
unfolding teardown_nat_forwarding
close_tun l = (
  record l { tun_up = false },
  (if l.tun_up then tun_close ∷ [] else []) ++ teardown_nat_forwarding l l.assigned_ip,
)

unfoldable pub in_quotes : Bytes → Bytes
in_quotes s = b'"' ∷ (s ++ b'"' ∷ [])

-- The four fields; the time is an argument.
unfoldable pub write_status_lua : ℕ → Bytes → Bytes → Bytes → List Effect
unfolding in_quotes
write_status_lua now service_ip tun_if status =
    write_table (codes "vpn_status") (
      (codes "service_ip", in_quotes service_ip)
      ∷ (codes "tun_if", in_quotes tun_if)
      ∷ (codes "status", in_quotes status)
      ∷ (codes "timestamp", to_string now)
      ∷ [])
    ∷ []

-- The address and the netmask of an IP_ASSIGN payload.
unfoldable pub read_ip_assign : Bytes → Bytes × Bytes
read_ip_assign p = elim (split_at b' ' p) [
  | none ↦ (p, codes "255.255.255.0")
  | some (ip, netmask) ↦ (ip, netmask)
]

-- The rest of the IP_ASSIGN case, with what `open_tun` gave.
unfoldable pub open_device : Link → Option Bytes → Bytes → Link × List Effect
unfolding setup_nat_forwarding
open_device l none netmask = (record l { tun_up = false }, [])
open_device l (some name) netmask = (
  record l { tun_name = name; tun_up = true },
  assign_tun_ip name l.assigned_ip netmask ∷ setup_nat_forwarding l l.assigned_ip,
)

unfoldable pub on_ip_assign : Option Bytes → ℕ → Link → Bytes → Link × List Effect
unfolding open_device read_ip_assign write_status_lua
on_ip_assign tun now l p =
    let r = read_ip_assign p in
    let o = open_device (record l { assigned_ip = r.0; ip_assigned = true }) tun r.1 in
    (o.0, o.1 ++ write_status_lua now o.0.assigned_ip o.0.tun_name (codes "Connected"))

unfoldable pub on_disconnect : ℕ → Link → Link × List Effect
unfolding close_tun write_status_lua
on_disconnect now l =
    let c = close_tun l in
    (c.0, write_status_lua now l.assigned_ip l.tun_name (codes "Down") ++ c.1)

-- The switch of `process_frames`.
unfoldable pub handle_frame : Option Bytes → ℕ → Link → Frame → Link × List Effect
unfolding on_ip_assign on_disconnect
handle_frame tun now l f =
    if f.type == type_ip_assign
    then on_ip_assign tun now l f.payload
    else if f.type == type_data
    then (l, if l.tun_up then tun_write f.payload ∷ [] else [])
    else if f.type == type_disconnect
    then on_disconnect now l
    else (l, log_unknown f.type ∷ [])

unfoldable pub handle_frames : Option Bytes → ℕ → Link → List Frame → Link × List Effect
unfolding handle_frame
handle_frames tun now l [] = (l, [])
handle_frames tun now l (f ∷ fs) =
    let r = handle_frame tun now l f in
    let rest = handle_frames tun now r.0 fs in (rest.0, r.1 ++ rest.1)

-- `handle_read`. A frame leaves the buffer alone, so all frames are cut off first.
unfoldable pub handle_read : Option Bytes → ℕ → Client → Bytes → Bool → Client × List Effect
unfolding handle_frames
handle_read tun now c bytes dry_run =
    if dry_run
    then (c, [])
    else let r = receive c.recv_buf bytes in
      let done = handle_frames tun now c.link r.0 in
      (record { recv_buf = r.1; link = done.0 }, done.1)

-- `handle_close`, and `handle_event` for a timeout or an error, which does the same.
unfoldable pub handle_close : ℕ → Client → Client × List Effect
unfolding close_tun write_status_lua
handle_close now c =
    let l = c.link in
    let closed = close_tun l in
    (
      record { recv_buf = []; link = record (closed.0) { ip_assigned = false; assigned_ip = [] } },
      (if l.ip_assigned then write_status_lua now l.assigned_ip l.tun_name (codes "Down") else [])
          ++ (closed.1 ++ arm_reconnect ∷ []),
    )
