-- ===== src/Service.antt =====
-- app/src/client_app.cpp and app/inc/update_sink.hpp: one connection of the gNMI server. Its
-- handlers share the three hubs, the observers of `update_sink` and the flag
-- `g_mgmt_dialout_mode`; what a handler does to the outside is its list of effects, in order.
-- A `connected_client *` and a `grpc_session *` are numbers, and so is a callback of the sink.
pub mod Unary
pub mod Streaming
pub mod Targets
pub mod Devices
pub mod Close
use grace_server.Base.{
  ℕ, zero, suc, ◌+◌, ◌/◌, ◌%◌, Bool, true, false, ◌&&◌, ◌||◌, Option, none, some, List, [], ◌∷◌,
  ◌++◌, map, if◌then◌else◌, Bytes, codes, starts_with,
}
use grace_server.Gnmi.{ℤ, pos, negsuc}
use grace_server.Gnmi.SubHub as SubHub
use grace_server.MgmtHub as MgmtHub
use grace_server.Tunnel.Hub as TunnelHub

pub record State : Type 0 where
  pub sinks : List ℕ
  pub subs : List SubHub.Sub
  pub tunnels : TunnelHub.Hub
  pub mgmt : MgmtHub.Hub
  pub mgmt_dialout_mode : Bool

-- `connected_client`: `this` and its `m_grpc`.
pub record Client : Type 0 where
  pub this : ℕ
  pub grpc : ℕ

-- Lines to `std::cout` and `std::cerr`, calls of the sink's callbacks, calls of a `grpc_session`,
-- and calls of an operator's callbacks.
pub data Effect : Type 0 where
  print : Bytes → Effect
  complain : Bytes → Effect
  observe : ℕ → Bytes → Effect
  stream_send : ℕ → ℕ → Bytes → Effect
  stream_finish : ℕ → ℕ → ℕ → Effect
  to_operator : ℕ → Bytes → Effect
  close_operator : ℕ → Effect
  parent_close : ℕ → Effect

-- `update_sink::add`; an empty `std::function` is `none`.
unfoldable pub add_sink : List ℕ → Option ℕ → List ℕ
add_sink cbs none = cbs
add_sink cbs (some cb) = cbs ++ cb ∷ []

-- `update_sink::set`.
unfoldable pub set_sink : List ℕ → Option ℕ → List ℕ
unfolding add_sink
set_sink cbs cb = add_sink [] cb

-- `update_sink::emit`.
unfoldable pub emit : List ℕ → Bytes → List Effect
emit [] line = []
emit (cb ∷ cbs) line = observe cb line ∷ emit cbs line

unfoldable pub tunnel_log : State → Bytes → List Effect
unfolding emit
tunnel_log st line =
    if st.mgmt_dialout_mode
      && (starts_with line (codes "[reg]") || starts_with line (codes "[tun]"))
    then []
    else print line ∷ emit st.sinks line

-- Several lines.
unfoldable pub tunnel_log_all : State → List Bytes → List Effect
unfolding tunnel_log
tunnel_log_all st [] = []
tunnel_log_all st (line ∷ lines) = tunnel_log st line ++ tunnel_log_all st lines

-- The calls that the hubs make.
abbrev pub of_sub_hub : List SubHub.Effect → List Effect
of_sub_hub [] = []
of_sub_hub (SubHub.stream_send g sid pb ∷ es) = stream_send g sid pb ∷ of_sub_hub es

abbrev pub of_tunnel_hub : List TunnelHub.Effect → List Effect
of_tunnel_hub [] = []
of_tunnel_hub (TunnelHub.stream_send g sid pb ∷ es) = stream_send g sid pb ∷ of_tunnel_hub es
of_tunnel_hub (TunnelHub.to_operator op bytes ∷ es) = to_operator op bytes ∷ of_tunnel_hub es
of_tunnel_hub (TunnelHub.close_operator op ∷ es) = close_operator op ∷ of_tunnel_hub es

-- "%03ld" of a number below 1000.
unfoldable pub three_digits : ℕ → Bytes
three_digits n = (b'0' + n / 100) ∷ (b'0' + n / 10 % 10) ∷ (b'0' + n % 10) ∷ []

-- `date_text` is `gmtime_r` and `strftime` on the seconds.
unfoldable pub format_ns_timestamp : (ℕ → Bytes) → ℤ → Bytes
unfolding three_digits
format_ns_timestamp date_text (negsuc n) = codes "no-timestamp"
format_ns_timestamp date_text (pos zero) = codes "no-timestamp"
format_ns_timestamp date_text (pos (suc m)) =
    let n = suc m in
    date_text (n / 1000000000) ++ b'.' ∷ three_digits (n % 1000000000 / 1000000) ++ codes "Z"
