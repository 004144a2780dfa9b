-- ===== src/Service/Close.antt =====
-- `connected_client::handle_close`, and `server`'s table of connections (app/src/server_app.cpp).
pub mod Kept
pub mod Live
pub mod Invariant
use grace_server.Base.{
  ℕ, Bool, true, false, Option, none, some, List, [], ◌∷◌, ◌++◌, map, Bytes, codes, to_string,
}
use grace_server.Base.Dict.{Dict, lookup, insert, erase, is_some}
use grace_server.Base.Keys.{num_key}
use grace_server.Gnmi.SubHub.{remove}
use grace_server.Tunnel.Hub as TunnelHub
use grace_server.MgmtHub as MgmtHub
use grace_server.Service.{State, Client, Effect, parent_close, tunnel_log_all, of_tunnel_hub}

abbrev pub gone_line : Bytes → Bytes
gone_line id = codes "[reg] -target '" ++ id ++ codes "' (disconnected)"

abbrev pub closed_line : ℕ → Bytes
closed_line id = codes "[mgmt] session #" ++ to_string id ++ codes " closed"

-- A connection on `channel` ends; `m_parent` is set.
unfoldable pub handle_close : State → Client → ℕ → State × List Effect
unfolding remove TunnelHub.remove_by_stream MgmtHub.remove_by_stream tunnel_log_all
handle_close st me channel =
    let tunnels = TunnelHub.remove_by_stream st.tunnels me.grpc in
    let mgmt = MgmtHub.remove_by_stream st.mgmt me.grpc in
    (
      record st { subs = remove st.subs me.this; tunnels = tunnels.0; mgmt = mgmt.0 },
      of_tunnel_hub tunnels.2
          ++ tunnel_log_all st (map gone_line tunnels.1)
          ++ tunnel_log_all st (map closed_line mgmt.1)
          ++ parent_close channel ∷ [],
    )

-- `server::m_clients`, by channel.
abbrev pub Clients : Type 0
Clients = Dict ℕ Client

-- `server::handle_connect`: `insert` keeps the entry that is there.
unfoldable pub connect : Clients → ℕ → Client → Clients × Bool
connect clients channel clnt = elim (lookup channel clients) [
  | some old ↦ (clients, false)
  | none ↦ (insert channel clnt clients, true)
]

-- `server::handle_close`: how many entries went.
unfoldable pub erase_client : Clients → ℕ → Clients × Bool
erase_client clients channel = (erase channel clients, is_some (lookup channel clients))
