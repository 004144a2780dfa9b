-- ===== src/Vpn.antt =====
-- app/openvpn: the tunnel between vpn_server and vpn_client.
pub mod Frame
pub mod Pool
pub mod Server
pub mod Client
