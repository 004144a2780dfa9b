-- ===== src/Openvpn.antt =====
-- app/openvpn/src/openvpn_server.cpp and app/openvpn/inc/openvpn_parse.hpp: the clients of a system
-- OpenVPN server, followed over its management interface.
pub mod Parse
pub mod Mgmt
pub mod Diff
pub mod Forward
