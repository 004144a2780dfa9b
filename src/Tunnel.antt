-- ===== src/Tunnel.antt =====
-- The dial-out tunnel: app/inc/tunnel_hub.hpp and app/src/tunnel_proxy.cpp.
pub mod Hub
pub mod Proxy
