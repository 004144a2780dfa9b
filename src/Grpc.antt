-- ===== src/Grpc.antt =====
-- app/src/grpc_session.cpp: gRPC over HTTP/2.
pub mod Framing
pub mod Session
