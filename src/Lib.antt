-- ===== src/Lib.antt =====
-- A model of grace-server: a gNMI server and dial-out collector over HTTP/2, a gRPC tunnel, and a
-- VPN, in C++ under hackthon/app. Paths below are from hackthon/.
--
-- How the parts interact. Bytes of a connection reach nghttp2, whose callbacks (app/src/http2.cpp)
-- fill a table of streams and tell the gRPC session (app/src/grpc_session.cpp), which cuts messages
-- out of bodies and calls the registered handlers; the handlers answer through the session, which
-- stages bytes in the stream table for nghttp2's data providers. The tunnel's handlers call the
-- hub (app/inc/tunnel_hub.hpp), which links a device's streams to the operators' sockets that
-- app/src/tunnel_proxy.cpp accepts. The gNMI service's handlers share the subscription hub, the
-- tunnel hub and the management hub, one of each for all connections; the end of a connection is
-- told to all three. The console (app/src/mgmt_tui.cpp) sends requests to devices through the
-- management hub. The VPN (app/openvpn) has its own frames over TCP.
--
-- Which file models which part:
--   Base, Base/*      shared names, byte strings, dictionaries, decimal numbers
--   Wire, Wire/*      big-endian lengths; decoders of a stream that arrives in pieces
--   Vpn/Frame         the frames of vpn_client.cpp and vpn_peer.cpp: encode_frame, try_decode_frame,
--                     process_frames, handle_read (`receive`)
--   Vpn/Pool          ip_pool of vpn_server.cpp, the same operation names
--   Vpn/Server        vpn_server and vpn_peer: handle_connect, handle_close, tun_read, peer_read
--   Vpn/Client        vpn_client.cpp behind the frames
--   Http2             the stream table of http2.cpp; Submit has the submit_* calls, Callbacks the
--                     on_* callbacks, Provider response_body_read and request_body_read
--   Grpc/Framing      encode_frame, decode_frame and the loop of on_request_stream
--   Grpc/Session      registration, on_request, on_request_headers, stream_send, stream_finish
--   Tunnel/Hub        tunnel_hub.hpp, the same operation names
--   Gnmi              the messages; Paths and Json are gnmi_util.hpp, SubHub is sub_hub.hpp
--   Gnmi/Command      the commands of app/peer/src/gnmi_cmd.cpp; Render shows the answers
--   Gnmi/Client       app/src/gnmi_client.cpp: the unary connection and its callback; Streams has
--                     the messages of a streaming one
--   Service           app/src/client_app.cpp's handlers, app/inc/update_sink.hpp and
--                     app/src/server_app.cpp: Unary, Streaming, Targets, Devices, and Close for
--                     the end of a connection
--   MgmtHub           mgmt_hub.hpp, the sessions of the dial-out collector
--   MgmtHub/Console   the command line of app/src/mgmt_tui.cpp; Line has submit_input and handle_read
--   Config            app/peer/src/endpoint_config.cpp and app/src/tunnel_config.cpp
--   Terminal          app/inc/ansi_util.hpp and app/cli/src/completion_helpers.cpp
--   Watch             fs_app.cpp's process_inotify_onchange over lua_engine.cpp's table of files
--   Openvpn           openvpn_parse.hpp (Diff is its routing_table_diff), and openvpn_server.cpp's
--                     mgmt_io and MQTT forwarding
--   Tunnel/Proxy      the listener and the bridge objects of tunnel_proxy.cpp
--   Tests             the theorems at concrete inputs
-- The children of a model's module hold what is proved about it.
--
-- State is a record, and an operation takes it and gives the new one with the effects on the
-- outside (socket writes, nghttp2 calls, callbacks), in order. Pointers to sessions, sockets and
-- callbacks are numbers. A byte is a number, a string a list of bytes, a map an association list
-- whose order stands for the iteration order. 32-bit lengths and counters keep their wrap-around;
-- bridge tags and stream numbers are taken not to run out.
--
-- Loops. The frame loops run on the length of the buffer plus one as fuel: each round but the last
-- takes at least one byte off. The pool's constructor takes its fuel as an argument, and answers
-- `none` if it runs out. The client's loop over a response (`deliver`) has the same fuel as the
-- frame loops, and comes to an end with it unless a length field makes the end of its frame wrap
-- around to 0.
--
-- Not modelled: libevent, nghttp2, protobuf's encodings, zlib, OpenSSL, Lua, libmosquitto, the
-- system calls (TUN devices, routes, sockets), what is drawn on a terminal, the reflection of
-- app/src/lua_proto.cpp, the programs' options and the other terminal interfaces. Where the code
-- relies on one of them it is a parameter: `Encoding` and the records called `Codec` for protobuf
-- (`encode` and `pack` in the hubs), `Inet` for inet_pton and inet_ntop, `gzip_inflate`, `load`
-- for Lua files, `file_request` for a Lua file that describes a request, `scaled` for strtod with
-- the product behind it, `stoi`, `strtol`, `double_to_long` for a cast, and `date_text` for strftime.
pub mod Base
pub mod Wire
pub mod Vpn
pub mod Http2
pub mod Gnmi
pub mod Grpc
pub mod MgmtHub
pub mod Openvpn
pub mod Tunnel
pub mod Watch
pub mod Tests
pub mod Service
pub mod Config
pub mod Terminal
