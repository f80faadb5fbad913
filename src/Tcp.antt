-- ===== src/Tcp.antt =====
-- libxcm/tp/tcp/xcm_tp_tcp.c: messages over the byte stream of a BTCP socket. The BTCP socket below
-- is reached through xcm_tp_socket_send(), xcm_tp_socket_receive() and xcm_tp_socket_finish() only,
-- which the interface of Tcp/Interface.antt names. Logging is left out.
pub mod Interface
pub mod Conn
pub mod Sender
pub mod Receiver
pub mod Finish
