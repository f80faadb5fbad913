-- ===== src/Lib.antt =====
-- XCM is a C library for connection-oriented messaging: one socket API over several transports. A
-- message-oriented TCP socket (libxcm/tp/tcp/xcm_tp_tcp.c) stands on a byte stream socket of the
-- BTCP transport and frames each message with a length of four bytes in a buffer
-- (libxcm/tp/common/mbuf.h). Sockets have attributes (libxcm/core/xcm_attr_map.c), addresses
-- (libxcm/core/xcm_addr.c) and, to be awaited by epoll, an epoll instance with a table of file
-- descriptors and of "bells" (libxcm/core/xpoll.c), which shares always readable descriptors
-- between sockets (libxcm/tp/common/active_fd.c) and one timer descriptor between timers
-- (libxcm/core/timer_mgr.c). The functions of the API (libxcm/core/xcm.c) stand on a table of
-- operations of the socket's transport, which libxcm/tp/common/xcm_tp.c calls. Lists of strings
-- (common/slist.c) hold names of certificates, and items (libxcm/tp/tls/item.c) the sources of keys and certificates.
--
-- The files, and what they model. A definition has the name of the C function that it models, or
-- says in the comment above it what part of which function it is.
--
--   Base         numbers, lists, bytes and tests that the parts share; strings are lists of bytes,
--                without the terminating zero byte
--   Errno        the values of errno, and how a function reports: a value, an error, an abort
--   Slist        common/slist.c: Spec (what the list promises), Join, Split
--   AttrMap      libxcm/core/xcm_attr_map.c: Lookup, Change (add and delete), Equal, Copy
--   Mbuf         libxcm/tp/common/mbuf.h: Frame (the wire format)
--   Tcp          libxcm/tp/tcp/xcm_tp_tcp.c: Interface (the BTCP socket below, with its laws), Conn
--                (struct tcp_socket, tcp_init()), Sender (tcp_send()), Receiver (tcp_receive(), with
--                Receiver/Runs: calls in any order at both ends), Finish
--   Kernel       the system calls below, as an interface with laws
--   ActiveFd     libxcm/tp/common/active_fd.c: Users (a count of users for each descriptor)
--   Xpoll        libxcm/core/xpoll.c: Regs (descriptors), Regs/Table (what holds of the table),
--                Regs/Ops (registering), Bells
--   Addr         libxcm/core/xcm_addr.c: the protocol; Names (UX and UXF, with Names/RoundTrip), Hosts
--                (with Hosts/Numbers and Hosts/Ports)
--   Timers       libxcm/core/timer_mgr.c: Schedule (the value of the descriptor), Ids (the timers)
--   Item         libxcm/tp/tls/item.c: Copy
--   Tconnect     libxcm/tp/tcp/tconnect.c: Track and Process (a track), Connect (the connection),
--                Evidence and Handed (what a connected track rests on), Runs (sequences of calls)
--   Socket       libxcm/tp/common/xcm_tp.c and xcm_tp.h: Ops (the operations of a transport, and the
--                calls of other parts, as an interface), Calls, Attrs (the generic attributes),
--                CtlBound
--   Api          libxcm/core/xcm.c: Send (with Send/Message and Send/Bytes), Attrs (with Attrs/All),
--                Open, of which Open/Ledger says what is held, Open/Setters, Open/Settables and Open/SetAttrs
--                what setting an attribute leaves, and Open/Steps and Open/Release what opening leaves
--   Examples     the theorems at concrete inputs, and tests
--
-- State is passed and returned; that of the transports and the kernel under the API is a type of its
-- own. A function that reports by -1 and errno returns an Outcome, and one that only aborts an
-- Option. A loop over an array or a list is a recursion on the list. Of the functions on fuel, that
-- of try_finish_send() has one unit more than there are bytes left to send, since BTCP accepts at
-- least one byte in each call that succeeds, that of slist_split() one more than the string has
-- bytes, since each round takes one delimiter at least, and that of the decimal digits of a port
-- five units, since a port has no more digits. The loops of libxcm/core/xcm.c that wait in poll()
-- have as much as a bound of the transport's says that waits can end without progress, and that of
-- attr_forward_cb() as much as a value has bytes. What comes from outside the repository is a
-- parameter: the kernel's calls, inet_pton() and inet_ntop(), regexec(), and the arithmetic of
-- double with the clock; the string functions of the C library, strtol() among them, are written
-- out. The laws of the BTCP socket are those of its interface: it accepts or returns at most what it
-- was given room for, and an error moves no bytes. ntohs() is that of a little-endian machine, an
-- int has 32 bits, and isspace() is that of the C locale.
--
-- Not modelled: logging and tracing, allocation failures, connecting and accepting in TCP, the other
-- transports (BTCP, TLS, UTLS, UX, SCTP), name resolution, the control interface, the tools, and the
-- Python binding.
pub mod Tconnect
pub mod Api
pub mod Socket
pub mod Item
pub mod Timers
pub mod Addr
pub mod Base
pub mod Slist
pub mod AttrMap
pub mod Errno
pub mod Mbuf
pub mod Tcp
pub mod Examples
pub mod Kernel
pub mod ActiveFd
pub mod Xpoll
