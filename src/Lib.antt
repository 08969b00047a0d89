-- ===== src/Lib.antt =====
-- The native core of an Android VPN: packets of the tun device are taken apart into sessions, whose
-- data goes out by a socket of their own or through a SOCKS5 proxy behind a cipher.
-- Paths are from netcore/src/jni/.
--
-- Parts, and the files that model them:
-- Cipher: core/cipher/Cipher.cpp, ShiftCoder.cpp and PaddingCoder.cpp. Shift and Padding are the two
--   coders, Parcel is pack and unpack, Crypt is encrypt and decrypt. The values of rand() are
--   arguments. A buffer is a list of bytes; a pointer that is moved on is the list behind it.
-- Buffer: core/BufferQueue.cpp and BufferQueue.h. Segment is the class Segment, Queue the template
--   BufferQueue; an iterator is the split of the list at its place.
-- Packet: core/IPAdpt.cpp and utils/Utils.cpp: the getters of header fields, getOptionAddr,
--   computeChecksum, TCP_RELATIVE_SEQ and compare_u32.
-- Tcp: core/TCPSession.cpp and TCPSession.h. Session is the state, Output the way to the tun device
--   (pushInBackQueue, flushBackQueue, resetConnection and what they call), Input the handling of
--   packets (accept and what it calls), Tunnel the calls of the tunnel (onTunnelDataBack,
--   onTunnelWritable, onTunnelDisconnected), Start is init. Calls to the surroundings are kept in a log.
-- Proxy: core/proxy/Socks5Proxy.cpp and Socks5Proxy.h. State is the state, Calls the functions of
--   ITunnel, Handshake the messages of SOCKS5, Events the handlers of the reactor. The client of the
--   tunnel is a record of functions: which calls it makes on the tunnel in each handler.
-- Reactor: reactor/EpollReactor.cpp and IReactor.h. Table is mFd2Events, the file itself the data,
--   Calls the functions that clients call, Loop the loop and its dispatch. Stubs are objects at
--   addresses in a store, so a pointer that epoll hands back may be one to a freed stub.
-- Udp: core/UDPSession.cpp. Packet is buildPacket, Session the state with what router and timer ask,
--   Events the replies and the sending.
-- Router: core/Router.cpp and Session.cpp. Sessions is the search, building and purge of sessions, over
--   a record of what a class of sessions does at one time, which UdpOps fills with Udp and TcpOps, for
--   each time of the clock, with Tcp; UdpEvents adds the handlers of the UDP sessions; Reading the
--   handlers that use it, Writing the queue of packages for the tun device, Lifecycle the run on the reactor.
-- Dispatcher: core/event/EventDispatcher.h. Settings: settings/Settings.cpp. Tunnel: core/TCPTunnel.cpp.
-- Common: Boolean tests, lists over the native numbers, casts of C++. Tests: runs on small inputs.
--
-- A session calls its tunnel, and a tunnel its client. Tcp takes the tunnel's answers as arguments,
-- and Proxy the calls that its client makes. The reactor calls its handlers, whose calls back on it are
-- any function of the callbacks so far.
--
-- Integers are native numbers with the wrap-around of their type written out; sizes of buffers, far
-- below the width of size_t, do not wrap. The sizes mForwardQueueDataSize and mBackQueueDataSize are
-- taken without the wrap-around of their 32 bits.
--
-- Fuel: decrypt and unpack get the length of their input, since each round takes a byte or more;
-- the strip of coders the length of the parcel; onReadable the bytes in the buffer and one more;
-- sendQueue the bytes and the segments queued; onTunnelDataBack the bytes to relay, each round
-- taking one or more, and so in UDPSession; the loops over answers of a socket, of epoll and of
-- write end with the row of answers given; the flush, which calls itself through a push, two
-- levels; the walk over TCP options 41 rounds, for headers of at most 60 bytes.
--
-- Where the shift coder gets no input, it reads the byte behind it, and decrypt gives the result
-- stale_bytes, with what is written so far and the length returned for each value of that byte, and
-- onReadable none: what the code does then depends on the former content of a buffer.
-- The memcpy in Segment::flip has no defined result when its ranges overlap; the model holds zeros there.
--
-- Packets whose headers give a negative length of the data are left out. A SYN whose options make the
-- walk endless, or lead it behind the packet, is handled as one without the option sought.
--
-- Not modelled: the router's constructor, init and destructor, the connection events and what the user
-- interface makes of them, the race of the dispatcher's thread with a registration, the printing of
-- packets, DNS, the capture file, and the bridge to Java.
pub mod Common
pub mod Cipher
pub mod Buffer
pub mod Packet
pub mod Tcp
pub mod Proxy
pub mod Reactor
pub mod Udp
pub mod Router
pub mod Dispatcher
pub mod Settings
pub mod Tunnel
pub mod Tests
