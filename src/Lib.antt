-- ===== src/Lib.antt =====
-- Verification of the network framework in kknf.
--
-- all-sync/ holds the framework NF: a server that polls with epoll and hands sockets to worker
-- threads, and a client that keeps idle connections. A worker takes a socket from the Server
-- (GetServerReadySocket), reads a packet (TCPRecv), may ask other servers by sockets of the Client
-- (GetIdleClientSocket, TCPWaitToRead, InsertClientSocket), answers (TCPSend) and hands the socket
-- back (InsertServerReuseSocket), which wakes the polling thread by a byte on a local socket.
--
-- aanf/asio-based2/ holds its successor AANF over boost::asio: a Skeleton with tables of its sockets,
-- whose handlers run one at a time on a strand. A request goes out on an idle connection to its address
-- (ToWriteThenRead), or on a new one (ToConnectThenWrite, HandleConnectThenWrite); the handlers of the
-- writes and reads then start one another until ProcessData() or a callback has the packet, and its
-- answer makes the connection idle again, reads on, or closes it (DestroySocket). sync_client.hpp is a
-- client that waits for each reply. In aanf/asio-based2/test/ a front server gets a request with two
-- numbers, sends one to each of two backends, and answers with the sum of what they answer; all-sync/
-- has the same program over NF (test_bf.cc, test_bb1.cc, test_bb2.cc, and test_c.cc as the client), and a
-- server with three kinds of workers with its client (test_multi_pool_server.cc, test_multi_pool_client.cc).
--
-- Beside these two the repository keeps other versions of them: AANF over libevent, whose handlers are
-- called by the events of a socket and hand packets to workers by queues (aanf/libevent-based/src), a
-- first AANF over asio (aanf/asio-based), and the frameworks nf, cppnf and zxbnf. Their sources do not
-- compile as they stand; where an expression names nothing, it is read by the declaration that it means.
--
-- Nf/Addr.antt          all-sync/socketaddr.hpp: SocketAddr and Packet; Addr/Order its operator<
-- Nf/Socket.antt        all-sync/socket.hpp: Socket, its constructor and type numbers
-- Nf/Connect.antt       all-sync/socketio.hpp: MakeConnection, UDPSend, UDPRecv
-- Nf/Stream.antt        all-sync/socketio.hpp: TCPSend; all-sync/test_bf.cc: TCPRecv and the frames
-- Nf/Pool.antt          all-sync/client.hpp: GetClientSocket, InsertClientSocket, GetIdleClientSocket
-- Nf/Wait.antt          all-sync/client.hpp: TCPWaitToRead
-- Nf/Server.antt        all-sync/server.hpp: the state of the Server and its queues
-- Nf/Server/Start.antt  all-sync/server.hpp: InitServer, AddListenSocket, InitUDPSocket, RunServer
-- Nf/Server/Poll.antt   all-sync/server.hpp: EpollProcess and a round of EpollLoop
-- Nf/Server/Timer.antt  all-sync/server.hpp: EpollLoop and its timeout
-- Nf/Server/Thread.antt all-sync/server.hpp: ServerThreadProc
-- Nf/Server/System.antt all-sync/server.hpp: the polling thread and the workers, interleaved
-- Nf/Worker.antt        all-sync/test_*.cc: what the Process() functions share
-- Nf/Front.antt         all-sync/test_bf.cc: Process() of the front server, which asks two backends; Front/Sum
--                       puts it together with them
-- Nf/Backend.antt       all-sync/test_bb1.cc, test_bb2.cc: Process() of a backend
-- Nf/Pools.antt         all-sync/test_multi_pool_server.cc: a server with three kinds of workers
-- Nf/Main.antt          all-sync/test_*.cc: what the main functions make of a Server before its threads start
-- Nf/Callers.antt       all-sync/test_multi_pool_client.cc, test_c.cc: the clients; Callers/Numbers puts one
--                       together with a worker of test_multi_pool_server.cc
-- Aanf/Udp.antt         aanf/asio-based2/include: UDPSocketInfo, UDPToWrite, HandleUDPWrite, HandleUDPRead,
--                       InitUDPSocket
-- Aanf/Tables.antt      aanf/asio-based2/include: SocketInfo and the tables of Skeleton
-- Aanf/Sync.antt        aanf/asio-based2/include/skeleton.hpp: ToWriteThenReadSync
-- Aanf/Read.antt        aanf/asio-based2/include/skeleton.hpp: the handlers that read LV packets
-- Aanf/Http.antt        aanf/asio-based2/include/skeleton.hpp: the handlers that read HTTP packets
-- Aanf/Requests.antt    aanf/asio-based2/include/skeleton.hpp: ToWriteThenRead, ToWriteThenCallBack,
--                       ToWriteThenClose, ToConnectThenWrite, and the handlers of connect and the writes
-- Aanf/Accept.antt      aanf/asio-based2/include: TCPAcceptorInfo, AddTCPAcceptor, HandleAccept,
--                       AddTimerHandler, Run, HandleTimeout
-- Aanf/System.antt      aanf/asio-based2/include/skeleton.hpp: calls and handlers, in any order
-- Aanf/Client.antt      aanf/asio-based2/include/sync_client.hpp: the synchronous client
-- Aanf/Front.antt       aanf/asio-based2/test/lv_bf.cc, test_packet.hpp: ProcessData() of the front server;
--                       Front/CallBacks cb_lv_bf.cc, Front/Http http_bf.cc, Front/Datagrams udp_bf.cc,
--                       Front/Backends lv_bb1.cc and the client lv_c.cc, Front/Main main() of lv_bf.cc
-- Libevent.antt         aanf/libevent-based/src: Libevent/Memory memblock.cc (GetMemBlock), Bin bin_tcp_socket.cc,
--                       Line line_tcp_socket.cc, Write tcp_socket.cc (WriteHandler), Queues, Callback and
--                       Timer netframe.cc, Sync sync_sender_receiver.cc, Sockets socket_pool.cc
-- Early.antt            Early/Blocks nf/buffer.hpp (MemPool), Send cppnf/async_tcp_socket.hpp (SendMessage,
--                       OnWritable) and zxbnf/message.hpp (SeekForward), Receive cppnf/async_tcp_socket.hpp
--                       (OnReadable, GetMessage) and async_lv_socket.hpp
-- Asio.antt             aanf/asio-based/include/server.hpp: its handlers and tables
-- Base.antt             what the others share: tests, lists, signed integers, std::map
-- Tests.antt            runs on small inputs
--
-- A std::map is a list of entries in the order of the keys, a std::string a list of bytes, a pointer
-- to a Socket the Socket's record. A failed assertion is `none` or `aborts`. A critical section is one
-- step; a wait on a condition variable is an answer of the operation. What the system answers is an
-- argument: a list with the answers of the calls of send(), recv(), epoll_wait() or accept(), and a
-- function that says which descriptors epoll takes. Loops over these recurse on the list. Where it
-- ends, the loop still runs, and the theorems on termination say how long a list is enough. The block
-- that a memory pool has, whether an acceptor can listen at a port, and what a member holds that no
-- constructor sets, are arguments too. The loop over the ports of lv_bf.cc runs so many rounds as an
-- argument says, one more than there are ports. The length fields of packets keep their 32 bits, a sum
-- of two ints wraps, and a size_t made of a negative int keeps its 64 bits; sums of milliseconds and
-- the sizes of containers have no bound. The running skeleton is a step relation: its state lists the
-- asynchronous operations under way, each with the handler that runs when it ends, and the outcome of
-- an operation is an argument of its step. A new pointer is one that no table and no operation has. A
-- round of a worker's Process() is a function on the worker's state that ends by `continue`, stays in
-- a call, or fails; ProcessData() of a program answers with its code, its state and the calls of the
-- skeleton that it makes. An int in a packet is the pattern of its 32 bits, and a packet that is
-- shorter than the struct it is cast to is a read past its end.
--
-- Not modelled: logging, the creation of threads, the other main functions of aanf, the setting of
-- socket options, allocation, the buffer that a call gets back where it swaps the one that it sends,
-- aanf/asio-based3 and all-async, which rearrange the handlers of asio-based2 and do not compile, and
-- c_nf. In the running skeleton the synchronous calls, the datagrams, and ToWriteThenClose to another
-- server are left out. Of aanf/libevent-based the preparation of sockets, the send queues, HTTP packets
-- and the sweeping of the pool are left out, of aanf/asio-based the acceptors and the timer, and of nf,
-- cppnf and zxbnf the loops over epoll and the addresses.
pub mod Base
pub mod Nf
pub mod Aanf
pub mod Libevent
pub mod Early
pub mod Asio
pub mod Tests
