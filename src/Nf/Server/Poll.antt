-- ===== src/Nf/Server/Poll.antt =====
-- all-sync/server.hpp: EpollProcess and one round of EpollLoop. What accept(), recvfrom(), recv() and
-- epoll_ctl() answer while an event is processed is an argument.
use kknf.Base.{
  ℕ, ◌+◌, ◌-◌, List, [], ◌∷◌, ◌++◌, Option, none, some, Bool, ◌||◌, ◌==◌, if◌then◌else◌,
}
use kknf.Base.Int.{ℤ, pos, minus_one, minus_two, ltb_ℤ, pos_part}
use kknf.Nf.Addr.{Packet}
use kknf.Nf.Socket.{Socket, new_socket, tcp_listen, tcp_server, udp, local}
use kknf.Nf.Server.{
  Server, SocketMap, push, insert_server_ready_socket, get_server_reuse_socket_list,
  insert_udp_recv_packet,
}

-- An event of epoll_wait(): `data.ptr`, and EPOLLERR, EPOLLIN and EPOLLRDHUP of `events`.
pub record Event : Type 0 where
  pub sk : Socket
  pub err : Bool
  pub readable : Bool
  pub rdhup : Bool

-- One accept() that succeeds; `ipstr` is the answer of inet_ntoa().
pub record Accepted : Type 0 where
  pub fd : ℕ
  pub peer_ip : ℕ
  pub peer_port : ℕ
  pub ipstr : Option (List ℕ)

-- One recvfrom() that succeeds.
pub record Datagram : Type 0 where
  pub ipstr : Option (List ℕ)
  pub port : ℕ
  pub bytes : List ℕ

-- One recv() on the local socket: so many bytes, or an error.
pub data LocalRecv : Type 0 where
  read : ℕ → LocalRecv
  recv_error : LocalRecv

-- The answers during one event. Each list but the last ends with a call that gives nothing;
-- `can_add` says which descriptors epoll takes.
pub record Answers : Type 0 where
  pub can_add : ℕ → Bool
  pub accepts : List Accepted
  pub datagrams : List Datagram
  pub local_recvs : List LocalRecv

-- How EpollProcess ends: with a code, by a failed assertion, by exit(1), or blocked in recv(). The
-- map is `server_sk_map`.
pub data Processed : Type 0 where
  done : ℤ → Server → SocketMap → Processed
  aborts exits blocks : Processed

-- The socket of a new connection, from the listen socket that it came from.
unfoldable pub server_socket : Socket → Accepted → List ℕ → Socket
unfolding new_socket
server_socket listen_sk a ipstr = record (new_socket a.fd) {
  my_ip = listen_sk.my_ip;
  my_ipstr = listen_sk.my_ipstr;
  my_port = listen_sk.my_port;
  peer_ip = a.peer_ip;
  peer_port = a.peer_port;
  peer_ipstr = ipstr;
  id = listen_sk.id;
  type_ = tcp_server;
}

-- A socket is put into epoll, or closed and deleted where epoll refuses it.
unfoldable pub add_or_close : (ℕ → Bool) → Socket → Server → Server
add_or_close can_add sk srv =
    if can_add sk.sk
    then record srv { epoll = srv.epoll ++ sk ∷ [] }
    else record srv { closed = srv.closed ++ sk ∷ [] }

unfoldable pub accept_one : (ℕ → Bool) → Socket → Accepted → Option (List ℕ) → Server → Server
accept_one can_add listen_sk a none srv = srv
accept_one can_add listen_sk a (some ipstr) srv =
    add_or_close can_add (server_socket listen_sk a ipstr) srv

-- The accept loop of a listen socket.
unfoldable pub accept_all : (ℕ → Bool) → Socket → List Accepted → Server → Server
unfolding accept_one add_or_close server_socket
accept_all can_add listen_sk [] srv = srv
accept_all can_add listen_sk (a ∷ as') srv =
    accept_all can_add listen_sk as' (accept_one can_add listen_sk a a.ipstr srv)

-- The recvfrom loop of the UDP socket.
unfoldable pub packets : Socket → List Datagram → List Packet
packets sk [] = []
packets sk (d ∷ ds) =
    let rest = packets sk ds in
    elim d.ipstr [
      | none ↦ []
      | some ipstr ↦
          record {
            from_ = record { ip = ipstr; port = d.port };
            to_ = record { ip = sk.my_ipstr; port = sk.my_port };
            bytes = d.bytes;
          }
          ∷ rest
    ]

unfoldable pub insert_packets : List Packet → Server → Server
insert_packets [] srv = srv
insert_packets (p ∷ ps) srv = insert_udp_recv_packet (p ∷ ps) srv

-- The recv loop of the local socket. The test on errno, `!= EAGAIN || != EWOULDBLOCK || != EINTR`,
-- holds for every errno.
pub data Drained : Type 0 where
  drained : ℕ → Drained
  drain_exits drain_blocks : Drained

pub drain : List LocalRecv → ℕ → Drained
drain [] n = drain_blocks
drain (recv_error ∷ rs) n = drain_exits
drain (read k ∷ rs) n =
    let more = drain rs (n + k) in
    if k == 0 then drain_exits else if k == 1024 then more else drained (n + k)

-- Every socket of the reuse list goes back to epoll.
unfoldable pub readd_list : (ℕ → Bool) → List Socket → Server → Server
unfolding add_or_close
readd_list can_add [] srv = srv
readd_list can_add (sk ∷ sks) srv = readd_list can_add sks (add_or_close can_add sk srv)

unfoldable pub readd_all : (ℕ → Bool) → SocketMap → Server → Server
unfolding readd_list
readd_all can_add [] srv = srv
readd_all can_add ((index, sks) ∷ m) srv = readd_all can_add m (readd_list can_add sks srv)

unfoldable pub after_drain : (ℕ → Bool) → SocketMap → Server → Drained → Processed
unfolding readd_all get_server_reuse_socket_list
after_drain can_add m srv drain_exits = exits
after_drain can_add m srv drain_blocks = blocks
after_drain can_add m srv (drained n) =
    let (srv', sk_list) = get_server_reuse_socket_list (record srv { notes = srv.notes - n }) in
    done (pos 0) (readd_all can_add sk_list srv') m

-- EPOLLIN or EPOLLRDHUP, by the type of the socket.
unfoldable pub process_in : Event → Answers → Server → SocketMap → Processed
unfolding after_drain accept_all packets insert_packets insert_udp_recv_packet drain
process_in e a srv m =
    if e.sk.type_ == tcp_listen
    then done (pos 0) (accept_all a.can_add e.sk a.accepts srv) m
    else if e.sk.type_ == tcp_server
    then if e.rdhup then done minus_two srv m else done (pos 1) srv (push e.sk.id e.sk m)
    else if e.sk.type_ == udp
    then done (pos 0) (insert_packets (packets e.sk a.datagrams) srv) m
    else if e.sk.type_ == local
    then after_drain a.can_add m srv (drain a.local_recvs 0)
    else aborts

-- Server::EpollProcess.
unfoldable pub epoll_process : Event → Answers → Server → SocketMap → Processed
unfolding process_in
epoll_process e a srv m =
    if e.err
    then done minus_one srv m
    else if e.readable || e.rdhup
    then process_in e a srv m
    else done (pos 0) srv m

-- epoll_ctl(EPOLL_CTL_DEL) on a descriptor.
unfoldable pub epoll_del : ℕ → List Socket → List Socket
epoll_del fd [] = []
epoll_del fd (s ∷ ss) = let rest = epoll_del fd ss in if fd == s.sk then rest else s ∷ rest

-- What EpollLoop does with the result of EpollProcess: on an error the socket leaves epoll, is closed
-- and deleted; on 1 it leaves epoll.
unfoldable pub apply_result : Socket → ℤ → Server → Server
unfolding epoll_del
apply_result sk result srv =
    if ltb_ℤ result (pos 0)
    then record srv { epoll = epoll_del sk.sk srv.epoll; closed = srv.closed ++ sk ∷ [] }
    else if pos_part result == 1
    then record srv { epoll = epoll_del sk.sk srv.epoll }
    else srv

-- The events of one epoll_wait(), in order, from an empty `server_sk_map`.
unfoldable pub process_events : List (Event × Answers) → Server → SocketMap → Processed
process_events [] srv m = done (pos 0) srv m
process_events ((e, a) ∷ es) srv m = elim (epoll_process e a srv m) [
  | done result srv' m' ↦ process_events es (apply_result e.sk result srv') m'
  | aborts ↦ aborts
  | exits ↦ exits
  | blocks ↦ blocks
]

unfoldable pub insert_ready : Processed → Processed
insert_ready (done r srv m) = elim (insert_server_ready_socket m srv) [
  | none ↦ aborts
  | some srv' ↦ done r srv' []
]
insert_ready aborts = aborts
insert_ready exits = exits
insert_ready blocks = blocks

-- The branch of EpollLoop on events; the empty map makes InsertServerReadySocket do nothing.
unfoldable pub poll_events : List (Event × Answers) → Server → Processed
unfolding insert_ready
poll_events es srv = insert_ready (process_events es srv [])
