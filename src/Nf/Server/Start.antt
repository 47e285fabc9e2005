-- ===== src/Nf/Server/Start.antt =====
-- all-sync/server.hpp: the constructor, InitServer, AddListenSocket, InitUDPSocket and RunServer up
-- to its loop. What the system answers is an argument.
pub mod Registers
use kknf.Base.{
  ℕ, ◌-◌, List, [], ◌∷◌, ◌++◌, Option, none, some, Bool, true, false, if◌then◌else◌, length, ◌&&◌,
  ◌==◌,
}
use kknf.Base.Int.{ℤ, pos, minus_one, minus_two}
use kknf.Nf.Socket.{Socket, new_socket, no_id, tcp_listen, udp, local}
use kknf.Nf.Server.{Server}

-- The constructor sets neither `udp_socket_`, for which there is what stands in memory, nor the local
-- socket, which here has no descriptor of its own.
unfoldable pub new_server : Option Socket → ℤ → Server
unfolding new_socket
new_server memory timer_interval = record {
  listen_sockets = [];
  udp_socket = memory;
  udp_recv = [];
  ready = [];
  reuse = [];
  local_socket = new_socket 0;
  notes = 0;
  timer_interval = timer_interval;
  epoll_cancel = false;
  epoll = [];
  closed = [];
}

-- Server::InitServer: whether epoll_create() succeeds, and the near end of socketpair().
unfoldable pub init_server : Bool → Option ℕ → Server → Server × ℤ
unfolding new_socket
init_server created none srv = (srv, minus_one)
init_server created (some fd) srv =
    if created
    then (record srv { local_socket = record (new_socket fd) { id = no_id; type_ = local } }, pos 0)
    else (srv, minus_one)

-- The answers to socket(), inet_aton(), bind() and listen().
pub record BindAnswers : Type 0 where
  pub socket_fd : Option ℕ
  pub ip : Option ℕ
  pub bound : Bool
  pub listening : Bool

unfoldable pub listen_socket : ℕ → List ℕ → ℕ → ℕ → ℕ → Socket
unfolding new_socket
listen_socket fd ipstr ip port id = record (new_socket fd) {
  my_ipstr = ipstr;
  my_ip = ip;
  my_port = port;
  id = id;
  type_ = tcp_listen;
}

-- Server::AddListenSocket: the index of the new socket's list, or -1.
unfoldable pub add_listen_socket : List ℕ → ℕ → BindAnswers → Server → Server × ℤ
unfolding listen_socket
add_listen_socket ipstr port a srv = elim a.socket_fd [
  | none ↦ (srv, minus_one)
  | some fd ↦ elim a.ip [
    | none ↦ (srv, minus_one)
    | some ip ↦
        if a.bound && a.listening
        then (
          record srv {
            listen_sockets =
                srv.listen_sockets
                ++ listen_socket fd ipstr ip port (length srv.listen_sockets) ∷ [];
            ready = srv.ready ++ [] ∷ [];
          },
          pos (length (srv.ready ++ [] ∷ []) - 1),
        )
        else (srv, minus_one)
  ]
]

-- Server::InitUDPSocket; listen() is not called.
unfoldable pub init_udp_socket : List ℕ → ℕ → BindAnswers → Server → Server × ℤ
unfolding new_socket
init_udp_socket ipstr port a srv = elim a.socket_fd [
  | none ↦ (srv, minus_one)
  | some fd ↦ elim a.ip [
    | none ↦ (srv, minus_one)
    | some ip ↦
        if a.bound
        then (
          record srv {
            udp_socket = some (record (new_socket fd) {
              my_ipstr = ipstr;
              my_ip = ip;
              my_port = port;
              id = no_id;
              type_ = udp;
            });
          },
          pos 0,
        )
        else (srv, minus_one)
  ]
]

-- The loop of RunServer over the listen sockets; it ends at the first that epoll refuses.
add_sockets : (ℕ → Bool) → List Socket → List Socket → List Socket × Bool
add_sockets can_add [] epoll = (epoll, true)
add_sockets can_add (s ∷ ss) epoll =
    let rest = add_sockets can_add ss (epoll ++ s ∷ []) in
    if can_add s.sk then rest else (epoll, false)

unfoldable pub udp_sockets : Option Socket → List Socket
udp_sockets none = []
udp_sockets (some s) = s ∷ []

-- Server::RunServer before EpollLoop: -1 with nothing to listen to, -2 where epoll refuses a socket.
unfoldable pub run_server : (ℕ → Bool) → Server → Server × ℤ
unfolding add_sockets udp_sockets
run_server can_add srv =
    let sks = srv.listen_sockets ++ udp_sockets srv.udp_socket in
    let (epoll, ok) = add_sockets can_add (sks ++ srv.local_socket ∷ []) srv.epoll in
    if length sks == 0
    then (srv, minus_one)
    else if ok
    then (record srv { epoll = epoll }, pos 0)
    else (record srv { epoll = epoll }, minus_two)
