-- ===== src/Nf/Server.antt =====
-- all-sync/server.hpp: the state of a Server, and the queues between the thread that polls and the
-- workers. The mutexes make each operation one step; where an operation waits on a condition
-- variable, it answers that it waits.
pub mod Start
pub mod Poll
pub mod Mass
pub mod Flush
pub mod Ready
pub mod Indices
pub mod Listen
pub mod Packets
pub mod Timer
pub mod Loop
pub mod System
pub mod Thread
use kknf.Base.{
  ℕ, suc, ◌+◌, ◌-◌, List, [], ◌∷◌, ◌++◌, Option, none, some, Bool, true, false, ltb, if◌then◌else◌,
  length, get_elem?, set,
}
use kknf.Base.Int.{ℤ, pos, minus_one, leb_ℤ}
use kknf.Nf.Addr.{Packet}
use kknf.Nf.Socket.{Socket}

-- A std::map from the index of a listen socket to sockets that came from it.
abbrev pub SocketMap : Type 0
SocketMap = List (ℕ × List Socket)

-- `m[index].push_back(sk)`.
unfoldable pub push : ℕ → Socket → SocketMap → SocketMap
push index sk [] = (index, sk ∷ []) ∷ []
push index sk ((j, ss) ∷ m) =
    let rest = push index sk m in
    if ltb index j
    then (index, sk ∷ []) ∷ (j, ss) ∷ m
    else if ltb j index
    then (j, ss) ∷ rest
    else (j, ss ++ sk ∷ []) ∷ m

-- `epoll` are the sockets behind the events of the epoll instance, `notes` the bytes on the way to
-- the local socket, and `closed` the sockets that have been closed and deleted.
pub record Server : Type 0 where
  pub listen_sockets : List Socket
  pub udp_socket : Option Socket
  pub udp_recv : List Packet
  pub ready : List (List Socket)
  pub reuse : SocketMap
  pub local_socket : Socket
  pub notes : ℕ
  pub timer_interval : ℤ
  pub epoll_cancel : Bool
  pub epoll : List Socket
  pub closed : List Socket

-- Server::StopServer.
abbrev pub stop_server : Server → Server
stop_server srv = record srv { epoll_cancel = true }

-- The list number `index` with more at its end, if there is such a list.
unfoldable pub insert_at : ℕ → List Socket → List (List Socket) → Option (List (List Socket))
insert_at index sks ready = elim (get_elem? ready index) [
  | none ↦ none
  | some ss ↦ some (set ready index (ss ++ sks))
]

-- Server::InsertServerReadySocket; `none` is the failed assertion on the index.
unfoldable pub insert_server_ready_socket : SocketMap → Server → Option Server
insert_server_ready_socket [] srv = some srv
insert_server_ready_socket ((index, sks) ∷ m) srv = elim (insert_at index sks srv.ready) [
  | none ↦ none
  | some lists ↦ insert_server_ready_socket m (record srv { ready = lists })
]

-- What a worker gets: a null pointer, a wait on the condition variable, or a socket.
pub data Taken (A : Type 0) : Type 0 where
  no_list : Taken A
  waits : Taken A
  got : Server → A → Taken A

take_ready : ℕ → Server → Option (List Socket) → Taken Socket
take_ready index srv none = no_list
take_ready index srv (some []) = waits
take_ready index srv (some (sk ∷ rest)) = got (record srv { ready = set srv.ready index rest }) sk

-- Server::GetServerReadySocket.
unfoldable pub get_server_ready_socket : ℕ → Server → Taken Socket
unfolding take_ready
get_server_ready_socket index srv = take_ready index srv (get_elem? srv.ready index)

-- Server::InsertServerReuseSocket; `ret` is what send() says of the one byte, and is returned.
unfoldable pub insert_server_reuse_socket : ℕ → Socket → ℤ → Server → Server × ℤ
insert_server_reuse_socket pool_index sk ret srv = (
  record srv {
    reuse = push pool_index sk srv.reuse;
    notes = if leb_ℤ ret (pos 0) then srv.notes else srv.notes + 1;
  },
  ret,
)

-- Server::GetServerReuseSocketList: the swap with an empty map.
unfoldable pub get_server_reuse_socket_list : Server → Server × SocketMap
get_server_reuse_socket_list srv = (record srv { reuse = [] }, srv.reuse)

-- Server::InsertUDPRecvPacket.
unfoldable pub insert_udp_recv_packet : List Packet → Server → Server
insert_udp_recv_packet pkts srv = record srv { udp_recv = srv.udp_recv ++ pkts }

take_packet : Server → List Packet → Taken Packet
take_packet srv [] = waits
take_packet srv (p ∷ rest) = got (record srv { udp_recv = rest }) p

-- Server::GetUDPPacket.
unfoldable pub get_udp_packet : Server → Taken Packet
unfolding take_packet
get_udp_packet srv = take_packet srv srv.udp_recv
