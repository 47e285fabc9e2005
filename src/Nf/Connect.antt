-- ===== src/Nf/Connect.antt =====
-- all-sync/socketio.hpp: MakeConnection and the calls on a blocking UDP socket. What the system
-- answers is an argument: `none` where a call fails. `opened` are the descriptors that the process
-- holds.
use kknf.Base.{
  ℕ, ◌≡◌, ◌⊎◌, List, [], ◌∷◌, Option, none, some, Bool, false, if◌then◌else◌, take, arith, ◌*◌,
}
use kknf.Base.Int.{ℤ, pos, minus_one, leb_ℤ}
use kknf.Nf.Socket.{Socket, new_socket, no_id, tcp_client}

-- What getsockname() and inet_ntoa() say of the near end.
pub record LocalEnd : Type 0 where
  pub ip : ℕ
  pub ipstr : List ℕ
  pub port : ℕ

-- The answers to the calls of one MakeConnection, in their order.
pub record Answers : Type 0 where
  pub socket_fd : Option ℕ
  pub server_ip : Option ℕ
  pub connected : Bool
  pub local_end : Option LocalEnd

-- The Socket that MakeConnection fills in.
unfoldable pub client_socket : ℕ → List ℕ → ℕ → ℕ → LocalEnd → Socket
unfolding new_socket
client_socket fd ip port server_ip e = record (new_socket fd) {
  my_ipstr = e.ipstr;
  my_ip = e.ip;
  my_port = e.port;
  peer_ip = server_ip;
  peer_ipstr = ip;
  peer_port = port;
  id = no_id;
  type_ = tcp_client;
}

-- The result of MakeConnection, and the descriptors that are open after it.
pub record Made : Type 0 where
  pub made : Option Socket
  pub opened : List ℕ

-- After connect(): getsockname().
with_local_end : ℕ → List ℕ → ℕ → ℕ → Option LocalEnd → Option Socket
with_local_end fd ip port server_ip none = none
with_local_end fd ip port server_ip (some e) = some (client_socket fd ip port server_ip e)

-- After socket(): inet_aton() and connect().
with_server_ip : ℕ → List ℕ → ℕ → Answers → Option ℕ → Option Socket
with_server_ip fd ip port a none = none
with_server_ip fd ip port a (some server_ip) =
    if a.connected then with_local_end fd ip port server_ip a.local_end else none

with_fd : List ℕ → ℕ → Answers → List ℕ → Option ℕ → Made
unfolding with_server_ip
with_fd ip port a opened none = record { made = none; opened = opened }
with_fd ip port a opened (some fd) = record {
  made = with_server_ip fd ip port a a.server_ip;
  opened = fd ∷ opened;
}

unfoldable pub make_connection : List ℕ → ℕ → Answers → List ℕ → Made
unfolding with_fd with_server_ip with_local_end client_socket
make_connection ip port a opened = with_fd ip port a opened a.socket_fd

-- A socket that it returns is a client socket to the address asked for, on a descriptor that the
-- system has just given and that is now open.
pub make_connection-peer :
    (ip : List ℕ) (port : ℕ) (a : Answers) (opened : List ℕ) (s : Socket)
    → (make_connection ip port a opened).made ≡ some s
    → (s.peer_ipstr ≡ ip)
      × (s.peer_port ≡ port)
      × (s.type_ ≡ tcp_client)
      × ((make_connection ip port a opened).opened ≡ s.sk ∷ opened)
unfolding make_connection
make_connection-peer ip port a opened s h = ground arith

-- Where socket() has given a descriptor and a later call fails, no Socket is returned and the
-- descriptor stays open, with nobody left to close it.
pub make_connection_leaks :
    (ip : List ℕ) (port : ℕ) (a : Answers) (opened : List ℕ) (fd : ℕ)
    → a.socket_fd ≡ some fd
    → (a.server_ip ≡ none) ⊎ (a.connected ≡ false) ⊎ (a.local_end ≡ none)
    → ((make_connection ip port a opened).made ≡ none)
      × ((make_connection ip port a opened).opened ≡ fd ∷ opened)
unfolding make_connection
make_connection_leaks ip port a opened fd e fails = ground arith

-- SocketIO::UDPSend: the address, then what sendto() returns.
unfoldable pub udp_send : Option ℕ → ℤ → ℤ
udp_send none ret = minus_one
udp_send (some to_ip) ret = if leb_ℤ ret (pos 0) then minus_one else pos 0

-- SocketIO::MakeUDPSocket, with the descriptor that socket() gives.
abbrev pub make_udp_socket : Option ℕ → ℤ
make_udp_socket none = minus_one
make_udp_socket (some fd) = pos fd

-- The limits of SocketIO.
abbrev pub max_udp_pkt_size : ℕ
max_udp_pkt_size = 2048

abbrev pub max_tcp_pkt_size : ℕ
max_tcp_pkt_size = 2 * 1024 * 1024

-- SocketIO::UDPRecv: the datagram that recvfrom() puts in the buffer of 65535 bytes, or an error.
unfoldable pub udp_recv : Option (List ℕ × List ℕ × ℕ) → Option (List ℕ × List ℕ × ℕ)
udp_recv none = none
udp_recv (some ([], from_ip, from_port)) = none
udp_recv (some (b ∷ bytes, from_ip, from_port)) = some (take 65535 (b ∷ bytes), from_ip, from_port)
