-- ===== src/Nf/Main.antt =====
-- all-sync/test_*.cc: what the main functions make of a Server before its threads start. The results of
-- the calls are not read.
pub mod Exclusive
pub mod Shifted
use kknf.Base.{ℕ, List, [], ◌∷◌, Option, Bool}
use kknf.Base.Int.{pos}
use kknf.Nf.Socket.{Socket}
use kknf.Nf.Server.{Server}
use kknf.Nf.Server.Start.{new_server, init_server, BindAnswers, add_listen_socket, init_udp_socket}

-- "127.0.0.1".
abbrev pub my_ip : List ℕ
my_ip = b'1' ∷ b'2' ∷ b'7' ∷ b'.' ∷ b'0' ∷ b'.' ∷ b'0' ∷ b'.' ∷ b'1' ∷ []

-- What the system answers while test_multi_pool_server.cc sets its Server up, and what stands in memory
-- where the constructor leaves `udp_socket_`.
pub record SetUp : Type 0 where
  pub numbers : BindAnswers
  pub lines : BindAnswers
  pub datagrams : BindAnswers
  pub created : Bool
  pub pair : Option ℕ
  pub memory : Option Socket

-- main() of test_multi_pool_server.cc: two listen sockets, the UDP socket, and InitServer.
unfoldable pub set_up_pools : SetUp → Server
set_up_pools a =
    let first = (add_listen_socket my_ip 20031 a.numbers (new_server a.memory (pos 10000))).0 in
    let second = (add_listen_socket my_ip 20032 a.lines first).0 in
    let third = (init_udp_socket my_ip 20033 a.datagrams second).0 in
    (init_server a.created a.pair third).0

-- main() of test_bf.cc, test_bb1.cc and test_bb2.cc, with the port 20021, 30021 or 30022. They call no
-- InitUDPSocket, so `udp_socket_` stays as it stands in memory.
unfoldable pub set_up_one : Option Socket → ℕ → BindAnswers → Bool → Option ℕ → Server
set_up_one memory port a created pair =
    let first = (add_listen_socket my_ip port a (new_server memory (pos 10000))).0 in
    (init_server created pair first).0
