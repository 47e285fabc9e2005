-- ===== src/Nf/Main/Shifted.antt =====
-- The server of all-sync/test_multi_pool_server.cc where its first socket cannot be listened to.
use kknf.Base.{ℕ, ◌≡◌, List, [], ◌∷◌, none, some, true, arith}
use kknf.Base.Int.{ℤ}
use kknf.Nf.Server.{get_server_ready_socket}
use kknf.Nf.Server.Start.{
  new_server, init_server, add_listen_socket, listen_socket, init_udp_socket,
}
use kknf.Nf.Stream.{SendAnswer, RecvAnswer}
use kknf.Nf.Worker.{Worker, ended, take_ready_socket}
use kknf.Nf.Pools.{process_line}
use kknf.Nf.Main.{SetUp, my_ip, set_up_pools}

-- Where the first AddListenSocket has no descriptor and the second one succeeds, the socket for lines
-- gets the index 0, of the workers for numbers, and a round of a worker for lines, which asks for the
-- index 1, ends at once with nothing changed, so such a worker goes round and round and answers nobody.
pub set_up_pools-shifts :
    (a : SetUp) (fd ip : ℕ) (note : ℤ) (answers : List SendAnswer) (came : RecvAnswer)
    (wire : List ℕ) (f : Worker)
    → a.numbers.socket_fd ≡ none
    → a.lines.socket_fd ≡ some fd
    → a.lines.ip ≡ some ip
    → a.lines.bound ≡ true
    → a.lines.listening ≡ true
    → f.srv ≡ set_up_pools a
    → ((set_up_pools a).listen_sockets ≡ listen_socket fd my_ip ip 20032 0 ∷ [])
      × ((set_up_pools a).ready ≡ [] ∷ [])
      × (process_line 1 note answers came wire f ≡ ended f)
unfolding set_up_pools add_listen_socket init_udp_socket init_server new_server process_line
    take_ready_socket get_server_ready_socket
set_up_pools-shifts a fd ip note answers came wire f e1 e2 e3 e4 e5 e6 = ground arith
