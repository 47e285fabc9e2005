-- ===== src/Tests/Client.antt =====
-- all-sync/client.hpp, socketio.hpp and socketaddr.hpp on small inputs.
use kknf.Base.{◌≡◌, refl, List, [], ◌∷◌, some, none, true, arith}
use kknf.Base.Int.{pos}
use kknf.Nf.Addr.{SocketAddr}
use kknf.Nf.Socket.{Socket}
use kknf.Nf.Connect.{Answers, LocalEnd}
use kknf.Nf.Pool.{no_sockets, get_idle_client_socket, Got}
use kknf.Nf.Pool.Laws.{IsValid, Filed, ComesFrom, no_sockets-IsValid, get_idle_client_socket-peer}
use kknf.Nf.Pool.Refines.{Call, insert, get, run, spec_run, pool-refines-queues}
use kknf.Nf.Wait.{woke, readable, tcp_wait_to_read, add_all}
use kknf.Nf.Wait.Registers.{tcp_wait_to_read-ignores_fds}
use kknf.Nf.Wait.Returns.{CodeIsRight, tcp_wait_to_read-CodeIsRight}

abbrev near : LocalEnd
near = record { ip = 1; ipstr = 49 ∷ []; port = 5000 }

abbrev first : Socket
first = record {
  sk = 7;
  my_ipstr = 49 ∷ [];
  my_ip = 1;
  my_port = 5000;
  peer_ipstr = 50 ∷ [];
  peer_ip = 2;
  peer_port = 80;
  id = 0xffffffff;
  type_ = 5;
}

abbrev second : Socket
second = record first { sk = 8; my_port = 5001 }

abbrev calls : List Call
calls = insert first ∷ insert second ∷ get (50 ∷ []) 80 ∷ get (50 ∷ []) 81 ∷ get (50 ∷ []) 80 ∷ []

pool-refines-queues_example : run calls no_sockets ≡ some (spec_run calls (λ a. []))
pool-refines-queues_example = pool-refines-queues calls

abbrev far : SocketAddr
far = record { ip = 50 ∷ []; port = 80 }

abbrev connects : Answers
connects = record {
  socket_fd = some 7;
  server_ip = some 2;
  connected = true;
  local_end = some near;
}

get_idle_client_socket-peer_example :
    (g : Got) × (get_idle_client_socket far.ip far.port connects [] no_sockets ≡ some g)
    × IsValid g.client
    × Filed far g.socket
    × ComesFrom far connects [] no_sockets g
get_idle_client_socket-peer_example =
    get_idle_client_socket-peer far connects [] no_sockets no_sockets-IsValid

abbrev both : List Socket
both = first ∷ second ∷ []

both_added : (add_all (λ fd. true) both 0 [] []).1 ≡ none
unfolding add_all
both_added = refl

tcp_wait_to_read-CodeIsRight_example :
    CodeIsRight
      (woke ((readable, 1) ∷ []) ∷ [])
      1
      (tcp_wait_to_read (λ fd. true) (woke ((readable, 1) ∷ []) ∷ []) both [] [] 1 (pos 100) [])
tcp_wait_to_read-CodeIsRight_example =
    tcp_wait_to_read-CodeIsRight (λ fd. true) (woke ((readable, 1) ∷ []) ∷ []) both [] [] 1
      (pos 100) [] (omega arith) (omega arith) both_added

tcp_wait_to_read-ignores_fds_example :
    tcp_wait_to_read (λ fd. true) (woke ((readable, 1) ∷ []) ∷ []) both [] [] 1 (pos 100) []
    ≡ tcp_wait_to_read
        (λ fd. true)
        (woke ((readable, 1) ∷ []) ∷ [])
        (second ∷ second ∷ [])
        []
        []
        1
        (pos 100)
        []
tcp_wait_to_read-ignores_fds_example =
    tcp_wait_to_read-ignores_fds (λ fd. true) (woke ((readable, 1) ∷ []) ∷ []) both
      (second ∷ second ∷ []) [] [] 1 (pos 100) [] refl
