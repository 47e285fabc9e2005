-- ===== src/Tests/Front.antt =====
-- all-sync/test_bf.cc, test_bb1.cc and test_multi_pool_server.cc on small inputs: one connection, and
-- backends that are connected to.
use kknf.Base.{ℕ, ◌≡◌, refl, List, [], ◌∷◌, some, none, true, false, replicate, arith}
use kknf.Base.Int.{pos}
use kknf.Base.Map.{find}
use kknf.Nf.Socket.{Socket}
use kknf.Nf.Connect
use kknf.Nf.Connect.{make_connection, client_socket}
use kknf.Nf.Stream.{SendAnswer, took, RecvAnswer, gave, frame, tcp_recv}
use kknf.Nf.Pool.{Got, no_sockets, get_idle_client_socket, get_client_socket}
use kknf.Nf.Wait.{woke, readable, Waiting}
use kknf.Nf.Server.{Server, got, get_server_ready_socket, insert_server_reuse_socket}
use kknf.Nf.Worker.{Worker, Incoming, ended, take_ready_socket, receive}
use kknf.Nf.Front.{receive_request, Round, Request, process, bb1_port, bb2_port, backend_ip}
use kknf.Nf.Front.Keeps.{Returned, process-Returned}
use kknf.Nf.Front.Parts.{request_of}
use kknf.Nf.Backend
use kknf.Nf.Backend.{ReqBb1, one_more}

abbrev pub connection : Socket
connection = record {
  sk = 7;
  my_ipstr = 49 ∷ [];
  my_ip = 1;
  my_port = 80;
  peer_ipstr = 50 ∷ [];
  peer_ip = 2;
  peer_port = 5000;
  id = 0;
  type_ = 2;
}

abbrev pub empty : Server
empty = record {
  listen_sockets = [];
  udp_socket = none;
  udp_recv = [];
  ready = [] ∷ [];
  reuse = [];
  local_socket = record connection { sk = 4; type_ = 4 };
  notes = 0;
  timer_interval = pos 1000;
  epoll_cancel = false;
  epoll = [];
  closed = [];
}

abbrev pub asked_server : Server
asked_server = record empty { ready = (connection ∷ []) ∷ [] }

abbrev pub worker : Worker
worker = record {
  srv = asked_server;
  client = no_sockets;
  interest = [];
  closed = [];
  opened = [];
  sent = [];
  datagrams = [];
}

abbrev near : Connect.LocalEnd
near = record { ip = 1; ipstr = 49 ∷ []; port = 5000 }

abbrev pub connects : ℕ → Connect.Answers
connects fd = record {
  socket_fd = some fd;
  server_ip = some 2;
  connected = true;
  local_end = some near;
}

abbrev pub backend_socket : ℕ → ℕ → Socket
backend_socket fd port = record {
  sk = fd;
  my_ipstr = 49 ∷ [];
  my_ip = 1;
  my_port = 5000;
  peer_ipstr = backend_ip;
  peer_ip = 2;
  peer_port = port;
  id = 0xffffffff;
  type_ = 5;
}

abbrev pub one : Socket
one = backend_socket 8 bb1_port

abbrev pub two : Socket
two = backend_socket 9 bb2_port

abbrev pub got_one : Got
got_one = record { client = no_sockets; socket = some one; opened = 8 ∷ [] }

abbrev pub got_two : Got
got_two = record { client = no_sockets; socket = some two; opened = 9 ∷ 8 ∷ [] }

abbrev pub bytes : List SendAnswer
bytes = replicate 16 (took 1)

abbrev pub reads : List RecvAnswer
reads = replicate 20 (gave 30)

abbrev pub request : Request
request = record { seq = 5; a = 40; b = 70 }

-- The round of a backend over `sk` that gets the packet.
abbrev serving : ReqBb1 → Backend.Round
serving p = record {
  request = record { answers = reads; wire = frame (Backend.packet p) };
  answer = bytes;
  note = pos 1;
}

abbrev served : ReqBb1 → Worker
served p = record worker {
  srv = (insert_server_reuse_socket 0 connection (pos 1) empty).0;
  sent = (connection, frame (Backend.packet (one_more p))) ∷ [];
}

abbrev reply : ReqBb1 → Incoming
reply p = record { answers = reads; wire = frame (Backend.packet (one_more p)) }

abbrev pub round : Round
round = record {
  request = record { answers = reads; wire = frame (request_of 5 40 70) };
  bb1 = record { connect = connects 8; sends = bytes };
  bb2 = record { connect = connects 9; sends = bytes };
  can_add = λ fd. true;
  wakes = woke ((readable, 0) ∷ (readable, 1) ∷ []) ∷ [];
  reply1 = reply (record { seq = 5; a = 40 });
  reply2 = reply (record { seq = 5; a = 70 });
  answer = bytes;
  note = pos 1;
}

pub taken : get_server_ready_socket 0 asked_server ≡ got empty connection
unfolding get_server_ready_socket
taken = refl

pub first_got : get_idle_client_socket backend_ip bb1_port (connects 8) [] no_sockets ≡ some got_one
unfolding get_idle_client_socket get_client_socket make_connection client_socket find
first_got = refl

pub second_got :
    get_idle_client_socket backend_ip bb2_port (connects 9) (8 ∷ []) no_sockets ≡ some got_two
unfolding get_idle_client_socket get_client_socket make_connection client_socket find
second_got = refl

abbrev waited : Waiting
waited = record { triggered = 0 ∷ 1 ∷ []; errors = []; interest = [] }

-- The client's connection has been closed by its peer.
abbrev broken : Round
broken = record round { request = record { answers = gave 0 ∷ []; wire = [] } }

abbrev dropped : Worker
dropped = record worker { srv = record empty { closed = connection ∷ [] } }

broken_done : process 0 broken worker ≡ ended dropped
unfolding process take_ready_socket get_server_ready_socket receive_request receive tcp_recv
broken_done = ground arith

process-Returned_example : Returned 0 connection (pos 1) empty dropped.srv
process-Returned_example =
    process-Returned 0 broken worker dropped empty connection taken broken_done
