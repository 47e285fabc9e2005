-- ===== src/Tests/Callers.antt =====
-- The main functions of all-sync/test_multi_pool_server.cc and test_multi_pool_client.cc on small inputs.
use kknf.Base.{ℕ, ◌≡◌, ◌≤◌, ◌-◌, ◌^◌, ◌++◌, refl, List, [], ◌∷◌, some, true, arith, take}
use kknf.Base.Int.{pos}
use kknf.Base.Map.{find, assign}
use kknf.Nf.Connect.{make_connection, client_socket}
use kknf.Nf.Stream.{took, gave, frame, htonl, tcp_send}
use kknf.Nf.Pool.{
  Client, Got, no_sockets, get_idle_client_socket, get_client_socket, insert_client_socket,
}
use kknf.Nf.Server.{insert_server_reuse_socket}
use kknf.Nf.Server.Start.{
  new_server, init_server, BindAnswers, add_listen_socket, init_udp_socket, run_server,
}
use kknf.Nf.Server.System.{start, uses}
use kknf.Nf.Worker.{Worker, Incoming, ended}
use kknf.Nf.Front.{Asking}
use kknf.Nf.Pools
use kknf.Nf.Pools.{
  process_line, process_number, rsp_format, Number, you_sent, cmd_line, c_string, tcp_recv_line,
}
use kknf.Nf.Pools.Numbers.{req_format1, process_number-answers}
use kknf.Nf.Socket.{new_socket}
use kknf.Nf.Main.{SetUp, my_ip, set_up_pools}
use kknf.Nf.Main.Exclusive.{given_in, started, set_up_pools-exclusive}
use kknf.Nf.Callers.{
  Caller, went_on, call_numbers, numbers, call_line, hello_world, line_reply, call, call_over,
  give_back,
}
use kknf.Nf.Callers.Numbers.{call_numbers-process_number}
use kknf.Nf.Callers.Rounds.{Callers, Answers, rounds, round, later_calls, last_call}
use kknf.Tests.Front.{worker, connection, empty, taken, bytes, reads, connects, backend_socket}

abbrev bind : ℕ → BindAnswers
bind fd = record { socket_fd = some fd; ip = some 1; bound = true; listening = true }

abbrev set_up : SetUp
set_up = record {
  numbers = bind 3;
  lines = bind 4;
  datagrams = bind 5;
  created = true;
  pair = some 6;
  memory = some (new_socket 9);
}

once : (x : ℕ) → given_in x set_up ≤ 1
once x = ground arith

all_taken : (run_server (λ fd. true) (set_up_pools set_up)).1 ≡ pos 0
unfolding run_server set_up_pools add_listen_socket init_udp_socket init_server new_server
all_taken = ground arith

set_up_pools-exclusive_example :
    uses 3 (started (run_server (λ fd. true) (set_up_pools set_up)).0) ≤ 1
set_up_pools-exclusive_example =
    set_up_pools-exclusive set_up 6 (λ fd. true)
      (started (run_server (λ fd. true) (set_up_pools set_up)).0) 3 ((5, refl), (1, refl), refl)
      refl refl once all_taken start

abbrev caller : Caller
caller = record { client = no_sockets; opened = []; sent = []; datagrams = [] }

abbrev asking : ℕ → Asking
asking fd = record { connect = connects fd; sends = bytes }

abbrev to_numbers : Got
to_numbers = record { client = no_sockets; socket = some (backend_socket 8 20031); opened = 8 ∷ [] }

numbers_got : get_idle_client_socket my_ip 20031 (connects 8) [] no_sockets ≡ some to_numbers
unfolding get_idle_client_socket get_client_socket make_connection client_socket find
numbers_got = refl

abbrev in_pool : ℕ → ℕ → Client
in_pool fd port = record {
  idle = (record { ip = my_ip; port = port }, backend_socket fd port ∷ []) ∷ [];
}

numbers_back : insert_client_socket (backend_socket 8 20031) no_sockets ≡ some (in_pool 8 20031)
unfolding insert_client_socket find assign
numbers_back = refl

abbrev worker_round : Pools.Round
worker_round = record {
  request = record { answers = reads; wire = frame (req_format1 (numbers 7)) };
  answer = bytes;
  note = pos 1;
}

abbrev worker_after : Worker
worker_after = record worker {
  srv = (insert_server_reuse_socket 0 connection (pos 1) empty).0;
  sent = (connection, frame (rsp_format (numbers 7))) ∷ [];
}

worker_done : process_number 0 worker_round worker ≡ ended worker_after
unfolding frame
worker_done =
    process_number-answers 0 worker_round worker empty connection (numbers 7) (omega arith)
      (omega arith) taken ([], refl, ground arith, omega arith) (ground arith, omega arith)

abbrev reply : Incoming
reply = record { answers = reads; wire = frame (rsp_format (numbers 7)) }

abbrev after_numbers : Caller
after_numbers = record caller {
  client = in_pool 8 20031;
  opened = 8 ∷ [];
  sent = (backend_socket 8 20031, frame (req_format1 (numbers 7))) ∷ [];
}

call_numbers-process_number_example :
    call_numbers 7 (asking 8) reply caller
    ≡ went_on (record { seq = 7; num = 2 ^ 32 - 7 }) after_numbers
unfolding frame
call_numbers-process_number_example =
    call_numbers-process_number 7 0 (asking 8) reply caller to_numbers (backend_socket 8 20031)
      (in_pool 8 20031) worker_round worker worker_after empty connection numbers_got refl
      (ground arith, omega arith) taken ([], refl, ground arith, omega arith)
      (ground arith, omega arith) worker_done
      (frame (rsp_format (numbers 7)), [], refl, refl, ground arith, omega arith) numbers_back

-- One round: the answer to the line, and the datagram that comes back.
abbrev line_answer : List ℕ
line_answer = you_sent ++ hello_world

abbrev datagram : List ℕ
datagram = rsp_format (numbers 9)

abbrev answers : Answers
answers = record {
  numbers = asking 8;
  number_came = reply;
  line = record { connect = connects 9; sends = took 20 ∷ [] };
  line_came = gave 40;
  line_wire = line_answer;
  udp_fd = some 10;
  to_ip = some 1;
  udp_sent = pos 8;
  datagram = some (datagram, my_ip, 20033);
}

abbrev callers : Callers
callers = record { one = caller; two = caller; three = caller; seq = 7 }

abbrev after_line : Caller
after_line = record caller {
  client = in_pool 9 20032;
  opened = 9 ∷ [];
  sent = (backend_socket 9 20032, hello_world) ∷ [];
}

abbrev after_datagram : Caller
after_datagram = record caller {
  opened = 10 ∷ [];
  datagrams = (record { ip = my_ip; port = 20033 }, htonl 9 ++ htonl (2 ^ 32 - 10)) ∷ [];
}

line_called :
    call_line answers.line (line_reply answers.line_came answers.line_wire) caller
    ≡ went_on (you_sent ++ take 12 hello_world) after_line
unfolding call_line call call_over line_reply tcp_recv_line tcp_send cmd_line c_string give_back
    get_idle_client_socket get_client_socket make_connection client_socket insert_client_socket find
    assign
line_called = ground arith

abbrev after_round : Callers
after_round = record { one = after_numbers; two = after_line; three = after_datagram; seq = 11 }

rounds_done : rounds (answers ∷ []) callers ≡ went_on tt after_round
unfolding rounds round later_calls last_call
rounds_done = rw call_numbers-process_number_example (rw line_called refl)
