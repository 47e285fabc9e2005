-- ===== src/Tests/Server.antt =====
-- all-sync/server.hpp on small inputs: one listen socket, one connection.
use kknf.Base.{
  Bool, ◌+◌, ◌≤◌, ◌≡◌, ◌≢◌, refl, inl, inr, List, [], ◌∷◌, ◌++◌, none, true, false, arith,
  get_elem?,
}
use kknf.Base.Int.{pos}
use kknf.Nf.Addr.{Packet}
use kknf.Nf.Socket.{Socket}
use kknf.Nf.Server.{Server, push, insert_server_ready_socket, insert_at}
use kknf.Nf.Server.Poll.{
  Event, Answers, done, aborts, epoll_process, process_in, apply_result, poll_events,
  process_events, epoll_del, insert_ready,
}
use kknf.Nf.Server.Mass.{has, total}
use kknf.Nf.Server.Flush.{extended}
use kknf.Nf.Server.Ready.{ready_at, poll_events-ready}
use kknf.Nf.Server.Packets.{Call, insert, get, inserted, run, run-in_order}
use kknf.Nf.Server.Loop.{epoll_loop-no_abort}
use kknf.Nf.Server.Timer.{Wait, timed_out, reported, broken, epoll_loop}
use kknf.Nf.Server.System.{System, wake, event, Reach, start, later, uses}
use kknf.Nf.Server.System.Process.{made, total_all, event-total}
use kknf.Nf.Server.System.Exclusive.{Inv, Reach-exclusive}

abbrev listener : Socket
listener = record {
  sk = 3;
  my_ipstr = 49 ∷ [];
  my_ip = 1;
  my_port = 80;
  peer_ipstr = [];
  peer_ip = 0;
  peer_port = 0;
  id = 0;
  type_ = 1;
}

abbrev connection : Socket
connection = record listener {
  sk = 7;
  peer_ipstr = 50 ∷ [];
  peer_ip = 2;
  peer_port = 5000;
  type_ = 2;
}

abbrev serving : Server
serving = record {
  listen_sockets = listener ∷ [];
  udp_socket = none;
  udp_recv = [];
  ready = [] ∷ [];
  reuse = [];
  local_socket = record listener { sk = 4; type_ = 4 };
  notes = 0;
  timer_interval = pos 1000;
  epoll_cancel = false;
  epoll = listener ∷ connection ∷ [];
  closed = [];
}

abbrev nothing : Answers
nothing = record { can_add = λ fd. true; accepts = []; datagrams = []; local_recvs = [] }

abbrev on_connection : Event
on_connection = record { sk = connection; err = false; readable = true; rdhup = false }

abbrev round : List (Event × Answers)
round = (on_connection, nothing) ∷ []

abbrev after_round : Server
after_round = record serving { epoll = listener ∷ []; ready = (connection ∷ []) ∷ [] }

round_done : poll_events round serving ≡ done (pos 0) after_round []
unfolding poll_events process_events epoll_process process_in apply_result push
    insert_server_ready_socket insert_at epoll_del insert_ready
round_done = ground arith

poll_events-ready_example :
    get_elem? after_round.ready 0 ≡ extended (ready_at 0 round) (get_elem? serving.ready 0)
poll_events-ready_example = poll_events-ready round serving after_round (pos 0) [] 0 round_done

abbrev s0 : System
s0 = record { srv = serving; batch = []; pending = []; held = [] }

first_Inv : Inv s0
first_Inv = record { once = λ fd. ground arith; registered = tt }

abbrev s2 : System
s2 = record s0 { srv = record serving { epoll = listener ∷ [] }; batch = (0, connection ∷ []) ∷ [] }

connection_event :
    epoll_process on_connection nothing serving []
    ≡ done (pos 1) serving ((0, connection ∷ []) ∷ [])
unfolding epoll_process process_in push
connection_event = refl

two_steps : Reach s0 s2
unfolding apply_result
two_steps = later (later start (wake (on_connection ∷ []) refl refl (inr (inl refl), tt, tt))) (
    event on_connection nothing [] (pos 1) serving ((0, connection ∷ []) ∷ []) refl tt
      connection_event)

Reach-exclusive_example : uses 7 s2 ≤ 1
Reach-exclusive_example = Reach-exclusive s0 s2 first_Inv two_steps 7

event-total_example :
    total_all (has 7) (apply_result connection (pos 1) serving) ((0, connection ∷ []) ∷ [])
    ≡ total_all (has 7) serving [] + total (has 7) (made on_connection nothing)
event-total_example =
    event-total (has 7) on_connection nothing serving [] (pos 1) serving ((0, connection ∷ []) ∷ [])
      connection_event (inr (inl refl)) (ground arith)

abbrev packet : Packet
packet = record {
  from_ = record { ip = 50 ∷ []; port = 53 };
  to_ = record { ip = 49 ∷ []; port = 80 };
  bytes = 1 ∷ 2 ∷ [];
}

abbrev calls : List Call
calls = get ∷ insert (packet ∷ packet ∷ []) ∷ get ∷ []

run-in_order_example :
    (run calls serving).0 ++ (run calls serving).1.udp_recv ≡ serving.udp_recv ++ inserted calls
run-in_order_example = run-in_order calls serving

abbrev waits : List (Bool × Wait)
waits =
    (false, timed_out)
    ∷ (
      false,
      reported round (record { tv_sec = 5; tv_usec = 0 }) (record { tv_sec = 5; tv_usec = 2000 }),
    )
    ∷ (true, timed_out)
    ∷ []

epoll_loop-no_abort_example : epoll_loop waits (pos 1000) serving ≢ broken aborts
epoll_loop-no_abort_example =
    epoll_loop-no_abort waits (pos 1000) serving
      (tt, (((omega arith, omega arith, λ e. omega arith), tt), (tt, tt)))
