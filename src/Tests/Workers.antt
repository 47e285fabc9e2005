-- ===== src/Tests/Workers.antt =====
-- The rounds of all-sync/test_bf.cc in which a call fails, and the workers for lines of
-- test_multi_pool_server.cc, on small inputs.
use kknf.Base.{ℕ, ◌≡◌, refl, List, [], ◌∷◌, some, none, false, arith}
use kknf.Base.Int.{pos}
use kknf.Base.Map.{find}
use kknf.Nf.Connect.{make_connection, client_socket}
use kknf.Nf.Stream.{frame}
use kknf.Nf.Pool.{Got, no_sockets, get_idle_client_socket, get_client_socket}
use kknf.Nf.Wait.{tcp_wait_to_read, add_all, ctl_del, roll_back}
use kknf.Nf.Server.{insert_server_reuse_socket}
use kknf.Nf.Worker.{Worker, next, ended, ◌>>=◌}
use kknf.Nf.Front.{Round, serve, ask, wait_replies, wait, bb1_port, bb2_port, backend_ip, packet_of}
use kknf.Nf.Front.Backends.{BothKept, serve-BothKept}
use kknf.Nf.Front.Parts.{asked, ask-asked}
use kknf.Tests.Front.{
  connection, asked_server, worker, connects, one, two, got_one, got_two, bytes, request, round,
  first_got, second_got,
}

-- epoll takes no descriptor.
abbrev refuses : Round
refuses = record round { can_add = λ fd. false }

abbrev asked_one : Worker
asked_one = asked (packet_of 5 40) one got_one worker

abbrev asked_two : Worker
asked_two = asked (packet_of 5 70) two got_two asked_one

one_asked : ask 0 connection (pos 1) bb1_port (packet_of 5 40) round.bb1 worker ≡ next one asked_one
unfolding frame
one_asked =
    ask-asked 0 connection (pos 1) bb1_port (packet_of 5 40) round.bb1 worker got_one one first_got
      refl (ground arith, omega arith)

two_asked :
    ask 0 connection (pos 1) bb2_port (packet_of 5 70) round.bb2 asked_one ≡ next two asked_two
unfolding frame
two_asked =
    ask-asked 0 connection (pos 1) bb2_port (packet_of 5 70) round.bb2 asked_one got_two two
      second_got refl (ground arith, omega arith)

abbrev given_up : Worker
given_up = record asked_two {
  srv = (insert_server_reuse_socket 0 connection (pos 1) asked_server).0;
  closed = one ∷ two ∷ [];
}

refuses_done : serve 0 connection refuses request worker ≡ ended given_up
unfolding serve wait_replies wait tcp_wait_to_read add_all ctl_del roll_back
refuses_done = rw (one_asked, ◌>>=◌) (rw (two_asked, ◌>>=◌) ground arith)

serve-BothKept_example : BothKept one two asked_two given_up
serve-BothKept_example =
    serve-BothKept 0 connection refuses request worker asked_one asked_two given_up one two
      one_asked two_asked refuses_done

-- BB2 refuses the connection.
abbrev half : Round
half = record round {
  bb2 = record { connect = record (connects 9) { connected = false }; sends = bytes };
}

abbrev got_none : Got
got_none = record { client = no_sockets; socket = none; opened = 9 ∷ 8 ∷ [] }

none_got :
    get_idle_client_socket backend_ip bb2_port half.bb2.connect (8 ∷ []) no_sockets ≡ some got_none
unfolding get_idle_client_socket get_client_socket make_connection client_socket find
none_got = refl

abbrev line : List ℕ
line = b'h' ∷ b'i' ∷ []
