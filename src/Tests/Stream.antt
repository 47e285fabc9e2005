-- ===== src/Tests/Stream.antt =====
-- TCPSend and TCPRecv of all-sync on small inputs.
use kknf.Base.{ℕ, ◌≡◌, List, [], ◌∷◌, ◌++◌, some, arith}
use kknf.Base.Int.{pos}
use kknf.Nf.Stream.{SendAnswer, took, RecvAnswer, gave, tcp_send, tcp_recv, frame}
use kknf.Nf.Stream.Sent.{tcp_send-returns}
use kknf.Nf.Stream.RoundTrip.{tcp_recv-tcp_send}

abbrev packet : List ℕ
packet = 10 ∷ 20 ∷ 30 ∷ []

abbrev sends : List SendAnswer
sends = took 2 ∷ took 1 ∷ took 4 ∷ took 1 ∷ took 1 ∷ took 1 ∷ took 1 ∷ []

abbrev recvs : List RecvAnswer
recvs = gave 3 ∷ gave 9 ∷ gave 1 ∷ gave 1 ∷ gave 5 ∷ gave 5 ∷ gave 5 ∷ []

tcp_send-returns_example :
    ((tcp_send (some packet) sends).code ≡ some (pos 0))
    × ((tcp_send (some packet) sends).taken ≡ packet)
tcp_send-returns_example = tcp_send-returns packet sends (ground arith) (omega arith)

tcp_recv-tcp_send_example :
    tcp_recv 100 [] recvs ((tcp_send (some (frame packet)) sends).taken ++ 99 ∷ [])
    ≡ record { code = some (pos 0); buf = packet; wire = 99 ∷ [] }
tcp_recv-tcp_send_example =
    tcp_recv-tcp_send 100 [] packet (99 ∷ []) sends recvs (omega arith) (omega arith) (omega arith)
      (ground arith) (omega arith) (ground arith) (omega arith)
