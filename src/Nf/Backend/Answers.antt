-- ===== src/Nf/Backend/Answers.antt =====
-- What a backend answers.
use kknf.Base.{ℕ, ◌^◌, ◌≡◌, ◌<◌, ◌∙◌, [], ◌∷◌, ◌++◌, arith}
use kknf.Nf.Socket.{Socket}
use kknf.Nf.Stream.{frame, htonl, ntohl}
use kknf.Nf.Server.{Server, got, get_server_ready_socket, insert_server_reuse_socket}
use kknf.Nf.Worker.{Worker, Incoming, next, ended, receive, send, take_ready_socket}
use kknf.Nf.Worker.Calls.{
  Brings, Carries, receive-Brings, send-Carries, >>=-next, take_ready_socket-got,
}
use kknf.Nf.Backend.{ReqBb1, packet, one_more, Round, read_packet, receive_packet, process}

read_packet-packet :
    (p : ReqBb1) (f : Worker) → p.seq < 2 ^ 32 → p.a < 2 ^ 32 → read_packet (packet p) f ≡ next p f
unfolding read_packet
read_packet-packet p f hs ha =
    let s : ntohl (htonl p.seq ++ htonl p.a) ≡ p.seq = omega arith in
    let a : ntohl (htonl p.a) ≡ p.a = omega arith in ground arith

receive_packet-Brings :
    (sk : Socket) (i : Incoming) (p : ReqBb1) (f : Worker)
    → p.seq < 2 ^ 32
    → p.a < 2 ^ 32
    → Brings (packet p) i
    → receive_packet sk i f ≡ next p f
unfolding receive_packet
receive_packet-Brings sk i p f hs ha h =
    >>=-next (receive i) _ f (receive-Brings (packet p) i f (omega arith) (omega arith) h)
    ∙ read_packet-packet p f hs ha

-- A round that takes the socket `sk` with a packet sends back the same `seq_` and one more than the
-- number, in 32 bits, and hands the socket back; nothing else of the worker's state changes.
pub process-answers_one_more :
    (index : ℕ) (r : Round) (f : Worker) (srv : Server) (sk : Socket) (p : ReqBb1)
    → p.seq < 2 ^ 32
    → p.a < 2 ^ 32
    → get_server_ready_socket index f.srv ≡ got srv sk
    → Brings (packet p) r.request
    → Carries 16 r.answer
    → process index r f
      ≡ ended (record f {
        srv = (insert_server_reuse_socket index sk r.note srv).0;
        sent = f.sent ++ (sk, frame (packet (one_more p))) ∷ [];
      })
unfolding process
process-answers_one_more index r f srv sk p hs ha e h c =
    >>=-next (take_ready_socket index) _ f (take_ready_socket-got index f srv sk e)
    ∙ >>=-next (receive_packet sk r.request) _ (record f { srv = srv })
        (receive_packet-Brings sk r.request p (record f { srv = srv }) hs ha h)
    ∙ >>=-next (send sk (frame (packet (one_more p))) r.answer) _ (record f { srv = srv })
        (send-Carries sk (frame (packet (one_more p))) r.answer (record f { srv = srv })
          (unfold frame in c))
