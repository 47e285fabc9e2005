-- ===== src/Nf/Pools/Numbers.antt =====
-- What the workers for numbers answer.
use kknf.Base.{ℕ, ◌^◌, ◌≡◌, ◌<◌, ◌∙◌, List, [], ◌∷◌, ◌++◌, arith}
use kknf.Nf.Socket.{Socket}
use kknf.Nf.Stream.{frame, htonl, ntohl}
use kknf.Nf.Server.{Server, got, get_server_ready_socket, insert_server_reuse_socket}
use kknf.Nf.Worker.{Worker, next, ended, receive, send, take_ready_socket}
use kknf.Nf.Worker.Calls.{
  Brings, Carries, receive-Brings, send-Carries, >>=-next, take_ready_socket-got,
}
use kknf.Nf.Pools.{Number, Round, rsp_format, read_number, answer_number, process_number}

-- ReqFormat1.
abbrev pub req_format1 : Number → List ℕ
req_format1 n = htonl 12 ++ htonl n.seq ++ htonl n.num

read_number-req_format1 :
    (n : Number) (f : Worker)
    → n.seq < 2 ^ 32
    → n.num < 2 ^ 32
    → read_number 4 (req_format1 n) f ≡ next n f
unfolding read_number
read_number-req_format1 n f hs hn =
    let s : ntohl (htonl n.seq ++ htonl n.num) ≡ n.seq = omega arith in
    let x : ntohl (htonl n.num) ≡ n.num = omega arith in ground arith

answer_number-Carries :
    (index : ℕ) (r : Round) (sk : Socket) (n : Number) (f : Worker)
    → Carries 16 r.answer
    → answer_number index r sk n f
      ≡ ended (record f {
        srv = (insert_server_reuse_socket index sk r.note f.srv).0;
        sent = f.sent ++ (sk, frame (rsp_format n)) ∷ [];
      })
unfolding answer_number
answer_number-Carries index r sk n f c =
    >>=-next (send sk (frame (rsp_format n)) r.answer) _ f
      (send-Carries sk (frame (rsp_format n)) r.answer f (unfold frame in c))

-- A round that takes the socket `sk` with a packet sends back the same `seq_` and one more than the
-- number, in 32 bits, and hands the socket back.
pub process_number-answers :
    (index : ℕ) (r : Round) (f : Worker) (srv : Server) (sk : Socket) (n : Number)
    → n.seq < 2 ^ 32
    → n.num < 2 ^ 32
    → get_server_ready_socket index f.srv ≡ got srv sk
    → Brings (req_format1 n) r.request
    → Carries 16 r.answer
    → process_number index r f
      ≡ ended (record f {
        srv = (insert_server_reuse_socket index sk r.note srv).0;
        sent = f.sent ++ (sk, frame (rsp_format n)) ∷ [];
      })
unfolding process_number
process_number-answers index r f srv sk n hs hn e h c =
    >>=-next (take_ready_socket index) _ f (take_ready_socket-got index f srv sk e)
    ∙ >>=-next (receive r.request) _ (record f { srv = srv })
        (receive-Brings (req_format1 n) r.request (record f { srv = srv }) (omega arith)
          (omega arith) h)
    ∙ >>=-next (read_number 4 (req_format1 n)) (answer_number index r sk) (record f { srv = srv })
        (read_number-req_format1 n (record f { srv = srv }) hs hn)
    ∙ answer_number-Carries index r sk n (record f { srv = srv }) c
