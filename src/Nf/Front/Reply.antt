-- ===== src/Nf/Front/Reply.antt =====
-- A round of Process() in which each call succeeds, from the client's request to its answer.
use kknf.Base.{ℕ, ◌+◌, ◌%◌, ◌^◌, ◌≡◌, ◌<◌, ◌∙◌, [], ◌∷◌, ◌++◌, some, append_assoc}
use kknf.Base.Int.{pos}
use kknf.Nf.Socket.{Socket}
use kknf.Nf.Stream.{frame}
use kknf.Nf.Pool.{Client, Got, insert_client_socket, get_idle_client_socket}
use kknf.Nf.Pool.Laws.{IsValid, insert_client_socket-IsValid}
use kknf.Nf.Wait.{Waiting, returned, tcp_wait_to_read}
use kknf.Nf.Server.{Server, got, get_server_ready_socket, insert_server_reuse_socket}
use kknf.Nf.Worker.{Worker, ended}
use kknf.Nf.Front.{
  Round, Request, ask, wait_replies, receive_value, receive_request, put_client_socket, serve,
  process, bb1_port, bb2_port, backend_ip, packet_of,
}
use kknf.Nf.Worker.Calls.{Brings, Carries, >>=-next}
use kknf.Nf.Front.Keeps.{process-taken}
use kknf.Nf.Front.Parts.{
  request_of, receive_request-Brings, receive_value-Brings, asked, ask-asked, wait_replies-ready,
  put_client_socket-some, answer-Carries, get_idle-IsValid,
}

-- The front after a round that answers.
abbrev pub answered :
    ℕ
    → Round
    → Worker
    → Server
    → Socket
    → Socket
    → Socket
    → Request
    → ℕ
    → ℕ
    → Got
    → Waiting
    → Client
    → Worker
answered index r f srv sk one two req a2 b2 g w c = record {
  srv = (insert_server_reuse_socket index sk r.note srv).0;
  client = c;
  interest = w.interest;
  closed = f.closed;
  opened = g.opened;
  sent =
      f.sent
      ++ (one, frame (packet_of req.seq req.a))
        ∷ (two, frame (packet_of req.seq req.b))
        ∷ (sk, frame (packet_of req.seq ((a2 + b2) % 2 ^ 32)))
        ∷ [];
  datagrams = f.datagrams;
}

-- From the request on.
serve-answers :
    (index : ℕ) (r : Round) (f : Worker) (srv : Server) (sk : Socket) (req : Request)
    (s1 a2 s2 b2 : ℕ) (g1 g2 : Got) (one two : Socket) (w : Waiting) (c1 c2 : Client)
    → a2 < 2 ^ 32
    → b2 < 2 ^ 32
    → get_idle_client_socket backend_ip bb1_port r.bb1.connect f.opened f.client ≡ some g1
    → g1.socket ≡ some one
    → Carries 16 r.bb1.sends
    → get_idle_client_socket backend_ip bb2_port r.bb2.connect g1.opened g1.client ≡ some g2
    → g2.socket ≡ some two
    → Carries 16 r.bb2.sends
    → tcp_wait_to_read r.can_add r.wakes (one ∷ two ∷ []) [] [] 2 (pos 1000) f.interest
      ≡ returned (pos 0) w
    → Brings (packet_of s1 a2) r.reply1
    → Brings (packet_of s2 b2) r.reply2
    → Carries 16 r.answer
    → insert_client_socket one g2.client ≡ some c1
    → insert_client_socket two c1 ≡ some c2
    → serve index sk r req (record f { srv = srv })
      ≡ ended (answered index r f srv sk one two req a2 b2 g2 w c2)
unfolding serve
serve-answers index r f srv sk req s1 a2 s2 b2 g1 g2 one two w c1 c2 ha2 hb2 e1 n1 t1 e2 n2 t2 ready
      reply1 reply2 t3 i1 i2 =
    let f1 : Worker = asked (packet_of req.seq req.a) one g1 (record f { srv = srv }) in
    let f2 : Worker = asked (packet_of req.seq req.b) two g2 f1 in
    let f3 : Worker = record f2 { interest = w.interest } in
    >>=-next (ask index sk r.note bb1_port (packet_of req.seq req.a) r.bb1) _ _
      (ask-asked index sk r.note bb1_port _ r.bb1 _ g1 one e1 n1 (unfold frame in t1))
    ∙ >>=-next (ask index sk r.note bb2_port (packet_of req.seq req.b) r.bb2) _ f1
        (ask-asked index sk r.note bb2_port _ r.bb2 f1 g2 two e2 n2 (unfold frame in t2))
    ∙ >>=-next (wait_replies index sk r one two) _ f2
        (wait_replies-ready index sk r one two f2 w ready)
    ∙ >>=-next (receive_value index sk r.note one two r.reply1) _ f3
        (receive_value-Brings index sk r.note one two r.reply1 f3 s1 a2 ha2 reply1)
    ∙ >>=-next (receive_value index sk r.note one two r.reply2) _ f3
        (receive_value-Brings index sk r.note one two r.reply2 f3 s2 b2 hb2 reply2)
    ∙ >>=-next (put_client_socket one) _ f3 (put_client_socket-some one f3 c1 i1)
    ∙ >>=-next (put_client_socket two) _ (record f3 { client = c1 })
        (put_client_socket-some two (record f3 { client = c1 }) c2 i2)
    ∙ answer-Carries index sk r req.seq a2 b2 (record f3 { client = c2 }) t3
    ∙ simp append_assoc

-- A round that takes the socket `sk` with the request (seq, a, b), finds or makes sockets to both
-- backends, has their replies to wait for and receives the values a2 and b2, sends each backend its
-- request and the client the answer (seq, a2 + b2), where the sum has 32 bits; the client's socket is
-- handed back, no socket is closed, and the pool is valid again with both sockets put back.
pub process-answers :
    (index : ℕ) (r : Round) (f : Worker) (srv : Server) (sk : Socket) (req : Request)
    (s1 a2 s2 b2 : ℕ) (g1 g2 : Got) (one two : Socket) (w : Waiting)
    → req.seq < 2 ^ 32
    → req.a < 2 ^ 32
    → req.b < 2 ^ 32
    → a2 < 2 ^ 32
    → b2 < 2 ^ 32
    → IsValid f.client
    → get_server_ready_socket index f.srv ≡ got srv sk
    → Brings (request_of req.seq req.a req.b) r.request
    → get_idle_client_socket backend_ip bb1_port r.bb1.connect f.opened f.client ≡ some g1
    → g1.socket ≡ some one
    → Carries 16 r.bb1.sends
    → get_idle_client_socket backend_ip bb2_port r.bb2.connect g1.opened g1.client ≡ some g2
    → g2.socket ≡ some two
    → Carries 16 r.bb2.sends
    → tcp_wait_to_read r.can_add r.wakes (one ∷ two ∷ []) [] [] 2 (pos 1000) f.interest
      ≡ returned (pos 0) w
    → Brings (packet_of s1 a2) r.reply1
    → Brings (packet_of s2 b2) r.reply2
    → Carries 16 r.answer
    → (c2 : Client) × (c1 : Client) × (insert_client_socket one g2.client ≡ some c1)
      × (insert_client_socket two c1 ≡ some c2)
      × IsValid c2
      × (process index r f ≡ ended (answered index r f srv sk one two req a2 b2 g2 w c2))
process-answers index r f srv sk req s1 a2 s2 b2 g1 g2 one two w hs ha hb ha2 hb2 v taken request e1
      n1 t1 e2 n2 t2 ready reply1 reply2 t3 =
    let v1 = get_idle-IsValid bb1_port r.bb1.connect f.opened f.client g1 v e1 in
    let v2 = get_idle-IsValid bb2_port r.bb2.connect g1.opened g1.client g2 v1 e2 in
    let (d1, p1, w1) = insert_client_socket-IsValid one g2.client v2 in
    let (d2, p2, w2) = insert_client_socket-IsValid two d1 w1 in
    (
      d2,
      d1,
      p1,
      p2,
      w2,
      process-taken index r f srv sk taken
          ∙ >>=-next (receive_request sk r.request) (serve index sk r) (record f { srv = srv })
              (receive_request-Brings sk r.request _ req.seq req.a req.b hs ha hb request)
          ∙ serve-answers index r f srv sk req s1 a2 s2 b2 g1 g2 one two w d1 d2 ha2 hb2 e1 n1 t1 e2
              n2 t2 ready reply1 reply2 t3 p1 p2,
    )
