-- ===== src/Nf/Callers/Numbers.antt =====
-- The clients together with their servers: test_multi_pool_client.cc with the workers for numbers of
-- test_multi_pool_server.cc.
use kknf.Base.{
  ℕ, ◌+◌, ◌-◌, ◌%◌, ◌^◌, ◌≡◌, ◌≤◌, ◌<◌, ◌∙◌, refl, ap, List, [], ◌∷◌, ◌++◌, Option, none, some,
  arith, length,
}
use kknf.Nf.Socket.{Socket}
use kknf.Nf.Connect
use kknf.Nf.Stream.{SendAnswer, frame, htonl, ntohl, tcp_recv}
use kknf.Nf.Stream.Sent.{tcp_send-returns}
use kknf.Nf.Stream.Received.{tcp_recv-frame}
use kknf.Nf.Pool.{Client, Got, get_idle_client_socket, insert_client_socket}
use kknf.Nf.Server.{Server, got, get_server_ready_socket}
use kknf.Nf.Worker.{Worker, Incoming, ended}
use kknf.Nf.Worker.Calls.{Brings, Carries}
use kknf.Nf.Front.{Asking}
use kknf.Nf.Front.Sum.{Relays, Relays-frame}
use kknf.Nf.Main.{my_ip}
use kknf.Nf.Pools
use kknf.Nf.Pools.{Number, rsp_format, process_number}
use kknf.Nf.Pools.Numbers.{req_format1, process_number-answers}
use kknf.Nf.Callers.{
  Caller, Called, went_on, over_read, call, call_over, frame_reply, call_numbers, numbers,
  number_in, give_back, and_then,
}

-- A call of a server that takes the bytes and answers with a packet.
call_over-answered :
    (bytes packet : List ℕ) (answers : List SendAnswer) (i : Incoming) (sk : Socket) (c : Caller)
    → 0 < length packet
    → length packet ≤ Connect.max_tcp_pkt_size
    → Carries (length bytes) answers
    → Brings packet i
    → call_over bytes answers (frame_reply i) sk c
      ≡ went_on (sk, packet) (record c { sent = c.sent ++ (sk, bytes) ∷ [] })
unfolding call_over frame_reply
call_over-answered bytes packet answers i sk c some_bytes fits (t, h) (rest, e, g, enough) =
    let sent = tcp_send-returns bytes answers t h in
    let came =
      ap (tcp_recv Connect.max_tcp_pkt_size [] i.answers) e
      ∙ tcp_recv-frame Connect.max_tcp_pkt_size [] packet rest i.answers (omega arith) some_bytes
          fits g enough in
    ground (arith, sent, came)

-- The caller after such a call.
abbrev called : Socket → List ℕ → Got → Caller → Caller
called sk bytes g c = record c {
  client = g.client;
  opened = g.opened;
  sent = c.sent ++ (sk, bytes) ∷ [];
}

call-answered :
    (port : ℕ) (bytes packet : List ℕ) (a : Asking) (i : Incoming) (c : Caller) (g : Got)
    (sk : Socket)
    → 0 < length packet
    → length packet ≤ Connect.max_tcp_pkt_size
    → get_idle_client_socket my_ip port a.connect c.opened c.client ≡ some g
    → g.socket ≡ some sk
    → Carries (length bytes) a.sends
    → Brings packet i
    → call port a bytes (frame_reply i) c ≡ went_on (sk, packet) (called sk bytes g c)
unfolding call
call-answered port bytes packet a i c g sk some_bytes fits e s t b = ground (
  arith,
  call_over-answered bytes packet a.sends i sk (record c { client = g.client; opened = g.opened })
      some_bytes fits t b,
)

number_in-rsp_format :
    (n : Number)
    → n.seq < 2 ^ 32
    → n.num < 2 ^ 32
    → number_in (rsp_format n) ≡ some (record n { num = (n.num + 1) % 2 ^ 32 })
unfolding number_in
number_in-rsp_format n hs hn =
    let s : ntohl (htonl n.seq ++ htonl ((n.num + 1) % 2 ^ 32)) ≡ n.seq = omega arith in
    let x : ntohl (htonl ((n.num + 1) % 2 ^ 32)) ≡ (n.num + 1) % 2 ^ 32 = omega arith in
    ground arith

-- What a worker for numbers has sent for a packet, on its way back.
Relays-Brings :
    (index : ℕ) (r : Pools.Round) (before after : Worker) (srv : Server) (sk : Socket) (n : Number)
    (i : Incoming)
    → n.seq < 2 ^ 32
    → n.num < 2 ^ 32
    → get_server_ready_socket index before.srv ≡ got srv sk
    → Brings (req_format1 n) r.request
    → Carries 16 r.answer
    → process_number index r before ≡ ended after
    → Relays before after sk i
    → Brings (rsp_format n) i
Relays-Brings index r before after srv sk n i hs hn taken h c e back =
    Relays-frame (rsp_format n) (process_number index r before) before after _ sk i refl refl
      (process_number-answers index r before srv sk n hs hn taken h c) e back

give_back-some :
    {A : Type 0} (x : A) (sk : Socket) (c : Caller) (d : Client)
    → insert_client_socket sk c.client ≡ some d
    → give_back x sk c ≡ went_on x (record c { client = d })
unfolding give_back
give_back-some x sk c d e = rw (e, give_back) refl

-- The first part of a round of test_multi_pool_client.cc together with a worker for numbers of
-- test_multi_pool_server.cc: where there is a socket to the server, the worker gets what the client sends
-- and its round ends, and its answer comes back, the client gets the number of its request, and the
-- negative of that number, in 32 bits; its socket is back in the pool.
pub call_numbers-process_number :
    (seq index : ℕ) (a : Asking) (i : Incoming) (c : Caller) (g : Got) (sk : Socket) (d : Client)
    (r : Pools.Round) (before after : Worker) (srv : Server) (server_sk : Socket)
    → get_idle_client_socket my_ip 20031 a.connect c.opened c.client ≡ some g
    → g.socket ≡ some sk
    → Carries 16 a.sends
    → get_server_ready_socket index before.srv ≡ got srv server_sk
    → Brings (req_format1 (numbers seq)) r.request
    → Carries 16 r.answer
    → process_number index r before ≡ ended after
    → Relays before after server_sk i
    → insert_client_socket sk g.client ≡ some d
    → call_numbers seq a i c
      ≡ went_on
          (record { seq = seq % 2 ^ 32; num = (2 ^ 32 - seq % 2 ^ 32) % 2 ^ 32 })
          (record c {
            client = d;
            opened = g.opened;
            sent = c.sent ++ (sk, frame (req_format1 (numbers seq))) ∷ [];
          })
unfolding call_numbers
call_numbers-process_number seq index a i c g sk d r before after srv server_sk e s t taken h answer
      done back put =
    let n = numbers seq in
    let came =
      Relays-Brings index r before after srv server_sk n i (omega arith) (omega arith) taken h
        answer done back in
    let called' =
      call-answered 20031 (frame (req_format1 n)) (rsp_format n) a i c g sk (omega arith)
        (omega arith) e s (unfold frame in t) came in
    let read = number_in-rsp_format n (omega arith) (omega arith) in
    let value : (n.num + 1) % 2 ^ 32 ≡ (2 ^ 32 - seq % 2 ^ 32) % 2 ^ 32 = omega arith in
    let c' = called sk (frame (req_format1 n)) g c in
    let k : Option Number → Called Caller Number =
      λ o. elim o [ none ↦ over_read | some m ↦ give_back m sk c' ] in
    ap
      (λ (q : Called Caller (Socket × List ℕ)).
        and_then (λ x. x) q
          (λ x c''. elim (number_in x.1) [ none ↦ over_read | some m ↦ give_back m x.0 c'' ]))
      called'
    ∙ ap k read
    ∙ give_back-some (record n { num = (n.num + 1) % 2 ^ 32 }) sk c' d put
    ∙ ap (λ v. went_on (record { seq = seq % 2 ^ 32; num = v }) (record c' { client = d })) value
