-- ===== src/Nf/Front/Parts.antt =====
-- The parts of a round of Process() where the calls succeed.
use kknf.Base.{
  ℕ, ◌+◌, ◌%◌, ◌^◌, ◌≡◌, ◌<◌, sym, ap, subst, ◌∙◌, List, [], ◌∷◌, ◌++◌, Option, none, some, arith,
  length,
}
use kknf.Base.Int.{ℤ, pos}
use kknf.Nf.Socket.{Socket}
use kknf.Nf.Connect
use kknf.Nf.Stream.{frame, htonl, ntohl}
use kknf.Nf.Pool.{Client, Got, insert_client_socket, get_idle_client_socket}
use kknf.Nf.Pool.Laws.{IsValid, get_idle_client_socket-peer}
use kknf.Nf.Wait.{Waiting, returned, tcp_wait_to_read}
use kknf.Nf.Server.{insert_server_reuse_socket}
use kknf.Nf.Worker.{Worker, Incoming, next, ended, receive, send}
use kknf.Nf.Front.{
  Round, Asking, connect, wait, ask, ask_over, wait_replies, receive_value, receive_request,
  read_value, read_request, put_client_socket, answer, backend_ip, packet_of,
}
use kknf.Nf.Worker.Calls.{Brings, Carries, receive-Brings, send-Carries, >>=-next}

read_value-packet_of :
    (seq value : ℕ) (f : Worker)
    → value < 2 ^ 32
    → read_value (packet_of seq value) f ≡ next value f
unfolding read_value
read_value-packet_of seq value f h = ap (λ v. next v f) (omega arith)

-- The request of the client: ReqBF.
abbrev pub request_of : ℕ → ℕ → ℕ → List ℕ
request_of seq a b = htonl 16 ++ htonl seq ++ htonl a ++ htonl b

read_request-request_of :
    (seq a b : ℕ) (f : Worker)
    → seq < 2 ^ 32
    → a < 2 ^ 32
    → b < 2 ^ 32
    → read_request (request_of seq a b) f ≡ next (record { seq = seq; a = a; b = b }) f
unfolding read_request
read_request-request_of seq a b f hs ha hb =
    let s : ntohl (htonl seq ++ htonl a ++ htonl b) ≡ seq = omega arith in
    let x : ntohl (htonl a ++ htonl b) ≡ a = omega arith in
    let y : ntohl (htonl b) ≡ b = omega arith in ground arith

pub receive_request-Brings :
    (sk : Socket) (i : Incoming) (f : Worker) (seq a b : ℕ)
    → seq < 2 ^ 32
    → a < 2 ^ 32
    → b < 2 ^ 32
    → Brings (request_of seq a b) i
    → receive_request sk i f ≡ next (record { seq = seq; a = a; b = b }) f
unfolding receive_request
receive_request-Brings sk i f seq a b hs ha hb h =
    >>=-next (receive i) _ f (receive-Brings (request_of seq a b) i f (omega arith) (omega arith) h)
    ∙ read_request-request_of seq a b f hs ha hb

pub receive_value-Brings :
    (index : ℕ) (sk : Socket) (note : ℤ) (one two : Socket) (i : Incoming) (f : Worker)
    (seq value : ℕ)
    → value < 2 ^ 32
    → Brings (packet_of seq value) i
    → receive_value index sk note one two i f ≡ next value f
unfolding receive_value
receive_value-Brings index sk note one two i f seq value hv h =
    >>=-next (receive i) _ f
      (receive-Brings (packet_of seq value) i f (omega arith) (omega arith) h)
    ∙ read_value-packet_of seq value f hv

ask_over-Carries :
    (index : ℕ) (sk : Socket) (note : ℤ) (packet : List ℕ) (a : Asking) (backend : Socket)
    (f : Worker)
    → Carries (length (frame packet)) a.sends
    → ask_over index sk note packet a backend f
      ≡ next backend (record f { sent = f.sent ++ (backend, frame packet) ∷ [] })
unfolding ask_over
ask_over-Carries index sk note packet a backend f c =
    >>=-next (send backend (frame packet) a.sends) _ f
      (send-Carries backend (frame packet) a.sends f c)

-- The front after a backend has been asked.
abbrev pub asked : List ℕ → Socket → Got → Worker → Worker
asked packet backend g f = record f {
  client = g.client;
  opened = g.opened;
  sent = f.sent ++ (backend, frame packet) ∷ [];
}

pub ask-asked :
    (index : ℕ) (sk : Socket) (note : ℤ) (port : ℕ) (packet : List ℕ) (a : Asking) (f : Worker)
    (g : Got) (backend : Socket)
    → get_idle_client_socket backend_ip port a.connect f.opened f.client ≡ some g
    → g.socket ≡ some backend
    → Carries (length (frame packet)) a.sends
    → ask index sk note port packet a f ≡ next backend (asked packet backend g f)
unfolding ask connect
ask-asked index sk note port packet a f g backend e s c = ground (
  arith,
  ask_over-Carries index sk note packet a backend
      (record f { client = g.client; opened = g.opened }) c,
)

pub wait_replies-ready :
    (index : ℕ) (sk : Socket) (r : Round) (one two : Socket) (f : Worker) (w : Waiting)
    → tcp_wait_to_read r.can_add r.wakes (one ∷ two ∷ []) [] [] 2 (pos 1000) f.interest
      ≡ returned (pos 0) w
    → wait_replies index sk r one two f ≡ next tt (record f { interest = w.interest })
unfolding wait_replies wait
wait_replies-ready index sk r one two f w e = ground arith

pub put_client_socket-some :
    (s : Socket) (f : Worker) (c : Client)
    → insert_client_socket s f.client ≡ some c
    → put_client_socket s f ≡ next tt (record f { client = c })
unfolding put_client_socket
put_client_socket-some s f c e = ground arith

pub answer-Carries :
    (index : ℕ) (sk : Socket) (r : Round) (seq a2 b2 : ℕ) (f : Worker)
    → Carries 16 r.answer
    → answer index sk r seq a2 b2 f
      ≡ ended (record f {
        srv = (insert_server_reuse_socket index sk r.note f.srv).0;
        sent = f.sent ++ (sk, frame (packet_of seq ((a2 + b2) % 2 ^ 32))) ∷ [];
      })
unfolding answer
answer-Carries index sk r seq a2 b2 f c =
    >>=-next (send sk (frame (packet_of seq ((a2 + b2) % 2 ^ 32))) r.answer) _ f
      (send-Carries sk (frame (packet_of seq ((a2 + b2) % 2 ^ 32))) r.answer f (unfold frame in c))

pub get_idle-IsValid :
    (port : ℕ) (a : Connect.Answers) (opened : List ℕ) (c : Client) (g : Got)
    → IsValid c
    → get_idle_client_socket backend_ip port a opened c ≡ some g
    → IsValid g.client
get_idle-IsValid port a opened c g v e =
    let (h, e', v', _, _) =
      get_idle_client_socket-peer (record { ip = backend_ip; port = port }) a opened c v in
    let same : h.client ≡ g.client =
      ap (λ (o : Option Got). elim o [ none ↦ h.client | some x ↦ x.client ]) (sym e' ∙ e) in
    subst IsValid same v'
