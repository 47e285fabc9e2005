-- ===== src/Nf/Front.antt =====
-- all-sync/test_bf.cc: Process(), a worker of the front server. A round takes a ready socket of the
-- Server, receives a request, asks two backends over sockets of the Client, waits for their replies,
-- receives them, hands the two sockets back to the Client and answers.
pub mod Keeps
pub mod Backends
pub mod Parts
pub mod Reply
pub mod Sum
use kknf.Base.{
  ℕ, ◌+◌, ◌%◌, ◌^◌, List, [], ◌∷◌, ◌++◌, Option, none, some, Bool, true, false, ltb, if◌then◌else◌,
  length, drop,
}
use kknf.Base.Int.{ℤ, pos, ltb_ℤ}
use kknf.Nf.Socket.{Socket}
use kknf.Nf.Connect
use kknf.Nf.Stream.{SendAnswer, ntohl, htonl, frame}
use kknf.Nf.Pool.{insert_client_socket, get_idle_client_socket}
use kknf.Nf.Wait.{Wake, returned, waits, aborted, tcp_wait_to_read}
use kknf.Nf.Worker.{
  Worker, Result, next, ended, blocked, over_read, failed, M, ◌>>=◌, ◌>>◌, continue, Incoming,
  close_server_socket, hand_back, take_ready_socket, receive, send,
}

-- The answers while one backend is asked.
pub record Asking : Type 0 where
  pub connect : Connect.Answers
  pub sends : List SendAnswer

-- The answers of one round; `note` is what send() says when the socket is handed back.
pub record Round : Type 0 where
  pub request : Incoming
  pub bb1 : Asking
  pub bb2 : Asking
  pub can_add : ℕ → Bool
  pub wakes : List Wake
  pub reply1 : Incoming
  pub reply2 : Incoming
  pub answer : List SendAnswer
  pub note : ℤ

-- "127.0.0.1".
abbrev pub backend_ip : List ℕ
backend_ip = b'1' ∷ b'2' ∷ b'7' ∷ b'.' ∷ b'0' ∷ b'.' ∷ b'0' ∷ b'.' ∷ b'1' ∷ []

abbrev pub bb1_port : ℕ
bb1_port = 30021

abbrev pub bb2_port : ℕ
bb2_port = 30022

-- ReqBB1 and RspBF, and ReqBB2, which has the same fields.
abbrev pub packet_of : ℕ → ℕ → List ℕ
packet_of seq value = htonl 12 ++ htonl seq ++ htonl value

-- The fields of ReqBF that are used.
pub record Request : Type 0 where
  pub seq : ℕ
  pub a : ℕ
  pub b : ℕ

-- The cast of the buffer to ReqBF, and the ntohl() of its fields.
unfoldable pub read_request : List ℕ → M Request
read_request buf f =
    if ltb (length buf) 16
    then over_read
    else next (record { seq = ntohl (drop 4 buf); a = ntohl (drop 8 buf); b = ntohl (drop 12 buf) })
        f

-- The cast to RspBB1 or RspBB2, and ntohl() of the last field.
unfoldable pub read_value : List ℕ → M ℕ
read_value buf f = if ltb (length buf) 12 then over_read else next (ntohl (drop 8 buf)) f

-- Close() and delete, on a socket to a backend.
abbrev pub close_client_socket : Socket → M (Unit {0})
close_client_socket sk f = next tt (record f { closed = f.closed ++ sk ∷ [] })

-- GetClientSocket, and MakeConnection where no socket is idle: none where both give a null pointer.
unfoldable pub connect : ℕ → Connect.Answers → M (Option Socket)
connect port a f = elim (get_idle_client_socket backend_ip port a f.opened f.client) [
  | none ↦ failed
  | some g ↦ next g.socket (record f { client = g.client; opened = g.opened })
]

-- InsertClientSocket.
unfoldable pub put_client_socket : Socket → M (Unit {0})
put_client_socket sk f = elim (insert_client_socket sk f.client) [
  | none ↦ failed
  | some c ↦ next tt (record f { client = c })
]

-- TCPWaitToRead on the sockets to both backends; false where it returns an error.
unfoldable pub wait : (ℕ → Bool) → List Wake → Socket → Socket → M Bool
wait can_add wakes bb1_sk bb2_sk f =
    elim (tcp_wait_to_read can_add wakes (bb1_sk ∷ bb2_sk ∷ []) [] [] 2 (pos 1000) f.interest) [
      | returned c w ↦
          next (if ltb_ℤ c (pos 0) then false else true) (record f { interest = w.interest })
      | aborted ↦ failed
      | waits t w ↦ blocked
    ]

-- The request to a backend over its socket.
unfoldable pub ask_over : ℕ → Socket → ℤ → List ℕ → Asking → Socket → M Socket
unfolding send
ask_over index sk note packet a backend = do
  sent ← send backend (frame packet) a.sends
  elim sent [
    | true ↦ next backend
    | false ↦ close_client_socket backend >> (hand_back index sk note >> continue)
  ]

-- One backend is asked: a socket to it, and the request over it. Where there is no socket, or the
-- request cannot be sent, the client's socket is handed back and the round ends.
unfoldable pub ask : ℕ → Socket → ℤ → ℕ → List ℕ → Asking → M Socket
unfolding connect ask_over
ask index sk note port packet a = do
  found ← connect port a.connect
  elim found [
    | none ↦ hand_back index sk note >> continue
    | some backend ↦ ask_over index sk note packet a backend
  ]

-- The two sockets are closed and deleted, the client's is handed back, and the round ends.
abbrev pub give_up : {A : Type 0} → ℕ → Socket → ℤ → Socket → Socket → M A
give_up index sk note bb1_sk bb2_sk = do
  close_client_socket bb1_sk
  close_client_socket bb2_sk
  hand_back index sk note
  continue

unfoldable pub wait_replies : ℕ → Socket → Round → Socket → Socket → M (Unit {0})
unfolding wait
wait_replies index sk r bb1_sk bb2_sk = do
  ready ← wait r.can_add r.wakes bb1_sk bb2_sk
  elim ready [ true ↦ next tt | false ↦ give_up index sk r.note bb1_sk bb2_sk ]

-- The reply of one backend.
unfoldable pub receive_value : ℕ → Socket → ℤ → Socket → Socket → Incoming → M ℕ
unfolding receive read_value
receive_value index sk note bb1_sk bb2_sk i = do
  came ← receive i
  elim came [ none ↦ give_up index sk note bb1_sk bb2_sk | some buf ↦ read_value buf ]

-- The request of the client.
unfoldable pub receive_request : Socket → Incoming → M Request
unfolding receive read_request
receive_request sk i = do
  came ← receive i
  elim came [ none ↦ close_server_socket sk >> continue | some buf ↦ read_request buf ]

-- The answer, and the end of the round; the sum of the two ints wraps.
unfoldable pub answer : ℕ → Socket → Round → ℕ → ℕ → ℕ → M (Unit {0})
unfolding send
answer index sk r seq a2 b2 = do
  sent ← send sk (frame (packet_of seq ((a2 + b2) % 2 ^ 32))) r.answer
  elim sent [
    | true ↦ hand_back index sk r.note >> continue
    | false ↦ close_server_socket sk >> continue
  ]

-- After the request: both backends, and the answer.
unfoldable pub serve : ℕ → Socket → Round → Request → M (Unit {0})
unfolding ask wait_replies receive_value put_client_socket answer
serve index sk r req = do
  bb1_sk ← ask index sk r.note bb1_port (packet_of req.seq req.a) r.bb1
  bb2_sk ← ask index sk r.note bb2_port (packet_of req.seq req.b) r.bb2
  wait_replies index sk r bb1_sk bb2_sk
  a2 ← receive_value index sk r.note bb1_sk bb2_sk r.reply1
  b2 ← receive_value index sk r.note bb1_sk bb2_sk r.reply2
  put_client_socket bb1_sk
  put_client_socket bb2_sk
  answer index sk r req.seq a2 b2

-- One round of TestBFProcessor::Process.
unfoldable pub process : ℕ → Round → M (Unit {0})
unfolding take_ready_socket receive_request serve
process index r = do
  sk ← take_ready_socket index
  req ← receive_request sk r.request
  serve index sk r req
