-- ===== src/Nf/Backend.antt =====
-- all-sync/test_bb1.cc: Process(), a worker of a backend; all-sync/test_bb2.cc has the same one, but
-- for a delete. A round takes a ready socket of the Server, receives a packet of three ints and answers
-- with the last one more.
pub mod Answers
use kknf.Base.{
  ℕ, ◌+◌, ◌%◌, ◌^◌, List, none, some, true, false, ltb, if◌then◌else◌, length, drop, ◌++◌,
}
use kknf.Base.Int.{ℤ}
use kknf.Nf.Stream.{SendAnswer, ntohl, htonl, frame}
use kknf.Nf.Socket.{Socket}
use kknf.Nf.Worker.{
  next, over_read, M, ◌>>=◌, ◌>>◌, continue, Incoming, close_server_socket, hand_back,
  take_ready_socket, receive, send,
}

-- ReqBB1 and RspBB1: the length of the packet, `seq_`, and `a_` or `a2_`.
pub record ReqBb1 : Type 0 where
  pub seq : ℕ
  pub a : ℕ

abbrev pub packet : ReqBb1 → List ℕ
packet p = htonl 12 ++ htonl p.seq ++ htonl p.a

-- The cast of the buffer, and the ntohl() of the fields.
unfoldable pub read_packet : List ℕ → M ReqBb1
read_packet buf f =
    if ltb (length buf) 12
    then over_read
    else next (record { seq = ntohl (drop 4 buf); a = ntohl (drop 8 buf) }) f

-- RspBB1: the sum is an int and wraps.
abbrev pub one_more : ReqBb1 → ReqBb1
one_more p = record p { a = (p.a + 1) % 2 ^ 32 }

-- The answers of one round; `note` is what send() says when the socket is handed back.
pub record Round : Type 0 where
  pub request : Incoming
  pub answer : List SendAnswer
  pub note : ℤ

-- After the request.
unfoldable pub answer : ℕ → Round → Socket → ReqBb1 → M (Unit {0})
unfolding send
answer index r sk req = do
  sent ← send sk (frame (packet (one_more req))) r.answer
  elim sent [
    | true ↦ hand_back index sk r.note >> continue
    | false ↦ close_server_socket sk >> continue
  ]

unfoldable pub receive_packet : Socket → Incoming → M ReqBb1
unfolding receive read_packet
receive_packet sk i = do
  came ← receive i
  elim came [ none ↦ close_server_socket sk >> continue | some buf ↦ read_packet buf ]

-- One round of TestBB1Processor::Process.
unfoldable pub process : ℕ → Round → M (Unit {0})
unfolding take_ready_socket receive_packet answer
process index r = do
  sk ← take_ready_socket index
  req ← receive_packet sk r.request
  answer index r sk req
