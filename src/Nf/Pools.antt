-- ===== src/Nf/Pools.antt =====
-- all-sync/test_multi_pool_server.cc: a server with three pools of workers, for packets of three ints,
-- for lines and for datagrams.
pub mod Lines
pub mod Numbers
use kknf.Base.{
  ℕ, ◌+◌, ◌%◌, ◌^◌, List, [], ◌∷◌, ◌++◌, Option, none, some, Bool, true, false, ltb, ◌==◌,
  if◌then◌else◌, length, drop, take, min,
}
use kknf.Base.Int.{ℤ, pos, minus_one, minus_two, ltb_ℤ}
use kknf.Nf.Addr.{Packet}
use kknf.Nf.Connect.{udp_send}
use kknf.Nf.Stream.{SendAnswer, RecvAnswer, gave, recv_failed, recv_fatal, ntohl, htonl, frame}
use kknf.Nf.Socket.{Socket}
use kknf.Nf.Server.{Taken, no_list, got, get_udp_packet}
use kknf.Nf.Worker.{
  Worker, Result, next, ended, blocked, over_read, M, ◌>>=◌, ◌>>◌, continue, Incoming,
  close_server_socket, hand_back, take_ready_socket, receive, send,
}

-- ReqFormat1 without its length.
pub record Number : Type 0 where
  pub seq : ℕ
  pub num : ℕ

-- RspFormat: the length, `seq_` and `num2_`; the sum is an int and wraps.
abbrev pub rsp_format : Number → List ℕ
rsp_format n = htonl 12 ++ htonl n.seq ++ htonl ((n.num + 1) % 2 ^ 32)

-- The casts to ReqFormat1 and ReqFormat3, with ntohl() on the fields; `start` is where `seq_` is.
unfoldable pub read_number : ℕ → List ℕ → M Number
read_number start buf f =
    if ltb (length buf) (start + 8)
    then over_read
    else next (record { seq = ntohl (drop start buf); num = ntohl (drop (start + 4) buf) }) f

-- The answers of one round; `note` is what send() says when the socket is handed back.
pub record Round : Type 0 where
  pub request : Incoming
  pub answer : List SendAnswer
  pub note : ℤ

-- The answer to a number; the result of TCPSend is only logged.
unfoldable pub answer_number : ℕ → Round → Socket → Number → M (Unit {0})
unfolding send
answer_number index r sk req = do
  sent ← send sk (frame (rsp_format req)) r.answer
  hand_back index sk r.note
  continue

-- One round of TestSimpleProcessor1::Process.
unfoldable pub process_number : ℕ → Round → M (Unit {0})
unfolding take_ready_socket receive read_number answer_number
process_number index r = do
  sk ← take_ready_socket index
  came ← receive r.request
  elim came [
    | none ↦ close_server_socket sk >> continue
    | some buf ↦ do req ← read_number 4 buf; answer_number index r sk req
  ]

-- TCPRecv_Line: one recv(), into 1024 bytes.
unfoldable pub tcp_recv_line : RecvAnswer → List ℕ → ℤ × List ℕ
tcp_recv_line (gave n) wire = (pos 0, take (min n 1024) wire)
tcp_recv_line (recv_failed errno) wire =
    if recv_fatal errno then (minus_one, []) else (minus_two, [])

-- The loop to the first '\n': what stands before it.
unfoldable pub cmd_line : List ℕ → Option (List ℕ)
cmd_line [] = none
cmd_line (c ∷ cs) = elim (c == b'\n') [
  | true ↦ some []
  | false ↦ elim (cmd_line cs) [ none ↦ none | some l ↦ some (c ∷ l) ]
]

-- What append() of a char pointer takes: up to the first '\0'.
unfoldable pub c_string : List ℕ → List ℕ
c_string [] = []
c_string (c ∷ cs) = let rest = c_string cs in if c == 0 then [] else c ∷ rest

-- "You sent: ".
abbrev pub you_sent : List ℕ
you_sent = b'Y' ∷ b'o' ∷ b'u' ∷ 32 ∷ b's' ∷ b'e' ∷ b'n' ∷ b't' ∷ b':' ∷ 32 ∷ []

-- The answer to a line; the result of TCPSend is only logged.
unfoldable pub answer_line : ℕ → ℤ → List SendAnswer → Socket → Option (List ℕ) → M (Unit {0})
unfolding send c_string
answer_line index note answers sk none = close_server_socket sk >> continue
answer_line index note answers sk (some line) = do
  sent ← send sk (you_sent ++ c_string line ++ 10 ∷ []) answers
  hand_back index sk note
  continue

-- After TCPRecv_Line: the test for -2 stands behind the one for all negative codes.
unfoldable pub process_buf : ℕ → ℤ → List SendAnswer → Socket → ℤ × List ℕ → M (Unit {0})
unfolding answer_line cmd_line
process_buf index note answers sk (ret, buf) = elim (ltb_ℤ ret (pos 0)) [
  | true ↦ close_server_socket sk >> continue
  | false ↦ answer_line index note answers sk (cmd_line buf)
]

-- One round of TestSimpleProcessor2::Process, with the one answer of recv() and what is on the wire.
unfoldable pub process_line : ℕ → ℤ → List SendAnswer → RecvAnswer → List ℕ → M (Unit {0})
unfolding take_ready_socket process_buf tcp_recv_line
process_line index note answers came wire = do
  sk ← take_ready_socket index
  process_buf index note answers sk (tcp_recv_line came wire)

-- GetUDPPacket.
unfoldable pub take_udp_packet : M Packet
take_udp_packet f = elim (get_udp_packet f.srv) [
  | no_list ↦ ended f
  | Taken.waits ↦ blocked
  | got srv pkt ↦ next pkt (record f { srv = srv })
]

-- UDPSend to where the packet came from, with the address as inet_aton() reads it and the result of
-- sendto(); the result of UDPSend is only logged.
unfoldable pub answer_packet : Option ℕ → ℤ → Packet → Number → M (Unit {0})
unfolding udp_send
answer_packet to_ip ret pkt req f = next tt (
    if ltb_ℤ (udp_send to_ip ret) (pos 0)
    then f
    else record f { datagrams = f.datagrams ++ (pkt.from_, rsp_format req) ∷ [] })

-- One round of TestSimpleProcessor3::Process.
unfoldable pub process_packet : Option ℕ → ℤ → M (Unit {0})
unfolding take_udp_packet read_number answer_packet
process_packet to_ip ret = do
  pkt ← take_udp_packet
  req ← read_number 0 pkt.bytes
  answer_packet to_ip ret pkt req
  continue
