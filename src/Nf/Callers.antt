-- ===== src/Nf/Callers.antt =====
-- all-sync/test_multi_pool_client.cc and test_c.cc: the clients of the servers, whose main functions
-- call a server and wait for its answer. What the system answers is an argument.
pub mod Numbers
pub mod Rounds
use kknf.Base.{
  ℕ, suc, ◌+◌, ◌-◌, ◌%◌, ◌^◌, List, [], ◌∷◌, ◌++◌, Option, none, some, Bool, true, false, ltb,
  if◌then◌else◌, length, drop, take,
}
use kknf.Base.Int.{ℤ, pos, minus_one, minus_two, ltb_ℤ}
use kknf.Nf.Socket.{Socket}
use kknf.Nf.Connect
use kknf.Nf.Connect.{udp_send, udp_recv}
use kknf.Nf.Stream.{SendAnswer, RecvAnswer, tcp_send, tcp_recv, ntohl, htonl, frame}
use kknf.Nf.Pool.{Client, get_idle_client_socket, insert_client_socket}
use kknf.Nf.Worker.{Incoming}
use kknf.Nf.Pools.Numbers.{req_format1}
use kknf.Nf.Pools.{Number, cmd_line, c_string, tcp_recv_line}
use kknf.Nf.Addr.{SocketAddr}
use kknf.Nf.Front.{Asking}
use kknf.Nf.Front.Parts.{request_of}
use kknf.Nf.Main.{my_ip}

-- A Client with the descriptors that were opened for it and are not closed, and what the system has taken
-- to send for it.
pub record Caller : Type 0 where
  pub client : Client
  pub opened : List ℕ
  pub sent : List (Socket × List ℕ)
  pub datagrams : List (SocketAddr × List ℕ)

-- How a part of main() ends: with a value, by `return`, in a call that has not returned, by a read past
-- the end of a packet, or by a failed assertion; `S` is what it works on.
pub data Called (S A : Type 0) : Type 0 where
  went_on : A → S → Called S A
  returns : ℤ → S → Called S A
  blocked : Called S A
  over_read : Called S A
  failed : Called S A

-- What comes after a part of main(); `put` says what the state of the part is to the whole.
abbrev pub and_then : {S T A B : Type 0} → (S → T) → Called S A → (A → S → Called T B) → Called T B
and_then put (went_on a s) k = k a s
and_then put (returns code s) k = returns code (put s)
and_then put blocked k = blocked
and_then put over_read k = over_read
and_then put failed k = failed

-- What a call of TCPRecv answers: its code, none where it does not return, and the buffer.
abbrev pub Reply : Type 0
Reply = Option ℤ × List ℕ

-- TCPRecv of TestSimpleClient1 and of test_c.cc.
unfoldable pub frame_reply : Incoming → Reply
frame_reply i = let r = tcp_recv Connect.max_tcp_pkt_size [] i.answers i.wire in (r.code, r.buf)

-- TCPRecv of TestSimpleClient2.
unfoldable pub line_reply : RecvAnswer → List ℕ → Reply
unfolding tcp_recv_line
line_reply came wire = let r = tcp_recv_line came wire in (some r.0, r.1)

-- After TCPSend.
abbrev received : Reply → Socket → Caller → Called Caller (Socket × List ℕ)
received (none, buf) sk c = blocked
received (some code, buf) sk c =
    if ltb_ℤ code (pos 0) then returns minus_two c else went_on (sk, buf) c

-- TCPSend and TCPRecv over a socket.
unfoldable pub call_over :
    List ℕ → List SendAnswer → Reply → Socket → Caller → Called Caller (Socket × List ℕ)
call_over bytes answers reply sk c =
    let s = tcp_send (some bytes) answers in
    let c' = record c { sent = c.sent ++ (sk, s.taken) ∷ [] } in
    elim s.code [
      | none ↦ blocked
      | some code ↦ if ltb_ℤ code (pos 0) then returns minus_two c' else received reply sk c'
    ]

-- GetClientSocket, and MakeConnection where no socket is idle, then TCPSend and TCPRecv.
unfoldable pub call : ℕ → Asking → List ℕ → Reply → Caller → Called Caller (Socket × List ℕ)
unfolding call_over
call port a bytes reply c = elim (get_idle_client_socket my_ip port a.connect c.opened c.client) [
  | none ↦ failed
  | some g ↦
      let c' = record c { client = g.client; opened = g.opened } in
      elim g.socket [ none ↦ returns minus_one c' | some sk ↦ call_over bytes a.sends reply sk c' ]
]

-- InsertClientSocket.
unfoldable pub give_back : {A : Type 0} → A → Socket → Caller → Called Caller A
give_back x sk c = elim (insert_client_socket sk c.client) [
  | none ↦ failed
  | some client ↦ went_on x (record c { client = client })
]

-- The cast to RspFormat or RspBF, with ntohl() on the fields.
unfoldable pub number_in : List ℕ → Option Number
number_in buf =
    if ltb (length buf) 12
    then none
    else some (record { seq = ntohl (drop 4 buf); num = ntohl (drop 8 buf) })

-- The numbers of a request; `seq` is counted up twice, and the ints wrap.
abbrev pub numbers : ℕ → Number
numbers seq = record { seq = seq % 2 ^ 32; num = (2 ^ 32 - (seq + 1) % 2 ^ 32) % 2 ^ 32 }

-- The first part of the loop in main() of test_multi_pool_client.cc.
unfoldable pub call_numbers : ℕ → Asking → Incoming → Caller → Called Caller Number
unfolding call frame_reply number_in give_back
call_numbers seq a i c =
    and_then (λ x. x) (call 20031 a (frame (req_format1 (numbers seq))) (frame_reply i) c)
      (λ x c'. elim (number_in x.1) [ none ↦ over_read | some n ↦ give_back n x.0 c' ])

-- "Hello World!\n".
abbrev pub hello_world : List ℕ
hello_world =
    b'H' ∷ b'e' ∷ b'l' ∷ b'l' ∷ b'o' ∷ 32 ∷ b'W' ∷ b'o' ∷ b'r' ∷ b'l' ∷ b'd' ∷ b'!' ∷ b'\n' ∷ []

-- The second part: the answer to a line; without the end of a line main() returns.
unfoldable pub call_line : Asking → Reply → Caller → Called Caller (List ℕ)
unfolding call give_back cmd_line c_string
call_line a reply c =
    and_then (λ x. x) (call 20032 a hello_world reply c)
      (λ x c'. elim (cmd_line x.1) [
        | none ↦ returns minus_two c'
        | some line ↦ give_back (c_string line) x.0 c'
      ])

-- The third part, over a new socket each time: the datagram is ReqFormat3. The socket is closed where a
-- call fails, and nowhere else.
unfoldable pub call_datagram :
    ℕ → Option ℕ → Option ℕ → ℤ → Option (List ℕ × List ℕ × ℕ) → Caller → Called Caller Number
unfolding udp_send udp_recv number_in
call_datagram seq fd to_ip ret came c =
    if ltb_ℤ (udp_send to_ip ret) (pos 0)
    then returns minus_two c
    else let n = numbers seq in
      let c' = record c {
        datagrams =
            c.datagrams ++ (record { ip = my_ip; port = 20033 }, htonl n.seq ++ htonl n.num) ∷ [];
      } in
      elim (udp_recv came) [
        | none ↦ returns minus_two c'
        | some (buf, from_ip, from_port) ↦ elim (number_in buf) [
          | none ↦ over_read
          | some m ↦
              went_on m (record c' { opened = elim fd [ none ↦ c.opened | some x ↦ x ∷ c.opened ] })
        ]
      ]

-- main() of test_c.cc, up to what it prints.
unfoldable pub call_sum : Asking → Incoming → Caller → Called Caller Number
unfolding call frame_reply number_in
call_sum a i c =
    and_then (λ x. x) (call 20021 a (frame (request_of 1000 10 100)) (frame_reply i) c)
      (λ x c'. elim (number_in x.1) [ none ↦ over_read | some n ↦ went_on n c' ])
