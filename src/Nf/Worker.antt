-- ===== src/Nf/Worker.antt =====
-- all-sync/test_*.cc: what the Process() functions of the workers share. A round of one ends by
-- `continue`, stays in a call, or fails; what the system answers is an argument.
pub mod Ends
pub mod Calls
use kknf.Base.{ℕ, List, [], ◌∷◌, ◌++◌, Option, none, some, Bool, true, false, if◌then◌else◌}
use kknf.Base.Int.{ℤ, pos, ltb_ℤ}
use kknf.Nf.Addr.{SocketAddr}
use kknf.Nf.Socket.{Socket}
use kknf.Nf.Connect
use kknf.Nf.Stream.{SendAnswer, RecvAnswer, tcp_send, tcp_recv}
use kknf.Nf.Pool.{Client}
use kknf.Nf.Wait.{Interest}
use kknf.Nf.Server.{
  Server, Taken, no_list, got, get_server_ready_socket, insert_server_reuse_socket,
}

-- `closed` are the Client's sockets that have been closed and deleted, `opened` the open descriptors,
-- `sent` the bytes that the system has taken, call by call, and `datagrams` those that it has sent.
-- The Server keeps its own list of closed sockets.
pub record Worker : Type 0 where
  pub srv : Server
  pub client : Client
  pub interest : Interest
  pub closed : List Socket
  pub opened : List ℕ
  pub sent : List (Socket × List ℕ)
  pub datagrams : List (SocketAddr × List ℕ)

-- How a part of a round ends: with a value, by `continue`, in a call that has not returned, by a read
-- past the end of a packet, or by a failed assertion.
pub data Result (A : Type 0) : Type 0 where
  next : A → Worker → Result A
  ended : Worker → Result A
  blocked : Result A
  over_read : Result A
  failed : Result A

abbrev pub M : Type 0 → Type 0
M A = Worker → Result A

infixl 5 ◌>>=◌ ◌>>◌
abbrev pub ◌>>=◌ : {A B : Type 0} → M A → (A → M B) → M B
◌>>=◌ m k f = elim (m f) [
  | next a f' ↦ k a f'
  | ended f' ↦ ended f'
  | blocked ↦ blocked
  | over_read ↦ over_read
  | failed ↦ failed
]

abbrev pub ◌>>◌ : {B : Type 0} → M (Unit {0}) → M B → M B
m >> k = m >>= λ _. k

-- `continue`.
abbrev pub continue : {A : Type 0} → M A
continue f = ended f

-- What recv() gives of a peer's bytes in one TCPRecv.
pub record Incoming : Type 0 where
  pub answers : List RecvAnswer
  pub wire : List ℕ

-- Close() and delete.
abbrev pub close_server_socket : Socket → M (Unit {0})
close_server_socket sk f =
    next tt (record f { srv = record (f.srv) { closed = f.srv.closed ++ sk ∷ [] } })

-- InsertServerReuseSocket, whose result is not read.
abbrev pub hand_back : ℕ → Socket → ℤ → M (Unit {0})
hand_back index sk note f =
    next tt (record f { srv = (insert_server_reuse_socket index sk note f.srv).0 })

-- GetServerReadySocket; a null pointer starts the next round.
unfoldable pub take_ready_socket : ℕ → M Socket
take_ready_socket index f = elim (get_server_ready_socket index f.srv) [
  | no_list ↦ ended f
  | Taken.waits ↦ blocked
  | got srv sk ↦ next sk (record f { srv = srv })
]

-- TCPRecv: the packet, or none where it returns an error. Where it succeeds it has written over all
-- that the buffer held before, which is taken as empty.
unfoldable pub receive : Incoming → M (Option (List ℕ))
receive i f =
    let r = tcp_recv Connect.max_tcp_pkt_size [] i.answers i.wire in
    elim r.code [ none ↦ blocked | some c ↦ next (if ltb_ℤ c (pos 0) then none else some r.buf) f ]

-- TCPSend; false where it returns an error.
unfoldable pub send : Socket → List ℕ → List SendAnswer → M Bool
send sk bytes answers f =
    let s = tcp_send (some bytes) answers in
    elim s.code [
      | none ↦ blocked
      | some c ↦
          next (if ltb_ℤ c (pos 0) then false else true)
            (record f { sent = f.sent ++ (sk, s.taken) ∷ [] })
    ]
