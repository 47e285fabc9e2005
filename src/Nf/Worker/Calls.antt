-- ===== src/Nf/Worker/Calls.antt =====
-- all-sync/test_*.cc: the calls of a worker where they succeed.
use kknf.Base.{ℕ, ◌+◌, ◌≡◌, ◌≤◌, ◌<◌, ap, ◌∙◌, List, [], ◌∷◌, ◌++◌, some, true, arith, length, All}
use kknf.Nf.Socket.{Socket}
use kknf.Nf.Connect
use kknf.Nf.Stream.{SendAnswer, frame, tcp_recv}
use kknf.Nf.Stream.Sent.{Takes, tcp_send-returns}
use kknf.Nf.Stream.Received.{Gives, tcp_recv-frame}
use kknf.Nf.Server.{Server, got, get_server_ready_socket}
use kknf.Nf.Worker.{M, ◌>>=◌, Worker, Incoming, next, receive, send, take_ready_socket}

-- A part that goes on with a value.
pub >>=-next :
    {A B : Type 0} (m : M A) (k : A → M B) (f : Worker) {a : A} {g : Worker}
    → m f ≡ next a g
    → (m >>= k) f ≡ k a g
>>=-next m k f e = rw (e, ◌>>=◌)

-- A frame with the packet comes first, and each call of recv() gives something.
abbrev pub Brings : List ℕ → Incoming → Type 0
Brings packet i =
    (rest : List ℕ) × (i.wire ≡ frame packet ++ rest)
    × All Gives i.answers
    × (length packet + 4 ≤ length i.answers)

-- Each call of send() takes something, and there are enough of them.
abbrev pub Carries : ℕ → List SendAnswer → Type 0
Carries n answers = All Takes answers × (n ≤ length answers)

pub receive-Brings :
    (packet : List ℕ) (i : Incoming) (f : Worker)
    → 0 < length packet
    → length packet ≤ Connect.max_tcp_pkt_size
    → Brings packet i
    → receive i f ≡ next (some packet) f
unfolding receive
receive-Brings packet i f some_bytes fits (rest, e, g, enough) =
    let came =
      ap (tcp_recv Connect.max_tcp_pkt_size [] i.answers) e
      ∙ tcp_recv-frame Connect.max_tcp_pkt_size [] packet rest i.answers (omega arith) some_bytes
          fits g enough in
    ground (arith, came)

pub send-Carries :
    (sk : Socket) (bytes : List ℕ) (answers : List SendAnswer) (f : Worker)
    → Carries (length bytes) answers
    → send sk bytes answers f ≡ next true (record f { sent = f.sent ++ (sk, bytes) ∷ [] })
unfolding send
send-Carries sk bytes answers f c =
    let sent = tcp_send-returns bytes answers c.0 c.1 in ground (arith, sent)

pub take_ready_socket-got :
    (index : ℕ) (f : Worker) (srv : Server) (sk : Socket)
    → get_server_ready_socket index f.srv ≡ got srv sk
    → take_ready_socket index f ≡ next sk (record f { srv = srv })
unfolding take_ready_socket
take_ready_socket-got index f srv sk e = ground arith
