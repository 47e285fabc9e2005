-- ===== src/Nf/Server/System.antt =====
-- all-sync/server.hpp: the thread that polls and the workers, in any interleaving of their accesses
-- to the shared state.
pub mod Process
pub mod Kept
pub mod Exclusive
use kknf.Base.{
  ℕ, ◌+◌, ◌≤◌, ◌≡◌, ◌≢◌, List, [], ◌∷◌, ◌++◌, Option, none, some, Bool, true, false, if◌then◌else◌,
  map, All,
}
use kknf.Base.Int.{ℤ}
use kknf.Nf.Socket.{Socket, tcp_listen}
use kknf.Nf.Server.{
  Server, SocketMap, Taken, got, insert_server_ready_socket, get_server_ready_socket,
  insert_server_reuse_socket,
}
use kknf.Nf.Server.Poll.{
  Event, Accepted, Answers, done, accept_one, epoll_process, epoll_del, apply_result,
}
use kknf.Nf.Server.Mass.{has, total, total_map, total_open, Member}

-- `batch` is `server_sk_map`, `pending` the events of this epoll_wait() that are still to come, and
-- `held` the sockets that the workers have.
pub record System : Type 0 where
  pub srv : Server
  pub batch : SocketMap
  pub pending : List Event
  pub held : List Socket

-- How often a descriptor is in use.
abbrev pub uses : ℕ → System → ℕ
uses fd s = total_open (has fd) s.srv + total_map (has fd) s.batch + total (has fd) s.held

-- The system gives a new connection a descriptor that is not in use; `others` counts the uses
-- outside the Server.
abbrev pub AllFresh : (ℕ → Bool) → Socket → (ℕ → ℕ) → List Accepted → Server → Type 0
AllFresh can_add listen_sk others [] srv = Unit
AllFresh can_add listen_sk others (a ∷ as') srv =
    (total_open (has a.fd) srv + others a.fd ≡ 0)
    × AllFresh can_add listen_sk others as' (accept_one can_add listen_sk a a.ipstr srv)

-- The events are for sockets in epoll, each for one of its own.
abbrev pub AllRegistered : List Socket → List Event → Type 0
AllRegistered epoll [] = Unit
AllRegistered epoll (e ∷ es) =
    Member e.sk epoll × All (λ (f : Event). f.sk.sk ≢ e.sk.sk) es × AllRegistered epoll es

pub data Step (s : System) : System → Type 0 where
  -- epoll_wait() returns.
  wake :
      (es : List Event)
      → s.pending ≡ []
      → s.batch ≡ []
      → AllRegistered s.srv.epoll es
      → Step s (record s { pending = es })
  -- The next event is processed.
  event :
      (e : Event) (a : Answers) (es : List Event) (r : ℤ) (srv : Server) (m : SocketMap)
      → s.pending ≡ e ∷ es
      → AllFresh a.can_add e.sk
          (λ fd. total_map (has fd) s.batch + total (has fd) s.held)
          a.accepts
          s.srv
      → epoll_process e a s.srv s.batch ≡ done r srv m
      → Step s (record s { srv = apply_result e.sk r srv; batch = m; pending = es })
  -- After the last event, the batch goes to the ready lists.
  flush :
      (srv : Server)
      → s.pending ≡ []
      → insert_server_ready_socket s.batch s.srv ≡ some srv
      → Step s (record s { srv = srv; batch = [] })
  -- A worker takes a ready socket.
  take :
      (index : ℕ) (srv : Server) (sk : Socket)
      → get_server_ready_socket index s.srv ≡ got srv sk
      → Step s (record s { srv = srv; held = sk ∷ s.held })
  -- A worker hands a socket back.
  give :
      (pool_index : ℕ) (sk : Socket) (ret : ℤ)
      → Member sk s.held
      → Step s (record s {
        srv = (insert_server_reuse_socket pool_index sk ret s.srv).0;
        held = epoll_del sk.sk s.held;
      })
  -- A worker closes a socket and deletes it.
  drop :
      (sk : Socket)
      → Member sk s.held
      → Step s (record s {
        srv = record (s.srv) { closed = s.srv.closed ++ sk ∷ [] };
        held = epoll_del sk.sk s.held;
      })

pub data Reach (s : System) : System → Type 0 where
  start : Reach s s
  later : {t u : System} → Reach s t → Step t u → Reach s u
