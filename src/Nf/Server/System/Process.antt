-- ===== src/Nf/Server/System/Process.antt =====
-- What one event does to the places where sockets are kept.
use kknf.Base.{
  ◌⊎◌, inl, inr, ℕ, ◌+◌, ◌-◌, ◌≤◌, ◌≡◌, refl, List, [], ◌∷◌, Bool, arith, if◌then◌else◌, ◌==◌, ◌||◌,
}
use kknf.Base.Int.{ℤ, pos, pos_part}
use kknf.Nf.Addr.{Packet}
use kknf.Nf.Socket.{Socket, tcp_listen}
use kknf.Nf.Server.{Server, SocketMap, insert_udp_recv_packet}
use kknf.Nf.Server.Poll.{
  Event, Answers, done, Drained, drained, drain_exits, drain_blocks, drain, after_drain, process_in,
  epoll_process, insert_packets, packets, apply_result, accept_all,
}
use kknf.Nf.Server.Mass.{
  has, total, total_map, total_open, created, accept_all-total, readd_all-total, total_map-push,
  Member, epoll_del-total, total-append,
}

-- The sockets that an event makes.
abbrev pub made : Event → Answers → List Socket
made e a =
    if e.err
    then []
    else if e.readable || e.rdhup
    then if e.sk.type_ == tcp_listen then created e.sk a.accepts else []
    else []

module _ (w : Socket → ℕ) where
  -- Open sockets and closed ones.
  abbrev pub total_all : Server → SocketMap → ℕ
  total_all srv m = total_open w srv + total w srv.closed + total_map w m

module _ (w : Socket → ℕ) where
  insert_packets-total :
      (ps : List Packet) (srv : Server) (m : SocketMap)
      → total_all w (insert_packets ps srv) m ≡ total_all w srv m
  unfolding insert_packets insert_udp_recv_packet
  insert_packets-total [] srv m = refl
  insert_packets-total (p ∷ ps) srv m = refl

  insert_packets-closed :
      (ps : List Packet) (srv : Server) → (insert_packets ps srv).closed ≡ srv.closed
  unfolding insert_packets insert_udp_recv_packet
  insert_packets-closed [] srv = refl
  insert_packets-closed (p ∷ ps) srv = refl

  after_drain-total :
      (can_add : ℕ → Bool) (m : SocketMap) (srv : Server) (d : Drained) (r : ℤ) (srv' : Server)
      (m' : SocketMap)
      → after_drain can_add m srv d ≡ done r srv' m'
      → (total_all w srv' m' ≡ total_all w srv m)
        × (total w srv.closed ≤ total w srv'.closed)
        × (r ≡ pos 0)
  unfolding after_drain
  after_drain-total can_add m srv drain_exits r srv' m' e = cc
  after_drain-total can_add m srv drain_blocks r srv' m' e = cc
  after_drain-total can_add m srv (drained n) r srv' m' e = ground (
    arith,
    readd_all-total w can_add srv.reuse (record srv { notes = srv.notes - n; reuse = [] }),
  )

  process_in-total :
      (e : Event) (a : Answers) (srv : Server) (m : SocketMap) (r : ℤ) (srv' : Server)
      (m' : SocketMap)
      → process_in e a srv m ≡ done r srv' m'
      → total_all w srv' m'
        ≡ total_all w srv m
          + total w (if e.sk.type_ == tcp_listen then created e.sk a.accepts else [])
          + (if pos_part r == 1 then w e.sk else 0)
  unfolding process_in
  process_in-total e a srv m r srv' m' h = ground (
    arith,
    accept_all-total w a.can_add e.sk a.accepts srv,
    total_map-push w e.sk.id e.sk m,
    insert_packets-total (packets e.sk a.datagrams) srv m,
    after_drain-total a.can_add m srv (drain a.local_recvs 0) r srv' m',
  )

  epoll_process-total :
      (e : Event) (a : Answers) (srv : Server) (m : SocketMap) (r : ℤ) (srv' : Server)
      (m' : SocketMap)
      → epoll_process e a srv m ≡ done r srv' m'
      → total_all w srv' m'
        ≡ total_all w srv m + total w (made e a) + (if pos_part r == 1 then w e.sk else 0)
  unfolding epoll_process
  epoll_process-total e a srv m r srv' m' h = ground (arith, process_in-total e a srv m r srv' m')

  -- EpollProcess leaves the epoll list alone where its result takes the socket out of it.
  epoll_process-epoll :
      (e : Event) (a : Answers) (srv : Server) (m : SocketMap) (r : ℤ) (srv' : Server)
      (m' : SocketMap)
      → epoll_process e a srv m ≡ done r srv' m'
      → (r ≡ pos 0) ⊎ (srv'.epoll ≡ srv.epoll)
  unfolding epoll_process process_in
  epoll_process-epoll e a srv m r srv' m' h =
      ground (arith, after_drain-total a.can_add m srv (drain a.local_recvs 0) r srv' m')

  -- What is closed stays closed.
  epoll_process-closed :
      (e : Event) (a : Answers) (srv : Server) (m : SocketMap) (r : ℤ) (srv' : Server)
      (m' : SocketMap)
      → epoll_process e a srv m ≡ done r srv' m'
      → total w srv.closed ≤ total w srv'.closed
  unfolding epoll_process process_in
  epoll_process-closed e a srv m r srv' m' h = ground (
    arith,
    accept_all-total w a.can_add e.sk a.accepts srv,
    insert_packets-closed (packets e.sk a.datagrams) srv,
    after_drain-total a.can_add m srv (drain a.local_recvs 0) r srv' m',
  )

  -- One event of a socket that is in epoll, on a descriptor that is there once, with what EpollLoop does
  -- after it: with any weight of sockets, the open and the closed ones together weigh what they did
  -- before and what the sockets of the accept loop weigh, so none is lost or doubled.
  pub event-total :
      (e : Event) (a : Answers) (srv : Server) (m : SocketMap) (r : ℤ) (srv' : Server)
      (m' : SocketMap)
      → epoll_process e a srv m ≡ done r srv' m'
      → Member e.sk srv.epoll
      → total (has e.sk.sk) srv.epoll ≤ 1
      → total_all w (apply_result e.sk r srv') m' ≡ total_all w srv m + total w (made e a)
  unfolding apply_result
  event-total e a srv m r srv' m' h k u = elim (epoll_process-epoll e a srv m r srv' m' h) [
    | inl z ↦ ground (arith, epoll_process-total e a srv m r srv' m' h)
    | inr same_epoll ↦ ground (
      arith,
      epoll_process-total e a srv m r srv' m' h,
      epoll_del-total w e.sk srv.epoll k u,
      total-append w srv'.closed (e.sk ∷ []),
    )
  ]

  -- An event that makes no socket adds none to the open ones.
  pub event-shrinks :
      (e : Event) (a : Answers) (srv : Server) (m : SocketMap) (r : ℤ) (srv' : Server)
      (m' : SocketMap)
      → epoll_process e a srv m ≡ done r srv' m'
      → Member e.sk srv.epoll
      → total (has e.sk.sk) srv.epoll ≤ 1
      → made e a ≡ []
      → total_open w (apply_result e.sk r srv') + total_map w m' ≤ total_open w srv + total_map w m
  unfolding apply_result
  event-shrinks e a srv m r srv' m' h k u none_made = ground (
    arith,
    event-total e a srv m r srv' m' h k u,
    epoll_process-closed e a srv m r srv' m' h,
    total-append w srv'.closed (e.sk ∷ []),
  )

-- An event makes no socket, or it is that of a listen socket.
pub epoll_process-made :
    (e : Event) (a : Answers) (srv : Server) (m : SocketMap) (r : ℤ) (srv' : Server)
    (m' : SocketMap)
    → epoll_process e a srv m ≡ done r srv' m'
    → (made e a ≡ []) ⊎ ((r ≡ pos 0) × (m' ≡ m) × (srv' ≡ accept_all a.can_add e.sk a.accepts srv))
unfolding epoll_process process_in
epoll_process-made e a srv m r srv' m' h = ground arith
