-- ===== src/Nf/Server/Loop.antt =====
-- all-sync/server.hpp: EpollLoop over its rounds.
use kknf.Base.{
  ℕ, ◌≡◌, ◌≢◌, refl, inl, inr, List, [], ◌∷◌, ◌++◌, some, Bool, true, false, All, arith, length,
  length-set, get_elem?, Option-cases,
}
use kknf.Base.Int.{ℤ}
use kknf.Nf.Socket.{Socket}
use kknf.Nf.Server.{Server, SocketMap, insert_at, insert_server_ready_socket}
use kknf.Nf.Server.Poll.{
  Event, Answers, Processed, done, aborts, exits, blocks, process_events, insert_ready, poll_events,
}
use kknf.Nf.Server.Ready.{process_events-under}
use kknf.Nf.Server.Indices.{IsServed, poll_events-no_abort}
use kknf.Nf.Server.Timer.{Wait, timed_out, wait_failed, reported, broken, epoll_loop, next_timeout}

insert_at-length :
    (i : ℕ) (sks : List Socket) (lists lists' : List (List Socket))
    → insert_at i sks lists ≡ some lists'
    → length lists' ≡ length lists
unfolding insert_at
insert_at-length i sks lists lists' e = elim (Option-cases (get_elem? lists i)) [
  | inl n ↦ absurd (ground arith)
  | inr (ss, q) ↦ ground (arith, length-set lists i (ss ++ sks))
]

flush-length :
    (m : SocketMap) (srv srv' : Server)
    → insert_server_ready_socket m srv ≡ some srv'
    → length srv'.ready ≡ length srv.ready
unfolding insert_server_ready_socket
flush-length [] srv srv' e = ground arith
flush-length ((i, sks) ∷ m) srv srv' e = elim (Option-cases (insert_at i sks srv.ready)) [
  | inl n ↦ absurd (ground arith)
  | inr (lists, q) ↦ ground (
    arith,
    insert_at-length i sks srv.ready lists q,
    flush-length m (record srv { ready = lists }) srv',
  )
]

poll_events-length :
    (es : List (Event × Answers)) (srv srv' : Server) (r : ℤ) (m : SocketMap)
    → poll_events es srv ≡ done r srv' m
    → length srv'.ready ≡ length srv.ready
unfolding poll_events insert_ready
poll_events-length es srv srv' r m h = by (process_events es srv []) refl h
  where
    by :
        (p : Processed)
        → process_events es srv [] ≡ p
        → insert_ready p ≡ done r srv' m
        → length srv'.ready ≡ length srv.ready
    by aborts q k = cc
    by exits q k = cc
    by blocks q k = cc
    by (done r1 s1 m1) q k = elim (Option-cases (insert_server_ready_socket m1 s1)) [
      | inl n ↦ absurd (ground arith)
      | inr (s2, q2) ↦
          ground (arith, flush-length m1 s1 s2 q2, (process_events-under es srv [] r1 s1 m1 tt q).0)
    ]

-- The events of the wait are for sockets that are served.
abbrev pub AllServed : ℕ → Wait → Type 0
AllServed lists (reported es start end) = All (λ (ea : Event × Answers). IsServed lists ea.0.sk) es
AllServed lists _ = Unit

-- However long EpollLoop runs, it fails no assertion, where in every round each event is for a
-- socket of a known type and, for a connection, with an index that had a ready list when the loop
-- started.
pub epoll_loop-no_abort :
    (ws : List (Bool × Wait)) (timeout : ℤ) (srv : Server)
    → All (λ (w : Bool × Wait). AllServed (length srv.ready) w.1) ws
    → epoll_loop ws timeout srv ≢ broken aborts
unfolding epoll_loop
epoll_loop-no_abort [] timeout srv h = λ e. cc
epoll_loop-no_abort ((true, w) ∷ ws) timeout srv h = λ e. cc
epoll_loop-no_abort ((false, timed_out) ∷ ws) timeout srv (h, hs) =
    λ e. ground (arith, epoll_loop-no_abort ws srv.timer_interval srv hs)
epoll_loop-no_abort ((false, wait_failed errno) ∷ ws) timeout srv (h, hs) =
    λ e. ground (arith, epoll_loop-no_abort ws timeout srv hs)
epoll_loop-no_abort ((false, reported es start end) ∷ ws) timeout srv (h, hs) =
    by (poll_events es srv) refl (λ t s1 h1. epoll_loop-no_abort ws t s1 h1)
  where
    by :
        (p : Processed)
        → poll_events es srv ≡ p
        → ((t : ℤ) (s1 : Server)
            → All (λ (w : Bool × Wait). AllServed (length s1.ready) w.1) ws
            → epoll_loop ws t s1 ≢ broken aborts)
        → epoll_loop ((false, reported es start end) ∷ ws) timeout srv ≢ broken aborts
    by aborts q rest e = poll_events-no_abort es srv h q
    by exits q rest e = ground arith
    by blocks q rest e = ground arith
    by (done r s1 m) q rest e = ground (
      arith,
      rest (next_timeout s1 timeout start end) s1 (rw (poll_events-length es srv s1 r m q) hs),
    )
