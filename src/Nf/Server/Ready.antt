-- ===== src/Nf/Server/Ready.antt =====
-- all-sync/server.hpp: which sockets a round of EpollLoop makes ready, and in which order.
use kknf.Base.{
  ℕ, ◌-◌, ◌≡◌, refl, ◌∙◌, inl, inr, List, [], ◌∷◌, ◌++◌, append-nil, append_assoc, Bool, not, ◌&&◌,
  ◌==◌, if◌then◌else◌, arith, get_elem?, Option-cases,
}
use kknf.Base.Int.{ℤ}
use kknf.Nf.Addr.{Packet}
use kknf.Nf.Socket.{Socket, tcp_server}
use kknf.Nf.Server.{Server, SocketMap, push, insert_server_ready_socket, insert_udp_recv_packet}
use kknf.Nf.Server.Poll.{
  Event, Answers, done, aborts, exits, blocks, Processed, epoll_process, process_in, apply_result,
  process_events, insert_ready, poll_events, insert_packets, packets, drain, Drained, drained,
  drain_exits, drain_blocks, after_drain,
}
use kknf.Nf.Server.Mass.{accept_all-total, readd_all-total}
use kknf.Nf.Server.Flush.{under, IsSorted, push-IsSorted, under-push, extended, flush-get_elem?}

-- The event says that a connection has something to read, and is neither an error nor a hang-up.
abbrev pub is_ready : Event → Bool
is_ready e = (e.sk.type_ == tcp_server) && not e.err && e.readable && not e.rdhup

-- The sockets of list `index` that are ready, in the order of their events.
abbrev pub ready_at : ℕ → List (Event × Answers) → List Socket
ready_at index [] = []
ready_at index ((e, a) ∷ es) =
    let rest = ready_at index es in
    if is_ready e then if index == e.sk.id then e.sk ∷ rest else rest else rest

insert_packets-ready : (ps : List Packet) (srv : Server) → (insert_packets ps srv).ready ≡ srv.ready
unfolding insert_packets insert_udp_recv_packet
insert_packets-ready [] srv = refl
insert_packets-ready (p ∷ ps) srv = refl

after_drain-ready :
    (can_add : ℕ → Bool) (m : SocketMap) (srv : Server) (d : Drained) (r : ℤ) (srv' : Server)
    (m' : SocketMap)
    → after_drain can_add m srv d ≡ done r srv' m'
    → (srv'.ready ≡ srv.ready) × (m' ≡ m)
unfolding after_drain
after_drain-ready can_add m srv drain_exits r srv' m' e = cc
after_drain-ready can_add m srv drain_blocks r srv' m' e = cc
after_drain-ready can_add m srv (drained n) r srv' m' e = ground (
  arith,
  readd_all-total (λ s. 0) can_add srv.reuse (record srv { notes = srv.notes - n; reuse = [] }),
)

pub epoll_process-map :
    (e : Event) (a : Answers) (srv : Server) (m : SocketMap) (r : ℤ) (srv' : Server)
    (m' : SocketMap)
    → epoll_process e a srv m ≡ done r srv' m'
    → (srv'.ready ≡ srv.ready) × (m' ≡ (if is_ready e then push e.sk.id e.sk m else m))
unfolding epoll_process process_in
epoll_process-map e a srv m r srv' m' h = ground (
  arith,
  accept_all-total (λ s. 0) a.can_add e.sk a.accepts srv,
  insert_packets-ready (packets e.sk a.datagrams) srv,
  after_drain-ready a.can_add m srv (drain a.local_recvs 0) r srv' m',
)

pub apply_result-ready :
    (sk : Socket) (r : ℤ) (srv : Server) → (apply_result sk r srv).ready ≡ srv.ready
unfolding apply_result
apply_result-ready sk r srv = ground arith

-- The batch that the events of a round fill.
pub process_events-under :
    (es : List (Event × Answers)) (srv : Server) (m : SocketMap) (r : ℤ) (srv' : Server)
    (m' : SocketMap)
    → IsSorted m
    → process_events es srv m ≡ done r srv' m'
    → (srv'.ready ≡ srv.ready) × ((index : ℕ) → under index m' ≡ under index m ++ ready_at index es)
unfolding process_events
process_events-under [] srv m r srv' m' s h =
    (ground arith, λ index. ground (arith, append-nil (under index m)))
process_events-under ((e, a) ∷ es) srv m r srv' m' s h =
    by (epoll_process e a srv m) refl h
      (λ srv1 m1 s1 h1. process_events-under es srv1 m1 r srv' m' s1 h1)
  where
    by :
        (p : Processed)
        → epoll_process e a srv m ≡ p
        → (elim p [
          | done r1 s1 m1 ↦ process_events es (apply_result e.sk r1 s1) m1
          | aborts ↦ aborts
          | exits ↦ exits
          | blocks ↦ blocks
        ])
          ≡ done r srv' m'
        → ((srv1 : Server) (m1 : SocketMap)
            → IsSorted m1
            → process_events es srv1 m1 ≡ done r srv' m'
            → (srv'.ready ≡ srv1.ready)
              × ((index : ℕ) → under index m' ≡ under index m1 ++ ready_at index es))
        → (srv'.ready ≡ srv.ready)
          × ((index : ℕ) → under index m' ≡ under index m ++ ready_at index ((e, a) ∷ es))
    by aborts q k rest = cc
    by exits q k rest = cc
    by blocks q k rest = cc
    by (done r1 s1 m1) q k rest =
        let (is_kept, is_m1) = epoll_process-map e a srv m r1 s1 m1 q in
        let s1_sorted : IsSorted m1 = rw is_m1 (if_sorted (is_ready e)) in
        let (all_kept, all_under) = rest (apply_result e.sk r1 s1) m1 s1_sorted k in
        (
          all_kept ∙ apply_result-ready e.sk r1 s1 ∙ is_kept,
          λ index. all_under index ∙ one_more index (rw is_m1 refl),
        )
      where
        if_sorted : (b : Bool) → IsSorted (if b then push e.sk.id e.sk m else m)
        if_sorted b = ground (arith, push-IsSorted e.sk.id e.sk m s)

        one_more :
            (index : ℕ)
            → m1 ≡ (if is_ready e then push e.sk.id e.sk m else m)
            → under index m1 ++ ready_at index es ≡ under index m ++ ready_at index ((e, a) ∷ es)
        one_more index w = ground (
          arith,
          under-push index e.sk.id e.sk m s,
          append_assoc (under index m) (e.sk ∷ []) (ready_at index es),
        )

-- When a round of events ends normally, each ready list has at its end just the sockets of its listen
-- socket whose connection became readable without error or hang-up, in the order of the events, and
-- no list is made or lost.
pub poll_events-ready :
    (es : List (Event × Answers)) (srv srv' : Server) (r : ℤ) (m : SocketMap) (index : ℕ)
    → poll_events es srv ≡ done r srv' m
    → get_elem? srv'.ready index ≡ extended (ready_at index es) (get_elem? srv.ready index)
unfolding poll_events
poll_events-ready es srv srv' r m index h = by (process_events es srv []) refl h
  where
    by :
        (p : Processed)
        → process_events es srv [] ≡ p
        → insert_ready p ≡ done r srv' m
        → get_elem? srv'.ready index ≡ extended (ready_at index es) (get_elem? srv.ready index)
    by aborts q k = cc
    by exits q k = cc
    by blocks q k = cc
    by (done r1 s1 m1) q k = elim (Option-cases (insert_server_ready_socket m1 s1)) [
      | inl n ↦ absurd (ground arith)
      | inr (s2, q2) ↦
          let (is_kept, is_under) = process_events-under es srv [] r1 s1 m1 tt q in
          ground (arith, flush-get_elem? index m1 s1 s2 q2, is_under index)
    ]
