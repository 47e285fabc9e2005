-- ===== src/Nf/Server/Indices.antt =====
-- all-sync/server.hpp: the assertions on socket types and on the indices of the ready lists.
use kknf.Base.{
  ℕ, zero, suc, ◌∙◌, length-set, ◌≤◌, ◌<◌, ◌≡◌, ◌≢◌, refl, List, [], ◌∷◌, ◌++◌, none, some, Bool,
  if◌then◌else◌, arith, All, length, get_elem?, set,
}
use kknf.Nf.Socket.{Socket, tcp_server}
use kknf.Nf.Server.{Server, SocketMap, push, insert_at, insert_server_ready_socket}
use kknf.Nf.Server.Poll.{
  Event, Answers, done, aborts, exits, blocks, Processed, epoll_process, process_in, apply_result,
  process_events, insert_ready, poll_events, Drained, drained, drain_exits, drain_blocks, drain,
  after_drain,
}
use kknf.Nf.Server.Ready.{epoll_process-map, apply_result-ready, is_ready}

-- The socket has one of the types that EpollProcess serves, and a ready list.
abbrev pub IsServed : ℕ → Socket → Type 0
IsServed lists sk = (1 ≤ sk.type_) × (sk.type_ ≤ 4) × (sk.type_ ≡ tcp_server → sk.id < lists)

-- The keys are indices of ready lists.
abbrev AllBelow : ℕ → SocketMap → Type 0
AllBelow lists [] = Unit
AllBelow lists ((i, ss) ∷ m) = (i < lists) × AllBelow lists m

push-AllBelow :
    (lists i : ℕ) (sk : Socket) (m : SocketMap)
    → i < lists
    → AllBelow lists m
    → AllBelow lists (push i sk m)
unfolding push
push-AllBelow lists i sk [] h hs = (h, tt)
push-AllBelow lists i sk ((j, ss) ∷ m) h (n, ns) = ground (arith, push-AllBelow lists i sk m h ns)

after_drain-no_abort :
    (can_add : ℕ → Bool) (m : SocketMap) (srv : Server) (d : Drained)
    → after_drain can_add m srv d ≢ aborts
unfolding after_drain
after_drain-no_abort can_add m srv drain_exits e = cc
after_drain-no_abort can_add m srv drain_blocks e = cc
after_drain-no_abort can_add m srv (drained n) e = cc

epoll_process-no_abort :
    (e : Event) (a : Answers) (srv : Server) (m : SocketMap)
    → IsServed (length srv.ready) e.sk
    → epoll_process e a srv m ≢ aborts
unfolding epoll_process process_in
epoll_process-no_abort e a srv m (h, k, n) =
    ground (arith, after_drain-no_abort a.can_add m srv (drain a.local_recvs 0))

get_elem?-some :
    (i : ℕ) (lists : List (List Socket))
    → i < length lists
    → (ss : List Socket) × (get_elem? lists i ≡ some ss)
get_elem?-some i [] h = absurd (omega arith)
get_elem?-some zero (l ∷ ls) h = (l, refl)
get_elem?-some (suc i) (l ∷ ls) h = get_elem?-some i ls (omega arith)

insert_at-some :
    (i : ℕ) (sks : List Socket) (lists : List (List Socket))
    → i < length lists
    → (lists' : List (List Socket)) × (insert_at i sks lists ≡ some lists')
      × (length lists' ≡ length lists)
unfolding insert_at
insert_at-some i sks lists h =
    let (ss, q) = get_elem?-some i lists h in
    (set lists i (ss ++ sks), rw (q, insert_at) refl, length-set lists i (ss ++ sks))

flush-some :
    (m : SocketMap) (srv : Server)
    → AllBelow (length srv.ready) m
    → insert_server_ready_socket m srv ≢ none
unfolding insert_server_ready_socket
flush-some [] srv h e = cc
flush-some ((i, sks) ∷ m) srv (h, hs) e =
    let (lists, q, n) = insert_at-some i sks srv.ready h in
    ground (arith, flush-some m (record srv { ready = lists }) (rw n hs))

process_events-no_abort :
    (es : List (Event × Answers)) (srv : Server) (m : SocketMap)
    → All (λ (ea : Event × Answers). IsServed (length srv.ready) ea.0.sk) es
    → AllBelow (length srv.ready) m
    → insert_ready (process_events es srv m) ≢ aborts
unfolding process_events insert_ready
process_events-no_abort [] srv m h b = λ k. ground (arith, flush-some m srv b)
process_events-no_abort ((e, a) ∷ es) srv m (h, hs) b =
    by (epoll_process e a srv m) refl (λ srv1 m1 h1 b1. process_events-no_abort es srv1 m1 h1 b1)
  where
    by :
        (p : Processed)
        → epoll_process e a srv m ≡ p
        → ((srv1 : Server) (m1 : SocketMap)
            → All (λ (ea : Event × Answers). IsServed (length srv1.ready) ea.0.sk) es
            → AllBelow (length srv1.ready) m1
            → insert_ready (process_events es srv1 m1) ≢ aborts)
        → insert_ready (elim p [
          | done r1 s1 m1 ↦ process_events es (apply_result e.sk r1 s1) m1
          | aborts ↦ aborts
          | exits ↦ exits
          | blocks ↦ blocks
        ])
          ≢ aborts
    by aborts q rest k = epoll_process-no_abort e a srv m h q
    by exits q rest k = cc
    by blocks q rest k = cc
    by (done r1 s1 m1) q rest k =
        let (is_kept, is_m1) = epoll_process-map e a srv m r1 s1 m1 q in
        let same : (apply_result e.sk r1 s1).ready ≡ srv.ready =
          apply_result-ready e.sk r1 s1 ∙ is_kept in
        rest (apply_result e.sk r1 s1) m1 (rw same hs)
          (rw same (rw is_m1 (if_below (is_ready e) refl))) k
      where
        if_below :
            (c : Bool)
            → is_ready e ≡ c
            → AllBelow (length srv.ready) (if c then push e.sk.id e.sk m else m)
        if_below c w = ground (arith, push-AllBelow (length srv.ready) e.sk.id e.sk m, h.2)

-- A round never fails an assertion, where every event is for a socket of a known type and, for a
-- connection, with an index that has a ready list.
pub poll_events-no_abort :
    (es : List (Event × Answers)) (srv : Server)
    → All (λ (ea : Event × Answers). IsServed (length srv.ready) ea.0.sk) es
    → poll_events es srv ≢ aborts
unfolding poll_events
poll_events-no_abort es srv h = process_events-no_abort es srv [] h tt
