-- ===== src/Nf/Server/System/Kept.antt =====
-- What one event keeps: the sockets in epoll, and one use at most of each descriptor.
use kknf.Base.{
  inl, inr, ◌≢◌, ℕ, ◌+◌, ◌-◌, ◌≤◌, ◌≡◌, refl, ap, List, [], ◌∷◌, ◌++◌, Option, none, some, Bool,
  arith, All,
}
use kknf.Base.Int.{ℤ}
use kknf.Nf.Socket.{Socket}
use kknf.Nf.Addr.{Packet}
use kknf.Nf.Server.{Server, SocketMap, insert_udp_recv_packet}
use kknf.Nf.Server.Poll.{
  Event, Accepted, Answers, done, accept_one, accept_all, add_or_close, server_socket, readd_list,
  readd_all, drain, drained, drain_exits, drain_blocks, Drained, after_drain, process_in,
  epoll_process, epoll_del, apply_result, insert_packets, packets,
}
use kknf.Nf.Server.Mass.{has, total_open, Member, add_or_close-total}
use kknf.Nf.Server.System.{AllFresh, AllRegistered}

-- The accept loop on fresh descriptors doubles none.
pub accept_all-once :
    (can_add : ℕ → Bool) (sk : Socket) (others : ℕ → ℕ) (as' : List Accepted) (srv : Server)
    → ((fd : ℕ) → total_open (has fd) srv + others fd ≤ 1)
    → AllFresh can_add sk others as' srv
    → (fd : ℕ) → total_open (has fd) (accept_all can_add sk as' srv) + others fd ≤ 1
unfolding accept_all
accept_all-once can_add sk others [] srv u f fd = u fd
accept_all-once can_add sk others (a ∷ as') srv u f fd =
    accept_all-once can_add sk others as' _ (once_by a.ipstr) f.1 fd
  where
    once_by :
        (o : Option (List ℕ)) (x : ℕ)
        → total_open (has x) (accept_one can_add sk a o srv) + others x ≤ 1
    once_by none x = u x
    once_by (some ipstr) x =
        ground (arith, f.0, u x, add_or_close-total (has x) can_add (server_socket sk a ipstr) srv)

Member-append : (f : Socket) (xs ys : List Socket) → Member f xs → Member f (xs ++ ys)
Member-append f [] ys h = elim h [ ]
Member-append f (x ∷ xs) ys (inl e) = inl e
Member-append f (x ∷ xs) ys (inr h) = inr (Member-append f xs ys h)

Member-epoll_del :
    (f : Socket) (fd : ℕ) (xs : List Socket) → f.sk ≢ fd → Member f xs → Member f (epoll_del fd xs)
unfolding epoll_del
Member-epoll_del f fd [] n h = elim h [ ]
Member-epoll_del f fd (x ∷ xs) n (inl e) = ground (arith, ap (λ (t : Socket). t.sk) e)
Member-epoll_del f fd (x ∷ xs) n (inr h) = ground (arith, Member-epoll_del f fd xs n h)

add_or_close-Member :
    (f : Socket) (can_add : ℕ → Bool) (sk : Socket) (srv : Server)
    → Member f srv.epoll
    → Member f (add_or_close can_add sk srv).epoll
unfolding add_or_close
add_or_close-Member f can_add sk srv h = ground (arith, Member-append f srv.epoll (sk ∷ []) h)

accept_all-Member :
    (f : Socket) (can_add : ℕ → Bool) (sk : Socket) (as' : List Accepted) (srv : Server)
    → Member f srv.epoll
    → Member f (accept_all can_add sk as' srv).epoll
unfolding accept_all
accept_all-Member f can_add sk [] srv h = h
accept_all-Member f can_add sk (a ∷ as') srv h = accept_all-Member f can_add sk as' _ (kept a.ipstr)
  where
    kept : (o : Option (List ℕ)) → Member f (accept_one can_add sk a o srv).epoll
    kept none = h
    kept (some ipstr) = add_or_close-Member f can_add (server_socket sk a ipstr) srv h

readd_list-Member :
    (f : Socket) (can_add : ℕ → Bool) (sks : List Socket) (srv : Server)
    → Member f srv.epoll
    → Member f (readd_list can_add sks srv).epoll
unfolding readd_list
readd_list-Member f can_add [] srv h = h
readd_list-Member f can_add (sk ∷ sks) srv h =
    readd_list-Member f can_add sks _ (add_or_close-Member f can_add sk srv h)

readd_all-Member :
    (f : Socket) (can_add : ℕ → Bool) (m : SocketMap) (srv : Server)
    → Member f srv.epoll
    → Member f (readd_all can_add m srv).epoll
unfolding readd_all
readd_all-Member f can_add [] srv h = h
readd_all-Member f can_add ((i, sks) ∷ m) srv h =
    readd_all-Member f can_add m _ (readd_list-Member f can_add sks srv h)

insert_packets-epoll : (ps : List Packet) (srv : Server) → (insert_packets ps srv).epoll ≡ srv.epoll
unfolding insert_packets insert_udp_recv_packet
insert_packets-epoll [] srv = refl
insert_packets-epoll (p ∷ ps) srv = refl

after_drain-Member :
    (f : Socket) (can_add : ℕ → Bool) (m : SocketMap) (srv : Server) (d : Drained) (r : ℤ)
    (srv' : Server) (m' : SocketMap)
    → after_drain can_add m srv d ≡ done r srv' m'
    → Member f srv.epoll
    → Member f srv'.epoll
unfolding after_drain
after_drain-Member f can_add m srv drain_exits r srv' m' e h = cc
after_drain-Member f can_add m srv drain_blocks r srv' m' e h = cc
after_drain-Member f can_add m srv (drained n) r srv' m' e h = ground (
  arith,
  readd_all-Member f can_add srv.reuse (record srv { notes = srv.notes - n; reuse = [] }) h,
)

-- EpollProcess takes no socket out of epoll.
pub epoll_process-Member :
    (f : Socket) (e : Event) (a : Answers) (srv : Server) (m : SocketMap) (r : ℤ) (srv' : Server)
    (m' : SocketMap)
    → epoll_process e a srv m ≡ done r srv' m'
    → Member f srv.epoll
    → Member f srv'.epoll
unfolding epoll_process process_in
epoll_process-Member f e a srv m r srv' m' k h = ground (
  arith,
  accept_all-Member f a.can_add e.sk a.accepts srv h,
  insert_packets-epoll (packets e.sk a.datagrams) srv,
  after_drain-Member f a.can_add m srv (drain a.local_recvs 0) r srv' m',
)

apply_result-Member :
    (f sk : Socket) (r : ℤ) (srv : Server)
    → f.sk ≢ sk.sk
    → Member f srv.epoll
    → Member f (apply_result sk r srv).epoll
unfolding apply_result
apply_result-Member f sk r srv n h = ground (arith, Member-epoll_del f sk.sk srv.epoll n h)

-- The events to come are still for sockets in epoll.
pub AllRegistered-event :
    (e : Event) (a : Answers) (es : List Event) (srv : Server) (m : SocketMap) (r : ℤ)
    (srv' : Server) (m' : SocketMap)
    → epoll_process e a srv m ≡ done r srv' m'
    → All (λ (f : Event). f.sk.sk ≢ e.sk.sk) es
    → AllRegistered srv.epoll es
    → AllRegistered (apply_result e.sk r srv').epoll es
AllRegistered-event e a [] srv m r srv' m' k n h = h
AllRegistered-event e a (f ∷ es) srv m r srv' m' k (n, ns) (h, fs, hs) = (
  apply_result-Member f.sk e.sk r srv' n (epoll_process-Member f.sk e a srv m r srv' m' k h),
  fs,
  AllRegistered-event e a es srv m r srv' m' k ns hs,
)
