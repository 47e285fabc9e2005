-- ===== src/Nf/Server/System/Exclusive.antt =====
-- A descriptor is in one place at a time.
use kknf.Base.{
  inl, inr, ℕ, ◌+◌, ◌≤◌, ◌≡◌, refl, sym, ap, List, [], ◌∷◌, some, none, Option, arith, get_elem?,
}
use kknf.Base.Int.{ℤ, pos}
use kknf.Nf.Socket.{Socket}
use kknf.Nf.Server.{
  Server, SocketMap, got, take_ready, get_server_ready_socket, insert_server_reuse_socket,
  insert_server_ready_socket,
}
use kknf.Nf.Server.Poll.{Event, Answers, done, epoll_process, apply_result}
use kknf.Nf.Server.Mass.{
  has, total, total_lists, total_map, total_open, epoll_del-total, total_lists-take, total_map-push,
  insert_server_ready_socket-total,
}
use kknf.Nf.Server.System.{
  System, Step, wake, event, flush, take, give, drop, Reach, start, later, uses, AllRegistered,
  AllFresh,
}
use kknf.Nf.Server.System.Process.{event-shrinks, epoll_process-made}
use kknf.Nf.Server.System.Kept.{accept_all-once, AllRegistered-event}

-- No descriptor is in use twice, and the events to come are for sockets in epoll.
pub record Inv (s : System) : Type 0 where
  pub once : (fd : ℕ) → uses fd s ≤ 1
  pub registered : AllRegistered s.srv.epoll s.pending

apply_result-zero : (sk : Socket) (srv : Server) → apply_result sk (pos 0) srv ≡ srv
unfolding apply_result
apply_result-zero sk srv = refl

take-total :
    (w : Socket → ℕ) (index : ℕ) (srv srv' : Server) (sk : Socket)
    → get_server_ready_socket index srv ≡ got srv' sk
    → (total_lists w srv'.ready + w sk ≡ total_lists w srv.ready)
      × (srv'.epoll ≡ srv.epoll)
      × (srv'.reuse ≡ srv.reuse)
unfolding get_server_ready_socket
take-total w index srv srv' sk e = by (get_elem? srv.ready index) refl e
  where
    by :
        (o : Option (List Socket))
        → get_elem? srv.ready index ≡ o
        → take_ready index srv o ≡ got srv' sk
        → (total_lists w srv'.ready + w sk ≡ total_lists w srv.ready)
          × (srv'.epoll ≡ srv.epoll)
          × (srv'.reuse ≡ srv.reuse)
    by none q h = cc
    by (some []) q h = cc
    by (some (x ∷ rest)) q h = ground (arith, total_lists-take w srv.ready index x rest q)

-- The events are listed as they are.
registered_as :
    (epoll : List Socket) (es es' : List Event)
    → es ≡ es'
    → AllRegistered epoll es
    → AllRegistered epoll es'
registered_as epoll es es' p h = rw (sym p) h

event-once :
    (s : System) (e : Event) (a : Answers) (es : List Event) (r : ℤ) (srv : Server) (m : SocketMap)
    → Inv s
    → s.pending ≡ e ∷ es
    → AllFresh a.can_add e.sk
        (λ fd. total_map (has fd) s.batch + total (has fd) s.held)
        a.accepts
        s.srv
    → epoll_process e a s.srv s.batch ≡ done r srv m
    → (fd : ℕ)
    → total_open (has fd) (apply_result e.sk r srv) + total_map (has fd) m + total (has fd) s.held
      ≤ 1
event-once s e a es r srv m v p fresh k fd = elim (epoll_process-made e a s.srv s.batch r srv m k) [
  | inl none_made ↦ ground (
    arith,
    event-shrinks (has fd) e a s.srv s.batch r srv m k
        (registered_as s.srv.epoll s.pending (e ∷ es) p v.registered).0
        (ground (arith, v.once e.sk.sk)) none_made,
    v.once fd,
  )
  | inr (z, same_batch, is_accepted) ↦ ground (
    arith,
    apply_result-zero e.sk srv,
    ap (λ t. apply_result e.sk t srv) z,
    accept_all-once a.can_add e.sk (λ x. total_map (has x) s.batch + total (has x) s.held) a.accepts
        s.srv (λ x. ground (arith, v.once x)) fresh fd,
  )
]

flush-once :
    (s : System) (srv : Server)
    → Inv s
    → insert_server_ready_socket s.batch s.srv ≡ some srv
    → (fd : ℕ) → total_open (has fd) srv + total (has fd) s.held ≤ 1
flush-once s srv v e fd =
    ground (arith, insert_server_ready_socket-total (has fd) s.batch s.srv srv e, v.once fd)

-- Every step keeps the invariant.
Step-Inv : (s t : System) → Step s t → Inv s → Inv t
unfolding insert_server_reuse_socket
Step-Inv s t (wake es p q h) v = record { once = v.once; registered = h }
Step-Inv s t (event e a es r srv m p fresh k) v =
    let (h, ns, hs) = registered_as s.srv.epoll s.pending (e ∷ es) p v.registered in
    record {
      once = event-once s e a es r srv m v p fresh k;
      registered = AllRegistered-event e a es s.srv s.batch r srv m k ns hs;
    }
Step-Inv s t (flush srv p e) v = record {
  once = λ fd. ground (arith, flush-once s srv v e fd);
  registered = registered_as srv.epoll [] s.pending (sym p) tt;
}
Step-Inv s t (take index srv sk e) v = record {
  once = λ fd. ground (arith, take-total (has fd) index s.srv srv sk e, v.once fd);
  registered = rw (take-total (has 0) index s.srv srv sk e).1 v.registered;
}
Step-Inv s t (give pool_index sk ret h) v = record {
  once = λ fd. ground (
    arith,
    epoll_del-total (has fd) sk s.held h,
    total_map-push (has fd) pool_index sk s.srv.reuse,
    v.once fd,
    v.once sk.sk,
  );
  registered = v.registered;
}
Step-Inv s t (drop sk h) v = record {
  once = λ fd. ground (arith, epoll_del-total (has fd) sk s.held h, v.once fd, v.once sk.sk);
  registered = v.registered;
}

-- From a state where no descriptor is in use twice, whatever the order of the steps of the polling
-- thread and the workers, a descriptor stays in one place at most: in epoll, in a ready list, in the
-- batch, in the reuse list, or with one worker.
pub Reach-exclusive : (s t : System) → Inv s → Reach s t → (fd : ℕ) → uses fd t ≤ 1
Reach-exclusive s t v r = (reach_Inv t r).once
  where
    reach_Inv : (u : System) → Reach s u → Inv u
    reach_Inv u start = v
    reach_Inv u (later r st) = Step-Inv _ u st (reach_Inv _ r)
