-- ===== src/Nf/Server/Mass.antt =====
-- Sums over all the places where a Server keeps sockets. With a weight that tests the descriptor a sum
-- counts how often that descriptor occurs.
use kknf.Base.{
  ℕ, zero, suc, ◌+◌, ◌≤◌, ◌≡◌, refl, ap, ◌⊎◌, inl, inr, List, [], ◌∷◌, ◌++◌, none, some, Bool,
  arith, if◌then◌else◌, ◌==◌, get_elem?, set, Option-cases,
}
use kknf.Nf.Socket.{Socket}
use kknf.Nf.Server.{Server, SocketMap, push, insert_at, insert_server_ready_socket}
use kknf.Nf.Server.Poll.{
  add_or_close, accept_all, readd_list, readd_all, epoll_del, Accepted, server_socket,
}

-- 1 at the sockets on this descriptor.
abbrev pub has : ℕ → Socket → ℕ
has fd s = if fd == s.sk then 1 else 0

module _ (w : Socket → ℕ) where
  abbrev pub total : List Socket → ℕ
  total [] = 0
  total (s ∷ ss) = w s + total ss

  abbrev pub total_lists : List (List Socket) → ℕ
  total_lists [] = 0
  total_lists (ss ∷ sss) = total ss + total_lists sss

  abbrev pub total_map : SocketMap → ℕ
  total_map [] = 0
  total_map ((i, ss) ∷ m) = total ss + total_map m

  -- The sockets that are open: not those that have been closed.
  abbrev pub total_open : Server → ℕ
  total_open srv = total srv.epoll + total_lists srv.ready + total_map srv.reuse

-- The socket is in the list.
abbrev pub Member : Socket → List Socket → Type 0
Member sk [] = ⊥
Member sk (s ∷ ss) = (sk ≡ s) ⊎ Member sk ss

total-Member : (sk : Socket) (ss : List Socket) → Member sk ss → 1 ≤ total (has sk.sk) ss
total-Member sk [] h = elim h [ ]
total-Member sk (s ∷ ss) (inl e) = rw e (ground arith)
total-Member sk (s ∷ ss) (inr h) = ground (arith, total-Member sk ss h)

epoll_del-absent : (fd : ℕ) (ss : List Socket) → total (has fd) ss ≡ 0 → epoll_del fd ss ≡ ss
unfolding epoll_del
epoll_del-absent fd [] h = refl
epoll_del-absent fd (s ∷ ss) h = ground (arith, epoll_del-absent fd ss)

-- The sockets that an accept loop makes of its connections.
pub created : Socket → List Accepted → List Socket
created listen_sk [] = []
created listen_sk (a ∷ as') =
    let rest = created listen_sk as' in
    elim a.ipstr [ none ↦ rest | some ipstr ↦ server_socket listen_sk a ipstr ∷ rest ]

module _ (w : Socket → ℕ) where
  pub total-append : (xs ys : List Socket) → total w (xs ++ ys) ≡ total w xs + total w ys
  total-append [] ys = omega arith
  total-append (x ∷ xs) ys = omega (arith, total-append xs ys)

  pub total_map-push :
      (i : ℕ) (s : Socket) (m : SocketMap) → total_map w (push i s m) ≡ total_map w m + w s
  unfolding push
  total_map-push i s [] = omega arith
  total_map-push i s ((j, ss) ∷ m) = ground (arith, total_map-push i s m, total-append ss (s ∷ []))

  pub total_lists-take :
      (lists : List (List Socket)) (i : ℕ) (s : Socket) (rest : List Socket)
      → get_elem? lists i ≡ some (s ∷ rest)
      → total_lists w (set lists i rest) + w s ≡ total_lists w lists
  total_lists-take [] i s rest e = cc
  total_lists-take (ss ∷ lists) zero s rest e = ground arith
  total_lists-take (ss ∷ lists) (suc i) s rest e = omega (arith, total_lists-take lists i s rest e)

  total_lists-set :
      (lists : List (List Socket)) (i : ℕ) (ss sks : List Socket)
      → get_elem? lists i ≡ some ss
      → total_lists w (set lists i (ss ++ sks)) ≡ total_lists w lists + total w sks
  total_lists-set [] i ss sks e = cc
  total_lists-set (l ∷ lists) zero ss sks e = ground (arith, total-append ss sks)
  total_lists-set (l ∷ lists) (suc i) ss sks e = omega (arith, total_lists-set lists i ss sks e)

  pub insert_at-total :
      (i : ℕ) (sks : List Socket) (lists lists' : List (List Socket))
      → insert_at i sks lists ≡ some lists'
      → total_lists w lists' ≡ total_lists w lists + total w sks
  unfolding insert_at
  insert_at-total i sks lists lists' e = elim (Option-cases (get_elem? lists i)) [
    | inl n ↦ absurd (ground arith)
    | inr (ss, q) ↦ ground (arith, total_lists-set lists i ss sks q)
  ]

  -- The flush of `server_sk_map` moves its sockets to the ready lists.
  pub insert_server_ready_socket-total :
      (m : SocketMap) (srv srv' : Server)
      → insert_server_ready_socket m srv ≡ some srv'
      → (total_lists w srv'.ready ≡ total_lists w srv.ready + total_map w m)
        × (srv'.epoll ≡ srv.epoll)
        × (srv'.reuse ≡ srv.reuse)
        × (srv'.closed ≡ srv.closed)
  unfolding insert_server_ready_socket
  insert_server_ready_socket-total [] srv srv' e = ground arith
  insert_server_ready_socket-total ((i, sks) ∷ m) srv srv' e =
      elim (Option-cases (insert_at i sks srv.ready)) [
        | inl n ↦ absurd (ground arith)
        | inr (lists, q) ↦ ground (
          arith,
          insert_at-total i sks srv.ready lists q,
          insert_server_ready_socket-total m (record srv { ready = lists }) srv',
        )
      ]

  pub add_or_close-total :
      (can_add : ℕ → Bool) (sk : Socket) (srv : Server)
      → let srv' = add_or_close can_add sk srv in
        (total w srv'.epoll + total w srv'.closed ≡ total w srv.epoll + total w srv.closed + w sk)
        × (total w srv'.epoll ≤ total w srv.epoll + w sk)
        × (srv'.ready ≡ srv.ready)
        × (srv'.reuse ≡ srv.reuse)
  unfolding add_or_close
  add_or_close-total can_add sk srv =
      ground (arith, total-append srv.epoll (sk ∷ []), total-append srv.closed (sk ∷ []))

  readd_list-total :
      (can_add : ℕ → Bool) (sks : List Socket) (srv : Server)
      → let srv' = readd_list can_add sks srv in
        (total w srv'.epoll + total w srv'.closed
          ≡ total w srv.epoll + total w srv.closed + total w sks)
        × (total w srv'.epoll ≤ total w srv.epoll + total w sks)
        × (srv'.ready ≡ srv.ready)
        × (srv'.reuse ≡ srv.reuse)
  unfolding readd_list
  readd_list-total can_add [] srv = ground arith
  readd_list-total can_add (sk ∷ sks) srv = ground (
    arith,
    add_or_close-total can_add sk srv,
    readd_list-total can_add sks (add_or_close can_add sk srv),
  )

  -- The reuse list goes back to epoll, but for the sockets that are closed.
  pub readd_all-total :
      (can_add : ℕ → Bool) (m : SocketMap) (srv : Server)
      → let srv' = readd_all can_add m srv in
        (total w srv'.epoll + total w srv'.closed
          ≡ total w srv.epoll + total w srv.closed + total_map w m)
        × (total w srv'.epoll ≤ total w srv.epoll + total_map w m)
        × (srv'.ready ≡ srv.ready)
        × (srv'.reuse ≡ srv.reuse)
  unfolding readd_all
  readd_all-total can_add [] srv = ground arith
  readd_all-total can_add ((i, sks) ∷ m) srv = ground (
    arith,
    readd_list-total can_add sks srv,
    readd_all-total can_add m (readd_list can_add sks srv),
  )

  -- The sockets that the accept loop makes.
  pub accept_all-total :
      (can_add : ℕ → Bool) (listen_sk : Socket) (as' : List Accepted) (srv : Server)
      → let srv' = accept_all can_add listen_sk as' srv in
        (total w srv'.epoll + total w srv'.closed
          ≡ total w srv.epoll + total w srv.closed + total w (created listen_sk as'))
        × (total w srv.closed ≤ total w srv'.closed)
        × (srv'.ready ≡ srv.ready)
        × (srv'.reuse ≡ srv.reuse)
  unfolding accept_all created
  accept_all-total can_add listen_sk [] srv = ground arith
  accept_all-total can_add listen_sk (a ∷ as') srv = elim (Option-cases a.ipstr) [
    | inl n ↦ rw n (accept_all-total can_add listen_sk as' srv)
    | inr (ipstr, q) ↦ rw q (
        ground (
          arith,
          add_or_close-total can_add (server_socket listen_sk a ipstr) srv,
          accept_all-total can_add listen_sk as'
              (add_or_close can_add (server_socket listen_sk a ipstr) srv),
        ))
  ]

  -- With a descriptor that stands once in the list, a deletion takes away just its socket.
  pub epoll_del-total :
      (sk : Socket) (ss : List Socket)
      → Member sk ss
      → total (has sk.sk) ss ≤ 1
      → total w (epoll_del sk.sk ss) + w sk ≡ total w ss
  unfolding epoll_del
  epoll_del-total sk [] h u = elim h [ ]
  epoll_del-total sk (s ∷ ss) (inl e) u =
      ground (arith, epoll_del-absent sk.sk ss, ap (λ (t : Socket). t.sk) e, ap w e)
  epoll_del-total sk (s ∷ ss) (inr h) u =
      ground (arith, epoll_del-total sk ss h, total-Member sk ss h)
