-- ===== src/Nf/Main/Exclusive.antt =====
-- The server of all-sync/test_multi_pool_server.cc from its main function on.
use kknf.Base.{
  ap, subst, ℕ, ◌+◌, ◌≤◌, ◌≡◌, refl, ◌∙◌, inl, inr, List, [], ◌∷◌, ◌++◌, Option, none, some, Bool,
  true, arith, Option-cases, ◌==◌, if◌then◌else◌, length,
}
use kknf.Base.Int.{ℤ, pos}
use kknf.Nf.Socket.{Socket, new_socket, no_id, udp}
use kknf.Nf.Server.{Server}
use kknf.Nf.Server.Mass.{has, total, total_lists, total-append}
use kknf.Nf.Server.Start.{
  new_server, init_server, BindAnswers, add_listen_socket, listen_socket, init_udp_socket,
  udp_sockets, run_server,
}
use kknf.Nf.Server.Start.Registers.{listening, run_server-registers}
use kknf.Nf.Server.System.{System, Reach, uses}
use kknf.Nf.Server.System.Exclusive.{Inv, Reach-exclusive}
use kknf.Nf.Main.{SetUp, my_ip, set_up_pools}

-- How often socket() has given this descriptor.
abbrev pub given : ℕ → Option ℕ → ℕ
given fd none = 0
given fd (some x) = if fd == x then 1 else 0

-- How often one of the three calls of socket() or socketpair() has given this descriptor.
abbrev pub given_in : ℕ → SetUp → ℕ
given_in fd a =
    given fd a.numbers.socket_fd
    + given fd a.lines.socket_fd
    + given fd a.datagrams.socket_fd
    + given fd a.pair

-- The thread that polls has started, and no worker has a socket.
abbrev pub started : Server → System
started srv = record { srv = srv; batch = []; pending = []; held = [] }

-- No socket is in a queue yet, and a descriptor is listened to so often at most.
abbrev Listens : ℕ → ℕ → Server → Type 0
Listens fd n srv =
    (srv.epoll ≡ [])
    × (srv.reuse ≡ [])
    × (total_lists (has fd) srv.ready ≡ 0)
    × (total (has fd) (listening srv) ≤ n)

total_lists-append :
    (w : Socket → ℕ) (xs ys : List (List Socket))
    → total_lists w (xs ++ ys) ≡ total_lists w xs + total_lists w ys
total_lists-append w [] ys = omega arith
total_lists-append w (x ∷ xs) ys = omega (arith, total_lists-append w xs ys)

new_server-Listens : (fd : ℕ) (interval : ℤ) → Listens fd 0 (new_server none interval)
unfolding new_server udp_sockets
new_server-Listens fd interval = (refl, refl, refl, omega arith)

-- A listen socket more.
with_socket-Listens :
    (fd n : ℕ) (sk : Socket) (srv : Server)
    → Listens fd n srv
    → Listens fd (n + has fd sk) (record srv {
      listen_sockets = srv.listen_sockets ++ sk ∷ [];
      ready = srv.ready ++ [] ∷ [];
    })
with_socket-Listens fd n sk srv h = ground (
  arith,
  total_lists-append (has fd) srv.ready ([] ∷ []),
  total-append (has fd) srv.listen_sockets (udp_sockets srv.udp_socket),
  total-append (has fd) (srv.listen_sockets ++ sk ∷ []) (udp_sockets srv.udp_socket),
  total-append (has fd) srv.listen_sockets (sk ∷ []),
)

add_listen_socket-Listens :
    (fd n port : ℕ) (ip : List ℕ) (a : BindAnswers) (srv : Server)
    → Listens fd n srv
    → Listens fd (n + given fd a.socket_fd) (add_listen_socket ip port a srv).0
unfolding add_listen_socket listen_socket new_socket
add_listen_socket-Listens fd n port ip a srv h = elim (Option-cases a.socket_fd) [
  | inl e ↦ ground arith
  | inr (x, e) ↦ elim (Option-cases a.ip) [
    | inl e' ↦ ground arith
    | inr (y, e') ↦ ground (
      arith,
      with_socket-Listens fd n (listen_socket x ip y port (length srv.listen_sockets)) srv h,
    )
  ]
]

with_udp_socket-Listens :
    (fd n : ℕ) (sk : Socket) (srv : Server)
    → Listens fd n srv
    → srv.udp_socket ≡ none
    → Listens fd (n + has fd sk) (record srv { udp_socket = some sk })
unfolding udp_sockets
with_udp_socket-Listens fd n sk srv h new = ground (
  arith,
  total-append (has fd) srv.listen_sockets (sk ∷ []),
  total-append (has fd) srv.listen_sockets [],
)

init_udp_socket-Listens :
    (fd n port : ℕ) (ip : List ℕ) (a : BindAnswers) (srv : Server)
    → Listens fd n srv
    → srv.udp_socket ≡ none
    → Listens fd (n + given fd a.socket_fd) (init_udp_socket ip port a srv).0
unfolding init_udp_socket new_socket
init_udp_socket-Listens fd n port ip a srv h new = elim (Option-cases a.socket_fd) [
  | inl e ↦ ground arith
  | inr (x, e) ↦ elim (Option-cases a.ip) [
    | inl e' ↦ ground arith
    | inr (y, e') ↦
        let sk : Socket = record (new_socket x) {
          my_ipstr = ip;
          my_ip = y;
          my_port = port;
          id = no_id;
          type_ = udp;
        } in
        ground (arith, with_udp_socket-Listens fd n sk srv h new)
  ]
]

add_listen_socket-udp_socket :
    (port : ℕ) (ip : List ℕ) (a : BindAnswers) (srv : Server)
    → (add_listen_socket ip port a srv).0.udp_socket ≡ srv.udp_socket
unfolding add_listen_socket
add_listen_socket-udp_socket port ip a srv = ground arith

-- Where InitUDPSocket succeeds.
abbrev pub InitsUdp : BindAnswers → Type 0
InitsUdp a = ((x : ℕ) × (a.socket_fd ≡ some x)) × ((y : ℕ) × (a.ip ≡ some y)) × (a.bound ≡ true)

-- It does not look at what stood in `udp_socket_`.
init_udp_socket-forgets :
    (port : ℕ) (ip : List ℕ) (a : BindAnswers) (srv : Server) (u : Option Socket)
    → InitsUdp a
    → (init_udp_socket ip port a (record srv { udp_socket = u })).0
      ≡ (init_udp_socket ip port a srv).0
unfolding init_udp_socket
init_udp_socket-forgets port ip a srv u ((x, e), (y, e'), b) = rw (e, e', b)

add_listen_socket-frame :
    (port : ℕ) (ip : List ℕ) (a : BindAnswers) (srv : Server) (u : Option Socket)
    → (add_listen_socket ip port a (record srv { udp_socket = u })).0
      ≡ record (add_listen_socket ip port a srv).0 { udp_socket = u }
unfolding add_listen_socket
add_listen_socket-frame port ip a srv u = ground arith

-- Where InitUDPSocket succeeds, what stood in memory makes no difference.
set_up_pools-memory :
    (a : SetUp) (u : Option Socket)
    → InitsUdp a.datagrams
    → set_up_pools (record a { memory = u }) ≡ set_up_pools a
unfolding set_up_pools new_server
set_up_pools-memory a u h =
    let s0 = new_server a.memory (pos 10000) in
    let s1 = (add_listen_socket my_ip 20031 a.numbers s0).0 in
    let s2 = (add_listen_socket my_ip 20032 a.lines s1).0 in
    let first = add_listen_socket-frame 20031 my_ip a.numbers s0 u in
    let second = add_listen_socket-frame 20032 my_ip a.lines s1 u in
    let third = init_udp_socket-forgets 20033 my_ip a.datagrams s2 u h in
    ap
      (λ s.
        (init_server a.created a.pair
          (init_udp_socket my_ip 20033 a.datagrams
            (add_listen_socket my_ip 20032 a.lines s).0).0).0)
      first
    ∙ ap (λ s. (init_server a.created a.pair (init_udp_socket my_ip 20033 a.datagrams s).0).0)
        second
    ∙ ap (λ s. (init_server a.created a.pair s).0) third

-- What main() makes of the Server, where InitServer succeeds.
set_up_pools-Listens :
    (fd : ℕ) (a : SetUp) (p : ℕ)
    → a.memory ≡ none
    → a.created ≡ true
    → a.pair ≡ some p
    → Listens fd
        (given fd a.numbers.socket_fd + given fd a.lines.socket_fd + given fd a.datagrams.socket_fd)
        (set_up_pools a)
      × ((set_up_pools a).local_socket.sk ≡ p)
unfolding set_up_pools init_server new_server new_socket
set_up_pools-Listens fd a p m c e =
    let s0 = new_server a.memory (pos 10000) in
    let first : Listens fd 0 s0 = rw m (new_server-Listens fd (pos 10000)) in
    let h1 = add_listen_socket-Listens fd 0 20031 my_ip a.numbers s0 first in
    let s1 = (add_listen_socket my_ip 20031 a.numbers s0).0 in
    let h2 = add_listen_socket-Listens fd _ 20032 my_ip a.lines s1 h1 in
    let s2 = (add_listen_socket my_ip 20032 a.lines s1).0 in
    let none_yet : s2.udp_socket ≡ none =
      add_listen_socket-udp_socket 20032 my_ip a.lines s1
      ∙ add_listen_socket-udp_socket 20031 my_ip a.numbers s0
      ∙ m in
    let h3 = init_udp_socket-Listens fd _ 20033 my_ip a.datagrams s2 h2 none_yet in
    ground (arith, h3)

run_server-Inv :
    (can_add : ℕ → Bool) (srv : Server)
    → (run_server can_add srv).1 ≡ pos 0
    → ((fd : ℕ) → Listens fd 1 srv × (total (has fd) (listening srv) + has fd srv.local_socket ≤ 1))
    → Inv (started (run_server can_add srv).0)
unfolding run_server
run_server-Inv can_add srv ok h = record {
  once = λ fd. ground (
    arith,
    run_server-registers can_add srv,
    h fd,
    total-append (has fd) (listening srv) (srv.local_socket ∷ []),
  );
  registered = tt;
}

-- Where main() of test_multi_pool_server.cc has set its Server up, whatever its two calls of
-- AddListenSocket have answered, where InitUDPSocket and InitServer have succeeded, no descriptor was
-- given twice and RunServer has taken every socket, then in any interleaving of the thread that polls
-- with the workers a descriptor stays in one place at most: in epoll, in a ready list, in the batch, in
-- the reuse list, or with one worker.
pub set_up_pools-exclusive :
    (a : SetUp) (p : ℕ) (can_add : ℕ → Bool) (t : System) (fd : ℕ)
    → InitsUdp a.datagrams
    → a.created ≡ true
    → a.pair ≡ some p
    → ((x : ℕ) → given_in x a ≤ 1)
    → (run_server can_add (set_up_pools a)).1 ≡ pos 0
    → Reach (started (run_server can_add (set_up_pools a)).0) t
    → uses fd t ≤ 1
set_up_pools-exclusive a p can_add t fd u c e once ok r =
    let clean : SetUp = record a { memory = none } in
    let same : set_up_pools clean ≡ set_up_pools a = set_up_pools-memory a none u in
    let inv : Inv (started (run_server can_add (set_up_pools clean)).0) =
      run_server-Inv can_add (set_up_pools clean) (ap (λ s. (run_server can_add s).1) same ∙ ok)
        (λ x. ground (arith, set_up_pools-Listens x clean p refl c e, once x)) in
    Reach-exclusive (started (run_server can_add (set_up_pools a)).0) t
      (subst (λ s. Inv (started (run_server can_add s).0)) same inv) r fd
