-- ===== src/Nf/Server/Start/Registers.antt =====
-- What RunServer puts into epoll.
use kknf.Base.{
  ℕ, ◌≡◌, refl, ◌⊎◌, List, [], ◌∷◌, ◌++◌, append-nil, append_assoc, Bool, true, false, arith,
  length, if◌then◌else◌,
}
use kknf.Base.Int.{pos, minus_one, minus_two}
use kknf.Nf.Socket.{Socket}
use kknf.Nf.Server.{Server}
use kknf.Nf.Server.Start.{add_sockets, udp_sockets, run_server}

-- Whether epoll takes every one of these sockets.
abbrev pub all_taken : (ℕ → Bool) → List Socket → Bool
all_taken can_add [] = true
all_taken can_add (s ∷ ss) = if can_add s.sk then all_taken can_add ss else false

add_sockets-all_taken :
    (can_add : ℕ → Bool) (ss epoll : List Socket)
    → (add_sockets can_add ss epoll).1 ≡ all_taken can_add ss
unfolding add_sockets
add_sockets-all_taken can_add [] epoll = refl
add_sockets-all_taken can_add (s ∷ ss) epoll =
    ground (arith, add_sockets-all_taken can_add ss (epoll ++ s ∷ []))

add_sockets-append :
    (can_add : ℕ → Bool) (ss epoll : List Socket)
    → all_taken can_add ss ≡ true
    → (add_sockets can_add ss epoll).0 ≡ epoll ++ ss
unfolding add_sockets
add_sockets-append can_add [] epoll h = ground (arith, append-nil epoll)
add_sockets-append can_add (s ∷ ss) epoll h =
    ground (arith, add_sockets-append can_add ss (epoll ++ s ∷ []), append_assoc epoll (s ∷ []) ss)

-- The sockets that a Server listens to.
abbrev pub listening : Server → List Socket
listening srv = srv.listen_sockets ++ udp_sockets srv.udp_socket

-- RunServer answers 0 exactly if there is a socket to listen to and epoll takes each of them and the
-- local socket; then these are all in epoll, in order, behind what was there.
pub run_server-registers :
    (can_add : ℕ → Bool) (srv : Server)
    → let all = listening srv ++ srv.local_socket ∷ [] in
      let t = run_server can_add srv in
      ((t.1 ≡ minus_one) × (length (listening srv) ≡ 0) × (t.0 ≡ srv))
      ⊎ ((t.1 ≡ minus_two) × (all_taken can_add all ≡ false))
      ⊎ ((t.1 ≡ pos 0) × (all_taken can_add all ≡ true) × (t.0.epoll ≡ srv.epoll ++ all))
unfolding run_server
run_server-registers can_add srv =
    let all = listening srv ++ srv.local_socket ∷ [] in
    ground
      (arith, add_sockets-all_taken can_add all srv.epoll, add_sockets-append can_add all srv.epoll)
