-- ===== src/Nf/Server/Listen.antt =====
-- all-sync/server.hpp: the indices of the listen sockets and of their ready lists.
use kknf.Base.{
  ℕ, suc, ◌+◌, ◌≡◌, refl, ◌⊎◌, inl, inr, List, [], ◌∷◌, ◌++◌, arith, length, length-append,
  Option-cases,
}
use kknf.Base.Int.{pos, minus_one}
use kknf.Nf.Socket.{Socket, tcp_listen}
use kknf.Nf.Server.{Server}
use kknf.Nf.Server.Start.{BindAnswers, add_listen_socket, listen_socket}

-- The sockets from position n on have their position as id.
abbrev pub AreNumbered : ℕ → List Socket → Type 0
AreNumbered n [] = Unit
AreNumbered n (sk ∷ sks) = (sk.id ≡ n) × (sk.type_ ≡ tcp_listen) × AreNumbered (suc n) sks

-- Each listen socket has its position as id, and there is a ready list for each.
pub record IsIndexed (srv : Server) : Type 0 where
  pub numbered : AreNumbered 0 srv.listen_sockets
  pub lists : length srv.ready ≡ length srv.listen_sockets

AreNumbered-append :
    (n : ℕ) (sks : List Socket) (sk : Socket)
    → sk.id ≡ n + length sks
    → sk.type_ ≡ tcp_listen
    → AreNumbered n sks
    → AreNumbered n (sks ++ sk ∷ [])
AreNumbered-append n [] sk e t h = (omega arith, t, tt)
AreNumbered-append n (x ∷ sks) sk e t (h, k, hs) =
    (h, k, AreNumbered-append (suc n) sks sk (omega arith) t hs)

-- AddListenSocket either answers -1 and changes nothing, or answers the index of a new empty ready
-- list, which is the id of the new listen socket; every listen socket keeps its own list.
pub add_listen_socket-IsIndexed :
    (ipstr : List ℕ) (port : ℕ) (a : BindAnswers) (srv : Server)
    → IsIndexed srv
    → let made = add_listen_socket ipstr port a srv in
      IsIndexed made.0
      × ((made.1 ≡ minus_one) × (made.0 ≡ srv)
          ⊎ (made.1 ≡ pos (length srv.listen_sockets))
            × (made.0.ready ≡ srv.ready ++ [] ∷ [])
            × (length made.0.listen_sockets ≡ suc (length srv.listen_sockets)))
unfolding add_listen_socket listen_socket
add_listen_socket-IsIndexed ipstr port a srv v = elim (Option-cases a.socket_fd) [
  | inl n ↦ ground arith
  | inr (fd, q) ↦ elim (Option-cases a.ip) [
    | inl n ↦ ground arith
    | inr (ip, q2) ↦
        let sk = listen_socket fd ipstr ip port (length srv.listen_sockets) in
        ground (
          arith,
          length-append srv.listen_sockets (sk ∷ []),
          length-append srv.ready ([] ∷ []),
          AreNumbered-append 0 srv.listen_sockets sk (omega arith) refl v.numbered,
        )
  ]
]
