-- ===== src/Nf/Pool.antt =====
-- all-sync/client.hpp, without TCPWaitToRead: the idle client sockets, in a std::map from the
-- address of their far end to a std::list. `none` is a failed assertion.
pub mod Refines
pub mod Laws
use kknf.Base.{ℕ, List, [], ◌∷◌, ◌++◌, Option, none, some}
use kknf.Base.Map.{Map, find, assign, erase}
use kknf.Nf.Addr.{SocketAddr}
use kknf.Nf.Addr.Order.{addr_order}
use kknf.Nf.Socket.{Socket}
use kknf.Nf.Connect.{Answers, make_connection}

pub record Client : Type 0 where
  pub idle : Map SocketAddr (List Socket)

-- The key under which a socket is kept: `peer_ipstr` and `peer_port`.
abbrev pub peer_addr : Socket → SocketAddr
peer_addr s = record { ip = s.peer_ipstr; port = s.peer_port }

abbrev pub no_sockets : Client
no_sockets = record { idle = [] }

-- The list found under `addr` gives up its first socket, and its entry with the last one.
take_front : SocketAddr → Client → List Socket → Option (Client × Option Socket)
take_front addr c [] = none
take_front addr c (s ∷ []) = some (record c { idle = erase addr c.idle }, some s)
take_front addr c (s ∷ t ∷ rest) = some (record c { idle = assign addr (t ∷ rest) c.idle }, some s)

-- Client::GetClientSocket.
unfoldable pub get_client_socket : List ℕ → ℕ → Client → Option (Client × Option Socket)
unfolding take_front
get_client_socket ip port c =
    let addr : SocketAddr = record { ip = ip; port = port } in
    elim (find addr c.idle) [ none ↦ some (c, none) | some sks ↦ take_front addr c sks ]

put_back : SocketAddr → Socket → Client → List Socket → Option Client
put_back addr sk c [] = none
put_back addr sk c (s ∷ rest) =
    some (record c { idle = assign addr ((s ∷ rest) ++ sk ∷ []) c.idle })

-- Client::InsertClientSocket.
unfoldable pub insert_client_socket : Socket → Client → Option Client
unfolding put_back
insert_client_socket sk c = elim (find (peer_addr sk) c.idle) [
  | none ↦ some (record c { idle = assign (peer_addr sk) (sk ∷ []) c.idle })
  | some sks ↦ put_back (peer_addr sk) sk c sks
]

-- What GetIdleClientSocket leaves: the pool, the socket, and the open descriptors.
pub record Got : Type 0 where
  pub client : Client
  pub socket : Option Socket
  pub opened : List ℕ

or_connect : List ℕ → ℕ → Answers → List ℕ → Client × Option Socket → Got
or_connect ip port a opened (c, none) =
    let m = make_connection ip port a opened in
    record { client = c; socket = m.made; opened = m.opened }
or_connect ip port a opened (c, some s) = record { client = c; socket = some s; opened = opened }

-- Client::GetIdleClientSocket.
unfoldable pub get_idle_client_socket : List ℕ → ℕ → Answers → List ℕ → Client → Option Got
unfolding or_connect
get_idle_client_socket ip port a opened c = elim (get_client_socket ip port c) [
  | none ↦ none
  | some r ↦ some (or_connect ip port a opened r)
]
