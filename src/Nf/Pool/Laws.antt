-- ===== src/Nf/Pool/Laws.antt =====
-- The pool files every socket under the address of its far end, so a caller gets a socket to the
-- address that it asked for, and a new connection is made only where no socket is idle.
use kknf.Base.{
  ◌⊎◌, inl, inr, ℕ, Bool, true, false, subst, sym, ◌≡◌, ◌≢◌, refl, List, [], ◌∷◌, ◌++◌, Option,
  none, some, arith, All, All-append,
}
use kknf.Base.Map.{same, same-eq, find, assign, erase}
use kknf.Base.Map.Laws.{find-assign, find-erase}
use kknf.Nf.Addr.{SocketAddr}
use kknf.Nf.Addr.Order.{addr_order}
use kknf.Nf.Socket.{Socket}
use kknf.Nf.Connect.{Answers, make_connection, make_connection-peer}
use kknf.Nf.Pool.{
  Client, Got, peer_addr, no_sockets, get_client_socket, insert_client_socket,
  get_idle_client_socket, or_connect,
}

-- The entries are not empty, and hold the sockets to their address.
pub record IsValid (c : Client) : Type 0 where
  pub no_empty : (a : SocketAddr) → find a c.idle ≢ some []
  pub filed :
      (a : SocketAddr) (ss : List Socket) → find a c.idle ≡ some ss → All (λ s. peer_addr s ≡ a) ss

pub no_sockets-IsValid : IsValid no_sockets
unfolding find
no_sockets-IsValid = record { no_empty = λ a e. cc; filed = λ a ss e. cc }

erase-IsValid :
    (a : SocketAddr) (c : Client) → IsValid c → IsValid (record c { idle = erase a c.idle })
erase-IsValid a c v = record {
  no_empty = λ b. ground (arith, find-erase b a c.idle, v.no_empty b);
  filed = λ b ss e. ground (arith, find-erase b a c.idle, v.filed b ss);
}

assign-IsValid :
    (a : SocketAddr) (s : Socket) (ss : List Socket) (c : Client)
    → IsValid c
    → All (λ t. peer_addr t ≡ a) (s ∷ ss)
    → IsValid (record c { idle = assign a (s ∷ ss) c.idle })
assign-IsValid a s ss c v h = record {
  no_empty = λ b. ground (arith, find-assign b a (s ∷ ss) c.idle, v.no_empty b);
  filed = λ b us e. filed_by b us (same b a) refl e;
}
  where
    filed_by :
        (b : SocketAddr) (us : List Socket) (t : Bool)
        → same b a ≡ t
        → find b (assign a (s ∷ ss) c.idle) ≡ some us
        → All (λ t. peer_addr t ≡ b) us
    filed_by b us true q e =
        let same_addr : b ≡ a = same-eq b a q in
        let all : us ≡ s ∷ ss = ground (arith, find-assign b a (s ∷ ss) c.idle) in
        rw all (subst (λ x. All (λ t. peer_addr t ≡ x) (s ∷ ss)) (sym same_addr) h)
    filed_by b us false q e = v.filed b us (ground (arith, find-assign b a (s ∷ ss) c.idle))

-- The socket, if there is one, is to the address.
abbrev pub Filed : SocketAddr → Option Socket → Type 0
Filed a none = Unit
Filed a (some s) = peer_addr s ≡ a

get-IsValid_by :
    (a : SocketAddr) (c : Client) (o : Option (List Socket))
    → IsValid c
    → find a c.idle ≡ o
    → (d : Client) × (r : Option Socket) × (get_client_socket a.ip a.port c ≡ some (d, r))
      × IsValid d
      × Filed a r
unfolding get_client_socket
get-IsValid_by a c none v e = rw (e, get_client_socket) (c, none, refl, v, tt)
get-IsValid_by a c (some []) v e = absurd (v.no_empty a e)
get-IsValid_by a c (some (s ∷ [])) v e =
    rw (e, get_client_socket) (_, some s, refl, erase-IsValid a c v, (v.filed a _ e).0)
get-IsValid_by a c (some (s ∷ t ∷ rest)) v e =
    rw (e, get_client_socket)
      (_, some s, refl, assign-IsValid a t rest c v (v.filed a _ e).1, (v.filed a _ e).0)

insert-IsValid_by :
    (sk : Socket) (c : Client) (o : Option (List Socket))
    → IsValid c
    → find (peer_addr sk) c.idle ≡ o
    → (d : Client) × (insert_client_socket sk c ≡ some d) × IsValid d
unfolding insert_client_socket
insert-IsValid_by sk c none v e =
    rw (e, insert_client_socket) (_, refl, assign-IsValid (peer_addr sk) sk [] c v (refl, tt))
insert-IsValid_by sk c (some []) v e = absurd (v.no_empty (peer_addr sk) e)
insert-IsValid_by sk c (some (s ∷ rest)) v e =
    rw (e, insert_client_socket)
      (
        _,
        refl,
        assign-IsValid (peer_addr sk) s (rest ++ sk ∷ []) c v (
            All-append (λ t. peer_addr t ≡ peer_addr sk) (s ∷ rest) (sk ∷ [])
              (v.filed (peer_addr sk) _ e) (refl, tt)),
      )

-- `InsertClientSocket` fails no assertion on a valid pool and leaves a valid one.
pub insert_client_socket-IsValid :
    (sk : Socket) (c : Client)
    → IsValid c
    → (d : Client) × (insert_client_socket sk c ≡ some d) × IsValid d
insert_client_socket-IsValid sk c v = insert-IsValid_by sk c _ v refl

make_connection-Filed :
    (a : SocketAddr) (ans : Answers) (opened : List ℕ) (o : Option Socket)
    → (make_connection a.ip a.port ans opened).made ≡ o
    → Filed a o
make_connection-Filed a ans opened none e = tt
make_connection-Filed a ans opened (some s) e =
    ground (arith, make_connection-peer a.ip a.port ans opened s)

or_connect-IsValid :
    (a : SocketAddr) (ans : Answers) (opened : List ℕ) (d : Client) (r : Option Socket)
    → IsValid d
    → Filed a r
    → let g = or_connect a.ip a.port ans opened (d, r) in IsValid g.client × Filed a g.socket
unfolding or_connect
or_connect-IsValid a ans opened d none v f = (v, make_connection-Filed a ans opened _ refl)
or_connect-IsValid a ans opened d (some s) v f = (v, f)

get_idle_lem :
    (a : SocketAddr) (ans : Answers) (opened : List ℕ) (c d : Client) (r : Option Socket)
    → get_client_socket a.ip a.port c ≡ some (d, r)
    → get_idle_client_socket a.ip a.port ans opened c
      ≡ some (or_connect a.ip a.port ans opened (d, r))
unfolding get_idle_client_socket
get_idle_lem a ans opened c d r e = rw (e, get_idle_client_socket)

-- Where the socket comes from: it is the first that is idle to the address, with no descriptor opened,
-- or, where none is, what MakeConnection gives, which is no socket where its calls fail.
abbrev pub ComesFrom : SocketAddr → Answers → List ℕ → Client → Got → Type 0
ComesFrom a ans opened c g =
    ((find a c.idle ≡ none)
      × (g.socket ≡ (make_connection a.ip a.port ans opened).made)
      × (g.opened ≡ (make_connection a.ip a.port ans opened).opened))
    ⊎ ((s : Socket) × (rest : List Socket) × (find a c.idle ≡ some (s ∷ rest))
        × (g.socket ≡ some s)
        × (g.opened ≡ opened))

get_idle-ComesFrom :
    (a : SocketAddr) (ans : Answers) (opened : List ℕ) (c : Client) (g : Got)
    (o : Option (List Socket))
    → find a c.idle ≡ o
    → get_idle_client_socket a.ip a.port ans opened c ≡ some g
    → ComesFrom a ans opened c g
unfolding get_idle_client_socket get_client_socket or_connect
get_idle-ComesFrom a ans opened c g none e h = inl (e, ground arith, ground arith)
get_idle-ComesFrom a ans opened c g (some []) e h = absurd (ground arith)
get_idle-ComesFrom a ans opened c g (some (s ∷ [])) e h = inr (s, [], e, ground arith, ground arith)
get_idle-ComesFrom a ans opened c g (some (s ∷ t ∷ rest)) e h =
    inr (s, t ∷ rest, e, ground arith, ground arith)

-- On a valid pool `GetIdleClientSocket` fails no assertion and leaves a valid pool. What it returns is
-- the first idle socket to the address with no descriptor opened, or, where none is idle, what
-- MakeConnection gives, which may be no socket; a socket that it returns is to the address asked for.
pub get_idle_client_socket-peer :
    (a : SocketAddr) (ans : Answers) (opened : List ℕ) (c : Client)
    → IsValid c
    → (g : Got) × (get_idle_client_socket a.ip a.port ans opened c ≡ some g)
      × IsValid g.client
      × Filed a g.socket
      × ComesFrom a ans opened c g
get_idle_client_socket-peer a ans opened c v =
    let (d, r, e, v', f) = get-IsValid_by a c _ v refl in
    let (valid, filed) = or_connect-IsValid a ans opened d r v' f in
    let got = get_idle_lem a ans opened c d r e in
    let g : Got = or_connect a.ip a.port ans opened (d, r) in
    (g, got, valid, filed, get_idle-ComesFrom a ans opened c g (find a c.idle) refl got)
