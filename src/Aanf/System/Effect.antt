-- ===== src/Aanf/System/Effect.antt =====
-- What a handler may do: the tables keep the sides of their sockets, and an operation on a connection
-- to another server is followed by at most one.
use kknf.Base.{
  ℕ, ◌+◌, ◌≤◌, ◌≡◌, List, [], ◌∷◌, ◌++◌, Bool, true, false, All, arith, ◌==◌, if◌then◌else◌,
}
use kknf.Base.Map.{Map}
use kknf.Aanf.Tables.{SocketInfo, Skeleton, write}
use kknf.Aanf.Tables.{SocketType, tcp_lv, tcp_http, tcp_line, tcp_tlv, tcp_usr1, tcp_unknown}
use kknf.Aanf.Requests.{
  done, start_write, Op, connect_then_write, write_then_close, anything_then_nothing,
}

-- 1 for connecting.
abbrev pub connects : Op → ℕ
connects (connect_then_write buf) = 1
connects _ = 0

-- 1 for the writes and reads that carry a request and its reply.
abbrev pub exchanges : Op → ℕ
exchanges (connect_then_write buf) = 0
exchanges write_then_close = 0
exchanges anything_then_nothing = 0
exchanges _ = 1

abbrev pub total : (Op → ℕ) → ℕ → List (Op × ℕ) → ℕ
total w q [] = 0
total w q ((op, p) ∷ ops) = (if q == p then w op else 0) + total w q ops

pub total-append :
    (w : Op → ℕ) (q : ℕ) (xs ys : List (Op × ℕ))
    → total w q (xs ++ ys) ≡ total w q xs + total w q ys
total-append w q [] ys = omega arith
total-append w q ((op, p) ∷ xs) ys = omega (arith, total-append w q xs ys)

All-change :
    (N : ℕ → Type 0) (client also : ℕ → Bool) (ps : List ℕ)
    → ((q : ℕ) → N q → also q ≡ client q)
    → All N ps
    → All (λ q. client q ≡ true) ps
    → All (λ q. also q ≡ true) ps
All-change N client also [] e n h = tt
All-change N client also (q ∷ ps) e n h =
    (ground (arith, e q n.0, h.0), All-change N client also ps e n.1 h.1)

-- The types of packets that are written.
abbrev pub serves : SocketType → Bool
serves tcp_lv = true
serves tcp_http = true
serves _ = false

module _ {E : Type 0} where
  -- A client's socket that connects, with `c` operations that connect it and `e` that carry requests
  -- and replies: there is at most one of them; it connects while it is not connected and
  -- not in use, and carries while it is connected and in use; and a connected one has a type that is written.
  abbrev pub Phase : SocketInfo E → ℕ → ℕ → Type 0
  Phase i c e =
      (1 ≤ c → i.is_client ≡ true)
      × (i.is_client ≡ true → c + e ≤ 1)
      × (i.is_client ≡ true → 1 ≤ c → (i.in_use ≡ false) × (i.is_connected ≡ false))
      × (i.is_client ≡ true → 1 ≤ e → (i.in_use ≡ true) × (i.is_connected ≡ true))
      × (i.is_client ≡ true → i.is_connected ≡ true → serves i.type_ ≡ true)

  abbrev pub ServersOk : (ℕ → Bool) → Map E ℕ → Type 0
  ServersOk client m = All (λ (e : E × ℕ). client e.1 ≡ false) m

  abbrev pub ClientsOk : (ℕ → Bool) → Map E (List ℕ) → Type 0
  ClientsOk client m = All (λ (e : E × List ℕ). All (λ p. client p ≡ true) e.1) m

  abbrev pub TablesOk : (ℕ → Bool) → Skeleton E → Type 0
  TablesOk client s = ServersOk client s.servers × ClientsOk client s.clients

  -- The tables see only the sockets that they have.
  pub TablesOk-change :
      (N : ℕ → Type 0) (client also : ℕ → Bool) (s : Skeleton E)
      → ((q : ℕ) → N q → also q ≡ client q)
      → All (λ (e : E × ℕ). N e.1) s.servers
      → All (λ (e : E × List ℕ). All N e.1) s.clients
      → TablesOk client s
      → TablesOk also s
  TablesOk-change N client also s e n l (h, g) = (servers s.servers n h, clients s.clients l g)
    where
      servers : (m : Map E ℕ) → All (λ (a : E × ℕ). N a.1) m → ServersOk client m → ServersOk also m
      servers [] n h = tt
      servers ((k, q) ∷ m) n h = (ground (arith, e q n.0, h.0), servers m n.1 h.1)

      clients :
          (m : Map E (List ℕ))
          → All (λ (a : E × List ℕ). All N a.1) m
          → ClientsOk client m
          → ClientsOk also m
      clients [] n h = tt
      clients ((k, ps) ∷ m) n h = (All-change N client also ps e n.0 h.0, clients m n.1 h.1)

  -- The effect of `op` on `p` that leads from `s` to `t` and starts `ops`, seen from the socket `q`.
  abbrev pub Effect :
      (ℕ → Bool) → ℕ → ℕ → ℕ → Op → ℕ → Skeleton E → Skeleton E → List (Op × ℕ) → Type 0
  Effect client q c e op p s t ops =
      (TablesOk client s → TablesOk client t)
      × ((t.info q).is_client ≡ (s.info q).is_client)
      × (Phase (s.info q) (c + (if q == p then connects op else 0))
            (e + (if q == p then exchanges op else 0))
          → Phase (t.info q) (c + total connects q ops) (e + total exchanges q ops))

  -- What a handler does first with a socket's buffers and times has no effect.
  pub write-Effect :
      (client : ℕ → Bool) (q c e : ℕ) (op : Op) (p : ℕ) (i : SocketInfo E) (s t : Skeleton E)
      (ops : List (Op × ℕ))
      → i.type_ ≡ (s.info p).type_
      → i.is_client ≡ (s.info p).is_client
      → i.in_use ≡ (s.info p).in_use
      → i.is_connected ≡ (s.info p).is_connected
      → Effect client q c e op p (write p i s) t ops
      → Effect client q c e op p s t ops
  unfolding write
  write-Effect client q c e op p i s t ops w x y z (h, g, k) = ground arith

  -- Nor what it does with them at last.
  pub Effect-write :
      (client : ℕ → Bool) (q c e : ℕ) (op : Op) (p : ℕ) (i : SocketInfo E) (s t : Skeleton E)
      (ops : List (Op × ℕ))
      → i.type_ ≡ (t.info p).type_
      → i.is_client ≡ (t.info p).is_client
      → i.in_use ≡ (t.info p).in_use
      → i.is_connected ≡ (t.info p).is_connected
      → Effect client q c e op p s t ops
      → Effect client q c e op p s (write p i t) ops
  unfolding write
  Effect-write client q c e op p i s t ops w x y z (h, g, k) = ground arith

module _ {E R : Type 0} where
  pub start_write-starts :
      (type_ : SocketType) (p q : ℕ) (r r' : R) (u t : Skeleton E) (ops : List (Op × ℕ))
      → start_write r type_ p u ≡ done r' t ops
      → (t ≡ u)
        × (serves type_ ≡ true)
        × (total connects q ops ≡ 0)
        × (total exchanges q ops ≡ (if q == p then 1 else 0))
  unfolding start_write
  start_write-starts tcp_line p q r r' u t ops h = cc
  start_write-starts tcp_lv p q r r' u t ops h = ground arith
  start_write-starts tcp_tlv p q r r' u t ops h = cc
  start_write-starts tcp_http p q r r' u t ops h = ground arith
  start_write-starts tcp_usr1 p q r r' u t ops h = cc
  start_write-starts tcp_unknown p q r r' u t ops h = cc
