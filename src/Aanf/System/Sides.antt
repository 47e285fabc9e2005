-- ===== src/Aanf/System/Sides.antt =====
-- DestroySocket and InsertTCPClientSocket keep the sides of the sockets in the tables.
use kknf.Base.{
  ℕ, ◌≡◌, refl, List, [], ◌∷◌, ◌++◌, none, some, inl, inr, Bool, true, false, Option, All,
  All-append, arith, if◌then◌else◌, Option-cases,
}
use kknf.Base.Map.{Order, Map, find, assign, erase}
use kknf.Aanf.Tables.{Skeleton, remove, write, forget, destroy_socket, insert_tcp_client_socket}
use kknf.Aanf.System.Effect.{ServersOk, ClientsOk, TablesOk}

All-remove :
    (client : ℕ → Bool) (p : ℕ) (ps : List ℕ)
    → All (λ q. client q ≡ true) ps
    → All (λ q. client q ≡ true) (remove p ps)
unfolding remove
All-remove client p [] h = tt
All-remove client p (q ∷ ps) h = ground (arith, h, All-remove client p ps h.1)

module _ {E : Type 0} ⦃o : Order E⦄ where
  pub All-assign :
      {V : Type 0} (P : E × V → Type 0) (k : E) (v : V) (m : Map E V)
      → P (k, v)
      → All P m
      → All P (assign k v m)
  unfolding assign
  All-assign P k v [] h g = (h, tt)
  All-assign P k v ((j, w) ∷ m) h g = ground (arith, h, g, All-assign P k v m h g.1)

  All-erase : {V : Type 0} (P : E × V → Type 0) (k : E) (m : Map E V) → All P m → All P (erase k m)
  unfolding erase
  All-erase P k [] g = tt
  All-erase P k ((j, w) ∷ m) g = ground (arith, g, All-erase P k m g.1)

  pub All-find :
      {V : Type 0} (P : V → Type 0) (k : E) (v : V) (m : Map E V)
      → All (λ (e : E × V). P e.1) m
      → find k m ≡ some v
      → P v
  unfolding find
  All-find P k v [] g h = cc
  All-find P k v ((j, w) ∷ m) g h = ground (arith, g, All-find P k v m g.1)

  pub destroy_socket-flags :
      (p q : ℕ) (s : Skeleton E)
      → (((destroy_socket p s).0.info q).in_use ≡ (s.info q).in_use)
        × (((destroy_socket p s).0.info q).is_client ≡ (s.info q).is_client)
        × (((destroy_socket p s).0.info q).is_connected ≡ (s.info q).is_connected)
        × (((destroy_socket p s).0.info q).type_ ≡ (s.info q).type_)
  unfolding destroy_socket forget write
  destroy_socket-flags p q s = elim (Option-cases (find (s.info p).remote_endpoint s.clients)) [
    | inl e ↦ ground arith
    | inr (ps, e) ↦ ground arith
  ]

  -- The lists of the clients' sockets after DestroySocket of one of them.
  abbrev shorter : E → ℕ → Map E (List ℕ) → Map E (List ℕ)
  shorter key p m = elim (find key m) [ none ↦ m | some ps ↦ assign key (remove p ps) m ]

  destroy_socket-servers :
      (p : ℕ) (s : Skeleton E)
      → (destroy_socket p s).0.servers
        ≡ (if (s.info p).is_client then s.servers else erase (s.info p).remote_endpoint s.servers)
  unfolding destroy_socket forget write
  destroy_socket-servers p s = elim (Option-cases (find (s.info p).remote_endpoint s.clients)) [
    | inl e ↦ ground arith
    | inr (ps, e) ↦ ground arith
  ]

  destroy_socket-clients :
      (p : ℕ) (s : Skeleton E)
      → (destroy_socket p s).0.clients ≡ (
          if (s.info p).is_client
          then shorter (s.info p).remote_endpoint p s.clients
          else s.clients)
  unfolding destroy_socket forget write
  destroy_socket-clients p s = elim (Option-cases (find (s.info p).remote_endpoint s.clients)) [
    | inl e ↦ ground arith
    | inr (ps, e) ↦ ground arith
  ]

  shorter-ClientsOk :
      (client : ℕ → Bool) (key : E) (p : ℕ) (m : Map E (List ℕ))
      → ClientsOk client m
      → ClientsOk client (shorter key p m)
  shorter-ClientsOk client key p m h = by (find key m) refl
    where
      by :
          (found : Option (List ℕ))
          → find key m ≡ found
          → ClientsOk client (elim found [ none ↦ m | some ps ↦ assign key (remove p ps) m ])
      by none e = h
      by (some ps) e =
          All-assign (λ e. All (λ q. client q ≡ true) e.1) key (remove p ps) m
            (All-remove client p ps (All-find (λ qs. All (λ q. client q ≡ true) qs) key ps m h e)) h

  pub destroy_socket-TablesOk :
      (client : ℕ → Bool) (p : ℕ) (s : Skeleton E)
      → TablesOk client s
      → TablesOk client (destroy_socket p s).0
  destroy_socket-TablesOk client p s (h, g) =
      rw (destroy_socket-servers p s, destroy_socket-clients p s) (by (s.info p).is_client)
    where
      key : E
      key = (s.info p).remote_endpoint

      by :
          (c : Bool)
          → ServersOk client (if c then s.servers else erase key s.servers)
            × ClientsOk client (if c then shorter key p s.clients else s.clients)
      by true = (h, shorter-ClientsOk client key p s.clients g)
      by false = (All-erase (λ e. client e.1 ≡ false) key s.servers h, g)

  pub insert_tcp_client_socket-TablesOk :
      (client : ℕ → Bool) (key : E) (p : ℕ) (s : Skeleton E)
      → client p ≡ true
      → TablesOk client s
      → TablesOk client (insert_tcp_client_socket key p s)
  unfolding insert_tcp_client_socket
  insert_tcp_client_socket-TablesOk client key p s c (h, g) = by (find key s.clients) refl
    where
      by :
          (found : Option (List ℕ))
          → find key s.clients ≡ found
          → TablesOk client (elim found as (λ x. Skeleton E) [
            | none ↦ record s { clients = assign key (p ∷ []) s.clients }
            | some ps ↦ record s { clients = assign key (ps ++ p ∷ []) s.clients }
          ])
      by none e =
          (h, All-assign (λ e. All (λ q. client q ≡ true) e.1) key (p ∷ []) s.clients (c, tt) g)
      by (some ps) e = (
        h,
        All-assign (λ e. All (λ q. client q ≡ true) e.1) key (ps ++ p ∷ []) s.clients
            (All-append (λ q. client q ≡ true) ps (p ∷ [])
              (All-find (λ qs. All (λ q. client q ≡ true) qs) key ps s.clients g e) (c, tt))
            g,
      )

  pub insert_tcp_client_socket-info :
      (key : E) (p : ℕ) (s : Skeleton E) → (insert_tcp_client_socket key p s).info ≡ s.info
  unfolding insert_tcp_client_socket
  insert_tcp_client_socket-info key p s = elim (Option-cases (find key s.clients)) [
    | inl e ↦ ground arith
    | inr (ps, e) ↦ ground arith
  ]
