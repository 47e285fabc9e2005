-- ===== src/Aanf/Tables/Servers.antt =====
-- aanf/asio-based2/include/skeleton.hpp: the table of the connections that have been accepted.
use kknf.Base.{
  ℕ, ◌≤◌, ◌<◌, ◌-◌, ◌≡◌, ◌↔◌, refl, ◌⊎◌, inl, inr, List, [], ◌∷◌, none, some, false, arith,
  if◌then◌else◌, Option-cases,
}
use kknf.Base.Int.{pos, minus_one}
use kknf.Base.Map.{Order, Map, find, same}
use kknf.Base.Map.Laws.{find-assign}
use kknf.Aanf.Tables.{
  SocketInfo, Skeleton, write, find_tcp_server_socket, insert_tcp_server_socket, sweep_loop,
  close_all, sweep_server_socket,
}

-- The socket is in the list.
abbrev pub In : ℕ → List ℕ → Type 0
In p [] = ⊥
In p (q ∷ qs) = (p ≡ q) ⊎ In p qs

module _ {E : Type 0} where
  -- The table has this entry.
  abbrev pub Entry : E → ℕ → Map E ℕ → Type 0
  Entry key p [] = ⊥
  Entry key p ((k, q) ∷ m) = ((key ≡ k) × (p ≡ q)) ⊎ Entry key p m

  sweep_loop-Entry :
      (expire : ℕ) (info : ℕ → SocketInfo E) (key : E) (p : ℕ) (m : Map E ℕ)
      → Entry key p (sweep_loop expire info m).0 ↔ (Entry key p m × (expire ≤ (info p).access_time))
  unfolding sweep_loop
  sweep_loop-Entry expire info key p [] = ((λ h. elim h [ ]), λ h. elim (h.0) [ ])
  sweep_loop-Entry expire info key p ((k, q) ∷ m) =
      ground (arith, sweep_loop-Entry expire info key p m)

  sweep_loop-In :
      (expire : ℕ) (info : ℕ → SocketInfo E) (key : E) (p : ℕ) (m : Map E ℕ)
      → Entry key p m
      → (info p).access_time < expire
      → In p (sweep_loop expire info m).1
  unfolding sweep_loop
  sweep_loop-In expire info key p [] h l = elim h [ ]
  sweep_loop-In expire info key p ((k, q) ∷ m) h l =
      ground (arith, sweep_loop-In expire info key p m)

  close_all-servers : (ps : List ℕ) (s : Skeleton E) → (close_all ps s).servers ≡ s.servers
  unfolding close_all write
  close_all-servers [] s = refl
  close_all-servers (p ∷ ps) s = close_all-servers ps _

  close_all-closed :
      (ps : List ℕ) (s : Skeleton E) (p : ℕ)
      → In p ps ⊎ ((s.info p).is_open ≡ false)
      → ((close_all ps s).info p).is_open ≡ false
  unfolding close_all write
  close_all-closed [] s p (inl h) = elim h [ ]
  close_all-closed [] s p (inr h) = h
  close_all-closed (q ∷ ps) s p h =
      close_all-closed ps (write q (record (s.info q) { is_open = false }) s) p (ground arith)

  -- After SweepServerSocket an entry is in the table exactly if it was there before and its socket was
  -- last touched at most `milliseconds` ago.
  pub sweep_server_socket-expires :
      (now milliseconds : ℕ) (key : E) (p : ℕ) (s : Skeleton E)
      → Entry key p (sweep_server_socket now milliseconds s).servers
        ↔ (Entry key p s.servers × (now - milliseconds ≤ (s.info p).access_time))
  unfolding sweep_server_socket
  sweep_server_socket-expires now milliseconds key p s =
      let (kept, closed) = sweep_loop (now - milliseconds) s.info s.servers in
      rw (close_all-servers closed (record s { servers = kept }))
        (sweep_loop-Entry (now - milliseconds) s.info key p s.servers)

  -- A socket in the table that was last touched more than `milliseconds` ago is closed by
  -- SweepServerSocket.
  pub sweep_server_socket-closes :
      (now milliseconds : ℕ) (key : E) (p : ℕ) (s : Skeleton E)
      → Entry key p s.servers
      → (s.info p).access_time < now - milliseconds
      → ((sweep_server_socket now milliseconds s).info p).is_open ≡ false
  unfolding sweep_server_socket
  sweep_server_socket-closes now milliseconds key p s h l =
      let (kept, closed) = sweep_loop (now - milliseconds) s.info s.servers in
      close_all-closed closed (record s { servers = kept }) p
        (inl (sweep_loop-In (now - milliseconds) s.info key p s.servers h l))

module _ {E : Type 0} ⦃o : Order E⦄ where
  -- InsertTCPServerSocket answers -1 and changes nothing where the address has a socket; else it
  -- answers 0, and FindTCPServerSocket then finds the new socket at the address, and at every other
  -- address what it found before.
  pub find_tcp_server_socket-insert_tcp_server_socket :
      (key other : E) (p : ℕ) (s : Skeleton E)
      → let t = insert_tcp_server_socket key p s in
        ((q : ℕ) × (find_tcp_server_socket key s ≡ some q) × (t.1 ≡ minus_one) × (t.0 ≡ s))
        ⊎ ((find_tcp_server_socket key s ≡ none)
            × (t.1 ≡ pos 0)
            × (find_tcp_server_socket other t.0
                ≡ (if same other key then some p else find_tcp_server_socket other s)))
  unfolding find_tcp_server_socket insert_tcp_server_socket
  find_tcp_server_socket-insert_tcp_server_socket key other p s =
      elim (Option-cases (find key s.servers)) [
        | inl e ↦ inr (e, ground arith, ground (arith, find-assign other key p s.servers))
        | inr (q, e) ↦ inl (q, e, ground arith, ground arith)
      ]
