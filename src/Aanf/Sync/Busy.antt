-- ===== src/Aanf/Sync/Busy.antt =====
-- A connection that ToWriteThenReadSync makes is never idle.
use kknf.Base.{ℕ, ◌≡◌, ◌≢◌, List, [], ◌∷◌, inl, inr, none, some, true, arith, Option-cases}
use kknf.Base.Int.{ℤ}
use kknf.Base.Map.{Order, find}
use kknf.Aanf.Tables.{
  Skeleton, tcp_lv, write, find_idle_tcp_client_socket, insert_tcp_client_socket,
}
use kknf.Aanf.Tables.Idle.{
  destroy_socket-in_use, IsFirstIdle, sockets_to, find_idle_tcp_client_socket-first,
}
use kknf.Aanf.Sync.{
  Answers, returned, read_data, read_len, exchange, connect_to, to_write_then_read_sync,
}

module _ {E : Type 0} ⦃o : Order E⦄ where
  read_len-in_use :
      (p : ℕ) (bytes buf got : List ℕ) (a : Answers) (c : ℤ) (s t : Skeleton E)
      → read_len p bytes buf a s ≡ returned c t got
      → (t.info p).in_use ≡ (s.info p).in_use
  unfolding read_len read_data
  read_len-in_use p bytes buf got a c s t e = ground (arith, destroy_socket-in_use p s)

  exchange-in_use :
      (p : ℕ) (req buf got : List ℕ) (a : Answers) (c : ℤ) (s t : Skeleton E)
      → exchange p req buf a s ≡ returned c t got
      → (t.info p).in_use ≡ (s.info p).in_use
  unfolding exchange write
  exchange-in_use p req buf got a c s t e =
      let sent = write p (record (s.info p) { send_buf = req }) s in
      elim (Option-cases a.len_field) [
        | inl n ↦ ground (arith, destroy_socket-in_use p sent)
        | inr ((b0, b1, b2, b3), q) ↦ ground (
          arith,
          q,
          destroy_socket-in_use p sent,
          read_len-in_use p (b0 ∷ b1 ∷ b2 ∷ b3 ∷ []) buf got a c sent t,
        )
      ]

  connect_to-in_use :
      (remote : E) (a : Answers) (s : Skeleton E)
      → ((connect_to remote tcp_lv a s).info a.fresh).in_use ≡ true
  unfolding connect_to insert_tcp_client_socket write
  connect_to-in_use remote a s = elim (Option-cases (find remote s.clients)) [
    | inl n ↦ ground arith
    | inr (ps, e) ↦ ground arith
  ]

  -- Where ToWriteThenReadSync makes a connection and returns, with whatever code, the socket stays in use,
  -- and FindIdleTCPClientSocket does not answer it.
  pub to_write_then_read_sync-stays_busy :
      (remote : E) (req buf got : List ℕ) (a : Answers) (c : ℤ) (s t : Skeleton E)
      → find_idle_tcp_client_socket remote s ≡ none
      → a.connected ≡ true
      → to_write_then_read_sync remote req tcp_lv buf a s ≡ returned c t got
      → ((t.info a.fresh).in_use ≡ true) × (find_idle_tcp_client_socket remote t ≢ some a.fresh)
  unfolding to_write_then_read_sync
  to_write_then_read_sync-stays_busy remote req buf got a c s t n k e =
      (busy, λ f. not_found (find_idle_tcp_client_socket-first remote t) f)
    where
      busy : (t.info a.fresh).in_use ≡ true
      busy = ground (
        arith,
        connect_to-in_use remote a s,
        exchange-in_use a.fresh req buf got a c (connect_to remote tcp_lv a s) t,
      )

      not_found :
          IsFirstIdle t.info (sockets_to remote t) (find_idle_tcp_client_socket remote t)
          → find_idle_tcp_client_socket remote t ≢ some a.fresh
      not_found h f = let (before, after, e1, bs, i) = rw f at h in ground (arith, i, busy)
