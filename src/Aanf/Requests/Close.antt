-- ===== src/Aanf/Requests/Close.antt =====
-- ToWriteThenClose on a connection to another server.
use kknf.Base.{ℕ, ◌≡◌, ◌⊎◌, refl, List, [], ◌∷◌, some, none, false, arith, Option-cases, inl, inr}
use kknf.Base.Int.{pos}
use kknf.Base.Map.{Order, find}
use kknf.Aanf.Tables.{Skeleton, write, first_idle, find_idle_tcp_client_socket}
use kknf.Aanf.Requests.{write_then_close, done, aborted, find_socket, to_write_then_close}

module _ {E : Type 0} where
  first_idle-send_buf :
      (p : ℕ) (buf : List ℕ) (s : Skeleton E) (ps : List ℕ)
      → first_idle (write p (record (s.info p) { send_buf = buf }) s).info ps ≡ first_idle s.info ps
  unfolding first_idle write
  first_idle-send_buf p buf s [] = refl
  first_idle-send_buf p buf s (q ∷ ps) = ground (arith, first_idle-send_buf p buf s ps)

  module _ ⦃o : Order E⦄ where
    find_idle-send_buf :
        (key : E) (p : ℕ) (buf : List ℕ) (s : Skeleton E)
        → find_idle_tcp_client_socket key (write p (record (s.info p) { send_buf = buf }) s)
          ≡ find_idle_tcp_client_socket key s
    unfolding find_idle_tcp_client_socket write
    find_idle-send_buf key p buf s = elim (Option-cases (find key s.clients)) [
      | inl e ↦ ground (arith, e)
      | inr (ps, e) ↦ ground (arith, e, first_idle-send_buf p buf s ps)
    ]

    -- ToWriteThenClose to another server either finds no idle connection and fails an assertion, or it
    -- starts the write on an idle connection, which then still counts as idle: FindIdleTCPClientSocket
    -- answers that connection for the next request as well.
    pub to_write_then_close-stays_idle :
        (remote : E) (buf : List ℕ) (s : Skeleton E)
        → ((find_idle_tcp_client_socket remote s ≡ none)
            × (to_write_then_close remote buf false s ≡ aborted))
          ⊎ ((p : ℕ) × (t : Skeleton E) × (find_idle_tcp_client_socket remote s ≡ some p)
              × (to_write_then_close remote buf false s
                  ≡ done (pos 0) t ((write_then_close, p) ∷ []))
              × (find_idle_tcp_client_socket remote t ≡ some p))
    unfolding to_write_then_close find_socket
    to_write_then_close-stays_idle remote buf s =
        elim (Option-cases (find_idle_tcp_client_socket remote s)) [
          | inl n ↦ inl (n, ground arith)
          | inr (p, f) ↦ inr (
            p,
            write p (record (s.info p) { send_buf = buf }) s,
            f,
            ground arith,
            rw (find_idle-send_buf remote p buf s) f,
          )
        ]
