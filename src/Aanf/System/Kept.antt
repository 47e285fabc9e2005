-- ===== src/Aanf/System/Kept.antt =====
-- The program's calls and the timer keep the invariant.
use kknf.Base.{
  ℕ, ◌+◌, ◌≡◌, refl, List, [], ◌∷◌, ◌++◌, none, some, Bool, true, false, Option, All, arith,
  append-nil,
}
use kknf.Base.Int.{ℤ, pos}
use kknf.Base.Map.{Order, find}
use kknf.Aanf.Tables.{
  Skeleton, SocketType, is_busy, write, find_tcp_server_socket, find_idle_tcp_client_socket,
}
use kknf.Aanf.Tables.Idle.{IsFirstIdle, sockets_to, find_idle_tcp_client_socket-first}
use kknf.Aanf.Http.{http_head_read_completion_condition}
use kknf.Aanf.Requests.{
  Op, write_then_close, anything_then_nothing, Acted, done, aborted, write_or_connect, find_socket,
  to_write_then_close,
}
use kknf.Aanf.Accept.{handle_timeout, run_handlers, call_all, add_timer_handler}
use kknf.Aanf.System.{System, IsFresh}
use kknf.Aanf.System.Effect.{total, total-append, ClientsOk, TablesOk, Effect}
use kknf.Aanf.System.Sides.{All-find}
use kknf.Aanf.System.Calls.{write_then_read-Effect, sweep_server_socket-Effect}
use kknf.Aanf.System.Invariant.{side, Inv, Effect-Inv}
use kknf.Aanf.System.Fresh.{connect-Inv}

All-middle : (P : ℕ → Type 0) (p : ℕ) (before after : List ℕ) → All P (before ++ p ∷ after) → P p
All-middle P p [] after h = h.0
All-middle P p (q ∷ before) after h = All-middle P p before after h.1

module _ {E : Type 0} ⦃o : Order E⦄ where
  -- A step that ends no operation.
  pub call-Inv :
      (p : ℕ) (s : System E) (t : Skeleton E) (ops next : List (Op × ℕ))
      → Inv s
      → ((w : Op → ℕ) (q : ℕ) → total w q next ≡ total w q s.pending + total w q ops)
      → ((client : ℕ → Bool) (q c e : ℕ)
          → Effect client q c e anything_then_nothing p s.skeleton t ops)
      → Inv (record { skeleton = t; pending = next })
  call-Inv p s t ops next v joined effect =
      Effect-Inv anything_then_nothing p s t s.pending ops next v
        (λ q. (ground arith, ground arith)) joined (λ client q c e h. effect client q c e)

  pub idle-not_busy :
      (key : E) (p : ℕ) (s : Skeleton E)
      → find_idle_tcp_client_socket key s ≡ some p
      → is_busy (s.info p) ≡ false
  idle-not_busy key p s f = by (find_idle_tcp_client_socket-first key s)
    where
      by :
          IsFirstIdle s.info (sockets_to key s) (find_idle_tcp_client_socket key s)
          → is_busy (s.info p) ≡ false
      by h = let (before, after, e, bs, i) = rw f at h in i

  sockets_to-side :
      (client : ℕ → Bool) (key : E) (s : Skeleton E)
      → ClientsOk client s.clients
      → All (λ p. client p ≡ true) (sockets_to key s)
  sockets_to-side client key s h = by (find key s.clients) refl
    where
      by :
          (found : Option (List ℕ))
          → find key s.clients ≡ found
          → All (λ p. client p ≡ true) (elim found [ none ↦ [] | some ps ↦ ps ])
      by none e = tt
      by (some ps) e = All-find (λ l. All (λ p. client p ≡ true) l) key ps s.clients h e

  -- What FindIdleTCPClientSocket answers is on the client's side.
  pub idle-client :
      (key : E) (p : ℕ) (s : Skeleton E)
      → TablesOk (side s) s
      → find_idle_tcp_client_socket key s ≡ some p
      → (s.info p).is_client ≡ true
  idle-client key p s h f = by (find_idle_tcp_client_socket-first key s)
    where
      by :
          IsFirstIdle s.info (sockets_to key s) (find_idle_tcp_client_socket key s)
          → (s.info p).is_client ≡ true
      by g =
          let (before, after, e, bs, i) = rw f at g in
          All-middle (λ q. side s q ≡ true) p before after
            (rw e at (sockets_to-side (side s) key s h.1))

  pub server-side :
      (key : E) (p : ℕ) (s : Skeleton E)
      → TablesOk (side s) s
      → find_tcp_server_socket key s ≡ some p
      → (s.info p).is_client ≡ false
  unfolding find_tcp_server_socket
  server-side key p s h f = All-find (λ q. side s q ≡ false) key p s.servers h.0 f

  pub write_or_connect-Inv :
      (found : Option ℕ) (remote : E) (type_ : SocketType) (buf : List ℕ) (i_am_server : Bool)
      (fresh now : ℕ) (r : ℤ) (s : System E) (t : Skeleton E) (ops : List (Op × ℕ))
      → Inv s
      → (i_am_server ≡ false → IsFresh fresh s)
      → ((p : ℕ)
          → found ≡ some p
          → (s.skeleton.info p).is_client ≡ true
          → is_busy (s.skeleton.info p) ≡ false)
      → write_or_connect found remote type_ buf i_am_server fresh now s.skeleton ≡ done r t ops
      → Inv (record { skeleton = t; pending = s.pending ++ ops })
  unfolding write_or_connect
  write_or_connect-Inv (some p) remote type_ buf i_am_server fresh now r s t ops v f k e =
      call-Inv p s t ops (s.pending ++ ops) v (λ w q. total-append w q s.pending ops)
        (λ client q c n. write_then_read-Effect client q c n p buf r s.skeleton t ops (k p refl) e)
  write_or_connect-Inv none remote type_ buf true fresh now r s t ops v f k e =
      let te : t ≡ s.skeleton = ground (arith, e) in
      let oe : ops ≡ [] = ground (arith, e) in rw (te, oe, append-nil s.pending) v
  write_or_connect-Inv none remote type_ buf false fresh now r s t ops v f k e =
      connect-Inv remote type_ buf fresh now r s t ops v (f refl) e

  pub last_answer-Inv :
      (remote : E) (buf : List ℕ) (r : ℤ) (s : System E) (t : Skeleton E) (ops : List (Op × ℕ))
      → Inv s
      → to_write_then_close remote buf true s.skeleton ≡ done r t ops
      → Inv (record { skeleton = t; pending = s.pending ++ ops })
  unfolding to_write_then_close write
  last_answer-Inv remote buf r s t ops v e = by (find_socket remote true s.skeleton) e
    where
      by :
          (found : Option ℕ)
          → (elim found as (λ x. Acted E ℤ) [
            | none ↦ aborted
            | some p ↦
                done
                  (pos 0)
                  (write p (record (s.skeleton.info p) { send_buf = buf }) s.skeleton)
                  ((write_then_close, p) ∷ [])
          ])
            ≡ done r t ops
          → Inv (record { skeleton = t; pending = s.pending ++ ops })
      by none g = cc
      by (some p) g =
          call-Inv p s t ops (s.pending ++ ops) v (λ w q. total-append w q s.pending ops)
            (λ client q c n. ground (arith, g))

  pub asks-Inv :
      (error : Bool) (byte_num p : ℕ) (s : System E)
      → Inv s
      → Inv (record s {
        skeleton = (http_head_read_completion_condition error byte_num p s.skeleton).0;
      })
  unfolding http_head_read_completion_condition write
  asks-Inv true byte_num p s v = record { tables = v.tables; phases = v.phases }
  asks-Inv false byte_num p s v =
      call-Inv p s (http_head_read_completion_condition false byte_num p s.skeleton).0 [] s.pending
        v (λ w q. ground arith) (λ client q c n. ground arith)

  pub timeout-Inv :
      (error : Bool) (server_timeout now : ℕ) (s : System E)
      → Inv s
      → Inv (record s {
        skeleton = handle_timeout error (run_handlers server_timeout []) now s.skeleton;
      })
  unfolding handle_timeout run_handlers call_all add_timer_handler
  timeout-Inv true server_timeout now s v = record { tables = v.tables; phases = v.phases }
  timeout-Inv false server_timeout now s v =
      call-Inv 0 s _ [] s.pending v (λ w q. ground arith)
        (λ client q c n. sweep_server_socket-Effect client q c n 0 now server_timeout s.skeleton)
