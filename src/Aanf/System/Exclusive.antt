-- ===== src/Aanf/System/Exclusive.antt =====
-- A connection to another server carries one request at a time.
use kknf.Base.{
  ℕ, ◌+◌, ◌≤◌, ◌≡◌, ◌≢◌, refl, List, [], ◌∷◌, ◌++◌, some, inl, inr, Bool, true, false, arith, ◌==◌,
  if◌then◌else◌, Option-cases, Bool-cases, ℕ-cases, ◌⊎◌,
}
use kknf.Base.Map.{Order}
use kknf.Aanf.Tables.{SocketType, Skeleton, find_tcp_server_socket, find_idle_tcp_client_socket}
use kknf.Aanf.Requests.{Op, done, aborted, find_socket, to_write_then_read, to_write_then_call_back}
use kknf.Aanf.System.{
  System, Ending, handle, Step, request, call_back, answer, last_answer, accept, asks, timeout,
  ended, Reach, start, later,
}
use kknf.Aanf.System.Effect.{connects, exchanges, total, total-append}
use kknf.Aanf.System.Accepted.{accept-Inv}
use kknf.Aanf.System.Invariant.{Inv, handle-Effect, Effect-Inv}
use kknf.Aanf.System.Kept.{
  idle-not_busy, idle-client, server-side, write_or_connect-Inv, last_answer-Inv, asks-Inv,
  timeout-Inv,
}
use kknf.Aanf.System.Safe.{requests_safe}

module _ {E : Type 0} ⦃o : Order E⦄ where
  ended-Inv :
      (op : Op) (x : Ending) (p : ℕ) (before after ops : List (Op × ℕ)) (s : System E)
      (t : Skeleton E)
      → Inv s
      → s.pending ≡ before ++ (op, p) ∷ after
      → handle op x p s.skeleton ≡ done tt t ops
      → Inv (record { skeleton = t; pending = before ++ after ++ ops })
  ended-Inv op x p before after ops s t v l e =
      Effect-Inv op p s t (before ++ after) ops (before ++ after ++ ops) v
        (λ q. (split connects q, split exchanges q)) (λ w q. total-append w q (before ++ after) ops)
        (λ client q c n h. handle-Effect client q c n op x p s.skeleton t ops h e)
    where
      split :
          (w : Op → ℕ) (q : ℕ)
          → total w q s.pending ≡ total w q (before ++ after) + (if q == p then w op else 0)
      split w q =
          rw l (
            ground
              (arith, total-append w q before ((op, p) ∷ after), total-append w q before after))

  Step-Inv : (s t : System E) → Step s t → Inv s → Inv t
  unfolding to_write_then_read to_write_then_call_back find_socket
  Step-Inv s u (request remote type_ buf fresh now r t ops f e) v =
      write_or_connect-Inv (find_idle_tcp_client_socket remote s.skeleton) remote type_ buf false
        fresh now r s t ops v (λ h. f) (λ p g c. idle-not_busy remote p s.skeleton g) e
  Step-Inv s u (call_back remote type_ buf i_am_server fresh now r t ops f e) v =
      write_or_connect-Inv (find_idle_tcp_client_socket remote s.skeleton) remote type_ buf
        i_am_server fresh now r s t ops v (λ h. f) (λ p g c. idle-not_busy remote p s.skeleton g) e
  Step-Inv s u (answer remote type_ buf fresh now r t ops e) v =
      write_or_connect-Inv (find_tcp_server_socket remote s.skeleton) remote type_ buf true fresh
        now r s t ops v (λ h. cc)
        (λ p g c. absurd (ground (arith, c, server-side remote p s.skeleton v.tables g))) e
  Step-Inv s u (last_answer remote buf r t ops e) v = last_answer-Inv remote buf r s t ops v e
  Step-Inv s u (accept remote near unset fresh now created a b t ops f g n e) v =
      accept-Inv remote near unset fresh now created a b s t ops v f g n e
  Step-Inv s u (asks error byte_num p) v = asks-Inv error byte_num p s v
  Step-Inv s u (timeout error server_timeout now) v = timeout-Inv error server_timeout now s v
  Step-Inv s u (ended op x p before after ops t l e) v = ended-Inv op x p before after ops s t v l e

  Reach-Inv : (s t : System E) → Inv s → Reach s t → Inv t
  Reach-Inv s t v start = v
  Reach-Inv s t v (later {t = u} r st) = Step-Inv u t st (Reach-Inv s u v r)

  idle-or_not :
      (key : E) (p : ℕ) (s : Skeleton E)
      → (find_idle_tcp_client_socket key s ≡ some p) ⊎ (find_idle_tcp_client_socket key s ≢ some p)
  idle-or_not key p s = elim (Option-cases (find_idle_tcp_client_socket key s)) [
    | inl e ↦ inr (λ f. ground (arith, e, f))
    | inr (q, e) ↦ elim (ℕ-cases q p) [
      | inl d ↦ inl (rw (e, d) refl)
      | inr d ↦ inr (λ f. ground (arith, e, f, d))
    ]
  ]

  -- A skeleton that starts without connections and operations, and has no client's socket yet.
  abbrev pub IsIdle : System E → Type 0
  IsIdle s =
      (s.skeleton.servers ≡ [])
      × (s.skeleton.clients ≡ [])
      × (s.pending ≡ [])
      × ((p : ℕ) → (s.skeleton.info p).is_client ≡ false)

  idle-Inv : (s : System E) → IsIdle s → Inv s
  idle-Inv s (a, b, c, d) = record {
    tables = rw (a, b) (tt, tt);
    phases = λ q. rw c (ground (arith, d q));
  }

  -- The operations under way that connect a socket or carry a request or its reply.
  abbrev pub under_way : ℕ → System E → ℕ
  under_way p s = total connects p s.pending + total exchanges p s.pending

  -- In a skeleton that started without connections, operations and clients' sockets, after any steps of
  -- `Step` (requests, answers, accepted connections, the timer, and operations that end in any order
  -- with any outcome; no synchronous calls, and no ToWriteThenClose to another server): a client's
  -- socket has at most one operation under way that connects it or carries a request or its reply, and
  -- a socket that FindIdleTCPClientSocket answers is a client's, and has none.
  pub Reach-one_request :
      (s t : System E) (key : E) (p : ℕ)
      → IsIdle s
      → Reach s t
      → (((t.skeleton.info p).is_client ≡ false) ⊎ (under_way p t ≤ 1))
        × ((find_idle_tcp_client_socket key t.skeleton ≢ some p)
            ⊎ ((t.skeleton.info p).is_client ≡ true) × (under_way p t ≡ 0))
  Reach-one_request s t key p i r = (
    at_most_one,
    elim (idle-or_not key p t.skeleton) [ inl f ↦ inr (none_at_all f) | inr n ↦ inl n ],
  )
    where
      v : Inv t
      v = Reach-Inv s t (idle-Inv s i) r

      at_most_one : ((t.skeleton.info p).is_client ≡ false) ⊎ (under_way p t ≤ 1)
      at_most_one = elim (Bool-cases (t.skeleton.info p).is_client) [
        | inl c ↦ inr ((v.phases p).1 c)
        | inr c ↦ inl c
      ]

      none_at_all :
          find_idle_tcp_client_socket key t.skeleton ≡ some p
          → ((t.skeleton.info p).is_client ≡ true) × (under_way p t ≡ 0)
      none_at_all f = ground (
        arith,
        f,
        v.phases p,
        idle-not_busy key p t.skeleton f,
        idle-client key p t.skeleton v.tables f,
      )

  -- In a skeleton that started without connections, operations and clients' sockets, after any steps of
  -- `Step` (no synchronous calls, and no ToWriteThenClose to another server), neither ToWriteThenRead to
  -- another server nor ToWriteThenCallBack fails an assertion.
  pub Reach-requests_safe :
      (s t : System E) (remote : E) (type_ : SocketType) (buf : List ℕ) (i_am_server : Bool)
      (fresh now : ℕ)
      → IsIdle s
      → Reach s t
      → (to_write_then_read remote type_ buf false fresh now t.skeleton ≢ aborted)
        × (to_write_then_call_back remote type_ buf i_am_server fresh now t.skeleton ≢ aborted)
  Reach-requests_safe s t remote type_ buf i_am_server fresh now i r =
      requests_safe remote type_ buf i_am_server fresh now t (Reach-Inv s t (idle-Inv s i) r)
