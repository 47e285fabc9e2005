-- ===== src/Aanf/Client/Fails.antt =====
-- A connection that the client has made, and the next request on it.
use kknf.Base.{
  ℕ, ◌≡◌, refl, ap, List, [], ◌∷◌, ◌++◌, some, none, false, true, Bool, arith, Option-cases,
  Bool-cases, ◌⊎◌, inl, inr,
}
use kknf.Base.Int.{ℤ, pos, minus_one, minus_two, minus_three}
use kknf.Base.Map.{Order, find, same_refl}
use kknf.Base.Map.Laws.{find-assign}
use kknf.Aanf.Tables.{
  Skeleton, write, new_info, first_idle, find_idle_tcp_client_socket, insert_tcp_client_socket,
}
use kknf.Aanf.System.Sides.{insert_tcp_client_socket-info}
use kknf.Aanf.Sync.{Replied, returned, aborted, overran}
use kknf.Aanf.Client.{
  Exchange, destroy_client_socket, fail, connected, first_data, first_len, first_request, next_data,
  next_len, next_request,
}

module _ {E : Type 0} ⦃o : Order E⦄ where
  fail-aborts :
      (code : ℤ) (p : ℕ) (buf : List ℕ) (s : Skeleton E)
      → (s.info p).is_client ≡ false
      → fail code p buf s ≡ aborted
  unfolding fail destroy_client_socket write
  fail-aborts code p buf s h = ground arith

  next_len-zero :
      (p : ℕ) (bytes buf got incoming : List ℕ) (c : ℤ) (s t : Skeleton E)
      → (s.info p).is_client ≡ false
      → next_len p bytes buf incoming s ≡ returned c t got
      → c ≡ pos 0
  unfolding next_len next_data
  next_len-zero p bytes buf got incoming c s t h e =
      ground (arith, fail-aborts minus_two p buf s h, fail-aborts minus_three p _ s h)

  next_request-zero :
      (p : ℕ) (req buf got : List ℕ) (x : Exchange) (c : ℤ) (s t : Skeleton E)
      → (s.info p).is_client ≡ false
      → next_request p req buf x s ≡ returned c t got
      → c ≡ pos 0
  unfolding next_request write
  next_request-zero p req buf got x c s t h e =
      let sent = write p (record (s.info p) { send_buf = req }) s in
      elim (Option-cases x.len_field) [
        | inl n ↦ ground (arith, n, fail-aborts minus_one p buf sent (ground arith))
        | inr ((b0, b1, b2, b3), n) ↦ ground (
          arith,
          n,
          fail-aborts minus_one p buf sent (ground arith),
          next_len-zero p (b0 ∷ b1 ∷ b2 ∷ b3 ∷ []) buf got x.incoming c sent t (ground arith),
        )
      ]

  next_request-unwritten :
      (p : ℕ) (req buf : List ℕ) (x : Exchange) (s : Skeleton E)
      → (s.info p).is_client ≡ false
      → x.written ≡ false
      → next_request p req buf x s ≡ aborted
  unfolding next_request write
  next_request-unwritten p req buf x s h k =
      let sent = write p (record (s.info p) { send_buf = req }) s in
      ground (arith, k, fail-aborts minus_one p buf sent (ground arith))

  first_request-is :
      (remote : E) (req buf got : List ℕ) (connects : Bool) (x : Exchange) (fresh now : ℕ)
      (s t : Skeleton E)
      → first_request remote req buf connects x fresh now s ≡ returned (pos 0) t got
      → t ≡ insert_tcp_client_socket remote fresh (connected remote req fresh now s)
  unfolding first_request first_len first_data
  first_request-is remote req buf got connects x fresh now s t e = elim (Option-cases x.len_field) [
    | inl n ↦ absurd (ground arith)
    | inr ((b0, b1, b2, b3), n) ↦ ground (arith, n)
  ]

  connected-first_idle :
      (remote : E) (req : List ℕ) (p now : ℕ) (s : Skeleton E) (ps : List ℕ)
      → first_idle s.info ps ≡ none
      → first_idle (connected remote req p now s).info (ps ++ p ∷ []) ≡ some p
  unfolding first_idle connected write new_info
  connected-first_idle remote req p now s [] h = ground arith
  connected-first_idle remote req p now s (q ∷ ps) h =
      ground (arith, h, connected-first_idle remote req p now s ps)

  connected-found :
      (remote : E) (req : List ℕ) (p now : ℕ) (s : Skeleton E)
      → find_idle_tcp_client_socket remote s ≡ none
      → find_idle_tcp_client_socket remote
          (insert_tcp_client_socket remote p (connected remote req p now s))
        ≡ some p
  unfolding find_idle_tcp_client_socket insert_tcp_client_socket connected write
  connected-found remote req p now s h = elim (Option-cases (find remote s.clients)) [
    | inl e ↦ ground (
      arith,
      e,
      same_refl remote,
      find-assign remote remote (p ∷ []) s.clients,
      connected-first_idle remote req p now s [],
    )
    | inr (ps, e) ↦ ground (
      arith,
      e,
      h,
      same_refl remote,
      find-assign remote remote (ps ++ p ∷ []) s.clients,
      connected-first_idle remote req p now s ps,
    )
  ]

  connected-side :
      (remote : E) (req : List ℕ) (p now : ℕ) (s : Skeleton E)
      → ((insert_tcp_client_socket remote p (connected remote req p now s)).info p).is_client
        ≡ false
  unfolding connected write new_info
  connected-side remote req p now s =
      ground (
        arith,
        ap (λ i. i p) (insert_tcp_client_socket-info remote p (connected remote req p now s)),
      )

  -- The call returns no error code.
  abbrev pub NoCode : Replied E → Type 0
  NoCode (returned c t got) = c ≡ pos 0
  NoCode aborted = Unit
  NoCode (overran count) = Unit

  next_request-NoCode :
      (p : ℕ) (req buf : List ℕ) (x : Exchange) (s : Skeleton E)
      → (s.info p).is_client ≡ false
      → NoCode (next_request p req buf x s)
  next_request-NoCode p req buf x s h = by (next_request p req buf x s) refl
    where
      by : (r : Replied E) → next_request p req buf x s ≡ r → NoCode r
      by (returned c t got) e = next_request-zero p req buf got x c s t h e
      by aborted e = tt
      by (overran count) e = tt

  -- Where no connection to an address was idle and the call for the address returns 0,
  -- FindIdleTCPClientSocket answers the new connection; and a call on it, in the state that is left, never
  -- returns an error code: where the request is not written it fails an assertion.
  pub first_request-next_request :
      (remote : E) (req req' buf buf' got : List ℕ) (connects : Bool) (x y : Exchange)
      (fresh now : ℕ) (s t : Skeleton E)
      → find_idle_tcp_client_socket remote s ≡ none
      → first_request remote req buf connects x fresh now s ≡ returned (pos 0) t got
      → (find_idle_tcp_client_socket remote t ≡ some fresh)
        × NoCode (next_request fresh req' buf' y t)
        × ((y.written ≡ true) ⊎ (next_request fresh req' buf' y t ≡ aborted))
  first_request-next_request remote req req' buf buf' got connects x y fresh now s t n e =
      let is = first_request-is remote req buf got connects x fresh now s t e in
      let side : (t.info fresh).is_client ≡ false = rw is (connected-side remote req fresh now s) in
      (
        rw is (connected-found remote req fresh now s n),
        next_request-NoCode fresh req' buf' y t side,
        elim (Bool-cases y.written) [
          | inl w ↦ inl w
          | inr w ↦ inr (next_request-unwritten fresh req' buf' y t side w)
        ],
      )
