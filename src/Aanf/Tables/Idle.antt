-- ===== src/Aanf/Tables/Idle.antt =====
-- aanf/asio-based2/include/skeleton.hpp: the idle sockets to an address.
use kknf.Base.{
  ℕ, ◌+◌, ◌≡◌, refl, ap, ◌⊎◌, inl, inr, List, [], ◌∷◌, ◌++◌, Option, none, some, true, false, All,
  arith, Bool-cases, Option-cases, ◌==◌, if◌then◌else◌,
}
use kknf.Base.Int.{pos, minus_one}
use kknf.Base.Map.{Order, find, same_refl}
use kknf.Base.Map.Laws.{find-assign}
use kknf.Aanf.Tables.{
  SocketInfo, Skeleton, is_busy, first_idle, remove, write, find_idle_tcp_client_socket, forget,
  destroy_socket,
}

-- How often a socket is in a list.
abbrev pub count : ℕ → List ℕ → ℕ
count p [] = 0
count p (q ∷ qs) = (if p == q then 1 else 0) + count p qs

count-remove : (p q : ℕ) (ps : List ℕ) → count p (remove q ps) ≡ (if p == q then 0 else count p ps)
unfolding remove
count-remove p q [] = ground arith
count-remove p q (r ∷ ps) = ground (arith, count-remove p q ps)

module _ {E : Type 0} ⦃o : Order E⦄ where
  -- The sockets to an address.
  abbrev pub sockets_to : E → Skeleton E → List ℕ
  sockets_to key s = elim (find key s.clients) [ none ↦ [] | some ps ↦ ps ]

  -- What a search for an idle socket in a list may answer.
  abbrev pub IsFirstIdle : (ℕ → SocketInfo E) → List ℕ → Option ℕ → Type 0
  IsFirstIdle info ps none = All (λ p. is_busy (info p) ≡ true) ps
  IsFirstIdle info ps (some p) =
      (before : List ℕ) × (after : List ℕ) × (ps ≡ before ++ p ∷ after)
      × All (λ q. is_busy (info q) ≡ true) before
      × (is_busy (info p) ≡ false)

  step_over :
      (info : ℕ → SocketInfo E) (p : ℕ) (ps : List ℕ) (r : Option ℕ)
      → is_busy (info p) ≡ true
      → IsFirstIdle info ps r
      → IsFirstIdle info (p ∷ ps) r
  step_over info p ps none b h = (b, h)
  step_over info p ps (some q) b (before, after, e, bs, i) =
      (p ∷ before, after, ap (λ l. p ∷ l) e, (b, bs), i)

  first_idle-IsFirstIdle :
      (info : ℕ → SocketInfo E) (ps : List ℕ) → IsFirstIdle info ps (first_idle info ps)
  unfolding first_idle
  first_idle-IsFirstIdle info [] = tt
  first_idle-IsFirstIdle info (p ∷ ps) = elim (Bool-cases (is_busy (info p))) [
    | inl b ↦ rw b (step_over info p ps (first_idle info ps) b (first_idle-IsFirstIdle info ps))
    | inr b ↦ rw b ([], ps, refl, tt, b)
  ]

  -- FindIdleTCPClientSocket answers the first socket to the address that is connected and not in use,
  -- and none only where each of them is in use or not connected.
  pub find_idle_tcp_client_socket-first :
      (key : E) (s : Skeleton E)
      → IsFirstIdle s.info (sockets_to key s) (find_idle_tcp_client_socket key s)
  unfolding find_idle_tcp_client_socket
  find_idle_tcp_client_socket-first key s = elim (Option-cases (find key s.clients)) [
    | inl e ↦ rw (e, find_idle_tcp_client_socket, sockets_to) tt
    | inr (ps, e) ↦
        rw (e, find_idle_tcp_client_socket, sockets_to) (first_idle-IsFirstIdle s.info ps)
  ]

  -- DestroySocket leaves the mark that a socket is in use.
  pub destroy_socket-in_use :
      (p : ℕ) (s : Skeleton E) → ((destroy_socket p s).0.info p).in_use ≡ (s.info p).in_use
  unfolding destroy_socket forget write
  destroy_socket-in_use p s = elim (Option-cases (find (s.info p).remote_endpoint s.clients)) [
    | inl e ↦ ground arith
    | inr (ps, e) ↦ ground arith
  ]

  -- DestroySocket on a client's socket closes it, takes every entry of it out of the list of its
  -- address and leaves the other entries; it answers -1 only where there is no list for the address.
  pub destroy_socket-client :
      (p q : ℕ) (s : Skeleton E)
      → (s.info p).is_client ≡ true
      → let key = (s.info p).remote_endpoint in
        let t = destroy_socket p s in
        ((t.0.info p).is_open ≡ false)
        × (count q (sockets_to key t.0) ≡ (if q == p then 0 else count q (sockets_to key s)))
        × ((t.1 ≡ pos 0) ⊎ (t.1 ≡ minus_one) × (find key s.clients ≡ none))
  unfolding destroy_socket forget write
  destroy_socket-client p q s c = elim (Option-cases (find (s.info p).remote_endpoint s.clients)) [
    | inl e ↦ ground (arith, same_refl (s.info p).remote_endpoint)
    | inr (ps, e) ↦
        let key = (s.info p).remote_endpoint in
        ground
          (arith, same_refl key, find-assign key key (remove p ps) s.clients, count-remove q p ps)
  ]
