-- ===== src/Aanf/Accept/Serves.antt =====
-- A connection that is accepted.
use kknf.Base.{
  ℕ, ◌≡◌, ◌≢◌, refl, ◌⊎◌, inl, inr, List, [], ◌∷◌, none, some, true, false, arith, Option-cases,
}
use kknf.Base.Map.{Order, find, same_refl}
use kknf.Base.Map.Laws.{find-assign}
use kknf.Aanf.Tables.{
  SocketType, tcp_lv, tcp_http, tcp_line, tcp_tlv, tcp_usr1, tcp_unknown, Skeleton,
  find_tcp_server_socket, insert_tcp_server_socket, write, set_recv_buf,
}
use kknf.Aanf.Read.{to_read_l_then_read_v}
use kknf.Aanf.Http.{to_read_http_head}
use kknf.Aanf.Requests.{Op, Acted, done, aborted, read_l_then_read_v, read_http_head}
use kknf.Aanf.Accept.{AcceptorInfo, reset, start_read, serve_connection, handle_accept}

-- What the first read of a connection is; of other types none is served.
abbrev pub IsFirstRead : SocketType → ℕ → List (Op × ℕ) → Type 0
IsFirstRead tcp_lv p ops = ops ≡ (read_l_then_read_v, p) ∷ []
IsFirstRead tcp_http p ops = ops ≡ (read_http_head, p) ∷ []
IsFirstRead _ p ops = ⊥

module _ {E : Type 0} ⦃o : Order E⦄ where
  -- What HandleAccept has done for a connection from `remote`: it is in the table at its address, in
  -- use, on the same side as before, and its first read is under way; the acceptor accepts into a new
  -- socket.
  abbrev pub Serves : E → ℕ → AcceptorInfo → Skeleton E → Acted E AcceptorInfo → Type 0
  Serves remote fresh a s aborted = ⊥
  Serves remote fresh a s (done b t ops) =
      (b ≡ record a { sk_info = fresh; accepting = true })
      × IsFirstRead a.type_ a.sk_info ops
      × (find_tcp_server_socket remote t ≡ some a.sk_info)
      × ((t.info a.sk_info).remote_endpoint ≡ remote)
      × ((t.info a.sk_info).in_use ≡ true)
      × ((t.info a.sk_info).is_client ≡ (s.info a.sk_info).is_client)

  -- Where accept() has brought a connection from `remote` into a socket other than the new one, and its
  -- two ends are known, HandleAccept either serves the connection, or it fails an assertion, and
  -- that only where the address has a socket in the table already or no type of packet is served.
  pub handle_accept-Serves :
      (remote unset : E) (fresh now : ℕ) (a : AcceptorInfo) (s : Skeleton E)
      → a.sk_info ≢ fresh
      → let r = handle_accept false (some remote) true unset fresh now a s in
        ((find_tcp_server_socket remote s ≡ none) × Serves remote fresh a s r)
        ⊎ ((r ≡ aborted)
            × (((q : ℕ) × (find_tcp_server_socket remote s ≡ some q))
                ⊎ ((ops : List (Op × ℕ)) → ¬ IsFirstRead a.type_ a.sk_info ops)))
  unfolding start_read to_read_http_head to_read_l_then_read_v set_recv_buf handle_accept
      serve_connection reset write find_tcp_server_socket insert_tcp_server_socket
  handle_accept-Serves remote unset fresh now a s h = elim (Option-cases (find remote s.servers)) [
    | inr (q, e) ↦ inr (ground arith, inl (q, e))
    | inl e ↦ by a.type_ refl e
  ]
    where
      by :
          (type_ : SocketType)
          → a.type_ ≡ type_
          → find remote s.servers ≡ none
          → let r = handle_accept false (some remote) true unset fresh now a s in
            ((find remote s.servers ≡ none) × Serves remote fresh a s r)
            ⊎ ((r ≡ aborted)
                × (((q : ℕ) × (find remote s.servers ≡ some q))
                    ⊎ ((ops : List (Op × ℕ)) → ¬ IsFirstRead a.type_ a.sk_info ops)))
      by tcp_lv k e =
          inl
            (e, ground (arith, k, find-assign remote remote a.sk_info s.servers, same_refl remote))
      by tcp_http k e =
          inl
            (e, ground (arith, k, find-assign remote remote a.sk_info s.servers, same_refl remote))
      by tcp_line k e = inr (ground arith, inr (λ ops. ground arith))
      by tcp_tlv k e = inr (ground arith, inr (λ ops. ground arith))
      by tcp_usr1 k e = inr (ground arith, inr (λ ops. ground arith))
      by tcp_unknown k e = inr (ground arith, inr (λ ops. ground arith))
