-- ===== src/Aanf/System/Accepted.antt =====
-- A connection that is accepted keeps the invariant.
use kknf.Base.{ℕ, ◌≡◌, ◌≢◌, refl, List, ◌++◌, none, some, true, false, Option, arith, [], Bool}
use kknf.Base.Map.{Order, find, assign}
use kknf.Aanf.Tables.{
  Skeleton, SocketType, tcp_lv, tcp_http, tcp_line, tcp_tlv, tcp_usr1, tcp_unknown, write, new_info,
  set_recv_buf, insert_tcp_server_socket,
}
use kknf.Aanf.Read.{to_read_l_then_read_v}
use kknf.Aanf.Http.{to_read_http_head}
use kknf.Aanf.Requests.{Op, done}
use kknf.Aanf.Accept.{AcceptorInfo, reset, start_read, serve_connection, handle_accept}
use kknf.Aanf.System.{System, IsFresh}
use kknf.Aanf.System.Effect.{connects, total}
use kknf.Aanf.System.Sides.{All-assign}
use kknf.Aanf.System.Invariant.{side, Inv}
use kknf.Aanf.System.Fresh.{fresh-Inv}

module _ {E : Type 0} ⦃o : Order E⦄ where
  -- From the insertion on, the tables get the connection and the marks of the sockets stay.
  serve_connection-marks :
      (remote : E) (p : ℕ) (a b : AcceptorInfo) (s t : Skeleton E) (ops : List (Op × ℕ)) (q : ℕ)
      → serve_connection remote p a s ≡ done b t ops
      → (t.servers ≡ assign remote p s.servers)
        × (t.clients ≡ s.clients)
        × ((t.info q).is_client ≡ (s.info q).is_client)
        × ((t.info q).in_use ≡ (s.info q).in_use)
        × ((t.info q).is_connected ≡ (s.info q).is_connected)
        × ((t.info q).type_ ≡ (s.info q).type_)
        × (total connects q ops ≡ 0)
        × (q ≢ p → (w : Op → ℕ) → total w q ops ≡ 0)
  unfolding serve_connection start_read write set_recv_buf insert_tcp_server_socket
      to_read_l_then_read_v to_read_http_head
  serve_connection-marks remote p a b s t ops q e =
      by (s.info p).type_ refl (find remote s.servers) refl
    where
      by :
          (type_ : SocketType)
          → (s.info p).type_ ≡ type_
          → (found : Option ℕ) → find remote s.servers ≡ found
          → (t.servers ≡ assign remote p s.servers)
            × (t.clients ≡ s.clients)
            × ((t.info q).is_client ≡ (s.info q).is_client)
            × ((t.info q).in_use ≡ (s.info q).in_use)
            × ((t.info q).is_connected ≡ (s.info q).is_connected)
            × ((t.info q).type_ ≡ (s.info q).type_)
            × (total connects q ops ≡ 0)
            × (q ≢ p → (w : Op → ℕ) → total w q ops ≡ 0)
      by type_ k (some r) f = absurd (ground (arith, e, f))
      by tcp_line k none f = absurd (ground (arith, e, f, k))
      by tcp_tlv k none f = absurd (ground (arith, e, f, k))
      by tcp_usr1 k none f = absurd (ground (arith, e, f, k))
      by tcp_unknown k none f = absurd (ground (arith, e, f, k))
      by tcp_lv k none f = ground (arith, e, f, k)
      by tcp_http k none f = ground (arith, e, f, k)

  -- The state of HandleAccept when it inserts the connection, whose socket was a new one.
  abbrev made : E → ℕ → ℕ → ℕ → AcceptorInfo → Skeleton E → Skeleton E
  unfolding reset write
  made unset fresh now created a s =
      let v = reset a.type_ unset a.sk_info created s in
      reset a.type_ unset fresh now (
        write a.sk_info
          (record (v.info a.sk_info) { is_connected = true; in_use = true; type_ = a.type_ }) v)

  made-marks :
      (unset : E) (fresh now created : ℕ) (a : AcceptorInfo) (s : Skeleton E) (q : ℕ)
      → a.sk_info ≢ fresh
      → let u = made unset fresh now created a s in
        ((u.info a.sk_info).is_client ≡ false)
        × ((u.info fresh).is_client ≡ false)
        × ((q ≢ a.sk_info) × (q ≢ fresh)
            → ((u.info q).is_client ≡ (s.info q).is_client)
              × ((u.info q).in_use ≡ (s.info q).in_use)
              × ((u.info q).is_connected ≡ (s.info q).is_connected)
              × ((u.info q).type_ ≡ (s.info q).type_))
  unfolding reset write new_info
  made-marks unset fresh now created a s q n =
      (ground (arith, n), ground (arith, n), λ m. ground (arith, m))

  served-Inv :
      (remote unset : E) (fresh now created : ℕ) (a b : AcceptorInfo) (s : System E)
      (t : Skeleton E) (ops : List (Op × ℕ))
      → Inv s
      → IsFresh a.sk_info s
      → IsFresh fresh s
      → a.sk_info ≢ fresh
      → handle_accept false
          (some remote)
          true
          unset
          fresh
          now
          a
          (reset a.type_ unset a.sk_info created s.skeleton)
        ≡ done b t ops
      → Inv (record { skeleton = t; pending = s.pending ++ ops })
  unfolding handle_accept reset write
  served-Inv remote unset fresh now created a b s t ops v f g n e =
      fresh-Inv a.sk_info fresh s t ops v f g
        (λ q m. ground (arith, marks q, (made-marks unset fresh now created a s.skeleton q n).2 m))
        (λ w q m. (marks q).7 m w) (ground (arith, marks a.sk_info, server))
        (ground (arith, marks fresh, spare))
        (λ (h, k).
          rw ((marks 0).0, (marks 0).1)
            (
              All-assign (λ x. side t x.1 ≡ false) remote a.sk_info s.skeleton.servers
                  (ground (arith, marks a.sk_info, server)) h,
              k,
            ))
    where
      u : Skeleton E
      u = made unset fresh now created a s.skeleton

      server : (u.info a.sk_info).is_client ≡ false
      server = (made-marks unset fresh now created a s.skeleton a.sk_info n).0

      spare : (u.info fresh).is_client ≡ false
      spare = (made-marks unset fresh now created a s.skeleton a.sk_info n).1

      marks :
          (q : ℕ)
          → (t.servers ≡ assign remote a.sk_info u.servers)
            × (t.clients ≡ u.clients)
            × ((t.info q).is_client ≡ (u.info q).is_client)
            × ((t.info q).in_use ≡ (u.info q).in_use)
            × ((t.info q).is_connected ≡ (u.info q).is_connected)
            × ((t.info q).type_ ≡ (u.info q).type_)
            × (total connects q ops ≡ 0)
            × (q ≢ a.sk_info → (w : Op → ℕ) → total w q ops ≡ 0)
      marks q =
          serve_connection-marks remote a.sk_info (record a { sk_info = fresh; accepting = false })
            b u t ops q e

  -- Without its ends the connection is not served.
  dropped-Inv :
      (unset : E) (fresh now created : ℕ) (a : AcceptorInfo) (s : System E) (t : Skeleton E)
      (ops : List (Op × ℕ))
      → Inv s
      → IsFresh a.sk_info s
      → IsFresh fresh s
      → a.sk_info ≢ fresh
      → t ≡ made unset fresh now created a s.skeleton
      → ops ≡ []
      → Inv (record { skeleton = t; pending = s.pending ++ ops })
  unfolding made
  dropped-Inv unset fresh now created a s t ops v f g n te oe =
      let u = made unset fresh now created a s.skeleton in
      let (server, spare, same) = made-marks unset fresh now created a s.skeleton 0 n in
      rw (te, oe)
        (fresh-Inv a.sk_info fresh s u [] v f g
          (λ q m. (made-marks unset fresh now created a s.skeleton q n).2 m) (λ w q m. refl)
          (ground (arith, server)) (ground (arith, spare)) (λ h. h))

  pub accept-Inv :
      (remote : Option E) (near : Bool) (unset : E) (fresh now created : ℕ) (a b : AcceptorInfo)
      (s : System E) (t : Skeleton E) (ops : List (Op × ℕ))
      → Inv s
      → IsFresh a.sk_info s
      → IsFresh fresh s
      → a.sk_info ≢ fresh
      → handle_accept false remote near unset fresh now a
          (reset a.type_ unset a.sk_info created s.skeleton)
        ≡ done b t ops
      → Inv (record { skeleton = t; pending = s.pending ++ ops })
  unfolding handle_accept
  accept-Inv none near unset fresh now created a b s t ops v f g n e =
      dropped-Inv unset fresh now created a s t ops v f g n (ground (arith, e)) (ground (arith, e))
  accept-Inv (some r) false unset fresh now created a b s t ops v f g n e =
      dropped-Inv unset fresh now created a s t ops v f g n (ground (arith, e)) (ground (arith, e))
  accept-Inv (some r) true unset fresh now created a b s t ops v f g n e =
      served-Inv r unset fresh now created a b s t ops v f g n e
