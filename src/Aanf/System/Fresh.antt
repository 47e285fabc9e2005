-- ===== src/Aanf/System/Fresh.antt =====
-- Steps on a new socket keep the invariant.
use kknf.Base.{ℕ, ◌+◌, ◌≡◌, ◌≢◌, refl, ap, List, [], ◌∷◌, ◌++◌, inl, inr, true, All, arith, ℕ-cases}
use kknf.Base.Int.{ℤ}
use kknf.Base.Map.{Order, Map}
use kknf.Aanf.Tables.{Skeleton, SocketType, write, new_info, insert_tcp_client_socket}
use kknf.Aanf.Requests.{Op, connect_then_write, done, to_connect_then_write}
use kknf.Aanf.System.{System, IsFresh}
use kknf.Aanf.System.Effect.{
  connects, exchanges, total, total-append, Phase, TablesOk, TablesOk-change,
}
use kknf.Aanf.System.Sides.{insert_tcp_client_socket-TablesOk, insert_tcp_client_socket-info}
use kknf.Aanf.System.Invariant.{side, Inv}

total-fresh :
    (w : Op → ℕ) (p : ℕ) (ops : List (Op × ℕ))
    → All (λ (a : Op × ℕ). a.1 ≢ p) ops
    → total w p ops ≡ 0
total-fresh w p [] h = refl
total-fresh w p ((op, q) ∷ ops) h = ground (arith, h, total-fresh w p ops h.1)

both :
    (p r : ℕ) (ps : List ℕ)
    → All (λ q. q ≢ p) ps
    → All (λ q. q ≢ r) ps
    → All (λ q. (q ≢ p) × (q ≢ r)) ps
both p r [] h g = tt
both p r (q ∷ ps) h g = ((h.0, g.0), both p r ps h.1 g.1)

module _ {E : Type 0} ⦃o : Order E⦄ where
  -- A step that starts operations on a new socket `p`, and makes another, `r`, keeps the invariant.
  pub fresh-Inv :
      (p r : ℕ) (s : System E) (t : Skeleton E) (ops : List (Op × ℕ))
      → Inv s
      → IsFresh p s
      → IsFresh r s
      → ((q : ℕ)
          → (q ≢ p) × (q ≢ r)
          → ((t.info q).is_client ≡ (s.skeleton.info q).is_client)
            × ((t.info q).in_use ≡ (s.skeleton.info q).in_use)
            × ((t.info q).is_connected ≡ (s.skeleton.info q).is_connected)
            × ((t.info q).type_ ≡ (s.skeleton.info q).type_))
      → ((w : Op → ℕ) (q : ℕ) → q ≢ p → total w q ops ≡ 0)
      → Phase (t.info p) (total connects p ops) (total exchanges p ops)
      → Phase (t.info r) 0 0
      → (TablesOk (side t) s.skeleton → TablesOk (side t) t)
      → Inv (record { skeleton = t; pending = s.pending ++ ops })
  fresh-Inv p r s t ops v (f, g, h) (f', g', h') same none_on phase phase' tables = record {
    tables = tables (
        TablesOk-change (λ q. (q ≢ p) × (q ≢ r)) (side s.skeleton) (side t) s.skeleton
          (λ q n. (same q n).0) (entries s.skeleton.servers f f') (lists s.skeleton.clients g g')
          v.tables);
    phases = λ q.
        rw (total-append connects q s.pending ops, total-append exchanges q s.pending ops) (at q);
  }
    where
      entries :
          (m : Map E ℕ)
          → All (λ (a : E × ℕ). a.1 ≢ p) m
          → All (λ (a : E × ℕ). a.1 ≢ r) m
          → All (λ (a : E × ℕ). (a.1 ≢ p) × (a.1 ≢ r)) m
      entries [] x y = tt
      entries (a ∷ m) x y = ((x.0, y.0), entries m x.1 y.1)

      lists :
          (m : Map E (List ℕ))
          → All (λ (a : E × List ℕ). All (λ q. q ≢ p) a.1) m
          → All (λ (a : E × List ℕ). All (λ q. q ≢ r) a.1) m
          → All (λ (a : E × List ℕ). All (λ q. (q ≢ p) × (q ≢ r)) a.1) m
      lists [] x y = tt
      lists (a ∷ m) x y = (both p r a.1 x.0 y.0, lists m x.1 y.1)

      on_p :
          Phase
            (t.info p)
            (total connects p s.pending + total connects p ops)
            (total exchanges p s.pending + total exchanges p ops)
      on_p =
          ground
            (arith, phase, total-fresh connects p s.pending h, total-fresh exchanges p s.pending h)

      at :
          (q : ℕ)
          → Phase
              (t.info q)
              (total connects q s.pending + total connects q ops)
              (total exchanges q s.pending + total exchanges q ops)
      at q = elim (ℕ-cases q p) [
        | inl e ↦ rw e on_p
        | inr n ↦ elim (ℕ-cases q r) [
          | inl e ↦
              rw
                (
                  e,
                  total-fresh connects r s.pending h',
                  total-fresh exchanges r s.pending h',
                  none_on connects r (rw e at n),
                  none_on exchanges r (rw e at n),
                )
                (ground (arith, phase'))
          | inr n' ↦
              let (x, y, z, w) = same q (n, n') in
              ground (arith, x, y, z, w, v.phases q, none_on connects q n, none_on exchanges q n)
        ]
      ]

  -- The state of ToConnectThenWrite before the new socket goes to the table.
  abbrev connecting : E → SocketType → List ℕ → ℕ → ℕ → System E → Skeleton E
  unfolding write
  connecting remote type_ buf fresh now s =
      write fresh (record (new_info type_ remote now) { send_buf = buf; is_client = true })
        s.skeleton

  connecting-Inv :
      (remote : E) (type_ : SocketType) (buf : List ℕ) (fresh now : ℕ) (s : System E)
      → Inv s
      → IsFresh fresh s
      → Inv (record {
        skeleton = insert_tcp_client_socket remote fresh (connecting remote type_ buf fresh now s);
        pending = s.pending ++ (connect_then_write buf, fresh) ∷ [];
      })
  unfolding write new_info
  connecting-Inv remote type_ buf fresh now s v f =
      let w = connecting remote type_ buf fresh now s in
      let t = insert_tcp_client_socket remote fresh w in
      let same : (q : ℕ) → t.info q ≡ w.info q =
        λ q. ap (λ i. i q) (insert_tcp_client_socket-info remote fresh w) in
      fresh-Inv fresh fresh s t ((connect_then_write buf, fresh) ∷ []) v f f
        (λ q n. ground (arith, n, same q)) (λ k q n. ground (arith, n)) (ground (arith, same fresh))
        (ground (arith, same fresh))
        (insert_tcp_client_socket-TablesOk (side t) remote fresh w (ground (arith, same fresh)))

  pub connect-Inv :
      (remote : E) (type_ : SocketType) (buf : List ℕ) (fresh now : ℕ) (r : ℤ) (s : System E)
      (t : Skeleton E) (ops : List (Op × ℕ))
      → Inv s
      → IsFresh fresh s
      → to_connect_then_write remote type_ buf fresh now s.skeleton ≡ done r t ops
      → Inv (record { skeleton = t; pending = s.pending ++ ops })
  unfolding to_connect_then_write
  connect-Inv remote type_ buf fresh now r s t ops v f e =
      let te : t ≡ insert_tcp_client_socket remote fresh (connecting remote type_ buf fresh now s) =
        ground (arith, e) in
      let oe : ops ≡ (connect_then_write buf, fresh) ∷ [] = ground (arith, e) in
      rw (te, oe) (connecting-Inv remote type_ buf fresh now s v f)
