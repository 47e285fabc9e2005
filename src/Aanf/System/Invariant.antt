-- ===== src/Aanf/System/Invariant.antt =====
-- The invariant of the running skeleton, and the kinds of steps that keep it.
use kknf.Base.{ℕ, ◌+◌, ◌≤◌, ◌≡◌, refl, List, [], ◌∷◌, Bool, true, All, arith, ◌==◌, if◌then◌else◌}
use kknf.Base.Map.{Order, Map}
use kknf.Aanf.Tables.{Skeleton}
use kknf.Aanf.Requests.{
  Op, connect_then_write, write_then_read_l, read_l_then_read_v, read_v_then_process,
  write_then_read_http_head, read_http_head, read_http_content, write_then_close,
  anything_then_nothing, done,
}
use kknf.Aanf.System.{System, Ending, handle, arrive}
use kknf.Aanf.System.Effect.{
  connects, exchanges, total, Phase, TablesOk, TablesOk-change, Effect, write-Effect,
}
use kknf.Aanf.System.Handlers.{
  write_then_read_l-Effect, read_l_then_read_v-Effect, read_v_then_process-Effect,
  read_http_content-Effect, write_then_read_http_head-Effect, write_then_close-Effect,
  anything_then_nothing-Effect, connect_then_write-Effect,
}
use kknf.Aanf.System.Head.{read_http_head-Effect}

abbrev Anything : ℕ → Type 0
Anything q = Unit

all-Anything : (ps : List ℕ) → All Anything ps
all-Anything [] = tt
all-Anything (q ∷ ps) = (tt, all-Anything ps)

module _ {E : Type 0} where
  -- Which sockets are a client's.
  abbrev pub side : Skeleton E → ℕ → Bool
  side s p = (s.info p).is_client

  -- The tables hold the sockets of their side, and every client's socket is in a phase.
  pub record Inv (s : System E) : Type 0 where
    pub tables : TablesOk (side s.skeleton) s.skeleton
    pub phases :
        (q : ℕ)
        → Phase (s.skeleton.info q) (total connects q s.pending) (total exchanges q s.pending)

  module _ ⦃o : Order E⦄ where
    pub handle-Effect :
        (client : ℕ → Bool) (q c e : ℕ) (op : Op) (x : Ending) (p : ℕ) (s t : Skeleton E)
        (ops : List (Op × ℕ))
        → (1 ≤ connects op → client p ≡ true)
        → handle op x p s ≡ done tt t ops
        → Effect client q c e op p s t ops
    unfolding handle arrive
    handle-Effect client q c e (connect_then_write buf) x p s t ops k h =
        connect_then_write-Effect client q c e p x.error x.no_end x.now buf buf s t ops
          (k (omega arith)) h
    handle-Effect client q c e write_then_read_l x p s t ops k h =
        write_then_read_l-Effect client q c e p x.error x.now s t ops h
    handle-Effect client q c e read_l_then_read_v x p s t ops k h =
        write-Effect client q c e read_l_then_read_v p (record (s.info p) { recv_buf = x.bytes }) s
          t ops refl refl refl refl
          (read_l_then_read_v-Effect client q c e p x.error x.now _ t ops h)
    handle-Effect client q c e read_v_then_process x p s t ops k h =
        write-Effect client q c e read_v_then_process p (record (s.info p) { recv_buf = x.bytes }) s
          t ops refl refl refl refl
          (read_v_then_process-Effect client q c e p x.error x.byte_num x.now x.process _ t ops h)
    handle-Effect client q c e write_then_read_http_head x p s t ops k h =
        write_then_read_http_head-Effect client q c e p x.error x.now s t ops h
    handle-Effect client q c e read_http_head x p s t ops k h =
        write-Effect client q c e read_http_head p (record (s.info p) { recv_buf = x.bytes }) s t
          ops refl refl refl refl
          (read_http_head-Effect client q c e p x.error x.byte_num x.now x.cast x.process _ t ops h)
    handle-Effect client q c e read_http_content x p s t ops k h =
        write-Effect client q c e read_http_content p (record (s.info p) { recv_buf = x.bytes }) s t
          ops refl refl refl refl
          (read_http_content-Effect client q c e p x.error x.now x.process read_http_content _ t ops
            refl refl h)
    handle-Effect client q c e write_then_close x p s t ops k h =
        write_then_close-Effect client q c e p s t ops h
    handle-Effect client q c e anything_then_nothing x p s t ops k h =
        anything_then_nothing-Effect client q c e p x.error x.now s t ops h

    -- A step that has the effect of `op` keeps the invariant.
    pub Effect-Inv :
        (op : Op) (p : ℕ) (s : System E) (t : Skeleton E) (rest ops next : List (Op × ℕ))
        → Inv s
        → ((q : ℕ)
            → (total connects q s.pending
                ≡ total connects q rest + (if q == p then connects op else 0))
              × (total exchanges q s.pending
                  ≡ total exchanges q rest + (if q == p then exchanges op else 0)))
        → ((w : Op → ℕ) (q : ℕ) → total w q next ≡ total w q rest + total w q ops)
        → ((client : ℕ → Bool) (q c e : ℕ)
            → (1 ≤ connects op → client p ≡ true)
            → Effect client q c e op p s.skeleton t ops)
        → Inv (record { skeleton = t; pending = next })
    Effect-Inv op p s t rest ops next v split joined effect = record {
      tables =
          TablesOk-change Anything (side s.skeleton) (side t) t
            (λ q n. let (h, same, phase) = effect (side s.skeleton) q 0 0 is_side in same)
            (entries t.servers) (lists t.clients)
            ((effect (side s.skeleton) 0 0 0 is_side).0 v.tables);
      phases = λ q.
          let (tables, same, phase) =
            effect (side s.skeleton) q (total connects q rest) (total exchanges q rest) is_side in
          rw (joined connects q, joined exchanges q)
            (phase (rw ((split q).0, (split q).1) at (v.phases q)));
    }
      where
        is_side : 1 ≤ connects op → side s.skeleton p ≡ true
        is_side h = ground (arith, h, v.phases p, (split p).0)

        entries : (m : Map E ℕ) → All (λ (a : E × ℕ). Anything a.1) m
        entries [] = tt
        entries (a ∷ m) = (tt, entries m)

        lists : (m : Map E (List ℕ)) → All (λ (a : E × List ℕ). All Anything a.1) m
        lists [] = tt
        lists (a ∷ m) = (all-Anything a.1, lists m)
