-- ===== src/Aanf/System/Head.antt =====
-- The effect of the handler that reads the head of an HTTP packet.
use kknf.Base.{
  ℕ, ◌+◌, ◌-◌, ◌≡◌, refl, List, [], ◌∷◌, ◌++◌, none, some, Bool, true, false, Option, arith,
  if◌then◌else◌, append-nil, ◌%◌, ◌^◌, length, replicate,
}
use kknf.Base.Int.{ℤ, pos, ◌-ℤ◌, ltb_ℤ, pos_part}
use kknf.Base.Map.{Order}
use kknf.Nf.Stream.{to_int}
use kknf.Aanf.Tables.{SocketInfo, Skeleton, write, touch, destroy_socket}
use kknf.Aanf.Read.{to_size, nothing, reads, Handled, processed, dropped, aborted, same_int}
use kknf.Aanf.Http.{
  empty_line, search_key, content_length, wants_continue, no_field, bad_field, field, reads_on,
  stopped, served, ContentLength, handle_read_http_content, add_int, grow, answer_continue,
  answer_after, read_content, handle_read_http_head, HeadHandled, continue_head,
}
use kknf.Aanf.Requests.{Op, read_http_head, read_http_content, anything_then_nothing, done}
use kknf.Aanf.System.{with_answer, after_handled, after_head}
use kknf.Aanf.System.Effect.{
  connects, exchanges, total, total-append, Effect, write-Effect, Effect-write,
}
use kknf.Aanf.System.Sides.{destroy_socket-flags, destroy_socket-TablesOk}
use kknf.Aanf.System.Handlers.{read_http_content-Effect}

module _ {E : Type 0} (client : ℕ → Bool) (q c e p : ℕ) where
  grow-Effect :
      (total : ℤ) (s t : Skeleton E) (ops : List (Op × ℕ))
      → Effect client q c e read_http_head p (grow total p s) t ops
      → Effect client q c e read_http_head p s t ops
  unfolding grow
  grow-Effect total s t ops h = by (ltb_ℤ (pos (length (s.info p).recv_buf)) total) h
    where
      i : SocketInfo E
      i = record (s.info p) {
        recv_buf = (s.info p).recv_buf ++ replicate (pos_part total - length (s.info p).recv_buf) 0;
      }

      by :
          (b : Bool)
          → Effect client q c e read_http_head p (if b then write p i s else s) t ops
          → Effect client q c e read_http_head p s t ops
      by true g = write-Effect client q c e read_http_head p i s t ops refl refl refl refl g
      by false g = g

  answer_continue-Effect :
      (found : Bool) (s v : Skeleton E) (ops : List (Op × ℕ))
      → Effect client q c e read_http_head p s v ops
      → Effect client q c e read_http_head p s (answer_continue found p v) ops
  unfolding answer_continue
  answer_continue-Effect true s v ops h =
      Effect-write client q c e read_http_head p (record (v.info p) { send_buf = continue_head }) s
        v ops refl refl refl refl h
  answer_continue-Effect false s v ops h = h

  -- The write of the 100 is not counted.
  uncounted :
      (found : Bool) (s v t : Skeleton E) (some_ops ops : List (Op × ℕ))
      → Effect client q c e read_http_head p s v some_ops
      → with_answer found p (done tt v some_ops) ≡ done tt t ops
      → Effect client q c e read_http_head p s t ops
  uncounted false s v t some_ops ops g h = ground (arith, append-nil some_ops)
  uncounted true s v t some_ops ops g h = ground (
    arith,
    total-append connects q some_ops ((anything_then_nothing, p) ∷ []),
    total-append exchanges q some_ops ((anything_then_nothing, p) ∷ []),
  )

  module _ ⦃o : Order E⦄ where
    served-Effect :
        (found : Bool) (h : Handled E) (s t : Skeleton E) (ops : List (Op × ℕ))
        → ((v : Skeleton E) (l : List (Op × ℕ))
            → after_handled read_http_head p h ≡ done tt v l
            → Effect client q c e read_http_head p s v l)
        → with_answer found p (after_handled read_http_head p (answer_after found p h))
          ≡ done tt t ops
        → Effect client q c e read_http_head p s t ops
    unfolding answer_after
    served-Effect found (processed packet v nothing) s t ops k g =
        uncounted found s (answer_continue found p v) t [] ops
          (answer_continue-Effect found s v [] (k v [] refl)) g
    served-Effect found (processed packet v (reads x y)) s t ops k g =
        uncounted found s (answer_continue found p v) t ((read_http_head, p) ∷ []) ops
          (answer_continue-Effect found s v ((read_http_head, p) ∷ [])
            (k v ((read_http_head, p) ∷ []) refl))
          g
    served-Effect found (dropped v) s t ops k g =
        uncounted found s (answer_continue found p v) t [] ops
          (answer_continue-Effect found s v [] (k v [] refl)) g
    served-Effect found aborted s t ops k g = cc

    read_content-Effect :
        (whole : ℤ) (found : Bool) (byte_num now : ℕ) (process : List ℕ → ℤ) (s t : Skeleton E)
        (ops : List (Op × ℕ))
        → after_head p (read_content whole found byte_num process now p s) ≡ done tt t ops
        → Effect client q c e read_http_head p s t ops
    unfolding read_content
    read_content-Effect whole found byte_num now process s t ops h =
        by (ltb_ℤ (pos s.max_recv_buf_size) whole) (same_int left (pos 0)) h
      where
        left : ℤ
        left = to_int (to_size (whole -ℤ pos byte_num) % 2 ^ 32)

        u : Skeleton E
        u = grow whole p s

        handled : Handled E
        handled = handle_read_http_content false process now p u

        by :
            (too_large complete : Bool)
            → after_head p (
                if too_large
                then stopped (destroy_socket p s).0
                else if complete
                then served (answer_after found p handled) found
                else reads_on (answer_continue found p u) byte_num (to_size left) found)
              ≡ done tt t ops
            → Effect client q c e read_http_head p s t ops
        by true complete g =
            ground (arith, destroy_socket-flags p q s, destroy_socket-TablesOk client p s)
        by false true g = grow-Effect whole s t ops (
            served-Effect found handled u t ops
              (λ v l k.
                read_http_content-Effect client q c e p false now process read_http_head u v l refl
                  refl k)
              g)
        by false false g = grow-Effect whole s t ops (
            uncounted found u (answer_continue found p u) t ((read_http_content, p) ∷ []) ops
              (answer_continue-Effect found u u ((read_http_content, p) ∷ []) (ground arith)) g)

    pub read_http_head-Effect :
        (error : Bool) (byte_num now : ℕ) (cast : List ℕ → Option ℤ) (process : List ℕ → ℤ)
        (s t : Skeleton E) (ops : List (Op × ℕ))
        → after_head p (handle_read_http_head error byte_num cast process now p s) ≡ done tt t ops
        → Effect client q c e read_http_head p s t ops
    unfolding handle_read_http_head touch write
    read_http_head-Effect true byte_num now cast process s t ops h =
        ground (arith, destroy_socket-flags p q s, destroy_socket-TablesOk client p s)
    read_http_head-Effect false byte_num now cast process s t ops h =
        write-Effect client q c e read_http_head p (record (s.info p) { access_time = now }) s t ops
          refl refl refl refl
          (by (search_key empty_line (s.info p).recv_buf) (content_length cast (s.info p).recv_buf)
            h)
      where
        u : Skeleton E
        u = touch now p s

        by :
            (at : Option ℕ) (l : ContentLength)
            → after_head p (elim at as (λ x. HeadHandled E) [
              | none ↦ stopped u
              | some n ↦ elim l as (λ x. HeadHandled E) [
                | no_field ↦ stopped (destroy_socket p u).0
                | bad_field ↦ stopped u
                | field len ↦
                    read_content
                      (add_int len (pos (n + 4)))
                      (wants_continue (s.info p).recv_buf)
                      byte_num
                      process
                      now
                      p
                      u
              ]
            ])
              ≡ done tt t ops
            → Effect client q c e read_http_head p u t ops
        by none l g = ground arith
        by (some n) no_field g =
            ground (arith, destroy_socket-flags p q u, destroy_socket-TablesOk client p u)
        by (some n) bad_field g = ground arith
        by (some n) (field len) g =
            read_content-Effect (add_int len (pos (n + 4))) (wants_continue (s.info p).recv_buf)
              byte_num now process u t ops g
