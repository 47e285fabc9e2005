-- ===== src/Aanf/System.antt =====
-- aanf/asio-based2/include/skeleton.hpp: the whole skeleton as it runs. The operations that have been
-- started end in any order, each with any outcome, and its handler then runs; between them the program
-- makes its calls. Calls that ProcessData() makes stand in front of the handler that calls it.
pub mod Effect
pub mod Sides
pub mod Handlers
pub mod Head
pub mod Calls
pub mod Invariant
pub mod Fresh
pub mod Accepted
pub mod Kept
pub mod Safe
pub mod Exclusive
use kknf.Base.{
  ℕ, ◌+◌, ◌≡◌, ◌≢◌, List, [], ◌∷◌, ◌++◌, Option, none, some, Bool, true, false, All, if◌then◌else◌,
}
use kknf.Base.Int.{ℤ}
use kknf.Base.Map.{Order, find}
use kknf.Aanf.Tables.{SocketType, Skeleton, write}
use kknf.Aanf.Read.{
  Started, nothing, reads, Handled, processed, dropped, aborted, handle_write_then_read_l,
  handle_read_l_then_read_v, handle_read_v_then_process,
}
use kknf.Aanf.Http.{
  HeadHandled, stopped, reads_on, served, handle_write_then_read_http_head, handle_read_http_head,
  handle_read_http_content, http_head_read_completion_condition,
}
use kknf.Aanf.Requests.{
  Op, connect_then_write, write_then_read_l, read_l_then_read_v, read_v_then_process,
  write_then_read_http_head, read_http_head, read_http_content, write_then_close,
  anything_then_nothing, Acted, done, handle_connect_then_write, handle_write_then_close,
  handle_anything_then_nothing, to_write_then_read, to_write_then_call_back, to_write_then_close,
}
use kknf.Aanf.Accept.{AcceptorInfo, reset, handle_accept, handle_timeout, run_handlers}

-- The end of an operation: an error, an error of local_endpoint(), how many bytes it has moved, what
-- the buffer then holds, what lexical_cast() and ProcessData() answer, and the time.
pub record Ending : Type 0 where
  pub error : Bool
  pub no_end : Bool
  pub byte_num : ℕ
  pub bytes : List ℕ
  pub cast : List ℕ → Option ℤ
  pub process : List ℕ → ℤ
  pub now : ℕ

module _ {E : Type 0} where
  unfoldable pub arrive : List ℕ → ℕ → Skeleton E → Skeleton E
  unfolding write
  arrive bytes p s = write p (record (s.info p) { recv_buf = bytes }) s

  -- What a handler has started, for the handler that runs next.
  abbrev pub after_read : Op → ℕ → Skeleton E × Started → Acted E Unit
  after_read next p (s, nothing) = done tt s []
  after_read next p (s, reads offset count) = done tt s ((next, p) ∷ [])

  abbrev pub after_handled : Op → ℕ → Handled E → Acted E Unit
  after_handled next p (processed packet s st) = after_read next p (s, st)
  after_handled next p (dropped s) = done tt s []
  after_handled next p aborted = Acted.aborted

  -- The write of the 100 to a client that waits for it.
  abbrev pub with_answer : Bool → ℕ → Acted E Unit → Acted E Unit
  with_answer found p (done r s ops) =
      done r s (ops ++ (if found then (anything_then_nothing, p) ∷ [] else []))
  with_answer found p Acted.aborted = Acted.aborted

  abbrev pub after_head : ℕ → HeadHandled E → Acted E Unit
  after_head p (stopped s) = done tt s []
  after_head p (reads_on s offset count found) =
      with_answer found p (done tt s ((read_http_content, p) ∷ []))
  after_head p (served h found) = with_answer found p (after_handled read_http_head p h)

  module _ ⦃o : Order E⦄ where
    -- The handler of an operation.
    unfoldable pub handle : Op → Ending → ℕ → Skeleton E → Acted E Unit
    unfolding arrive handle_connect_then_write handle_write_then_read_l handle_read_l_then_read_v
        handle_read_v_then_process handle_write_then_read_http_head handle_read_http_head
        handle_read_http_content handle_write_then_close handle_anything_then_nothing
    handle (connect_then_write buf) x p s = handle_connect_then_write x.error x.no_end x.now buf p s
    handle write_then_read_l x p s =
        after_read read_l_then_read_v p (handle_write_then_read_l x.error x.now p s)
    handle read_l_then_read_v x p s =
        after_read read_v_then_process p
          (handle_read_l_then_read_v x.error x.now p (arrive x.bytes p s))
    handle read_v_then_process x p s =
        after_handled read_l_then_read_v p
          (handle_read_v_then_process x.error x.byte_num x.process x.now p (arrive x.bytes p s))
    handle write_then_read_http_head x p s =
        after_read read_http_head p (handle_write_then_read_http_head x.error x.now p s)
    handle read_http_head x p s =
        after_head p
          (handle_read_http_head x.error x.byte_num x.cast x.process x.now p (arrive x.bytes p s))
    handle read_http_content x p s =
        after_handled read_http_head p
          (handle_read_http_content x.error x.process x.now p (arrive x.bytes p s))
    handle write_then_close x p s = handle_write_then_close p s
    handle anything_then_nothing x p s = handle_anything_then_nothing x.error x.now p s

module _ (E : Type 0) where
  -- `pending` are the operations under way.
  pub record System : Type 0 where
    pub skeleton : Skeleton E
    pub pending : List (Op × ℕ)

module _ {E : Type 0} where
  -- A new pointer: no table and no operation has it.
  abbrev pub IsFresh : ℕ → System E → Type 0
  IsFresh p s =
      All (λ (e : E × ℕ). e.1 ≢ p) s.skeleton.servers
      × All (λ (e : E × List ℕ). All (λ q. q ≢ p) e.1) s.skeleton.clients
      × All (λ (e : Op × ℕ). e.1 ≢ p) s.pending

  module _ ⦃o : Order E⦄ where
    pub data Step (s : System E) : System E → Type 0 where
      -- A request to another server, by ToWriteThenRead.
      request :
          (remote : E) (type_ : SocketType) (buf : List ℕ) (fresh now : ℕ) (r : ℤ) (t : Skeleton E)
          (ops : List (Op × ℕ))
          → IsFresh fresh s
          → to_write_then_read remote type_ buf false fresh now s.skeleton ≡ done r t ops
          → Step s (record { skeleton = t; pending = s.pending ++ ops })
      -- A request with a callback.
      call_back :
          (remote : E) (type_ : SocketType) (buf : List ℕ) (i_am_server : Bool) (fresh now : ℕ)
          (r : ℤ) (t : Skeleton E) (ops : List (Op × ℕ))
          → IsFresh fresh s
          → to_write_then_call_back remote type_ buf i_am_server fresh now s.skeleton ≡ done r t ops
          → Step s (record { skeleton = t; pending = s.pending ++ ops })
      -- An answer to a connection that has been accepted.
      answer :
          (remote : E) (type_ : SocketType) (buf : List ℕ) (fresh now : ℕ) (r : ℤ) (t : Skeleton E)
          (ops : List (Op × ℕ))
          → to_write_then_read remote type_ buf true fresh now s.skeleton ≡ done r t ops
          → Step s (record { skeleton = t; pending = s.pending ++ ops })
      -- The last answer to such a connection.
      last_answer :
          (remote : E) (buf : List ℕ) (r : ℤ) (t : Skeleton E) (ops : List (Op × ℕ))
          → to_write_then_close remote buf true s.skeleton ≡ done r t ops
          → Step s (record { skeleton = t; pending = s.pending ++ ops })
      -- A connection is accepted, into a socket that nothing else has; its ends may be unknown.
      accept :
          (remote : Option E) (near : Bool) (unset : E) (fresh now created : ℕ) (a b : AcceptorInfo)
          (t : Skeleton E) (ops : List (Op × ℕ))
          → IsFresh a.sk_info s
          → IsFresh fresh s
          → a.sk_info ≢ fresh
          → handle_accept false remote near unset fresh now a
              (reset a.type_ unset a.sk_info created s.skeleton)
            ≡ done b t ops
          → Step s (record { skeleton = t; pending = s.pending ++ ops })
      -- async_read() of a head asks how much it is to read next.
      asks :
          (error : Bool) (byte_num p : ℕ)
          → Step s (record s {
            skeleton = (http_head_read_completion_condition error byte_num p s.skeleton).0;
          })
      -- The timer, with the handler that Run adds.
      timeout :
          (error : Bool) (server_timeout now : ℕ)
          → Step s (record s {
            skeleton = handle_timeout error (run_handlers server_timeout []) now s.skeleton;
          })
      -- An operation ends.
      ended :
          (op : Op) (x : Ending) (p : ℕ) (before after ops : List (Op × ℕ)) (t : Skeleton E)
          → s.pending ≡ before ++ (op, p) ∷ after
          → handle op x p s.skeleton ≡ done tt t ops
          → Step s (record { skeleton = t; pending = before ++ after ++ ops })

    pub data Reach (s : System E) : System E → Type 0 where
      start : Reach s s
      later : {t u : System E} → Reach s t → Step t u → Reach s u
