-- ===== src/Asio/Idle.antt =====
-- What becomes of a request on an idle connection.
use kknf.Base.{ℕ, ◌≡◌, ap, Option, none, some, false, List, [], ◌∷◌, arith}
use kknf.Base.Map.{Order, find}
use kknf.Asio.{
  AsioServer, AsioOp, begin_write, first_unused, idle_of, find_idle, wrote_then_read_len,
}

module _ {E : Type 0} where
  module _ ⦃o : Order E⦄ where
    -- A connection that FindIdleTCPClientSocket answers.
    first_unused-flags :
        (ps : List ℕ) (p : ℕ) (s : AsioServer E)
        → first_unused s ps ≡ some p
        → ((s.sockets p).in_write ≡ false) × ((s.sockets p).in_read ≡ false)
    unfolding first_unused
    first_unused-flags [] p s e = absurd (ground arith)
    first_unused-flags (q ∷ ps) p s e = ground (arith, first_unused-flags ps p s)

    idle_of-flags :
        (found : Option (List ℕ)) (p : ℕ) (s : AsioServer E)
        → idle_of s found ≡ some p
        → ((s.sockets p).in_write ≡ false) × ((s.sockets p).in_read ≡ false)
    unfolding idle_of
    idle_of-flags none p s e = absurd (ground arith)
    idle_of-flags (some ps) p s e = first_unused-flags ps p s e

    wrote_then_read_len-aborts :
        (p : ℕ) (s : AsioServer E) → (s.sockets p).in_write ≡ false → wrote_then_read_len p s ≡ none
    unfolding wrote_then_read_len
    wrote_then_read_len-aborts p s w = rw w

    -- A request on an idle connection cannot be answered: ToWriteThenRead on the socket that
    -- FindIdleTCPClientSocket finds for an address starts its write without the flag for writing, and
    -- when the write has ended HandleWriteThenReadL fails its assertion.
    pub find_idle-aborts :
        (key : E) (p : ℕ) (s t : AsioServer E) (op : AsioOp)
        → find_idle key s ≡ some p
        → begin_write p s ≡ (t, op)
        → wrote_then_read_len p t ≡ none
    unfolding find_idle begin_write
    find_idle-aborts key p s t op e st =
        rw (← ap (λ (r : AsioServer E × AsioOp). r.0) st)
          (wrote_then_read_len-aborts p s (idle_of-flags (find key s.client_map) p s e).0)
