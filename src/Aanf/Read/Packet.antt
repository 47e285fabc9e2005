-- ===== src/Aanf/Read/Packet.antt =====
-- A whole packet goes to ProcessData(), and what its answer brings about.
use kknf.Base.{
  ℕ, sym, ap, ◌∙◌, ◌+◌, ◌^◌, ◌<◌, ◌≡◌, ◌⊎◌, List, ◌++◌, true, false, ◌≢◌, arith, length,
}
use kknf.Base.Int.{ℤ, pos, negsuc, ◌-ℤ◌}
use kknf.Base.Map.{Order}
use kknf.Nf.Stream.Bytes.{ntohl-htonl}
use kknf.Nf.Stream.{ntohl, htonl, to_int}
use kknf.Aanf.Tables.{SocketInfo, Skeleton, write, touch}
use kknf.Aanf.Read.{aborted, same_int, after_process, handle_read_v_then_process}

module _ (E : Type 0) where
  -- The answers of ProcessData() that are meant for a socket: an error; 0 and 3 for a server's; 1 for a
  -- client's in use; 2 for a server's in use.
  abbrev pub IsMeant : SocketInfo E → ℤ → Type 0
  IsMeant i (negsuc n) = Unit
  IsMeant i (pos n) =
      ((n ≡ 0) × (i.is_client ≡ false))
      ⊎ ((n ≡ 1) × (i.is_client ≡ true) × (i.in_use ≡ true))
      ⊎ ((n ≡ 2) × (i.is_client ≡ false) × (i.in_use ≡ true))
      ⊎ ((n ≡ 3) × (i.is_client ≡ false))

same_int-len : (n : ℕ) → 4 + n < 2 ^ 31 → same_int (pos n) (to_int (4 + n) -ℤ pos 4) ≡ true
unfolding ◌-ℤ◌
same_int-len n h = ground arith

module _ {E : Type 0} ⦃o : Order E⦄ where
  after_process-meant :
      (packet : List ℕ) (ret : ℤ) (p : ℕ) (s : Skeleton E)
      → IsMeant E (s.info p) ret
      → after_process packet ret p s ≢ aborted
  unfolding after_process
  after_process-meant packet (negsuc n) p s m = λ e. ground arith
  after_process-meant packet (pos n) p s m = λ e. ground arith

  touch-IsMeant :
      (ret : ℤ) (now p : ℕ) (s : Skeleton E)
      → IsMeant E (s.info p) ret
      → IsMeant E ((touch now p s).info p) ret
  unfolding touch write
  touch-IsMeant (negsuc n) now p s m = tt
  touch-IsMeant (pos n) now p s m = ground arith

  whole_packet :
      (body : List ℕ) (process : List ℕ → ℤ) (now p : ℕ) (s : Skeleton E)
      → (s.info p).recv_buf ≡ htonl (4 + length body) ++ body
      → 4 + length body < 2 ^ 31
      → handle_read_v_then_process false (length body) process now p s
        ≡ after_process (s.info p).recv_buf (process (s.info p).recv_buf) p (touch now p s)
  unfolding handle_read_v_then_process
  whole_packet body process now p s e h = ground (
    arith,
    ap ntohl e,
    ntohl-htonl (4 + length body) body (omega arith),
    same_int-len (length body) h,
  )

  -- When the data of a packet has come behind its length, HandleReadVThenProcess fails no assertion if
  -- the answer of ProcessData() is one that is meant for the socket.
  pub handle_read_v_then_process-no_abort :
      (body : List ℕ) (process : List ℕ → ℤ) (now p : ℕ) (s : Skeleton E)
      → (s.info p).recv_buf ≡ htonl (4 + length body) ++ body
      → 4 + length body < 2 ^ 31
      → IsMeant E (s.info p) (process (s.info p).recv_buf)
      → handle_read_v_then_process false (length body) process now p s ≢ aborted
  unfolding touch write
  handle_read_v_then_process-no_abort body process now p s e h m k =
      after_process-meant (s.info p).recv_buf (process (s.info p).recv_buf) p (touch now p s)
        (touch-IsMeant (process (s.info p).recv_buf) now p s m)
        (sym (whole_packet body process now p s e h) ∙ k)
