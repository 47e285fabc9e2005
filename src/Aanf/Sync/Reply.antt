-- ===== src/Aanf/Sync/Reply.antt =====
-- ToWriteThenReadSync returns no reply that carries data.
use kknf.Base.{
  ℕ, zero, suc, ◌≡◌, refl, List, [], ◌∷◌, ◌++◌, inl, inr, arith, length, length-append, take, drop,
  replicate, Option-cases,
}
use kknf.Base.Int.{pos}
use kknf.Base.Map.{Order}
use kknf.Nf.Stream.{ntohl}
use kknf.Aanf.Tables.{SocketType, Skeleton, write, find_idle_tcp_client_socket}
use kknf.Aanf.Sync.{
  Answers, returned, read_data, read_len, filled_in, exchange, connect_to, to_write_then_read_sync,
}

drop-take : (n : ℕ) (xs : List ℕ) → drop n (take n xs) ≡ []
drop-take zero xs = refl
drop-take (suc n) [] = refl
drop-take (suc n) (x ∷ xs) = drop-take n xs

length-filled_in :
    (bytes : List ℕ) (len : ℕ) (buf : List ℕ)
    → len ≡ 4
    → length (filled_in bytes len buf) ≡ length bytes
length-filled_in bytes len buf e =
    rw
      (
        e,
        length-append bytes (drop 4 (take 4 (buf ++ replicate 4 0))),
        drop-take 4 (buf ++ replicate 4 0),
      )
      (omega arith)

module _ {E : Type 0} ⦃o : Order E⦄ where
  read_len-header :
      (p : ℕ) (bytes buf got : List ℕ) (a : Answers) (s t : Skeleton E)
      → length bytes ≡ 4
      → read_len p bytes buf a s ≡ returned (pos 0) t got
      → length got ≡ 4
  unfolding read_len read_data
  read_len-header p bytes buf got a s t l e =
      ground (arith, length-filled_in bytes (ntohl bytes) buf)

  exchange-header :
      (p : ℕ) (req buf got : List ℕ) (a : Answers) (s t : Skeleton E)
      → exchange p req buf a s ≡ returned (pos 0) t got
      → length got ≡ 4
  unfolding exchange
  exchange-header p req buf got a s t e = elim (Option-cases a.len_field) [
    | inl n ↦ absurd (ground arith)
    | inr ((b0, b1, b2, b3), q) ↦ ground (
      arith,
      q,
      read_len-header p (b0 ∷ b1 ∷ b2 ∷ b3 ∷ []) buf got a
          (write p (record (s.info p) { send_buf = req }) s) t refl,
    )
  ]

  -- Where ToWriteThenReadSync returns 0, `buf_to_fill` has just the four bytes of the length: a reply that
  -- carries data is never returned.
  pub to_write_then_read_sync-no_data :
      (remote : E) (req : List ℕ) (type_ : SocketType) (buf got : List ℕ) (a : Answers)
      (s t : Skeleton E)
      → to_write_then_read_sync remote req type_ buf a s ≡ returned (pos 0) t got
      → length got ≡ 4
  unfolding to_write_then_read_sync
  to_write_then_read_sync-no_data remote req type_ buf got a s t e =
      elim (Option-cases (find_idle_tcp_client_socket remote s)) [
        | inl n ↦
            ground (arith, exchange-header a.fresh req buf got a (connect_to remote type_ a s) t)
        | inr (p, q) ↦ ground (arith, exchange-header p req buf got a s t)
      ]
