-- ===== src/Aanf/Client/Reply.antt =====
-- The reply on a connection of the table.
use kknf.Base.{
  ℕ, zero, suc, ◌+◌, ◌-◌, ◌^◌, ◌≤◌, ◌<◌, ◌≡◌, refl, List, [], ◌∷◌, ◌++◌, some, false, true, arith,
  length, length-append, length-take, length-drop, length-replicate, take, drop, replicate,
  append-nil, take-length_append, ltb, ◌/◌, ◌%◌, leb,
}
use kknf.Base.Int.{pos}
use kknf.Base.Map.{Order}
use kknf.Nf.Stream.Bytes.{ntohl-htonl}
use kknf.Nf.Stream.{ntohl, htonl}
use kknf.Aanf.Tables.{Skeleton, write}
use kknf.Aanf.Sync.{returned, filled_in}
use kknf.Aanf.Client.{Exchange, is_invalid, next_data, next_len, next_request}

-- A packet with this body comes, and then more.
abbrev pub arrives : List ℕ → List ℕ → Exchange
arrives body more = record {
  written = true;
  len_field =
      let n = 4 + length body in
      some (n / 2 ^ 24 % 256, n / 2 ^ 16 % 256, n / 2 ^ 8 % 256, n % 256);
  incoming = body ++ more;
}

drop-all : (k : ℕ) (xs : List ℕ) → length xs ≤ k → drop k xs ≡ []
drop-all zero [] h = refl
drop-all (suc k) [] h = refl
drop-all zero (x ∷ xs) h = absurd (omega arith)
drop-all (suc k) (x ∷ xs) h = drop-all k xs (omega arith)

length-filled : (n : ℕ) (buf : List ℕ) → length (drop 4 (take n (buf ++ replicate n 0))) ≡ n - 4
length-filled n buf =
    let zeros = replicate {A = ℕ} n 0 in
    omega (
      arith,
      length-drop 4 (take n (buf ++ zeros)),
      length-take n (buf ++ zeros),
      length-append buf zeros,
      length-replicate {A = ℕ} n 0,
    )

module _ {E : Type 0} ⦃o : Order E⦄ where
  next_data-whole :
      (p : ℕ) (b0 b1 b2 b3 n : ℕ) (buf body more : List ℕ) (s : Skeleton E)
      → n ≡ 4 + length body
      → next_data p (n - 4) (filled_in (b0 ∷ b1 ∷ b2 ∷ b3 ∷ []) n buf) (body ++ more) s
        ≡ returned (pos 0) s (b0 ∷ b1 ∷ b2 ∷ b3 ∷ body)
  unfolding next_data
  next_data-whole p b0 b1 b2 b3 n buf body more s e =
      let rest : n - 4 ≡ length body = omega (arith, e) in
      let old = drop 4 (take n (buf ++ replicate n 0)) in
      let fits : leb (length body) (length (body ++ more)) ≡ true =
        ground (arith, length-append body more) in
      let over : drop (length body) old ≡ [] =
        drop-all (length body) old (omega (arith, length-filled n buf, e)) in
      rw (rest, fits, take-length_append body more, over, append-nil body) refl

  -- Where the request is written and a packet comes as a reply, with its length in front, that the limit
  -- allows and an int holds, the call on a connection of the table returns 0 and `buf_to_fill` is
  -- just that packet, whatever it was before and whatever comes behind the packet.
  pub next_request-reply :
      (p : ℕ) (req buf body more : List ℕ) (s : Skeleton E)
      → 4 + length body ≤ s.max_recv_buf_size
      → 4 + length body < 2 ^ 31
      → next_request p req buf (arrives body more) s
        ≡ returned
            (pos 0)
            (write p (record (s.info p) { send_buf = req }) s)
            (htonl (4 + length body) ++ body)
  unfolding next_request next_len write
  next_request-reply p req buf body more s h g =
      let n = 4 + length body in
      let same : ntohl (htonl n) ≡ n = ntohl-htonl n [] (omega arith) in
      let valid : is_invalid (htonl n) s ≡ false = ground (arith, same) in
      let long : ltb n 4 ≡ false = ground arith in
      rw (valid, same, long)
        (next_data-whole p (n / 2 ^ 24 % 256) (n / 2 ^ 16 % 256) (n / 2 ^ 8 % 256) (n % 256) n buf
          body more (write p (record (s.info p) { send_buf = req }) s) refl)
