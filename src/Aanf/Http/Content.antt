-- ===== src/Aanf/Http/Content.antt =====
-- What of a packet ProcessData() gets.
use kknf.Base.{
  ℕ, zero, suc, ◌+◌, ◌-◌, ◌≤◌, ◌≡◌, refl, ap, List, [], ◌∷◌, ◌++◌, false, Bool, none, some, Option,
  length, length-append, length-take, replicate, take, append-nil, arith,
}
use kknf.Base.Int.{ℤ, pos, negsuc, pos_part}
use kknf.Base.Map.{Order}
use kknf.Aanf.Tables.{Skeleton, write, touch}
use kknf.Aanf.Read.{Started, processed}
use kknf.Aanf.Http.{
  empty_line, search_key, content_length, wants_continue, no_field, bad_field, field, reads_on,
  ContentLength, resize, after_content, handle_read_http_content, add_int, grow, answer_continue,
  read_content, handle_read_http_head,
}

take-append_le : (n : ℕ) (xs ys : List ℕ) → n ≤ length xs → take n (xs ++ ys) ≡ take n xs
take-append_le zero xs ys h = refl
take-append_le (suc n) [] ys h = absurd (omega arith)
take-append_le (suc n) (x ∷ xs) ys h = ap (λ l. x ∷ l) (take-append_le n xs ys (omega arith))

take-take : (n : ℕ) (xs : List ℕ) → take n (take n xs) ≡ take n xs
take-take zero xs = refl
take-take (suc n) [] = refl
take-take (suc n) (x ∷ xs) = ap (λ l. x ∷ l) (take-take n xs)

resize_front : (n : ℕ) (xs ys : List ℕ) → n ≤ length xs → resize n (take n xs ++ ys) ≡ take n xs
resize_front n xs ys h =
    let longer : n - length (take n xs ++ ys) ≡ 0 =
      omega (arith, length-append (take n xs) ys, length-take n xs) in
    rw (
      longer,
      take-append_le n (take n xs) ys (omega (arith, length-take n xs)),
      take-take n xs,
      append-nil (take n xs),
    )

module _ {E : Type 0} where
  -- The bytes that a read brings, from an offset of the buffer on.
  abbrev pub receive : ℕ → List ℕ → ℕ → Skeleton E → Skeleton E
  unfolding write
  receive offset bytes p s =
      write p (record (s.info p) { recv_buf = take offset (s.info p).recv_buf ++ bytes }) s

  grow-front :
      (n : ℕ) (total : ℤ) (p : ℕ) (s : Skeleton E)
      → n ≤ length (s.info p).recv_buf
      → (take n ((grow total p s).info p).recv_buf ≡ take n (s.info p).recv_buf)
        × (((grow total p s).info p).recv_buf_filled ≡ (s.info p).recv_buf_filled)
        × (length (s.info p).recv_buf ≤ length ((grow total p s).info p).recv_buf)
  unfolding grow write
  grow-front n total p s h =
      let bytes = (s.info p).recv_buf in
      let zeros = replicate {A = ℕ} (pos_part total - length bytes) 0 in
      ground (arith, take-append_le n bytes zeros h, length-append bytes zeros)

  module _ ⦃o : Order E⦄ where
    read_content-front :
        (total : ℤ) (found k : Bool) (process : List ℕ → ℤ) (byte_num now p offset count : ℕ)
        (s t : Skeleton E)
        → byte_num ≤ length (s.info p).recv_buf
        → read_content total found byte_num process now p s ≡ reads_on t offset count k
        → (offset ≡ byte_num)
          × (take byte_num (t.info p).recv_buf ≡ take byte_num (s.info p).recv_buf)
          × ((t.info p).recv_buf_filled ≡ (s.info p).recv_buf_filled)
          × (byte_num ≤ length (t.info p).recv_buf)
    unfolding read_content answer_continue write
    read_content-front total found k process byte_num now p offset count s t h e =
        ground (arith, grow-front byte_num total p s h)

    handle_read_http_head-front :
        (cast : List ℕ → Option ℤ) (process : List ℕ → ℤ) (byte_num now p offset count : ℕ)
        (k : Bool) (s t : Skeleton E)
        → byte_num ≤ length (s.info p).recv_buf
        → handle_read_http_head false byte_num cast process now p s ≡ reads_on t offset count k
        → (offset ≡ byte_num)
          × (take byte_num (t.info p).recv_buf ≡ take byte_num (s.info p).recv_buf)
          × ((t.info p).recv_buf_filled ≡ (s.info p).recv_buf_filled)
          × (byte_num ≤ length (t.info p).recv_buf)
    unfolding handle_read_http_head touch write
    handle_read_http_head-front cast process byte_num now p offset count k s t h e =
        by (search_key empty_line (s.info p).recv_buf) refl
          (content_length cast (s.info p).recv_buf) refl
      where
        by :
            (at : Option ℕ)
            → search_key empty_line (s.info p).recv_buf ≡ at
            → (l : ContentLength) → content_length cast (s.info p).recv_buf ≡ l
            → (offset ≡ byte_num)
              × (take byte_num (t.info p).recv_buf ≡ take byte_num (s.info p).recv_buf)
              × ((t.info p).recv_buf_filled ≡ (s.info p).recv_buf_filled)
              × (byte_num ≤ length (t.info p).recv_buf)
        by none f l g = absurd (ground (arith, e, f))
        by (some n) f no_field g = absurd (ground (arith, e, f, g))
        by (some n) f bad_field g = absurd (ground (arith, e, f, g))
        by (some n) f (field len) g =
            let (a, b, c, d) =
              read_content-front (add_int len (pos (n + 4))) (wants_continue (s.info p).recv_buf) k
                process byte_num now p offset count (touch now p s) t (ground arith)
                (ground (arith, e, f, g)) in
            ground (arith, a, b, c, d)

    after_content-given :
        (packet given : List ℕ) (ret : ℤ) (p : ℕ) (s t : Skeleton E) (st : Started)
        → after_content packet ret p s ≡ processed given t st
        → given ≡ packet
    unfolding after_content
    after_content-given packet given (negsuc n) p s t st e = ground arith
    after_content-given packet given (pos n) p s t st e = ground arith

    handle_read_http_content-given :
        (given : List ℕ) (process : List ℕ → ℤ) (now p : ℕ) (s t : Skeleton E) (st : Started)
        → handle_read_http_content false process now p s ≡ processed given t st
        → given ≡ resize (s.info p).recv_buf_filled (s.info p).recv_buf
    unfolding handle_read_http_content
    handle_read_http_content-given given process now p s t st e =
        let i = s.info p in
        let packet = resize i.recv_buf_filled i.recv_buf in
        after_content-given packet given (process packet) p
          (touch now p (write p (record i { recv_buf = packet; recv_buf_filled = 0 }) s)) t st e

    -- Where a head, and what came with it, has come as `byte_num` bytes in one read, so that
    -- `recv_buf_filled` is `byte_num`, and the rest of the content is then read: whatever bytes that
    -- read brings, ProcessData() gets just the `byte_num` bytes of the first read.
    pub handle_read_http_content-loses_rest :
        (cast : List ℕ → Option ℤ) (process : List ℕ → ℤ) (byte_num now later p offset count : ℕ)
        (k : Bool) (bytes given : List ℕ) (s t u : Skeleton E) (st : Started)
        → byte_num ≤ length (s.info p).recv_buf
        → (s.info p).recv_buf_filled ≡ byte_num
        → handle_read_http_head false byte_num cast process now p s ≡ reads_on t offset count k
        → handle_read_http_content false process later p (receive offset bytes p t)
          ≡ processed given u st
        → given ≡ take byte_num (s.info p).recv_buf
    unfolding write
    handle_read_http_content-loses_rest cast process byte_num now later p offset count k bytes given
          s t u st h f e g =
        let (at, front, filled, room) =
          handle_read_http_head-front cast process byte_num now p offset count k s t h e in
        let got =
          handle_read_http_content-given given process later p (receive offset bytes p t) u st g in
        let cut = resize_front byte_num (t.info p).recv_buf bytes room in
        ground (arith, at, front, filled, got, cut)
