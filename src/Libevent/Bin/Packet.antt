-- ===== src/Libevent/Bin/Packet.antt =====
-- A packet that comes in pieces is put together by the calls of ReadHandler.
use kknf.Base.{
  Option, take-append_short, drop-append_short, take-length, drop-length, ℕ, suc, ◌+◌, ◌-◌, ◌^◌,
  ◌≤◌, ◌<◌, ◌≡◌, refl, ap, ◌∙◌, List, [], ◌∷◌, ◌++◌, append_assoc, some, none, true, arith, length,
  take, drop, take-append-drop, ltb, All, ℕ-cases, inl, inr, length-drop, length-take,
  length-append, min,
}
use kknf.Base.Int.{pos}
use kknf.Nf.Stream.{ntohl, htonl, to_int}
use kknf.Libevent.Memory.{get_mem_block_lem}
use kknf.Libevent.Bin.{
  BinSocket, ReadAnswer, returned, copy_field, begin_block, len_read, read_handler,
}
use kknf.Libevent.Bin.Calls.{go_on, calls, Gives, filling, data_calls}

to_int_lem : (n : ℕ) → n < 2 ^ 31 → to_int n ≡ pos n
to_int_lem n h = ground arith

-- The socket while its length field comes.
abbrev unfilled : List ℕ → BinSocket
unfilled lb = record { len_bytes = lb; recv_mb = none }

-- A call that reads a part of the length field.
handler_in_len :
    (max : ℕ) (pool : Option ℕ) (a b : ReadAnswer) (lb todo rest : List ℕ)
    → length lb + length todo ≡ 4
    → 0 < length todo
    → 0 < a.most
    → let k = min a.most (length todo) in
      read_handler max pool a b (unfilled lb) (todo ++ rest)
      ≡ len_read max pool b (unfilled (lb ++ take k todo)) (drop k todo ++ rest)
unfolding read_handler
handler_in_len max pool a b lb todo rest e some_left m =
    let need : 4 - length lb ≡ length todo = omega arith in
    let k : ℕ = min a.most (length todo) in
    let bs : take k (todo ++ rest) ≡ take k todo = take-append_short k todo rest (omega arith) in
    let taken : length (take k todo) ≡ k = omega (arith, length-take k todo) in
    rw (need, bs, taken, drop-append_short k todo rest (omega arith)) (ground arith)

-- The rest of a call in which the length field has become whole, and the calls after it.
len_whole :
    (max room total : ℕ) (b : ReadAnswer) (answers : List (ReadAnswer × ReadAnswer))
    (body rest : List ℕ)
    → total ≤ room
    → 0 < length body
    → 4 + length body ≡ total
    → total ≤ max
    → total < 2 ^ 31
    → 0 < b.most
    → All Gives answers
    → length body ≤ suc (length answers)
    → go_on
        (calls max (some room) answers)
        (len_read max (some room) b (unfilled (htonl total)) (body ++ rest))
      ≡ returned (pos 1) (filling (htonl total) total room body) rest
unfolding calls go_on len_read begin_block copy_field read_handler
len_whole max room total b answers body rest s some_body e fits small m g enough =
    let field : ntohl (htonl total) ≡ total = omega arith in
    rw (field, to_int_lem total small, get_mem_block_lem max room total (omega arith) fits)
      (data_calls max (some room) total room ((b, b) ∷ answers) (htonl total) [] body rest refl
        (omega arith) some_body s (omega arith) ((m, m), g) (omega arith))

part_of_field : (lb : List ℕ) → length lb < 4 → ltb (length lb) 4 ≡ true
part_of_field lb h = ground arith

-- The calls while the length field comes, and those after it.
len_calls :
    (max room total : ℕ) (answers : List (ReadAnswer × ReadAnswer)) (lb todo body rest : List ℕ)
    → total ≤ room
    → 0 < length body
    → 4 + length body ≡ total
    → total ≤ max
    → total < 2 ^ 31
    → lb ++ todo ≡ htonl total
    → 0 < length todo
    → All Gives answers
    → length todo + length body ≤ length answers
    → calls max (some room) answers (unfilled lb) (todo ++ (body ++ rest))
      ≡ returned (pos 1) (filling (htonl total) total room body) rest
unfolding calls go_on len_read
len_calls max room total [] lb todo body rest s sb e fits small field some_left g enough =
    absurd (omega arith)
len_calls max room total ((a, b) ∷ answers) lb todo body rest s sb e fits small field some_left g
      enough =
    let k : ℕ = min a.most (length todo) in
    let four : length lb + length todo ≡ 4 =
      omega (arith, ap length field, length-append lb todo) in
    let read = handler_in_len max (some room) a b lb todo (body ++ rest) four some_left g.0.0 in
    let joined : (lb ++ take k todo) ++ drop k todo ≡ htonl total =
      append_assoc lb (take k todo) (drop k todo)
      ∙ ap (λ bs. lb ++ bs) (take-append-drop k todo)
      ∙ field in
    rw read (elim (ℕ-cases k (length todo)) [
      | inl whole ↦
          let got : lb ++ take k todo ≡ htonl total = rw (whole, take-length todo) field in
          let none_left : drop k todo ≡ [] = rw (whole, drop-length todo) refl in
          rw (got, none_left)
            (len_whole max room total b answers body rest s sb e fits small g.0.1 g.1 (omega arith))
      | inr part ↦
          rw
            (part_of_field (lb ++ take k todo)
              (omega (arith, length-append lb (take k todo), length-take k todo)))
            (len_calls max room total answers (lb ++ take k todo) (drop k todo) body rest s sb e
              fits small joined (omega (arith, length-drop k todo)) g.1
              (omega (arith, length-drop k todo)))
    ])

-- A packet of type DF_BIN with a data field of a byte or more and at most the largest block long, in
-- front of anything else on the wire, is put together by the calls of ReadHandler on a socket that
-- has read nothing, where GetMemBlock has a block at least as long as the packet: however the reads
-- cut it up, as long as each gives a byte or more, some call within as many as the packet has bytes
-- answers 1, with exactly the packet in the block, and what follows left on the wire.
pub calls-packet :
    (max room : ℕ) (answers : List (ReadAnswer × ReadAnswer)) (body rest : List ℕ)
    → 4 + length body ≤ room
    → 0 < length body
    → 4 + length body ≤ max
    → 4 + length body < 2 ^ 31
    → All Gives answers
    → 4 + length body ≤ length answers
    → let total = 4 + length body in
      calls max
        (some room)
        answers
        (record { len_bytes = []; recv_mb = none })
        (htonl total ++ body ++ rest)
      ≡ returned
          (pos 1)
          (record {
            len_bytes = htonl total;
            recv_mb = some (record { used = htonl total ++ body; len = room });
          })
          rest
calls-packet max room answers body rest s sb fits small g enough =
    len_calls max room (4 + length body) answers [] (htonl (4 + length body)) body rest s sb refl
      fits small refl (omega arith) g (omega arith)
