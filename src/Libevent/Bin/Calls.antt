-- ===== src/Libevent/Bin/Calls.antt =====
-- The calls of ReadHandler that libevent makes, and what becomes of the data of a packet.
use kknf.Base.{
  Option, take-append_short, drop-append_short, take-length, drop-length, ℕ, zero, suc, ◌+◌, ◌^◌,
  ◌≤◌, ◌<◌, ◌≡◌, refl, ap, ◌∙◌, List, [], ◌∷◌, ◌++◌, append_assoc, some, false, arith, length, take,
  drop, take-append-drop, ◌==◌, if◌then◌else◌, All, ℕ-cases, ◌≢◌, inl, inr, length-drop,
  length-take, length-append, min,
}
use kknf.Base.Int.{pos, negsuc}
use kknf.Nf.Stream.Bytes.{ntohl-htonl}
use kknf.Nf.Stream.{ntohl, htonl}
use kknf.Libevent.Bin.{
  BinSocket, ReadAnswer, BinRead, returned, crashed, still_needed, read_block, add_read,
  read_packet_data, read_handler,
}

-- The calls that libevent makes while the socket is readable, until one answers something else
-- than 0.
unfoldable pub go_on : (BinSocket → List ℕ → BinRead) → BinRead → BinRead
go_on next crashed = crashed
go_on next (returned (pos zero) sk wire) = next sk wire
go_on next (returned (pos (suc n)) sk wire) = returned (pos (suc n)) sk wire
go_on next (returned (negsuc n) sk wire) = returned (negsuc n) sk wire

unfoldable pub calls : ℕ → Option ℕ → List (ReadAnswer × ReadAnswer) → BinSocket → List ℕ → BinRead
unfolding go_on
calls max pool [] sk wire = returned (pos 0) sk wire
calls max pool ((a, b) ∷ answers) sk wire =
    go_on (calls max pool answers) (read_handler max pool a b sk wire)

-- Each read() gives a byte or more, where there is one.
abbrev pub Gives : ReadAnswer × ReadAnswer → Type 0
Gives (a, b) = (0 < a.most) × (0 < b.most)

-- A socket that has the length field `lb`, and of a packet of `total` bytes those in `got`.
abbrev pub filling : List ℕ → ℕ → ℕ → List ℕ → BinSocket
filling lb total room got = record {
  len_bytes = lb;
  recv_mb = some (record { used = htonl total ++ got; len = room });
}

-- A read into the block takes the next bytes of the packet, and says whether it is whole.
read_block_lem :
    (total room k : ℕ) (a : ReadAnswer) (lb got todo rest : List ℕ)
    → length got + length todo + 4 ≡ total
    → 0 < k
    → k ≡ min a.most (length todo)
    → total ≤ room
    → total < 2 ^ 32
    → read_packet_data a (filling lb total room got) (todo ++ rest)
      ≡ returned
          (if k == length todo then pos 1 else pos 0)
          (filling lb total room (got ++ take k todo))
          (drop k todo ++ rest)
unfolding read_packet_data read_block add_read
read_block_lem total room k a lb got todo rest e some_read k_is fits small =
    let whole : ntohl (htonl total ++ got) ≡ total = ntohl-htonl total got small in
    let needed : still_needed total (record { used = htonl total ++ got; len = room })
        ≡ length todo =
      omega arith in
    let bs : take k (todo ++ rest) ≡ take k todo = take-append_short k todo rest (omega arith) in
    let taken : length (take k todo) ≡ k = omega (arith, length-take k todo) in
    rw (whole, needed, ← k_is, bs, taken, drop-append_short k todo rest (omega arith))
      (ground (arith, length-append got (take k todo)))

not_whole : (k : ℕ) (xs : List ℕ) → k ≢ length xs → (k == length xs) ≡ false
not_whole k xs d = ground arith

-- Past the length field a call is one read into the block.
handler_in_data :
    (max : ℕ) (pool : Option ℕ) (a b : ReadAnswer) (sk : BinSocket) (wire : List ℕ)
    → length sk.len_bytes ≡ 4
    → read_handler max pool a b sk wire ≡ read_packet_data b sk wire
unfolding read_handler
handler_in_data max pool a b sk wire e = rw e

-- The calls after the length field.
pub data_calls :
    (max : ℕ) (pool : Option ℕ) (total room : ℕ) (answers : List (ReadAnswer × ReadAnswer))
    (lb got todo rest : List ℕ)
    → length lb ≡ 4
    → length got + length todo + 4 ≡ total
    → 0 < length todo
    → total ≤ room
    → total < 2 ^ 32
    → All Gives answers
    → length todo ≤ length answers
    → calls max pool answers (filling lb total room got) (todo ++ rest)
      ≡ returned (pos 1) (filling lb total room (got ++ todo)) rest
unfolding calls go_on
data_calls max pool total room [] lb got todo rest four e some_left fits small g enough =
    absurd (omega arith)
data_calls max pool total room ((a, b) ∷ answers) lb got todo rest four e some_left fits small g
      enough =
    let k : ℕ = min b.most (length todo) in
    let read =
      read_block_lem total room k b lb got todo rest e (omega (arith, g.0.1)) refl fits small in
    rw (handler_in_data max pool a b (filling lb total room got) (todo ++ rest) four, read)
      (elim (ℕ-cases k (length todo)) [
        | inl whole ↦ rw (whole, take-length todo, drop-length todo) (ground arith)
        | inr part ↦
            let more =
              data_calls max pool total room answers lb (got ++ take k todo) (drop k todo) rest four
                (omega
                  (arith, length-append got (take k todo), length-take k todo, length-drop k todo))
                (omega (arith, length-drop k todo)) fits small g.1
                (omega (arith, length-drop k todo)) in
            rw (not_whole k todo part) (
              more
              ∙ ap (λ bs. returned (pos 1) (filling lb total room bs) rest)
                  (append_assoc got (take k todo) (drop k todo)
                    ∙ ap (λ bs. got ++ bs) (take-append-drop k todo)))
      ])
