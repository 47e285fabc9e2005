-- ===== src/Nf/Stream/Received.antt =====
-- TCPRecv gets back the packets that were framed and sent, however the stream is cut up.
use kknf.Base.{
  ℕ, zero, suc, ◌+◌, ◌-◌, ◌^◌, ◌≤◌, ◌<◌, ◌≡◌, refl, List, [], ◌∷◌, ◌++◌, append-nil, append_assoc,
  some, false, arith, length, take, drop, take-append-take, drop-drop, take-length_append,
  drop-length_append, ◌==◌, All, length-drop, length-take, length-append, min, ◌∙◌,
}
use kknf.Base.Int.{pos}
use kknf.Nf.Stream.Bytes.{ntohl-htonl}
use kknf.Nf.Stream.{
  RecvAnswer, gave, recv_failed, filled, broken, fill, ntohl, htonl, frame, tcp_recv, data_field,
  len_field,
}

-- An answer that makes progress.
abbrev pub Gives : RecvAnswer → Type 0
Gives (gave n) = 0 < n
Gives (recv_failed errno) = ⊥

-- The loop gets exactly what it needs, and leaves answers for what follows.
fill_complete :
    (answers : List RecvAnswer) (need : ℕ) (got wire : List ℕ)
    → All Gives answers
    → need ≤ length wire
    → need ≤ length answers
    → (rest : List RecvAnswer) × (fill answers need got wire
        ≡ filled (got ++ take need wire) (drop need wire) rest)
      × All Gives rest
      × (length answers ≤ length rest + need)
unfolding fill
fill_complete answers zero got wire g w a = rw append-nil (answers, refl, g, omega arith)
fill_complete [] (suc need) got wire g w a = absurd (omega arith)
fill_complete (recv_failed errno ∷ answers) (suc need) got wire g w a = absurd g.0
fill_complete (gave n ∷ answers) (suc need) got wire g w a =
    let k : ℕ = min n (suc need) in
    let given : length (take k wire) ≡ k = omega (arith, length-take k wire) in
    let some_given : (k == 0) ≡ false = ground (arith, g.0) in
    let (rest, e, more, left) =
      fill_complete answers (suc need - k) (got ++ take k wire) (drop k wire) g.1
        (omega (arith, length-drop k wire)) (omega arith) in
    rw (given, some_given)
      (
        rest,
        rw (
          e,
          append_assoc,
          take-append-take k (suc need - k) (suc need) wire (omega arith),
          drop-drop k (suc need - k) (suc need) wire (omega arith),
        ),
        more,
        omega arith,
      )

-- A length field in range starts the loop over the data.
len_field-accepts :
    (max n : ℕ) (buf field wire : List ℕ) (answers : List RecvAnswer)
    → ntohl field ≡ n
    → max < 2 ^ 31
    → 0 < n
    → n ≤ max
    → len_field max buf (filled field wire answers) ≡ data_field n (fill answers n [] wire)
unfolding len_field
len_field-accepts max n buf field wire answers e small some_bytes fits = rw e (ground arith)

data_field_complete :
    (packet rest : List ℕ) (answers : List RecvAnswer)
    → All Gives answers
    → length packet ≤ length answers
    → data_field (length packet) (fill answers (length packet) [] (packet ++ rest))
      ≡ record { code = some (pos 0); buf = packet; wire = rest }
unfolding data_field
data_field_complete packet rest answers g enough =
    let (_, e, _, _) =
      fill_complete answers (length packet) [] (packet ++ rest) g
        (omega (arith, length-append packet rest)) enough in
    rw (e, take-length_append packet rest, drop-length_append packet rest)

-- A frame of 1 to `max` bytes on the wire, whatever follows it, is received whole: TCPRecv returns 0
-- with the packet in the buffer, and what follows stays on the wire. The answers of recv() may cut
-- the stream up in any way, as long as each gives something and there are as many as the frame has
-- bytes.
pub tcp_recv-frame :
    (max : ℕ) (buf packet rest : List ℕ) (answers : List RecvAnswer)
    → max < 2 ^ 31
    → 0 < length packet
    → length packet ≤ max
    → All Gives answers
    → length packet + 4 ≤ length answers
    → tcp_recv max buf answers (frame packet ++ rest)
      ≡ record { code = some (pos 0); buf = packet; wire = rest }
unfolding tcp_recv frame
tcp_recv-frame max buf packet rest answers small some_bytes fits g enough =
    let (more, e, g', left) =
      fill_complete answers 4 [] (frame packet ++ rest) g (omega arith) (omega arith) in
    rw e (
      len_field-accepts max (length packet) buf (htonl (length packet)) (packet ++ rest) more
        (ntohl-htonl (length packet) [] (omega arith)) small some_bytes fits
      ∙ data_field_complete packet rest more g' (omega arith))

-- A call of recv() that fails ends TCPRecv with an error whatever errno says, also where it was
-- interrupted (EINTR) or would have blocked (EAGAIN): the code never tries again.
pub recv_failed-fatal :
    (errno need : ℕ) (got wire : List ℕ) (answers : List RecvAnswer)
    → fill (recv_failed errno ∷ answers) (suc need) got wire ≡ broken got wire
unfolding fill
recv_failed-fatal errno need got wire answers = ground arith
