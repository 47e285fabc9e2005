-- ===== src/Nf/Stream.antt =====
-- all-sync/socketio.hpp, TCPSend, and TCPRecv of all-sync/test_bf.cc: whole buffers over a blocking
-- TCP socket. A run is given what each call of send() or recv() answers, in order; where the answers
-- end, the loop is still running.
pub mod Sent
pub mod Bytes
pub mod Received
pub mod RoundTrip
use kknf.Base.{
  ℕ, zero, suc, ◌+◌, ◌*◌, ◌-◌, ◌^◌, ◌/◌, ◌%◌, List, [], ◌∷◌, ◌++◌, Option, none, some, Bool, true,
  false, not, ◌||◌, ltb, leb, ◌==◌, if◌then◌else◌, length, take, drop, min, replicate,
}
use kknf.Base.Int.{ℤ, pos, negsuc, minus_one, minus_two, leb_ℤ, ltb_ℤ}

-- errno, by its numbers on Linux.
abbrev pub eintr : ℕ
eintr = 4

abbrev pub eagain : ℕ
eagain = 11

abbrev pub ewouldblock : ℕ
ewouldblock = 11

-- One call of send(): it took `n` bytes, or failed with an errno.
pub data SendAnswer : Type 0 where
  took : ℕ → SendAnswer
  send_failed : ℕ → SendAnswer

-- Where TCPSend stands when it returns, or when the answers end (`code` is none): the bytes that
-- the system has taken, and those at `cur`.
pub record Sending : Type 0 where
  pub code : Option ℤ
  pub taken : List ℕ
  pub left : List ℕ

-- The test of TCPSend after a failure: not a reason to try again.
abbrev pub send_fatal : ℕ → Bool
send_fatal errno = not (errno == ewouldblock) || not (errno == eagain)

-- The while loop, over the bytes at `cur`; `taken` have gone.
send_loop : List SendAnswer → List ℕ → List ℕ → Sending
send_loop answers taken [] = record { code = some (pos 0); taken = taken; left = [] }
send_loop [] taken (b ∷ bs) = record { code = none; taken = taken; left = b ∷ bs }
send_loop (took n ∷ answers) taken (b ∷ bs) =
    send_loop answers (taken ++ take n (b ∷ bs)) (drop n (b ∷ bs))
send_loop (send_failed errno ∷ answers) taken (b ∷ bs) =
    let again = send_loop answers taken (b ∷ bs) in
    if send_fatal errno
    then record { code = some minus_two; taken = taken; left = b ∷ bs }
    else again

-- SocketIO::TCPSend; `none` is a null buffer.
unfoldable pub tcp_send : Option (List ℕ) → List SendAnswer → Sending
unfolding send_loop
tcp_send none answers = record { code = some minus_one; taken = []; left = [] }
tcp_send (some bs) answers = send_loop answers [] bs

-- One call of recv(): it gives at most `n` of the bytes on the wire (none: the peer has closed), or
-- fails with an errno.
pub data RecvAnswer : Type 0 where
  gave : ℕ → RecvAnswer
  recv_failed : ℕ → RecvAnswer

-- A while loop of TCPRecv: it has its bytes, it has broken off, or it still runs. What it has got
-- is kept in order, with what is left on the wire and of the answers.
pub data Filling : Type 0 where
  filled : List ℕ → List ℕ → List RecvAnswer → Filling
  broken : List ℕ → List ℕ → Filling
  pending : List ℕ → List ℕ → Filling

-- The test of TCPRecv after a failure: not a reason to try again.
abbrev pub recv_fatal : ℕ → Bool
recv_fatal errno = not (errno == eintr) || not (errno == eagain) || not (errno == ewouldblock)

-- The loop until `need` more bytes have come.
pub fill : List RecvAnswer → ℕ → List ℕ → List ℕ → Filling
fill answers zero got wire = filled got wire answers
fill [] (suc need) got wire = pending got wire
fill (gave n ∷ answers) (suc need) got wire =
    let bs = take (min n (suc need)) wire in
    let more = fill answers (suc need - length bs) (got ++ bs) (drop (length bs) wire) in
    if length bs == 0 then broken got wire else more
fill (recv_failed errno ∷ answers) (suc need) got wire =
    let again = fill answers (suc need) got wire in
    if recv_fatal errno then broken got wire else again

-- The four bytes at `&len_field`, through ntohl().
abbrev pub ntohl : List ℕ → ℕ
ntohl (a ∷ b ∷ c ∷ d ∷ _) = ((a * 256 + b) * 256 + c) * 256 + d
ntohl _ = 0

-- uint32_t to int.
abbrev pub to_int : ℕ → ℤ
to_int u = if ltb u (2 ^ 31) then pos u else negsuc (2 ^ 32 - 1 - u)

-- TCPRecv when it returns (`code` is none: it still runs), with `buf_to_fill`.
pub record Receiving : Type 0 where
  pub code : Option ℤ
  pub buf : List ℕ
  pub wire : List ℕ

-- The bytes of a buffer of which `got` has come and `len` was asked for.
abbrev pub padded : List ℕ → ℕ → List ℕ
padded got len = got ++ replicate (len - length got) 0

-- After the loop over the data field of `len` bytes.
data_field : ℕ → Filling → Receiving
data_field len (filled got wire answers) = record { code = some (pos 0); buf = got; wire = wire }
data_field len (broken got wire) = record {
  code = some minus_two;
  buf = padded got len;
  wire = wire;
}
data_field len (pending got wire) = record { code = none; buf = padded got len; wire = wire }

-- After the loop over the length field.
len_field : ℕ → List ℕ → Filling → Receiving
unfolding data_field fill
len_field max buf (broken got wire) = record { code = some minus_one; buf = buf; wire = wire }
len_field max buf (pending got wire) = record { code = none; buf = buf; wire = wire }
len_field max buf (filled got wire answers) =
    let len = to_int (ntohl got) in
    if leb_ℤ len (pos 0) || ltb_ℤ (pos max) len
    then record { code = some minus_two; buf = buf; wire = wire }
    else data_field (ntohl got) (fill answers (ntohl got) [] wire)

-- TCPRecv, with `max_tcp_pkt_size()` and the buffer as the caller left it.
unfoldable pub tcp_recv : ℕ → List ℕ → List RecvAnswer → List ℕ → Receiving
unfolding len_field
tcp_recv max buf answers wire = len_field max buf (fill answers 4 [] wire)

-- htonl(), as the four bytes that memcpy() puts in front of a packet.
abbrev pub htonl : ℕ → List ℕ
htonl n = n / 2 ^ 24 % 256 ∷ n / 2 ^ 16 % 256 ∷ n / 2 ^ 8 % 256 ∷ n % 256 ∷ []

-- What Process() of all-sync/test_bf.cc hands to TCPSend: the length of the packet, and the packet.
unfoldable pub frame : List ℕ → List ℕ
frame packet = htonl (length packet) ++ packet
