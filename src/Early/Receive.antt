-- ===== src/Early/Receive.antt =====
-- cppnf/async_tcp_socket.hpp and async_lv_socket.hpp: how a message comes in. The bytes of the blocks
-- that the MemPool hands out are given. ExtractMessageSize, which OnReadable calls, is read as
-- LVSocket::MessageSize, which is there under another name.
use kknf.Base.{
  ℕ, ◌+◌, ◌-◌, ◌<◌, ◌≡◌, refl, List, [], ◌++◌, Option, none, some, false, ◌&&◌, leb, ◌==◌,
  if◌then◌else◌, length, take, drop, length-take, arith,
}
use kknf.Base.Int.{ℤ, pos, minus_one, minus_two, minus_three, ltb_ℤ, leb_ℤ}
use kknf.Nf.Stream.{ntohl, to_int}
use kknf.Early.Send.{Buffer, unsent, SocketState, state_code}

-- AsyncTCPDataSocket, as far as it receives: the buffer of `msg_in_recv_`, if there is one, and
-- `msg_in_recv_size_`.
pub record Inbound : Type 0 where
  pub msg : Option Buffer
  pub msg_size : ℤ
  pub incoming_state : SocketState

-- What a call of OnReadable comes to; or a failed assertion.
pub data Readable : Type 0 where
  readable : ℤ → Inbound → Readable
  readable_abort : Readable

-- LVSocket::MessageSize.
unfoldable pub message_size : Buffer → ℤ → ℤ
message_size b size = if leb 4 (b.tail - b.head) then to_int (ntohl (drop b.head b.bytes)) else size

-- The bytes of `bs` put into a block from `at` on.
abbrev pub put_at : ℕ → List ℕ → List ℕ → List ℕ
put_at at bs block = take at block ++ (bs ++ drop (at + length bs) block)

-- The message moves to a large block.
unfoldable pub move_message : List ℕ → Buffer → Buffer
move_message large b = record {
  bytes = put_at 0 (unsent b) large;
  head = 0;
  tail = b.tail - b.head;
}

-- Where the message is longer than its block; `none` is a length over that of a large block.
unfoldable pub enough_room : List ℕ → ℤ → Buffer → Option Buffer
unfolding move_message
enough_room large size b =
    if ltb_ℤ (pos 0) size && ltb_ℤ (pos (length b.bytes)) size
    then if ltb_ℤ (pos (length large)) size then none else some (move_message large b)
    else some b

-- The read() into the buffer, and the test for a whole message. What read() gives is `none` for a
-- failure, whatever errno says, and no bytes where the peer has closed.
unfoldable pub read_message : Option (List ℕ) → ℤ → SocketState → Buffer → Readable
read_message none size state b =
    readable minus_two (record { msg = some b; msg_size = size; incoming_state = state })
read_message (some came) size state b =
    let bs = take (length b.bytes - b.tail) came in
    let b' : Buffer = record b { bytes = put_at b.tail bs b.bytes } in
    let after : Inbound = record { msg = some b'; msg_size = size; incoming_state = state } in
    if length bs == 0
    then readable minus_three (record { msg = some b; msg_size = size; incoming_state = state })
    else readable
        (if leb_ℤ size (pos (b.tail - b.head)) && leb_ℤ (pos (b.tail - b.head)) size
          then state_code state
          else pos 1)
        after

unfoldable pub read_into : Option (List ℕ) → ℤ → SocketState → Buffer → Option Buffer → Readable
unfolding read_message
read_into answer size state b none =
    readable minus_one (record { msg = some b; msg_size = size; incoming_state = state })
read_into answer size state b (some b') = read_message answer size state b'

unfoldable pub read_on : Option (List ℕ) → List ℕ → ℤ → SocketState → Buffer → Readable
unfolding read_into enough_room message_size
read_on answer large size state b =
    read_into answer (message_size b size) state b (enough_room large (message_size b size) b)

-- AsyncTCPDataSocket::OnReadable, with the next small and the next large block of the MemPool.
unfoldable pub on_readable : Option (List ℕ) → List ℕ → List ℕ → Inbound → Readable
unfolding read_on
on_readable answer small large sk = elim (sk.msg) [
  | some b ↦ read_on answer large sk.msg_size sk.incoming_state b
  | none ↦
      if leb_ℤ sk.msg_size (pos 0) && leb_ℤ (pos 0) sk.msg_size
      then read_on answer large sk.msg_size sk.incoming_state
          (record { bytes = small; head = 0; tail = 0 })
      else readable_abort
]

-- AsyncTCPDataSocket::GetMessage, where a message is coming in.
unfoldable pub get_whole_message : Buffer → Inbound → Option Buffer × Inbound
get_whole_message b sk =
    if leb_ℤ sk.msg_size (pos (b.tail - b.head)) && leb_ℤ (pos (b.tail - b.head)) sk.msg_size
    then (some b, record sk { msg = none; msg_size = pos 0 })
    else (none, sk)

-- Whatever bytes come on a socket with no message begun, OnReadable says that a message is whole, and
-- GetMessage hands out one without a byte in it, after which the socket is as before: OnReadable does
-- not move the end of the buffer, so the next bytes come over these.
pub on_readable-empty :
    (came small large : List ℕ) (state : SocketState)
    → 0 < length came
    → 0 < length small
    → let fresh : Inbound = record { msg = none; msg_size = pos 0; incoming_state = state } in
      (b : Buffer) × (sk : Inbound) × (on_readable (some came) small large fresh
        ≡ readable (state_code state) sk)
      × (sk.msg ≡ some b)
      × (get_whole_message b sk ≡ (some b, fresh))
      × (unsent b ≡ [])
unfolding on_readable get_whole_message
on_readable-empty came small large state c s =
    let bs : List ℕ = take (length small - 0) came in
    let b : Buffer = record { bytes = put_at 0 bs small; head = 0; tail = 0 } in
    let read : (length bs == 0) ≡ false =
      not_zero (length bs) (omega (arith, length-take (length small - 0) came)) in
    (
      b,
      record { msg = some b; msg_size = pos 0; incoming_state = state },
      rw read refl,
      refl,
      refl,
      refl,
    )
  where
    not_zero : (n : ℕ) → 0 < n → (n == 0) ≡ false
    not_zero n h = ground arith
