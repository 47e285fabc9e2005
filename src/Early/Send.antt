-- ===== src/Early/Send.antt =====
-- cppnf/async_tcp_socket.hpp and zxbnf/message.hpp: buffers on their way to a peer. A Buffer is sent
-- from `head` to `tail`.
pub mod Stream
pub mod History
use kknf.Base.{
  ℕ, zero, suc, ◌+◌, ◌-◌, List, [], ◌∷◌, ◌++◌, Option, none, some, Bool, true, false, ◌||◌, ltb,
  leb, ◌==◌, if◌then◌else◌, length, take, drop, map, min,
}
use kknf.Base.Int.{ℤ, pos, minus_one, minus_two}

-- A Buffer: its bytes from `start` on, `head` and `tail`.
pub record Buffer : Type 0 where
  pub bytes : List ℕ
  pub head : ℕ
  pub tail : ℕ

-- What is still to be sent of it: an entry of the iovec.
abbrev pub unsent : Buffer → List ℕ
unsent b = take (b.tail - b.head) (drop b.head b.bytes)

pub data SocketState : Type 0 where
  s_ok s_to_close s_to_close_after_send_all_data : SocketState

-- AsyncTCPDataSocket, as far as it sends: the messages in `send_msg_list_` with their ids, `cur_id_`,
-- the state, and the buffers that have gone back to the MemPool.
pub record SendSocket : Type 0 where
  pub send_msgs : List (ℕ × Buffer)
  pub cur_id : ℕ
  pub socket_state : SocketState
  pub back : List Buffer

abbrev pub max_send_buffer_num : ℕ
max_send_buffer_num = 1000

-- AsyncTCPDataSocket::SendMessage: the id, or 0.
unfoldable pub send_message : Buffer → SendSocket → ℕ × SendSocket
send_message buf sk = if length sk.send_msgs == max_send_buffer_num then (0, sk) else (
  sk.cur_id,
  record sk { send_msgs = sk.send_msgs ++ (sk.cur_id, buf) ∷ []; cur_id = sk.cur_id + 1 },
)

-- The bytes that OnWritable offers.
unfoldable pub offered_bytes : List (ℕ × Buffer) → List ℕ
offered_bytes [] = []
offered_bytes ((id, b) ∷ msgs) = unsent b ++ offered_bytes msgs

-- The for loop over the messages while bytes are left. `none` is a step past the end of the list.
unfoldable pub drop_sent :
    ℕ → List (ℕ × Buffer) → List Buffer → Option (List (ℕ × Buffer) × List Buffer)
drop_sent zero msgs back = some (msgs, back)
drop_sent (suc left) [] back = none
drop_sent (suc left) ((id, b) ∷ msgs) back =
    let len = b.tail - b.head in
    let rest = drop_sent (suc left - len) msgs (back ++ b ∷ []) in
    if leb len (suc left)
    then rest
    else some ((id, record b { head = b.head + suc left }) ∷ msgs, back)

-- What a call of OnWritable comes to: its code, the socket, and the bytes that the peer gets; or a
-- step past the end of the list.
pub data Writable : Type 0 where
  writable : ℤ → SendSocket → List ℕ → Writable
  past_end : Writable

abbrev pub state_code : SocketState → ℤ
state_code s_ok = pos 0
state_code s_to_close = pos 2
state_code s_to_close_after_send_all_data = pos 2

unfoldable pub after_sent :
    SendSocket → List ℕ → Option (List (ℕ × Buffer) × List Buffer) → Writable
after_sent sk sent none = past_end
after_sent sk sent (some (msgs, back)) =
    writable (state_code sk.socket_state) (record sk { send_msgs = msgs; back = back }) sent

-- OnWritable over the messages in the list; writev() fails (none), or takes `n` bytes at most.
unfoldable pub write_msgs : Option ℕ → SendSocket → List (ℕ × Buffer) → Writable
unfolding offered_bytes drop_sent after_sent
write_msgs answer sk [] = writable minus_one sk []
write_msgs none sk (m ∷ msgs) = writable minus_one sk []
write_msgs (some n) sk (m ∷ msgs) =
    let offered = offered_bytes (m ∷ msgs) in
    let ret = min n (length offered) in
    if ret == 0
    then writable minus_two sk []
    else after_sent sk (take ret offered) (drop_sent ret (m ∷ msgs) sk.back)

-- AsyncTCPDataSocket::OnWritable.
unfoldable pub on_writable : Option ℕ → SendSocket → Writable
unfolding write_msgs
on_writable answer sk = write_msgs answer sk sk.send_msgs

-- TCPMessageToSend: the buffers that are sent, and those from `cur_` on.
pub record MessageToSend : Type 0 where
  pub passed : List Buffer
  pub cur : List Buffer

-- TCPMessageToSend::AllSent.
pub all_sent : MessageToSend → Bool
all_sent m = elim (m.cur) [ [] ↦ true | b ∷ bs ↦ false ]

-- The loop of SeekForward: the message, and how many bytes are left over.
unfoldable pub seek_loop : ℕ → List Buffer → List Buffer → MessageToSend × ℕ
seek_loop zero passed cur = (record { passed = passed; cur = cur }, 0)
seek_loop (suc left) passed [] = (record { passed = passed; cur = [] }, suc left)
seek_loop (suc left) passed (b ∷ bs) =
    let len = b.tail - b.head in
    let rest = seek_loop (suc left - len) (passed ++ record b { head = b.tail } ∷ []) bs in
    if leb len (suc left)
    then rest
    else (record { passed = passed; cur = record b { head = b.head + suc left } ∷ bs }, 0)

-- TCPMessageToSend::SeekForward; `none` is its failed assertion.
unfoldable pub seek_forward : ℕ → MessageToSend → Option (ℕ × MessageToSend)
unfolding seek_loop
seek_forward num m = elim (m.cur) [
  | [] ↦ none
  | b ∷ bs ↦ let (after, left) = seek_loop num m.passed m.cur in some (num - left, after)
]
