-- ===== src/Aanf/Sync.antt =====
-- aanf/asio-based2/include/skeleton.hpp, ToWriteThenReadSync: a request over a connection to another
-- server, and its reply, where a packet starts with its whole length in four bytes. What the system
-- answers is an argument.
pub mod Reply
pub mod Busy
use kknf.Base.{
  ℕ, ◌-◌, ◌^◌, List, [], ◌∷◌, ◌++◌, take, drop, replicate, Option, none, some, Bool, true, false,
  ◌&&◌, ◌||◌, ◌==◌, ltb, leb, if◌then◌else◌, length,
}
use kknf.Base.Int.{ℤ, pos, minus_one, minus_two, minus_three, ltb_ℤ, pos_part}
use kknf.Base.Map.{Order}
use kknf.Nf.Stream.{ntohl, to_int}
use kknf.Aanf.Tables.{
  SocketType, tcp_line, tcp_lv, tcp_tlv, tcp_http, tcp_usr1, tcp_unknown, SocketInfo, Skeleton,
  new_info, write, find_idle_tcp_client_socket, insert_tcp_client_socket, destroy_socket,
}

-- connect(), write(), the four bytes of the length (none: the read fails), how many bytes follow
-- before the read ends, a new pointer, and the time.
pub record Answers : Type 0 where
  pub connected : Bool
  pub written : Bool
  pub len_field : Option (ℕ × ℕ × ℕ × ℕ)
  pub arrived : ℕ
  pub fresh : ℕ
  pub now : ℕ

-- How the call ends: with a code and `buf_to_fill`, by a failed assertion, or with so many bytes
-- written past the end of a vector.
pub data Replied (E : Type 0) : Type 0 where
  returned : ℤ → Skeleton E → List ℕ → Replied E
  aborted : Replied E
  overran : ℕ → Replied E

abbrev pub same_type : SocketType → SocketType → Bool
same_type tcp_line tcp_line = true
same_type tcp_lv tcp_lv = true
same_type tcp_tlv tcp_tlv = true
same_type tcp_http tcp_http = true
same_type tcp_usr1 tcp_usr1 = true
same_type tcp_unknown tcp_unknown = true
same_type _ _ = false

-- `buf_to_fill` after resize(len) and the copy of the four bytes to its front.
abbrev pub filled_in : List ℕ → ℕ → List ℕ → List ℕ
filled_in bytes len buf = bytes ++ drop 4 (take len (buf ++ replicate len 0))

module _ {E : Type 0} ⦃o : Order E⦄ where
  -- A new connection, on the pointer `fresh`, in the table.
  unfoldable pub connect_to : E → SocketType → Answers → Skeleton E → Skeleton E
  unfolding new_info write insert_tcp_client_socket
  connect_to remote type_ a s = insert_tcp_client_socket remote a.fresh (
      write a.fresh (record (new_info type_ remote a.now) { is_connected = true; in_use = true }) s)

  -- The read of `len - 4` bytes to `&len_field[4]`, the end of a vector of four.
  unfoldable pub read_data : ℕ → ℕ → List ℕ → Answers → Skeleton E → Replied E
  unfolding destroy_socket
  read_data p rest buf a s =
      if rest == 0
      then returned (pos 0) s buf
      else if a.arrived == 0
      then returned minus_three (destroy_socket p s).0 buf
      else overran (if leb rest a.arrived then rest else a.arrived)

  -- The check of the length, and the copy of its four bytes into `len` bytes.
  unfoldable pub read_len : ℕ → List ℕ → List ℕ → Answers → Skeleton E → Replied E
  unfolding read_data destroy_socket
  read_len p bytes buf_to_fill a s =
      let len = to_int (ntohl bytes) in
      if ltb_ℤ len (pos 0) || ltb s.max_recv_buf_size (pos_part len)
      then returned minus_two (destroy_socket p s).0 buf_to_fill
      else if ltb (ntohl bytes) 4
      then overran (4 - ntohl bytes)
      else read_data p (ntohl bytes - 4) (filled_in bytes (ntohl bytes) buf_to_fill) a s

  -- From the write on; the request is what the socket's send buffer then holds.
  unfoldable pub exchange : ℕ → List ℕ → List ℕ → Answers → Skeleton E → Replied E
  unfolding read_len destroy_socket write
  exchange p buf_to_send buf_to_fill a s =
      let sent = write p (record (s.info p) { send_buf = buf_to_send }) s in
      if a.written
      then elim a.len_field [
        | none ↦ returned minus_one (destroy_socket p sent).0 buf_to_fill
        | some (b0, b1, b2, b3) ↦ read_len p (b0 ∷ b1 ∷ b2 ∷ b3 ∷ []) buf_to_fill a sent
      ]
      else returned minus_one (destroy_socket p sent).0 buf_to_fill

  -- Skeleton::ToWriteThenReadSync.
  unfoldable pub to_write_then_read_sync :
      E → List ℕ → SocketType → List ℕ → Answers → Skeleton E → Replied E
  unfolding exchange connect_to find_idle_tcp_client_socket
  to_write_then_read_sync remote buf_to_send type_ buf_to_fill a s =
      elim (find_idle_tcp_client_socket remote s) [
        | some p ↦
            if same_type type_ (s.info p).type_
            then if same_type type_ tcp_lv
              then exchange p buf_to_send buf_to_fill a s
              else returned minus_one s buf_to_fill
            else aborted
        | none ↦
            if same_type type_ tcp_lv
            then if a.connected
              then exchange a.fresh buf_to_send buf_to_fill a (connect_to remote type_ a s)
              else returned minus_one s buf_to_fill
            else returned minus_one s buf_to_fill
      ]
