-- ===== src/Aanf/Read.antt =====
-- aanf/asio-based2/include/skeleton.hpp: the handlers that read a packet of type T_TCP_LV, whose first
-- four bytes are its whole length. What the read brings and the answer of ProcessData() or of the
-- callback are arguments.
pub mod Bounds
pub mod Packet
use kknf.Base.{
  ℕ, ◌+◌, ◌-◌, ◌^◌, List, [], ◌∷◌, ◌++◌, Bool, true, false, not, ◌&&◌, ◌==◌, if◌then◌else◌, length,
  take, drop,
}
use kknf.Base.Int.{ℤ, pos, negsuc, leb_ℤ, ltb_ℤ, pos_part, ◌-ℤ◌}
use kknf.Base.Map.{Order}
use kknf.Nf.Stream.{ntohl, htonl, to_int}
use kknf.Aanf.Tables.{SocketInfo, Skeleton, write, touch, set_recv_buf, destroy_socket}

-- The async_read() that a handler starts: into `recv_buf` from an offset, so many bytes.
pub data Started : Type 0 where
  nothing : Started
  reads : (offset : ℕ) (count : ℕ) → Started

-- An int as the size_t of a buffer.
abbrev pub to_size : ℤ → ℕ
to_size (pos n) = n
to_size (negsuc n) = 2 ^ 64 - 1 - n

-- `==` of two ints.
abbrev pub same_int : ℤ → ℤ → Bool
same_int a b = leb_ℤ a b && leb_ℤ b a

-- How HandleReadVThenProcess ends: with the packet that was processed, at an error, or by a failed
-- assertion.
pub data Handled (E : Type 0) : Type 0 where
  processed : List ℕ → Skeleton E → Started → Handled E
  dropped : Skeleton E → Handled E
  aborted : Handled E

module _ {E : Type 0} where
  -- The first four bytes of the buffer are written.
  unfoldable pub put_len : ℕ → ℕ → Skeleton E → Skeleton E
  unfolding write
  put_len len p s =
      write p (record (s.info p) { recv_buf = htonl len ++ drop 4 (s.info p).recv_buf }) s

  -- The buffer grows to the length of the packet.
  unfoldable pub make_room : ℤ → ℕ → Skeleton E → Skeleton E
  unfolding put_len set_recv_buf
  make_room len p s =
      if ltb_ℤ (pos (length (s.info p).recv_buf)) len
      then put_len (pos_part len) p (set_recv_buf (pos_part len) p s)
      else s

  -- Skeleton::ToReadLThenReadV.
  unfoldable pub to_read_l_then_read_v : ℕ → Skeleton E → Skeleton E × Started
  unfolding set_recv_buf
  to_read_l_then_read_v p s = (set_recv_buf 4 p s, reads 0 4)

  -- Skeleton::HandleWriteThenReadL.
  unfoldable pub handle_write_then_read_l : Bool → ℕ → ℕ → Skeleton E → Skeleton E × Started
  unfolding set_recv_buf touch
  handle_write_then_read_l true now p s = (s, nothing)
  handle_write_then_read_l false now p s = (set_recv_buf 4 p (touch now p s), reads 0 4)

  module _ ⦃o : Order E⦄ where
    -- Skeleton::HandleReadLThenReadV.
    unfoldable pub handle_read_l_then_read_v : Bool → ℕ → ℕ → Skeleton E → Skeleton E × Started
    unfolding make_room touch destroy_socket
    handle_read_l_then_read_v true now p s = ((destroy_socket p s).0, nothing)
    handle_read_l_then_read_v false now p s =
        let len = to_int (ntohl (s.info p).recv_buf) in
        if ltb_ℤ (pos s.max_recv_buf_size) len
        then ((destroy_socket p (touch now p s)).0, nothing)
        else (make_room len p (touch now p s), reads 4 (to_size (len -ℤ pos 4)))

    -- What the answer of ProcessData() brings about.
    unfoldable pub after_process : List ℕ → ℤ → ℕ → Skeleton E → Handled E
    unfolding write to_read_l_then_read_v destroy_socket
    after_process packet ret p s =
        let i = s.info p in
        if ltb_ℤ ret (pos 0)
        then processed packet (destroy_socket p s).0 nothing
        else if pos_part ret == 0
        then if i.is_client then aborted else processed packet s nothing
        else if pos_part ret == 1
        then if i.is_client && i.in_use
          then processed packet (write p (record i { in_use = false }) s) nothing
          else aborted
        else if pos_part ret == 2
        then if i.in_use && not i.is_client then processed packet s nothing else aborted
        else if pos_part ret == 3
        then if i.is_client
          then aborted
          else processed packet (to_read_l_then_read_v p s).0 (to_read_l_then_read_v p s).1
        else aborted

    -- Skeleton::HandleReadVThenProcess, after `byte_num` bytes have come; it fits an int.
    unfoldable pub handle_read_v_then_process :
        Bool → ℕ → (List ℕ → ℤ) → ℕ → ℕ → Skeleton E → Handled E
    unfolding after_process touch destroy_socket
    handle_read_v_then_process true byte_num process now p s = dropped (destroy_socket p s).0
    handle_read_v_then_process false byte_num process now p s =
        let packet = (s.info p).recv_buf in
        if same_int (pos byte_num) (to_int (ntohl packet) -ℤ pos 4)
        then after_process packet (process packet) p (touch now p s)
        else aborted
