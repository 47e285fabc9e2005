-- ===== src/Libevent/Bin.antt =====
-- aanf/libevent-based/src/bin_tcp_socket.cc: ReadHandler of a socket whose packets start with their
-- length in four bytes. It is called when the socket is readable, and reads twice at most.
pub mod Calls
pub mod Packet
pub mod Again
use kknf.Base.{
  ℕ, ◌+◌, ◌-◌, ◌^◌, ◌%◌, List, [], ◌∷◌, ◌++◌, Option, none, some, Bool, ◌||◌, ltb, leb, ◌==◌,
  if◌then◌else◌, length, take, drop, min,
}
use kknf.Base.Int.{ℤ, pos, minus_two}
use kknf.Nf.Stream.{ntohl, to_int, eagain, ewouldblock}
use kknf.Libevent.Memory.{MemBlock, get_mem_block}

-- BinTcpSocket: the bytes of `len_field_` that have come, `len_field_read_` of them, and `recv_mb_`.
pub record BinSocket : Type 0 where
  pub len_bytes : List ℕ
  pub recv_mb : Option MemBlock

-- One call of read(): it gives `most` bytes at most; errno is what it stands at afterwards.
pub record ReadAnswer : Type 0 where
  pub most : ℕ
  pub errno : ℕ

-- What ReadHandler comes to: its code, the socket and what is left on the wire; or a failed
-- assertion, a null pointer or a write past the block.
pub data BinRead : Type 0 where
  returned : ℤ → BinSocket → List ℕ → BinRead
  crashed : BinRead

-- A read() of `need` bytes.
abbrev pub read_bytes : ReadAnswer → ℕ → List ℕ → List ℕ
read_bytes a need wire = take (min a.most need) wire

-- The code where nothing was read.
abbrev pub read_nothing : ℕ → ℤ
read_nothing errno =
    if errno == eagain || errno == ewouldblock || errno == 0 then pos 0 else minus_two

-- What is left to read of a packet: a uint32_t.
abbrev pub still_needed : ℕ → MemBlock → ℕ
still_needed len mb = (len + 2 ^ 32 - length mb.used) % 2 ^ 32

-- After a read() into the block.
pub add_read : ℕ → BinSocket → MemBlock → List ℕ → List ℕ → BinRead
add_read len sk mb bs wire =
    let filled = record mb { used = mb.used ++ bs } in
    let after = record sk { recv_mb = some filled } in
    if ltb mb.len (length filled.used)
    then crashed
    else returned (if length filled.used == len then pos 1 else pos 0) after wire

-- The data field, into `recv_mb_`.
pub read_block : ReadAnswer → BinSocket → MemBlock → List ℕ → BinRead
unfolding add_read
read_block a sk mb wire =
    let len = ntohl mb.used in
    let bs = read_bytes a (still_needed len mb) wire in
    if ltb mb.len len
    then crashed
    else if length bs == 0
    then returned (read_nothing a.errno) sk wire
    else add_read len sk mb bs (drop (length bs) wire)

pub read_packet_data : ReadAnswer → BinSocket → List ℕ → BinRead
unfolding read_block
read_packet_data a sk wire = elim (sk.recv_mb) [
  | none ↦ crashed
  | some mb ↦ read_block a sk mb wire
]

-- The block of GetMemBlock, with the length field in front; through a null pointer otherwise.
pub copy_field : ReadAnswer → BinSocket → List ℕ → Option MemBlock → BinRead
unfolding read_packet_data
copy_field a sk wire none = crashed
copy_field a sk wire (some mb) =
    read_packet_data a (record sk { recv_mb = some (record mb { used = sk.len_bytes }) }) wire

-- Four bytes have come: the assertion that there is no block yet, and the rest of the handler.
pub begin_block : ℕ → Option ℕ → ReadAnswer → BinSocket → List ℕ → BinRead
unfolding copy_field get_mem_block
begin_block max pool a sk wire = elim (sk.recv_mb) [
  | some mb ↦ crashed
  | none ↦ copy_field a sk wire (get_mem_block max pool (to_int (ntohl sk.len_bytes)))
]

-- After bytes of the length field have come.
pub len_read : ℕ → Option ℕ → ReadAnswer → BinSocket → List ℕ → BinRead
unfolding begin_block
len_read max pool a sk wire =
    if ltb (length sk.len_bytes) 4 then returned (pos 0) sk wire else begin_block max pool a sk wire

-- BinTcpSocket::ReadHandler, with the largest block size of the MemPool and the length of the block that
-- it has, if it has one.
unfoldable pub read_handler : ℕ → Option ℕ → ReadAnswer → ReadAnswer → BinSocket → List ℕ → BinRead
unfolding len_read read_packet_data
read_handler max pool a b sk wire =
    let bs = read_bytes a (4 - length sk.len_bytes) wire in
    if ltb (length sk.len_bytes) 4
    then if length bs == 0
      then returned (read_nothing a.errno) sk wire
      else len_read max pool b (record sk { len_bytes = sk.len_bytes ++ bs })
          (drop (length bs) wire)
    else read_packet_data b sk wire
