-- ===== src/Libevent/Line.antt =====
-- aanf/libevent-based/src/line_tcp_socket.cc: ReadHandler of a socket whose packets end with a line
-- feed. What has come waits in `non_packetized_buf_`, a block of a fixed size.
pub mod Search
pub mod Lines
use kknf.Base.{
  ℕ, zero, suc, ◌+◌, ◌-◌, List, [], ◌∷◌, ◌++◌, Option, none, some, Bool, ◌||◌, ltb, ◌==◌,
  if◌then◌else◌, not, false, leb, length, take, drop, get_elem?,
}
use kknf.Base.Int.{ℤ, pos, minus_two}
use kknf.Nf.Stream.{eagain, ewouldblock}

-- All bytes of `non_packetized_buf_`, `used_`, and the lines for the caller, in `recv_mb_`.
pub record LineSocket : Type 0 where
  pub block : List ℕ
  pub used_num : ℕ
  pub lines : Option (List ℕ)

-- What ReadHandler comes to: its code and the socket, or a failed assertion, or a byte beyond the
-- block.
pub data LineRead : Type 0 where
  line_code : ℤ → LineSocket → LineRead
  line_crash : LineRead

-- The test of the byte at `pos2`, with what the search below it finds.
unfoldable pub test_byte : Option ℕ → ℕ → Option (Option ℕ) → Option (Option ℕ)
test_byte none pos2 lower = none
test_byte (some c) pos2 lower = if c == 10 then some (some pos2) else lower

-- `while (pos2 > pos1)`, down from the byte at `pos1 + n`: where a line feed stands, if one does.
-- `none` is a byte beyond the block.
unfoldable pub find_line_feed : List ℕ → ℕ → ℕ → Option (Option ℕ)
unfolding test_byte
find_line_feed block pos1 zero = some none
find_line_feed block pos1 (suc n) =
    test_byte (get_elem? block (pos1 + suc n)) (pos1 + suc n) (find_line_feed block pos1 n)

-- Whether the block that GetMemBlock has takes so many bytes; without one the copy goes through a null
-- pointer.
unfoldable pub fits_block : Option ℕ → ℕ → Bool
fits_block none n = false
fits_block (some len) n = leb n len

-- The bytes up to `pos2` go into a block of their own, and those after it to the start.
unfoldable pub split_at : Option ℕ → ℕ → ℕ → LineSocket → LineRead
unfolding fits_block
split_at pool pos2 endpos sk = elim (sk.lines) [
  | some l ↦ line_crash
  | none ↦
      if not (fits_block pool (pos2 + 1)) || ltb (length sk.block) (endpos + 1)
      then line_crash
      else line_code (pos 1) (record {
        block = take (endpos - pos2) (drop (pos2 + 1) sk.block) ++ drop (endpos - pos2) sk.block;
        used_num = endpos - pos2;
        lines = some (take (pos2 + 1) sk.block);
      })
]

unfoldable pub after_search : Option ℕ → ℕ → LineSocket → Option (Option ℕ) → LineRead
unfolding split_at
after_search pool endpos sk none = line_crash
after_search pool endpos sk (some none) = line_code (pos 0) sk
after_search pool endpos sk (some (some pos2)) = split_at pool pos2 endpos sk

-- The bytes that read() puts behind those in use.
unfoldable pub put_bytes : List ℕ → LineSocket → LineSocket
put_bytes bs sk = record sk {
  block = take sk.used_num sk.block ++ (bs ++ drop (sk.used_num + length bs) sk.block);
  used_num = sk.used_num + length bs;
}

-- LineTcpSocket::ReadHandler; `pool` is the length of the block that GetMemBlock gives for the lines, if
-- it gives one; read() gives `bs`, no more than there is room for, and errno is what it
-- then stands at.
unfoldable pub read_lines : Option ℕ → List ℕ → ℕ → LineSocket → LineRead
unfolding put_bytes find_line_feed after_search
read_lines pool [] errno sk =
    line_code (if errno == eagain || errno == ewouldblock || errno == 0 then pos 0 else minus_two)
      sk
read_lines pool (b ∷ bs) errno sk =
    let after = put_bytes (b ∷ bs) sk in
    after_search pool after.used_num after
      (find_line_feed after.block sk.used_num (length (b ∷ bs)))
