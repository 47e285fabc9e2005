-- ===== src/Libevent/Write.antt =====
-- aanf/libevent-based/src/tcp_socket.cc: WriteHandler, which gives the blocks of the send list to
-- writev().
pub mod Blocks
use kknf.Base.{
  ℕ, ◌+◌, ◌-◌, List, [], ◌∷◌, ◌++◌, Option, none, some, Bool, ◌||◌, leb, ◌==◌, if◌then◌else◌,
  length, take, map, min,
}
use kknf.Base.Int.{ℤ, pos, minus_two}
use kknf.Nf.Stream.{eagain, ewouldblock}

-- `send_mb_list_`, each block by its bytes in use, and `font_mb_cur_pos_`.
pub record SendList : Type 0 where
  pub blocks : List (List ℕ)
  pub front_pos : ℕ

-- One call of writev(): how many bytes it takes at most (0 for a failure too), errno after it, and
-- what stands in the entry of `vec` behind the last that was set.
pub record WritevAnswer : Type 0 where
  pub takes : ℕ
  pub errno_after : ℕ
  pub unset_len : ℕ

-- What WriteHandler comes to, with the bytes that writev() has taken. `none` of it is a front() of an
-- empty list.
pub record BlocksWritten : Type 0 where
  pub write_code : ℤ
  pub after : SendList
  pub sent_bytes : List ℕ

abbrev pub join : List (List ℕ) → List ℕ
join [] = []
join (b ∷ bs) = b ++ join bs

-- The blocks that `vec` has room for.
abbrev pub max_iovec_num : ℕ
max_iovec_num = 1000

-- The for loop over the entries of `vec`, from the number of bytes left.
unfoldable pub vec_loop : List ℕ → ℕ → SendList → Option SendList
vec_loop [] tmp_num q = some q
vec_loop (len ∷ vec) tmp_num q = elim (q.blocks) [
  | [] ↦ if leb len tmp_num then none else some (record q { front_pos = tmp_num })
  | b ∷ bs ↦
      let rest = vec_loop vec (tmp_num - len) (record q { blocks = bs }) in
      if leb len tmp_num then rest else some (record q { front_pos = tmp_num })
]

-- After the loop.
unfoldable pub write_done : List ℕ → Option SendList → Option BlocksWritten
write_done sent none = none
write_done sent (some q) = some (record {
  write_code = elim (q.blocks) [ [] ↦ pos 1 | b ∷ bs ↦ pos 0 ];
  after = q;
  sent_bytes = sent;
})

-- TcpSocket::WriteHandler.
unfoldable pub write_handler : WritevAnswer → SendList → Option BlocksWritten
unfolding vec_loop write_done
write_handler a q =
    let offered = take (max_iovec_num - 1) q.blocks in
    let write_num = min a.takes (length (join offered)) in
    if write_num == 0
    then some (record {
      write_code =
          if a.errno_after == eagain || a.errno_after == ewouldblock || a.errno_after == 0
          then pos 0
          else minus_two;
      after = q;
      sent_bytes = [];
    })
    else write_done (take write_num (join offered))
        (vec_loop (map length offered ++ a.unset_len ∷ []) write_num q)
