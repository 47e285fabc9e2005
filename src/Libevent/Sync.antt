-- ===== src/Libevent/Sync.antt =====
-- aanf/libevent-based/src/sync_sender_receiver.cc: a request and its reply over a blocking socket.
-- The answers of send() and recv() are arguments; recv() gives at most as much as it is asked for.
use kknf.Base.{
  ℕ, ◌≡◌, ◌≤◌, List, [], ◌++◌, Option, none, some, Bool, true, false, Bool-cases, Option-cases,
  refl, inl, inr, not, ◌==◌, if◌then◌else◌, length, take, drop, length-take, arith,
}
use kknf.Base.Int.{ℤ, pos, negsuc, minus_one, minus_two, minus_three}
use kknf.Nf.Stream.{ntohl, to_int}
use kknf.Libevent.Memory.{MemBlock, get_mem_block, get_mem_block-empty}

abbrev minus_four : ℤ
minus_four = negsuc 3

abbrev minus_five : ℤ
minus_five = negsuc 4

-- What comes of a recv() of `n` bytes; `none` is a failure.
abbrev from_recv : ℕ → Option (List ℕ) → List ℕ
from_recv n none = []
from_recv n (some bs) = take n bs

-- The data field: recv() is asked for `used_` bytes, which is the length of the length field, into
-- the start of the block.
unfoldable pub recv_data : ℕ → Option (List ℕ) → MemBlock → ℤ × Option MemBlock
recv_data real_len answer mb =
    let bs = from_recv (length mb.used) answer in
    if length bs == real_len
    then (pos 0, some (record mb { used = bs ++ drop (length bs) mb.used }))
    else (minus_five, none)

-- The length field has come.
unfoldable pub recv_block : ℕ → List ℕ → Option (List ℕ) → Option MemBlock → ℤ × Option MemBlock
unfolding recv_data
recv_block real_len len_field answer none = (minus_four, none)
recv_block real_len len_field answer (some mb) =
    recv_data real_len answer (record mb { used = take 4 len_field })

-- BinSyncSR::SyncSendRecv: the code and `to_recv`. `to_send` may be null, `timeout_is_negative` is the
-- test of the timeout, and `sent` is what send() answers.
unfoldable pub sync_send_recv :
    ℕ
    → Option ℕ
    → Option (List ℕ)
    → Bool
    → ℕ
    → Option (List ℕ)
    → Option (List ℕ)
    → ℤ × Option MemBlock
unfolding recv_block get_mem_block
sync_send_recv max pool none timeout_is_negative sent first second = (minus_one, none)
sync_send_recv max pool (some to_send) timeout_is_negative sent first second =
    let field = from_recv 4 first in
    if timeout_is_negative
    then (minus_one, none)
    else if not (sent == length to_send)
    then (minus_two, none)
    else if not (length field == 4)
    then (minus_three, none)
    else recv_block (ntohl field) field second (get_mem_block max pool (to_int (ntohl field)))

recv_data-short :
    (real_len : ℕ) (answer : Option (List ℕ)) (mb : MemBlock)
    → length mb.used ≤ 4
    → (recv_data real_len answer mb).0 ≡ pos 0
    → real_len ≤ 4
unfolding recv_data
recv_data-short real_len none mb h e = ground arith
recv_data-short real_len (some bs) mb h e = ground (arith, length-take (length mb.used) bs)

recv_block-short :
    (real_len : ℕ) (field : List ℕ) (answer : Option (List ℕ)) (mb : Option MemBlock)
    → (recv_block real_len field answer mb).0 ≡ pos 0
    → real_len ≤ 4
unfolding recv_block
recv_block-short real_len field answer none e = absurd (ground arith)
recv_block-short real_len field answer (some mb) e =
    recv_data-short real_len answer (record mb { used = take 4 field })
      (omega (arith, length-take 4 field)) e

-- BinSyncSR::SyncSendRecv succeeds with no reply that is longer than its length field: whatever
-- send() and recv() answer, its code is 0 only if the length that has come is 4 at most.
pub sync_send_recv-short :
    (max : ℕ) (pool : Option ℕ) (sent : ℕ) (to_send first second : Option (List ℕ))
    (timeout_is_negative : Bool)
    → (sync_send_recv max pool to_send timeout_is_negative sent first second).0 ≡ pos 0
    → ntohl (from_recv 4 first) ≤ 4
unfolding sync_send_recv
sync_send_recv-short max pool sent none first second timeout_is_negative e = absurd (ground arith)
sync_send_recv-short max pool sent (some to_send) first second true e = absurd (ground arith)
sync_send_recv-short max pool sent (some to_send) first second false e = ground (
  arith,
  recv_block-short (ntohl (from_recv 4 first)) (from_recv 4 first) second
      (get_mem_block max pool (to_int (ntohl (from_recv 4 first)))),
)

-- LineSyncSR::SyncSendRecv: recv() is asked for the `used_` bytes of a new block, into its start. The
-- loop for the line feed after it is not reached.
unfoldable pub sync_send_recv_line :
    ℕ → Option ℕ → Option (List ℕ) → Bool → ℕ → Option (List ℕ) → Option (ℤ × Option MemBlock)
unfolding get_mem_block
sync_send_recv_line max pool none timeout_is_negative sent answer = some (minus_one, none)
sync_send_recv_line max pool (some to_send) timeout_is_negative sent answer =
    if timeout_is_negative
    then some (minus_one, none)
    else if not (sent == length to_send)
    then some (minus_two, none)
    else elim (get_mem_block max pool (pos 1024)) [
      | none ↦ some (minus_three, none)
      | some mb ↦
          if length (from_recv (length mb.used) answer) == 0 then some (minus_four, none) else none
    ]

nothing_asked :
    (used : List ℕ) (answer : Option (List ℕ))
    → used ≡ []
    → (length (from_recv (length used) answer) == 0) ≡ true
nothing_asked used none e = refl
nothing_asked used (some bs) e = rw e refl

-- LineSyncSR::SyncSendRecv never has a reply: whatever send() and recv() answer, it ends before it
-- looks for a line feed, with a code below 0 and no block.
pub sync_send_recv_line-fails :
    (max : ℕ) (pool : Option ℕ) (sent : ℕ) (to_send answer : Option (List ℕ))
    (timeout_is_negative : Bool)
    → (k : ℕ) × (sync_send_recv_line max pool to_send timeout_is_negative sent answer
        ≡ some (negsuc k, none))
unfolding sync_send_recv_line get_mem_block
sync_send_recv_line-fails max pool sent none answer timeout_is_negative = (0, refl)
sync_send_recv_line-fails max pool sent (some to_send) answer true = (0, refl)
sync_send_recv_line-fails max pool sent (some to_send) answer false =
    elim (Bool-cases (sent == length to_send)) [
      | inr other ↦ (1, rw other)
      | inl all ↦ rw all (elim (Option-cases (get_mem_block max pool (pos 1024))) [
        | inl no_block ↦ (2, rw no_block)
        | inr (mb, e) ↦
            (3, rw (e, nothing_asked mb.used answer (get_mem_block-empty max pool (pos 1024) mb e)))
      ])
    ]
