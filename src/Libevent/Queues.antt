-- ===== src/Libevent/Queues.antt =====
-- aanf/libevent-based/src/netframe.cc: the queues between the thread of libevent and the workers.
-- Each queue has its lock, and what is done under it is one step.
pub mod Shortest
pub mod Level
use kknf.Base.{
  ℕ, zero, suc, ◌+◌, ◌-◌, ◌^◌, List, [], ◌∷◌, ◌++◌, Option, none, some, Bool, true, false, ◌||◌,
  ltb, leb, ◌==◌, if◌then◌else◌, length, get_elem?, set, replicate,
}
use kknf.Base.Int.{ℤ, pos, minus_one, minus_two, leb_ℤ, ltb_ℤ, pos_part}

-- What a push comes to: the code, the queues, and whether a worker is signalled. `none` is a queue
-- that does not exist.
abbrev pub Pushed {ℓ} : Type ℓ → Type ℓ
Pushed Message = Option (ℤ × List (List Message) × Bool)

-- What a worker gets: a code for a queue that does not exist, the wait for a message, or a message.
pub data Fetched {ℓ} (Message : Type ℓ) : Type ℓ where
  no_queue : ℤ → Fetched Message
  waits : Fetched Message
  fetched : Message → List (List Message) → Fetched Message

-- The scan of PushMessageToRecvQueue from queue `i` on, over the sizes that it reads: the shortest so far,
-- and whose it is.
pub shortest_from : List ℕ → ℕ → ℕ → ℕ → ℕ
shortest_from [] i tmp_min tmp_which = tmp_which
shortest_from (size ∷ sizes) i tmp_min tmp_which =
    shortest_from sizes (i + 1) (if ltb size tmp_min then size else tmp_min)
      (if ltb size tmp_min then i else tmp_which)

-- The loop starts with the largest int.
unfoldable pub shortest : List ℕ → ℕ
unfolding shortest_from
shortest sizes = shortest_from sizes 0 (2 ^ 31 - 1) 0

module _ {ℓ} {Message : Type ℓ} where
  -- The sizes of the queues.
  abbrev pub sizes_of : List (List Message) → List ℕ
  sizes_of [] = []
  sizes_of (q ∷ queues) = length q ∷ sizes_of queues

  unfoldable pub push_to :
      ℕ → Message → ℕ → List (List Message) → Option (List Message) → Pushed Message
  push_to max_size msg which queues none = none
  push_to max_size msg which queues (some q) =
      if length q == max_size
      then some (minus_two, queues, false)
      else some (pos 0, set queues which (q ++ msg ∷ []), length q + 1 == 1)

  -- NetFrame::PushMessageToRecvQueue of a message that is not null. The scan holds no lock: `sizes` are
  -- the sizes that it has read, and `queues` is what stands in the queues when the one is locked.
  unfoldable pub push_message : ℕ → Message → List ℕ → List (List Message) → Pushed Message
  unfolding push_to shortest
  push_message max_size msg sizes queues =
      push_to max_size msg (shortest sizes) queues (get_elem? queues (shortest sizes))

  -- NetFrame::GetMessageFromRecvQueue.
  unfoldable pub get_message : ℤ → List (List Message) → Fetched Message
  get_message which queues =
      if ltb_ℤ which (pos 0) || leb_ℤ (pos (length queues)) which
      then no_queue minus_one
      else elim (get_elem? queues (pos_part which)) [
        | none ↦ waits
        | some [] ↦ waits
        | some (msg ∷ rest) ↦ fetched msg (set queues (pos_part which) rest)
      ]

-- NetFrame::NetFrame: the receive queues and the send queues, all empty; `none` is the constructor's
-- error.
unfoldable pub new_queues {ℓ} :
    {Message : Type ℓ} → ℤ → ℤ → Option (List (List Message) × List (List Message))
new_queues send_num recv_num =
    if leb_ℤ recv_num (pos 0) || leb_ℤ send_num (pos 0)
    then none
    else some (replicate (pos_part recv_num) [], replicate (pos_part send_num) [])
