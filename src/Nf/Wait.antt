-- ===== src/Nf/Wait.antt =====
-- all-sync/client.hpp, TCPWaitToRead: waiting for several sockets at once with epoll.
-- The interest list of the epoll instance is kept here; what epoll_ctl(EPOLL_CTL_ADD) says of a
-- descriptor and what each epoll_wait() answers are arguments.
mod Started
pub mod Registers
pub mod Returns
use kknf.Base.{
  ℕ, zero, suc, ◌+◌, ◌-◌, ◌*◌, ◌/◌, List, [], ◌∷◌, ◌++◌, Option, none, some, Bool, true, false, not,
  ltb, leb, ◌==◌, if◌then◌else◌, length, map,
}
use kknf.Base.Int.{ℤ, pos, minus_one, minus_two, minus_three, leb_ℤ, ◌-ℤ◌}
use kknf.Nf.Socket.{Socket}
use kknf.Nf.Stream.{eintr}

-- `struct epoll_event`. Its `data` is a union: `fd` and `u32` are one place, and a write of either
-- is a write of both.
pub record EpollEvent : Type 0 where
  pub cell : ℕ

abbrev set_fd : EpollEvent → ℕ → EpollEvent
set_fd ev fd = record ev { cell = fd }

abbrev set_u32 : EpollEvent → ℕ → EpollEvent
set_u32 ev i = record ev { cell = i }

-- Lines 82 and 83: `data.fd` and then `data.u32`. What `data.fd` is after them is given to epoll_ctl.
event_of : Socket → ℕ → EpollEvent
event_of s i = set_u32 (set_fd (record { cell = 0 }) s.sk) i

-- A descriptor in the interest list, with the data of its event.
abbrev pub Interest : Type 0
Interest = List (ℕ × ℕ)

-- epoll_ctl(EPOLL_CTL_DEL): the descriptor leaves the list.
unfoldable pub ctl_del : ℕ → Interest → Interest
ctl_del fd [] = []
ctl_del fd ((f, d) ∷ l) = let rest = ctl_del fd l in if fd == f then rest else (f, d) ∷ rest

-- The roll back: `j` from 0 to `i`, over the events that have been filled in.
unfoldable pub roll_back : List ℕ → Interest → Interest
roll_back [] l = l
roll_back (fd ∷ fds) l = roll_back fds (ctl_del fd l)

-- The first loop: the sockets from number `i` on, where `filled` are the `data.fd` so far. It ends with
-- the interest list, and with the number of the socket that could not be added.
unfoldable pub add_all : (ℕ → Bool) → List Socket → ℕ → List ℕ → Interest → Interest × Option ℕ
unfolding event_of
add_all can_add [] i filled l = (l, none)
add_all can_add (s ∷ ss) i filled l =
    let ev = event_of s i in
    let more = add_all can_add ss (i + 1) (filled ++ ev.cell ∷ []) (l ++ (ev.cell, ev.cell) ∷ []) in
    if can_add ev.cell then more else (roll_back (filled ++ ev.cell ∷ []) l, some i)

-- What an event that epoll_wait() reports is: EPOLLIN, or EPOLLERR without it, or neither.
pub data Reported : Type 0 where
  readable error other : Reported

-- One epoll_wait(): it fails after some milliseconds, as gettimeofday() measures them, or it reports
-- events, each with its `data`; no events at all means that the time is up.
pub data Wake : Type 0 where
  wait_failed : (errno : ℕ) (elapsed : ℕ) → Wake
  woke : List (Reported × ℕ) → Wake

-- The two lists that the caller passes, and the interest list.
pub record Waiting : Type 0 where
  pub triggered : List ℕ
  pub errors : List ℕ
  pub interest : Interest

-- The events of one wake, in order; `none` is the failed assertion on an event that is neither.
collect : List (Reported × ℕ) → Waiting → Option Waiting
collect [] w = some w
collect ((readable, d) ∷ evs) w =
    collect evs (record w { triggered = w.triggered ++ d ∷ []; interest = ctl_del d w.interest })
collect ((error, d) ∷ evs) w =
    collect evs (record w { errors = w.errors ++ d ∷ []; interest = ctl_del d w.interest })
collect ((other, d) ∷ evs) w = none

-- How the call ends: with a code, by a failed assertion, or still waiting with so much time left.
pub data Outcome : Type 0 where
  returned : ℤ → Waiting → Outcome
  aborted : Outcome
  waits : ℤ → Waiting → Outcome

-- The second loop, until `num` sockets are in one of the lists.
unfoldable pub wait_loop : List Wake → ℕ → ℤ → Waiting → Outcome
unfolding collect
wait_loop [] num timeout w = waits timeout w
wait_loop (wait_failed errno elapsed ∷ wakes) num timeout w =
    let left = timeout -ℤ pos elapsed in
    let again = wait_loop wakes num left w in
    if not (errno == eintr)
    then returned minus_three w
    else if leb_ℤ left (pos 10)
    then returned minus_one w
    else again
wait_loop (woke evs ∷ wakes) num timeout w = elim (collect evs w) [
  | none ↦ aborted
  | some w' ↦
      let again = wait_loop wakes num timeout w' in
      if leb num (length w'.errors + length w'.triggered) then returned (pos 0) w' else again
]

-- After the first loop.
wait_added : List Wake → ℕ → ℤ → List ℕ → List ℕ → Interest × Option ℕ → Outcome
wait_added wakes num timeout triggered errors (l, some i) =
    returned minus_two (record { triggered = triggered; errors = errors ++ i ∷ []; interest = l })
wait_added wakes num timeout triggered errors (l, none) =
    wait_loop wakes num timeout (record { triggered = triggered; errors = errors; interest = l })

-- Client::TCPWaitToRead, on the caller's lists; the two assertions on `num` come first.
unfoldable pub tcp_wait_to_read :
    (ℕ → Bool) → List Wake → List Socket → List ℕ → List ℕ → ℕ → ℤ → Interest → Outcome
unfolding add_all wait_added
tcp_wait_to_read can_add wakes sks triggered errors num timeout l =
    if leb num (length sks)
    then if ltb 0 num
      then wait_added wakes num timeout triggered errors (add_all can_add sks 0 [] l)
      else aborted
    else aborted
