-- ===== src/Nf/Wait/Returns.antt =====
-- When TCPWaitToRead returns, and with what.
use kknf.Base.{
  All, Bool-cases, leb, ℕ, zero, suc, ◌+◌, ◌≤◌, ◌<◌, ◌≡◌, refl, ◌⊎◌, inl, inr, List, [], ◌∷◌, none,
  Bool, arith, length, replicate, Option-cases,
}
use kknf.Base.Int.{ℤ, pos, minus_one, minus_three, ◌-ℤ◌}
use kknf.Nf.Socket.{Socket}
use kknf.Nf.Wait.Started.{tcp_wait_to_read-added}
use kknf.Nf.Wait.{
  Interest, Wake, Reported, readable, error, other, wait_failed, woke, Waiting, Outcome, returned,
  waits, aborted, collect, wait_loop, tcp_wait_to_read, add_all,
}

-- How many sockets are in one of the two lists.
abbrev pub seen : Waiting → ℕ
seen w = length w.errors + length w.triggered

-- The reports of a wake are all of sockets to read from or with an error.
abbrev pub IsKnown : Reported × ℕ → Type 0
IsKnown (readable, d) = Unit
IsKnown (error, d) = Unit
IsKnown (other, d) = ⊥

abbrev pub KnownWake : Wake → Type 0
KnownWake (wait_failed errno elapsed) = Unit
KnownWake (woke evs) = All IsKnown evs

-- The code tells whether enough sockets have been seen, and an assertion fails only on a report that is
-- neither.
abbrev pub CodeIsRight : List Wake → ℕ → Outcome → Type 0
CodeIsRight wakes num (returned c w) =
    ((c ≡ pos 0) × (num ≤ seen w))
    ⊎ ((c ≡ minus_one) × (seen w < num))
    ⊎ ((c ≡ minus_three) × (seen w < num))
CodeIsRight wakes num aborted = ¬ All KnownWake wakes
CodeIsRight wakes num (waits t w) = seen w < num

CodeIsRight-later :
    (wake : Wake) (wakes : List Wake) (num : ℕ) (o : Outcome)
    → CodeIsRight wakes num o
    → CodeIsRight (wake ∷ wakes) num o
CodeIsRight-later wake wakes num (returned c w) h = h
CodeIsRight-later wake wakes num aborted h = λ known. h known.1
CodeIsRight-later wake wakes num (waits t w) h = h

collect-KnownWake :
    (evs : List (Reported × ℕ)) (w : Waiting) → collect evs w ≡ none → ¬ All IsKnown evs
unfolding collect
collect-KnownWake [] w e = λ known. cc
collect-KnownWake ((readable, d) ∷ evs) w e = λ known. collect-KnownWake evs _ e known.1
collect-KnownWake ((error, d) ∷ evs) w e = λ known. collect-KnownWake evs _ e known.1
collect-KnownWake ((other, d) ∷ evs) w e = λ known. known.0

wait_loop-CodeIsRight :
    (wakes : List Wake) (num : ℕ) (timeout : ℤ) (w : Waiting)
    → seen w < num
    → CodeIsRight wakes num (wait_loop wakes num timeout w)
unfolding wait_loop
wait_loop-CodeIsRight [] num timeout w h = h
wait_loop-CodeIsRight (wait_failed errno elapsed ∷ wakes) num timeout w h =
    let later =
      CodeIsRight-later (wait_failed errno elapsed) wakes num _
        (wait_loop-CodeIsRight wakes num (timeout -ℤ pos elapsed) w h) in
    ground (arith, later)
wait_loop-CodeIsRight (woke evs ∷ wakes) num timeout w h = elim (Option-cases (collect evs w)) [
  | inl e ↦ rw (e, wait_loop) (λ known. collect-KnownWake evs w e known.0)
  | inr (w', e) ↦
      rw (e, wait_loop)
        (elim (Bool-cases (leb num (length w'.errors + length w'.triggered))) [
          | inl enough ↦ rw enough (inl (refl, ground arith))
          | inr few ↦ rw few (
              CodeIsRight-later (woke evs) wakes num _
                (wait_loop-CodeIsRight wakes num timeout w' (ground arith)))
        ])
]

wait_loop-idle :
    (n : ℕ) (num : ℕ) (timeout : ℤ) (w : Waiting)
    → seen w < num
    → wait_loop (replicate n (woke [])) num timeout w ≡ waits timeout w
unfolding wait_loop
wait_loop-idle zero num timeout w h = refl
wait_loop-idle (suc n) num timeout w h = ground (arith, wait_loop-idle n num timeout w h)

-- Where `num` is at most the number of sockets, fewer than `num` are in the lists at the start, and epoll
-- takes every descriptor: a return with 0 means that `num` sockets or more are in the lists, a return
-- with -1 or -3 that fewer are, and there is no other code; while it waits there are fewer; and an
-- assertion fails only where epoll_wait() reports an event that is neither to read nor an error.
pub tcp_wait_to_read-CodeIsRight :
    (can_add : ℕ → Bool) (wakes : List Wake) (ss : List Socket) (triggered errors : List ℕ)
    (num : ℕ) (timeout : ℤ) (l : Interest)
    → num ≤ length ss
    → length errors + length triggered < num
    → (add_all can_add ss 0 [] l).1 ≡ none
    → CodeIsRight wakes num (tcp_wait_to_read can_add wakes ss triggered errors num timeout l)
tcp_wait_to_read-CodeIsRight can_add wakes ss triggered errors num timeout l fits h e =
    rw (tcp_wait_to_read-added can_add wakes ss triggered errors num timeout l (omega arith) fits e)
      (wait_loop-CodeIsRight wakes num timeout _ h)

-- A call that finds nothing to read never returns: however often epoll_wait() says that the time is
-- up, and whatever the timeout, it goes on to wait for the whole timeout again.
pub tcp_wait_to_read-never_times_out :
    (can_add : ℕ → Bool) (n : ℕ) (ss : List Socket) (triggered errors : List ℕ) (num : ℕ)
    (timeout : ℤ) (l : Interest)
    → num ≤ length ss
    → length errors + length triggered < num
    → (add_all can_add ss 0 [] l).1 ≡ none
    → tcp_wait_to_read can_add (replicate n (woke [])) ss triggered errors num timeout l
      ≡ waits timeout (record {
        triggered = triggered;
        errors = errors;
        interest = (add_all can_add ss 0 [] l).0;
      })
tcp_wait_to_read-never_times_out can_add n ss triggered errors num timeout l fits h e =
    rw
      (tcp_wait_to_read-added can_add (replicate n (woke [])) ss triggered errors num timeout l
        (omega arith) fits e)
      (wait_loop-idle n num timeout _ h)
