-- ===== src/Nf/Server/Timer.antt =====
-- all-sync/server.hpp: EpollLoop, round after round, and the time left that it computes. What
-- epoll_wait() and gettimeofday() answer is an argument.
use kknf.Base.{
  ℕ, suc, ◌+◌, ◌-◌, ◌*◌, ◌/◌, ◌≤◌, ◌≡◌, List, [], ◌∷◌, Bool, true, false, ◌==◌, if◌then◌else◌,
  arith,
}
use kknf.Base.Int.{ℤ, pos, negsuc, leb_ℤ, ◌+ℤ◌, ◌-ℤ◌}
use kknf.Nf.Stream.{eintr}
use kknf.Nf.Server.{Server, stop_server}
use kknf.Nf.Server.Poll.{Event, Answers, Processed, done, aborts, exits, blocks, poll_events}

-- `struct timeval`.
pub record Timeval : Type 0 where
  pub tv_sec : ℕ
  pub tv_usec : ℕ

-- Division of an int by 1000, towards zero.
abbrev pub div_1000 : ℤ → ℤ
div_1000 (pos n) = pos (n / 1000)
div_1000 (negsuc n) = pos 0 -ℤ pos (suc n / 1000)

-- The time left after a round, as EpollLoop computes it.
unfoldable pub time_left : ℤ → Timeval → Timeval → ℤ
time_left timeout start end =
    timeout
    -ℤ (pos (end.tv_sec * 1000) -ℤ pos (start.tv_sec * 1000))
    +ℤ div_1000 (pos end.tv_usec -ℤ pos start.tv_usec)

-- The timeout of the next round; at 100 or less the timer has fired, and TimerHandler() gives it.
unfoldable pub next_timeout : Server → ℤ → Timeval → Timeval → ℤ
unfolding time_left
next_timeout srv timeout start end =
    let left = time_left timeout start end in
    if leb_ℤ left (pos 100) then srv.timer_interval else left

-- One epoll_wait() of the loop: the time is up, it fails, or it reports events, with the times before and
-- after the round. `cancelled` tells whether StopServer has been called before the next test.
pub data Wait : Type 0 where
  timed_out : Wait
  wait_failed : ℕ → Wait
  reported : List (Event × Answers) → Timeval → Timeval → Wait

-- How the loop ends: at a cancel, at an error, as a round ends it, or still waiting with so much time.
pub data Ended : Type 0 where
  cancelled : Server → Ended
  failed : ℕ → Server → Ended
  broken : Processed → Ended
  waiting : ℤ → Server → Ended

-- Server::EpollLoop; with each wait, whether StopServer is called before the test of the loop.
-- TimerHandler() answers `timer_interval`.
unfoldable pub epoll_loop : List (Bool × Wait) → ℤ → Server → Ended
unfolding next_timeout
epoll_loop [] timeout srv = waiting timeout srv
epoll_loop ((true, w) ∷ ws) timeout srv = cancelled (stop_server srv)
epoll_loop ((false, timed_out) ∷ ws) timeout srv =
    let again = epoll_loop ws srv.timer_interval srv in
    if srv.epoll_cancel then cancelled srv else again
epoll_loop ((false, wait_failed errno) ∷ ws) timeout srv =
    let again = epoll_loop ws timeout srv in
    if srv.epoll_cancel then cancelled srv else if errno == eintr then again else failed errno srv
epoll_loop ((false, reported es start end) ∷ ws) timeout srv =
    let round : Ended = elim (poll_events es srv) [
      | done r srv' m ↦ epoll_loop ws (next_timeout srv' timeout start end) srv'
      | aborts ↦ broken aborts
      | exits ↦ broken exits
      | blocks ↦ broken blocks
    ] in
    if srv.epoll_cancel then cancelled srv else round

-- A round that starts and ends within one second makes the time left longer, by the milliseconds that
-- the round took, where it should make it shorter; with 100 or more left before the round, the timer
-- does not fire after it.
pub time_left-grows :
    (srv : Server) (timeout sec start end : ℕ)
    → start ≤ end
    → 101 ≤ timeout
    → let s : Timeval = record { tv_sec = sec; tv_usec = start } in
      let e : Timeval = record { tv_sec = sec; tv_usec = end } in
      (time_left (pos timeout) s e ≡ pos (timeout + (end - start) / 1000))
      × (next_timeout srv (pos timeout) s e ≡ time_left (pos timeout) s e)
unfolding time_left next_timeout ◌+ℤ◌ ◌-ℤ◌
time_left-grows srv timeout sec start end h k = ground arith
