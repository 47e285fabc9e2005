-- ===== src/Libevent/Timer.antt =====
-- aanf/libevent-based/src/netframe.cc: what is watched. AddSocketToMonitor and AddTimerToMonitor;
-- whether libevent takes the event is given.
use kknf.Base.{ℕ, ◌+◌, ◌*◌, ◌/◌, ◌%◌, ◌<◌, ◌≡◌, Bool, true, false, Option, none, some, arith}
use kknf.Base.Int.{ℤ, pos, minus_one, minus_two}
use kknf.Libevent.Callback.{EventFlags, CalledSocket}

-- A timeval.
pub record TrigTime : Type 0 where
  pub tv_sec : ℕ
  pub tv_usec : ℕ

-- When a timer is to go off: a time after `now`, by a number of microseconds that is not negative.
unfoldable pub trig_time : TrigTime → ℕ → TrigTime
trig_time now timeout_usec =
    let usec = now.tv_usec + timeout_usec % 1000000 in
    record {
      tv_sec = now.tv_sec + (timeout_usec / 1000000 + usec / 1000000);
      tv_usec = usec % 1000000;
    }

-- The answers of event_base_set() and event_add().
monitored : Bool → Bool → ℤ
monitored false added = minus_two
monitored true false = minus_two
monitored true true = pos 0

-- NetFrame::AddTimerToMonitor.
unfoldable pub add_timer : Bool → TrigTime → ℕ → Bool → Bool → ℤ × Option TrigTime
unfolding trig_time monitored
add_timer true now timeout_usec based added = (minus_one, none)
add_timer false now timeout_usec based added =
    (monitored based added, some (trig_time now timeout_usec))

-- NetFrame::AddSocketToMonitor: its code, and the events that are watched, besides that the event
-- stays (EV_PERSIST). `none` is a null pointer.
unfoldable pub add_socket_event : Option CalledSocket → Bool → Bool → ℤ × Option EventFlags
unfolding monitored
add_socket_event none based added = (minus_one, none)
add_socket_event (some sk) based added = (
  monitored based added,
  some (record { ev_read = sk.want_to_read; ev_write = sk.want_to_write; ev_other = true }),
)

-- A timer is set for the time that is given from now, in seconds and less than a million microseconds.
pub trig_time-exact :
    (now : TrigTime) (timeout_usec : ℕ)
    → let t = trig_time now timeout_usec in
      (t.tv_sec * 1000000 + t.tv_usec ≡ now.tv_sec * 1000000 + now.tv_usec + timeout_usec)
      × (t.tv_usec < 1000000)
unfolding trig_time
trig_time-exact now timeout_usec = (omega arith, omega arith)
