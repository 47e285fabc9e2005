-- ===== src/Libevent/Callback.antt =====
-- aanf/libevent-based/src/netframe.cc: SocketCallback, which libevent calls for a socket. What the
-- handlers of the socket answer is given; what the call does is the list of its actions, in order.
use kknf.Base.{◌≡◌, refl, List, [], ◌∷◌, ◌++◌, Bool, true, false, ◌&&◌, ◌||◌, not, if◌then◌else◌}
use kknf.Base.Int.{ℤ, pos, minus_one, minus_two, ltb_ℤ, leb_ℤ}

pub data Status : Type 0 where
  not_ready closed error_status established connecting listening : Status

-- A set of event flags: EV_READ, EV_WRITE, and whether any other is set.
pub record EventFlags : Type 0 where
  pub ev_read : Bool
  pub ev_write : Bool
  pub ev_other : Bool

-- The flags with EV_READ or EV_WRITE set, as `|` gives them, and the test for flags at all.
abbrev or_read : EventFlags → EventFlags
or_read e = record e { ev_read = true }

abbrev or_write : EventFlags → EventFlags
or_write e = record e { ev_write = true }

abbrev any_flag : EventFlags → Bool
any_flag e = e.ev_read || e.ev_write || e.ev_other

-- What a call does. AddSocketToMonitor reads whether the socket wants to read and to write;
-- `toggle_concern` is the change of `event_concern`, and `monitor_accepted` is AddSocketToMonitor of what
-- CreateServerSocket has made of the accepted connection.
pub data CallbackAct : Type 0 where
  call_read push_read_message call_write toggle_concern reconnect destroy accept_socket :
      CallbackAct
  add_to_monitor : Bool → Bool → CallbackAct
  monitor_accepted : CallbackAct

-- What the calls of SocketCallback answer: ReadHandler, PushMessageToRecvQueue, WriteHandler,
-- Reconnect, and whether the socket has an error.
pub record HandlerAnswers : Type 0 where
  pub read_result : ℤ
  pub process_result : ℤ
  pub write_result : ℤ
  pub reconnect_result : ℤ
  pub has_error : Bool

-- The socket as SocketCallback reads it: `type_` is T_TCP_SERVER or not. Nothing that a call of
-- SocketCallback reaches sets its status or what it wants.
pub record CalledSocket : Type 0 where
  pub status : Status
  pub is_server : Bool
  pub want_to_read : Bool
  pub want_to_write : Bool

-- `events` after the flags that the socket wants have been or-ed in; `events_concern` stays empty.
abbrev merged : CalledSocket → EventFlags → EventFlags
merged sk events = record events {
  ev_read = events.ev_read || sk.want_to_read;
  ev_write = events.ev_write || sk.want_to_write;
}

abbrev no_flags : EventFlags
no_flags = record { ev_read = false; ev_write = false; ev_other = false }

abbrev is_status : Status → Status → Bool
is_status not_ready not_ready = true
is_status closed closed = true
is_status error_status error_status = true
is_status established established = true
is_status connecting connecting = true
is_status listening listening = true
is_status _ _ = false

-- Part of a call: what it has done, and whether it goes on to the next part.
abbrev Part : Type 0
Part = List CallbackAct × Bool

abbrev and_then : Part → List CallbackAct → List CallbackAct
and_then (acts, true) rest = acts ++ rest
and_then (acts, false) rest = acts

is_zero : ℤ → Bool
is_zero r = leb_ℤ r (pos 0) && leb_ℤ (pos 0) r

is_one : ℤ → Bool
is_one r = leb_ℤ r (pos 1) && leb_ℤ (pos 1) r

-- AddSocketToMonitor of the socket.
abbrev monitor : CalledSocket → CallbackAct
monitor sk = add_to_monitor sk.want_to_read sk.want_to_write

-- Reconnect(), and what follows from it.
reconnected : CalledSocket → HandlerAnswers → List CallbackAct
unfolding is_zero
reconnected sk h =
    if is_zero h.reconnect_result then reconnect ∷ monitor sk ∷ [] else reconnect ∷ destroy ∷ []

read_part : HandlerAnswers → Part
unfolding is_one
read_part h =
    if ltb_ℤ h.read_result (pos 0)
    then (call_read ∷ destroy ∷ [], false)
    else if is_one h.read_result
    then (
      call_read ∷ push_read_message ∷ [],
      not (leb_ℤ h.process_result minus_one && leb_ℤ minus_one h.process_result),
    )
    else (call_read ∷ [], true)

write_part : CalledSocket → HandlerAnswers → Part
unfolding is_one reconnected
write_part sk h =
    if ltb_ℤ h.write_result (pos 0)
    then if sk.is_server
      then (call_write ∷ destroy ∷ [], false)
      else (call_write ∷ reconnected sk h, false)
    else if is_one h.write_result
    then (call_write ∷ toggle_concern ∷ monitor sk ∷ [], true)
    else (call_write ∷ [], true)

connect_part : CalledSocket → HandlerAnswers → Part
unfolding reconnected
connect_part sk h =
    if h.has_error
    then (destroy ∷ [], false)
    else if ltb_ℤ h.write_result (pos 0)
    then (call_write ∷ reconnected sk h, false)
    else (call_write ∷ [], true)

-- A part that is run under a test.
under : Bool → Part → Part
under true p = p
under false p = ([], true)

-- NetFrame::SocketCallback, for a socket event.
unfoldable pub socket_callback : CalledSocket → EventFlags → HandlerAnswers → List CallbackAct
unfolding read_part write_part connect_part under
socket_callback sk arrived h =
    let events = merged sk arrived in
    let can_read = any_flag (or_read no_flags) && any_flag (or_read events) in
    let can_write = any_flag (or_write no_flags) && any_flag (or_write events) in
    and_then (under (is_status sk.status established && can_read) (read_part h)) (
      and_then (under (is_status sk.status established && can_write) (write_part sk h)) (
        and_then (under (is_status sk.status connecting && can_write) (connect_part sk h)) (
          if is_status sk.status listening && can_read
          then accept_socket ∷ monitor_accepted ∷ []
          else [])))

or_true : (b : Bool) → (b || true) ≡ true
or_true true = refl
or_true false = refl

-- What SocketCallback does depends on the socket and on the answers of its handlers alone: the events
-- that libevent reports do not change it.
pub socket_callback-ignores_events :
    (sk : CalledSocket) (events events' : EventFlags) (h : HandlerAnswers)
    → socket_callback sk events h ≡ socket_callback sk events' h
unfolding socket_callback
socket_callback-ignores_events sk events events' h =
    simp (or_true (events.ev_read || sk.want_to_read), or_true (events'.ev_read || sk.want_to_read))

-- Where a worker's queue is full (-2), SocketCallback does what it does where the message has been
-- pushed (0): the message is neither kept nor given back.
pub socket_callback-loses_message :
    (sk : CalledSocket) (events : EventFlags) (h : HandlerAnswers)
    → socket_callback sk events (record h { process_result = minus_two })
      ≡ socket_callback sk events (record h { process_result = pos 0 })
unfolding socket_callback read_part write_part connect_part
socket_callback-loses_message sk events h = refl
