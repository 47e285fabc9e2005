-- ===== src/Early/Send/History.antt =====
-- Calls of SendMessage and OnWritable in any order, and what the peer has got.
use kknf.Base.{
  ℕ, ◌+◌, ◌≡◌, refl, ap, ◌∙◌, sym, subst, ◌⊎◌, inl, inr, List, [], ◌∷◌, ◌++◌, append-nil,
  append_assoc, Option, none, some, Bool-cases, arith, ◌==◌, if◌then◌else◌, length, take, drop, min,
  All, All-append, take-append-drop,
}
use kknf.Base.Int.{ℤ, minus_one, minus_two}
use kknf.Early.Send.{
  Buffer, unsent, SendSocket, send_message, max_send_buffer_num, offered_bytes, Writable, writable,
  past_end, after_sent, write_msgs, on_writable, state_code,
}
use kknf.Early.Send.Stream.{IsBuffer, HasBuffer, drop_sent-rest}

-- SendMessage of a buffer, or OnWritable with what writev() answers.
pub data SendOp : Type 0 where
  sends : Buffer → SendOp
  writes : Option ℕ → SendOp

-- The socket, the bytes that the peer has got, and those of the messages that SendMessage has taken.
pub record Traffic : Type 0 where
  pub socket : SendSocket
  pub wire : List ℕ
  pub accepted : List ℕ

abbrev after_writable : Traffic → Writable → Option Traffic
after_writable t (writable code sk sent) = some (record t { socket = sk; wire = t.wire ++ sent })
after_writable t past_end = none

-- One call; `none` is a step past the end of the list.
unfoldable pub send_op : SendOp → Traffic → Option Traffic
send_op (sends b) t = some (record t {
  socket = (send_message b t.socket).1;
  accepted =
      if length t.socket.send_msgs == max_send_buffer_num
      then t.accepted
      else t.accepted ++ unsent b;
})
send_op (writes answer) t = after_writable t (on_writable answer t.socket)

abbrev and_run : Option Traffic → (Traffic → Option Traffic) → Option Traffic
and_run none k = none
and_run (some t) k = k t

unfoldable pub send_ops : List SendOp → Traffic → Option Traffic
send_ops [] t = some t
send_ops (op ∷ ops) t = and_run (send_op op t) (send_ops ops)

-- The buffers that are sent have their bounds in order.
abbrev pub OpIsBuffer : SendOp → Type 0
OpIsBuffer (sends b) = IsBuffer b
OpIsBuffer (writes answer) = Unit

-- The peer has got what was taken, but for what still waits.
record InStep (t : Traffic) : Type 0 where
  exact : t.wire ++ offered_bytes t.socket.send_msgs ≡ t.accepted
  buffers : All HasBuffer t.socket.send_msgs

offered-append :
    (msgs : List (ℕ × Buffer)) (id : ℕ) (b : Buffer)
    → offered_bytes (msgs ++ (id, b) ∷ []) ≡ offered_bytes msgs ++ unsent b
unfolding offered_bytes
offered-append [] id b = append-nil (unsent b)
offered-append ((i, c) ∷ msgs) id b =
    rw (offered-append msgs id b) (sym (append_assoc (unsent c) (offered_bytes msgs) (unsent b)))

send_message-InStep :
    (b : Buffer) (t : Traffic)
    → IsBuffer b
    → InStep t
    → (t' : Traffic) × (send_op (sends b) t ≡ some t') × InStep t'
unfolding send_op send_message
send_message-InStep b t v h = elim (Bool-cases (length t.socket.send_msgs == 1000)) [
  | inl full ↦ rw full (t, refl, h)
  | inr room ↦ rw room (
    record t {
      socket = record (t.socket) {
        send_msgs = t.socket.send_msgs ++ (t.socket.cur_id, b) ∷ [];
        cur_id = t.socket.cur_id + 1;
      };
      accepted = t.accepted ++ unsent b;
    },
    refl,
    record {
      exact =
          ap (λ bs. t.wire ++ bs) (offered-append t.socket.send_msgs t.socket.cur_id b)
          ∙ sym (append_assoc t.wire (offered_bytes t.socket.send_msgs) (unsent b))
          ∙ ap (λ bs. bs ++ unsent b) h.exact;
      buffers =
          All-append HasBuffer t.socket.send_msgs ((t.socket.cur_id, b) ∷ []) h.buffers (v, tt);
    },
  )
]

-- What OnWritable comes to: nothing changed and nothing sent, or the next bytes sent.
write_msgs-cases :
    (answer : Option ℕ) (sk : SendSocket) (msgs : List (ℕ × Buffer))
    → All HasBuffer msgs
    → ((code : ℤ) × (write_msgs answer sk msgs ≡ writable code sk []))
      ⊎ ((code : ℤ) × (n : ℕ) × (msgs' : List (ℕ × Buffer)) × (back : List Buffer) × (write_msgs
              answer sk msgs
            ≡ writable code
                (record sk { send_msgs = msgs'; back = back })
                (take n (offered_bytes msgs)))
          × (offered_bytes msgs' ≡ drop n (offered_bytes msgs))
          × All HasBuffer msgs')
unfolding write_msgs
write_msgs-cases answer sk [] v = inl (minus_one, refl)
write_msgs-cases none sk (m ∷ msgs) v = inl (minus_one, refl)
write_msgs-cases (some n) sk (m ∷ msgs) v =
    let offered : List ℕ = offered_bytes (m ∷ msgs) in
    let ret : ℕ = min n (length offered) in
    let (msgs', back, e, o, v') = drop_sent-rest ret (m ∷ msgs) sk.back v (omega arith) in
    elim (Bool-cases (ret == 0)) [
      | inl nothing ↦ rw nothing (inl (minus_two, refl))
      | inr some_sent ↦ rw some_sent (
          inr (
            state_code sk.socket_state,
            ret,
            msgs',
            back,
            ap (after_sent sk (take ret offered)) e,
            o,
            v',
          ))
    ]

on_writable-InStep :
    (answer : Option ℕ) (t : Traffic)
    → InStep t
    → (t' : Traffic) × (send_op (writes answer) t ≡ some t') × InStep t'
unfolding send_op on_writable
on_writable-InStep answer t h =
    elim (write_msgs-cases answer t.socket t.socket.send_msgs h.buffers) [
      | inl (code, e) ↦ (
        record t { wire = t.wire ++ [] },
        ap (after_writable t) e,
        record {
          exact = ap (λ bs. bs ++ offered_bytes t.socket.send_msgs) (append-nil t.wire) ∙ h.exact;
          buffers = h.buffers;
        },
      )
      | inr (code, n, msgs, back, e, o, v) ↦ (
        record t {
          socket = record (t.socket) { send_msgs = msgs; back = back };
          wire = t.wire ++ take n (offered_bytes t.socket.send_msgs);
        },
        ap (after_writable t) e,
        record {
          exact =
              append_assoc t.wire (take n (offered_bytes t.socket.send_msgs)) (offered_bytes msgs)
              ∙ ap (λ bs. t.wire ++ (take n (offered_bytes t.socket.send_msgs) ++ bs)) o
              ∙ ap (λ bs. t.wire ++ bs) (take-append-drop n (offered_bytes t.socket.send_msgs))
              ∙ h.exact;
          buffers = v;
        },
      )
    ]

send_op-InStep :
    (op : SendOp) (t : Traffic)
    → OpIsBuffer op
    → InStep t
    → (t' : Traffic) × (send_op op t ≡ some t') × InStep t'
send_op-InStep (sends b) t v h = send_message-InStep b t v h
send_op-InStep (writes answer) t v h = on_writable-InStep answer t h

send_ops-InStep :
    (ops : List SendOp) (t : Traffic)
    → All OpIsBuffer ops
    → InStep t
    → (t' : Traffic) × (send_ops ops t ≡ some t') × InStep t'
unfolding send_ops
send_ops-InStep [] t v h = (t, refl, h)
send_ops-InStep (op ∷ ops) t v h =
    let (t', e, h') = send_op-InStep op t v.0 h in
    let (t'', e', h'') = send_ops-InStep ops t' v.1 h' in
    (t'', ap (λ m. and_run m (send_ops ops)) e ∙ e', h'')

-- Whatever calls of SendMessage and OnWritable come after one another on a socket with nothing to
-- send, and whatever writev() answers, no call goes past the end of the list, and what the peer has
-- got, with what still waits behind it, is the bytes of the messages that SendMessage has taken, in
-- order and once, where the bounds of each buffer are in order.
pub send_ops-exact :
    (ops : List SendOp) (sk : SendSocket)
    → sk.send_msgs ≡ []
    → All OpIsBuffer ops
    → (t : Traffic) × (send_ops ops (record { socket = sk; wire = []; accepted = [] }) ≡ some t)
      × (t.wire ++ offered_bytes t.socket.send_msgs ≡ t.accepted)
unfolding offered_bytes
send_ops-exact ops sk e v =
    let (t, run, h) =
      send_ops-InStep ops (record { socket = sk; wire = []; accepted = [] }) v
        (record { exact = ap offered_bytes e; buffers = subst (All HasBuffer) (sym e) tt }) in
    (t, run, h.exact)
