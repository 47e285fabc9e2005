-- ===== src/Tests/Libevent.antt =====
-- aanf/libevent-based/src, on small inputs.
use kknf.Base.{
  ℕ, ◌≡◌, ◌≤◌, ◌<◌, ◌+◌, refl, List, [], ◌∷◌, ◌++◌, none, some, true, false, arith, length,
  get_elem?, set, All, ◌⊎◌, ◌==◌,
}
use kknf.Base.Int.{pos, minus_two}
use kknf.Nf.Stream.{htonl}
use kknf.Libevent.Bin.{ReadAnswer, returned}
use kknf.Libevent.Bin.Calls.{calls, Gives}
use kknf.Libevent.Bin.Packet.{calls-packet}
use kknf.Libevent.Line.{line_code, read_lines}
use kknf.Libevent.Line.Lines.{waiting, read_lines-hands_on}
use kknf.Libevent.Write.{SendList, WritevAnswer, write_handler}
use kknf.Libevent.Write.Blocks.{write_handler-sends_again}
use kknf.Libevent.Queues.{sizes_of, push_message, new_queues}
use kknf.Libevent.Queues.Shortest.{push_message-shortest}
use kknf.Libevent.Queues.Level.{push_all, push_all-level}
use kknf.Libevent.Callback.{
  EventFlags, HandlerAnswers, CalledSocket, established, socket_callback,
  socket_callback-ignores_events,
}

-- Each read() gives one byte.
abbrev byte : ReadAnswer
byte = record { most = 1; errno = 0 }

abbrev bytes : List (ReadAnswer × ReadAnswer)
bytes = (byte, byte) ∷ (byte, byte) ∷ (byte, byte) ∷ (byte, byte) ∷ (byte, byte) ∷ (byte, byte) ∷ []

bytes-Gives : All Gives bytes
bytes-Gives =
    let g : Gives (byte, byte) = (omega arith, omega arith) in (g, (g, (g, (g, (g, (g, tt))))))

-- A packet with two bytes of data, and a byte after it.
calls-packet_example :
    calls 1024
      (some 16)
      bytes
      (record { len_bytes = []; recv_mb = none })
      (htonl 6 ++ (8 ∷ 9 ∷ []) ++ (7 ∷ []))
    ≡ returned
        (pos 1)
        (record {
          len_bytes = htonl 6;
          recv_mb = some (record { used = htonl 6 ++ (8 ∷ 9 ∷ []); len = 16 });
        })
        (7 ∷ [])
calls-packet_example =
    calls-packet 1024 16 bytes (8 ∷ 9 ∷ []) (7 ∷ []) (omega arith) (omega arith) (omega arith)
      (omega arith) bytes-Gives (omega arith)

-- "a" waits; "b", a line feed and "c" come, in front of a byte that was there before.
read_lines-hands_on_example :
    (block' : List ℕ) × (read_lines
        (some 8)
        (98 ∷ 10 ∷ 99 ∷ [])
        0
        (waiting (97 ∷ []) (0 ∷ 0 ∷ 0 ∷ 5 ∷ 0 ∷ []))
      ≡ line_code (pos 1) (record {
        block = (99 ∷ 5 ∷ []) ++ block';
        used_num = 2;
        lines = some (97 ∷ 98 ∷ 10 ∷ []);
      }))
read_lines-hands_on_example =
    read_lines-hands_on (97 ∷ []) [] (99 ∷ []) (0 ∷ 0 ∷ 0 ∷ []) (0 ∷ []) 98 5 0 8 (omega arith)
      (omega arith) ((λ e. absurd (omega (arith, e))), tt) (λ e. absurd (omega (arith, e)))

-- Of a block of three bytes two are taken, and then one.
abbrev two_taken : WritevAnswer
two_taken = record { takes = 2; errno_after = 0; unset_len = 0 }

abbrev one_taken : WritevAnswer
one_taken = record { takes = 1; errno_after = 0; unset_len = 0 }

write_handler-sends_again_example :
    (q : SendList) × (write_handler two_taken
        (record { blocks = (1 ∷ 2 ∷ 3 ∷ []) ∷ []; front_pos = 0 })
      ≡ some (record { write_code = pos 0; after = q; sent_bytes = 1 ∷ 2 ∷ [] }))
    × (write_handler one_taken q
        ≡ some (record {
          write_code = pos 0;
          after = record { blocks = (1 ∷ 2 ∷ 3 ∷ []) ∷ []; front_pos = 1 };
          sent_bytes = 1 ∷ [];
        }))
write_handler-sends_again_example =
    write_handler-sends_again (1 ∷ 2 ∷ 3 ∷ []) [] two_taken one_taken (omega arith) (omega arith)
      (omega arith) (omega arith)

-- Two queues with one message and none.
push_message-shortest_example :
    let queues : List (List ℕ) = (1 ∷ []) ∷ [] ∷ [] in
    (q : List ℕ) × (which : ℕ) × (get_elem? queues which ≡ some q)
    × All (λ q'. length q ≤ length q') queues
    × (((length q < 2)
          × (push_message 2 7 (sizes_of queues) queues
              ≡ some (pos 0, set queues which (q ++ 7 ∷ []), length q == 0)))
        ⊎ (All (λ q'. length q' ≡ 2) queues
            × (push_message 2 7 (sizes_of queues) queues ≡ some (minus_two, queues, false))))
push_message-shortest_example =
    push_message-shortest 2 7 (1 ∷ []) ([] ∷ []) (omega arith) (omega arith, (omega arith, tt))

new_two : new_queues {Message = ℕ} (pos 1) (pos 2) ≡ some ([] ∷ [] ∷ [], [] ∷ [])
unfolding new_queues
new_two = refl

push_all-level_example :
    (m : ℕ) × All
      (λ (q : List ℕ). (m ≤ length q) × (length q ≤ m + 1) × (length q ≤ 2))
      (push_all 2 (4 ∷ 5 ∷ 6 ∷ []) ([] ∷ [] ∷ []))
push_all-level_example =
    push_all-level (pos 1) (pos 2) 2 (4 ∷ 5 ∷ 6 ∷ []) ([] ∷ [] ∷ []) ([] ∷ []) new_two (omega arith)

abbrev open_socket : CalledSocket
open_socket = record {
  status = established;
  is_server = true;
  want_to_read = true;
  want_to_write = false;
}

abbrev can_read : EventFlags
can_read = record { ev_read = true; ev_write = false; ev_other = false }

abbrev can_write : EventFlags
can_write = record { ev_read = false; ev_write = true; ev_other = false }

abbrev all_well : HandlerAnswers
all_well = record {
  read_result = pos 1;
  process_result = pos 0;
  write_result = pos 1;
  reconnect_result = pos 0;
  has_error = false;
}

socket_callback-ignores_events_example :
    socket_callback open_socket can_read all_well ≡ socket_callback open_socket can_write all_well
socket_callback-ignores_events_example =
    socket_callback-ignores_events open_socket can_read can_write all_well
