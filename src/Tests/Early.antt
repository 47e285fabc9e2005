-- ===== src/Tests/Early.antt =====
-- nf/, cppnf/ and zxbnf/, on small inputs.
use kknf.Base.{◌≡◌, refl, List, [], ◌∷◌, ◌++◌, none, some, arith}
use kknf.Base.Map.{number_order}
use kknf.Early.Blocks.{new_block_pool, get_small_block, get_large_block}
use kknf.Early.Blocks.Twice.{get_large_blocks, get_large_block-twice}
use kknf.Early.Send.{Buffer, SendSocket, s_ok, offered_bytes}
use kknf.Early.Send.Stream.{IsBuffer}
use kknf.Early.Send.History.{SendOp, sends, writes, Traffic, send_ops, send_ops-exact}

-- Two large blocks of 8 bytes from 100 on, and one small block.
get_large_block-twice_example :
    let p = new_block_pool 100 200 8 2 4 1 in
    ((get_large_block (get_large_blocks 1 p)).0 ≡ some (record { start = 108; size = 8 }))
    × ((get_large_block (get_large_blocks 3 p)).0 ≡ some (record { start = 108; size = 8 }))
    × ((get_small_block p).0 ≡ none)
get_large_block-twice_example = get_large_block-twice 100 200 8 2 4 1 1 (omega arith)

abbrev nothing_to_send : SendSocket
nothing_to_send = record { send_msgs = []; cur_id = 1; socket_state = s_ok; back = [] }

-- The bytes 2 and 3 of a block of three.
abbrev two_bytes : Buffer
two_bytes = record { bytes = 1 ∷ 2 ∷ 3 ∷ []; head = 1; tail = 3 }

two_bytes-IsBuffer : IsBuffer two_bytes
two_bytes-IsBuffer = record { in_order = omega arith; in_block = omega arith }

-- Two messages, of which three bytes are taken.
abbrev calls_made : List SendOp
calls_made = sends two_bytes ∷ sends two_bytes ∷ writes (some 3) ∷ []

send_ops-exact_example :
    (t : Traffic) × (send_ops calls_made
        (record { socket = nothing_to_send; wire = []; accepted = [] })
      ≡ some t)
    × (t.wire ++ offered_bytes t.socket.send_msgs ≡ t.accepted)
send_ops-exact_example =
    send_ops-exact calls_made nothing_to_send refl
      (two_bytes-IsBuffer, (two_bytes-IsBuffer, (tt, tt)))
