-- ===== src/Aanf/Client.antt =====
-- aanf/asio-based2/include/sync_client.hpp: the client that waits for each reply. Its table of
-- connections is the clients' table of a Skeleton, whose other table stays empty, and FindIdleTCPClientSocket
-- and InsertTCPClientSocket are copies of the Skeleton's. What the system answers is an argument.
pub mod Reply
pub mod Fails
use kknf.Base.{
  ℕ, ◌-◌, List, [], ◌∷◌, ◌++◌, take, drop, Option, none, some, Bool, true, false, ◌||◌, ◌==◌, ltb,
  leb, if◌then◌else◌, length,
}
use kknf.Base.Int.{ℤ, pos, minus_one, minus_two, minus_three, ltb_ℤ, pos_part}
use kknf.Base.Map.{Order, find, assign, erase}
use kknf.Nf.Stream.{ntohl, to_int}
use kknf.Aanf.Tables.{tcp_lv, Skeleton, new_info, write, insert_tcp_client_socket, remove}
use kknf.Aanf.Sync.{Replied, returned, aborted, overran, filled_in}

-- Whether the request is written, the four bytes of the length (none: the read fails), and the bytes
-- that follow before the connection ends.
pub record Exchange : Type 0 where
  pub written : Bool
  pub len_field : Option (ℕ × ℕ × ℕ × ℕ)
  pub incoming : List ℕ

module _ {E : Type 0} where
  -- The check of the length.
  abbrev pub is_invalid : List ℕ → Skeleton E → Bool
  is_invalid bytes s =
      let len = to_int (ntohl bytes) in ltb_ℤ len (pos 0) || ltb s.max_recv_buf_size (pos_part len)

  -- The connected socket with the request in its send buffer.
  unfoldable pub connected : E → List ℕ → ℕ → ℕ → Skeleton E → Skeleton E
  unfolding new_info write
  connected remote buf_to_send fresh now s =
      write fresh
        (record (new_info tcp_lv remote now) { is_connected = true; send_buf = buf_to_send }) s

  module _ ⦃o : Order E⦄ where
    -- Client::DestroySocket; `none` is the failed assertion.
    unfoldable pub destroy_client_socket : ℕ → Skeleton E → Option (Skeleton E × ℤ)
    unfolding write remove
    destroy_client_socket p s =
        let key = (s.info p).remote_endpoint in
        let closed = write p (record (s.info p) { is_open = false }) s in
        if (s.info p).is_client
        then elim (find key s.clients) [
          | none ↦ some (closed, minus_one)
          | some ps ↦
              let left = remove p ps in
              if length left == 0
              then some (record closed { clients = erase key s.clients }, pos 0)
              else some (record closed { clients = assign key left s.clients }, pos 0)
        ]
        else none

    -- An error on a connection of the table.
    unfoldable pub fail : ℤ → ℕ → List ℕ → Skeleton E → Replied E
    unfolding destroy_client_socket
    fail code p buf s = elim (destroy_client_socket p s) [
      | none ↦ aborted
      | some (t, ret) ↦ returned code t buf
    ]

    -- The read of `rest` bytes to `&len_field[4]`, the end of a vector of four; the connection goes to
    -- the table where nothing is left to read.
    unfoldable pub first_data : E → ℕ → ℕ → List ℕ → List ℕ → Skeleton E → Skeleton E → Replied E
    unfolding insert_tcp_client_socket
    first_data remote p rest buf incoming s t =
        if rest == 0
        then returned (pos 0) (insert_tcp_client_socket remote p t) buf
        else if length incoming == 0
        then returned minus_three s buf
        else overran (if leb rest (length incoming) then rest else length incoming)

    unfoldable pub first_len :
        E → ℕ → List ℕ → List ℕ → List ℕ → Skeleton E → Skeleton E → Replied E
    unfolding first_data
    first_len remote p bytes buf_to_fill incoming s t =
        if is_invalid bytes s
        then returned minus_two s buf_to_fill
        else if ltb (ntohl bytes) 4
        then overran (4 - ntohl bytes)
        else first_data remote p (ntohl bytes - 4) (filled_in bytes (ntohl bytes) buf_to_fill)
            incoming s t

    -- Client::ToWriteThenReadSync for an address: a new connection, on the pointer `fresh`. Where it
    -- fails the new socket is gone.
    unfoldable pub first_request :
        E → List ℕ → List ℕ → Bool → Exchange → ℕ → ℕ → Skeleton E → Replied E
    unfolding first_len connected
    first_request remote buf_to_send buf_to_fill connects x fresh now s =
        if connects
        then if x.written
          then elim x.len_field [
            | none ↦ returned minus_one s buf_to_fill
            | some (b0, b1, b2, b3) ↦
                first_len remote fresh (b0 ∷ b1 ∷ b2 ∷ b3 ∷ []) buf_to_fill x.incoming s
                  (connected remote buf_to_send fresh now s)
          ]
          else returned minus_one s buf_to_fill
        else returned minus_one s buf_to_fill

    -- The read of the data to `&buf_to_fill[4]`.
    unfoldable pub next_data : ℕ → ℕ → List ℕ → List ℕ → Skeleton E → Replied E
    unfolding fail
    next_data p rest buf incoming s =
        let came = take rest incoming in
        let filled = take 4 buf ++ came ++ drop (length came) (drop 4 buf) in
        if leb rest (length incoming)
        then returned (pos 0) s filled
        else fail minus_three p filled s

    unfoldable pub next_len : ℕ → List ℕ → List ℕ → List ℕ → Skeleton E → Replied E
    unfolding next_data fail
    next_len p bytes buf_to_fill incoming s =
        if is_invalid bytes s
        then fail minus_two p buf_to_fill s
        else if ltb (ntohl bytes) 4
        then overran (4 - ntohl bytes)
        else next_data p (ntohl bytes - 4) (filled_in bytes (ntohl bytes) buf_to_fill) incoming s

    -- Client::ToWriteThenReadSync for a connection of the table.
    unfoldable pub next_request : ℕ → List ℕ → List ℕ → Exchange → Skeleton E → Replied E
    unfolding next_len fail write
    next_request p buf_to_send buf_to_fill x s =
        let sent = write p (record (s.info p) { send_buf = buf_to_send }) s in
        if x.written
        then elim x.len_field [
          | none ↦ fail minus_one p buf_to_fill sent
          | some (b0, b1, b2, b3) ↦ next_len p (b0 ∷ b1 ∷ b2 ∷ b3 ∷ []) buf_to_fill x.incoming sent
        ]
        else fail minus_one p buf_to_fill sent

-- Client::UDPToWriteThenReadSync: the code, and `buf_to_fill`, whose size reserve() leaves as it is; the
-- bytes past its size are written behind its end. The datagram is none where the read fails.
unfoldable pub udp_to_write_then_read_sync : Bool → Option (List ℕ) → List ℕ → ℤ × List ℕ
udp_to_write_then_read_sync false received buf_to_fill = (minus_one, buf_to_fill)
udp_to_write_then_read_sync true none buf_to_fill = (minus_one, buf_to_fill)
udp_to_write_then_read_sync true (some bytes) buf_to_fill =
    (pos 0, take (length buf_to_fill) bytes ++ drop (length bytes) buf_to_fill)
