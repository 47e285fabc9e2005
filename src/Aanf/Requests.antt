-- ===== src/Aanf/Requests.antt =====
-- aanf/asio-based2/include/skeleton.hpp: requests and answers that are written while the program goes
-- on, and the handlers of connect() and of the writes. An operation that has been started is listed
-- with the socket that it works on.
pub mod Close
use kknf.Base.{ℕ, List, [], ◌∷◌, Option, none, some, Bool, true, false, ◌&&◌, ◌||◌, if◌then◌else◌}
use kknf.Base.Int.{ℤ, pos, minus_one}
use kknf.Base.Map.{Order}
use kknf.Aanf.Tables.{
  SocketType, tcp_lv, tcp_http, Skeleton, new_info, write, touch, find_tcp_server_socket,
  find_idle_tcp_client_socket, insert_tcp_client_socket, destroy_socket,
}

-- The handler that runs when an operation is done; connecting has a copy of the send buffer.
pub data Op : Type 0 where
  connect_then_write : List ℕ → Op
  write_then_read_l : Op
  read_l_then_read_v : Op
  read_v_then_process : Op
  write_then_read_http_head : Op
  read_http_head : Op
  read_http_content : Op
  write_then_close : Op
  anything_then_nothing : Op

-- How a call ends: with its answer, the tables and what it has started, or by a failed assertion or
-- exit(1).
pub data Acted (E R : Type 0) : Type 0 where
  done : R → Skeleton E → List (Op × ℕ) → Acted E R
  aborted : Acted E R

module _ {E R : Type 0} where
  -- The write of the send buffer, for the types that are supported.
  unfoldable pub start_write : R → SocketType → ℕ → Skeleton E → Acted E R
  start_write r tcp_http p s = done r s ((write_then_read_http_head, p) ∷ [])
  start_write r tcp_lv p s = done r s ((write_then_read_l, p) ∷ [])
  start_write r _ p s = aborted

module _ {E : Type 0} where
  -- Skeleton::ToWriteThenRead for a socket.
  unfoldable pub write_then_read : ℕ → List ℕ → Skeleton E → Acted E ℤ
  unfolding start_write write
  write_then_read p buf_to_send s =
      let i = s.info p in
      if i.is_client && i.in_use
      then aborted
      else start_write (pos 0) i.type_ p
          (write p (record i { in_use = i.is_client || i.in_use; send_buf = buf_to_send }) s)

  module _ ⦃o : Order E⦄ where
    -- Skeleton::ToConnectThenWrite, on the new pointer `fresh`.
    unfoldable pub to_connect_then_write : E → SocketType → List ℕ → ℕ → ℕ → Skeleton E → Acted E ℤ
    unfolding new_info write insert_tcp_client_socket
    to_connect_then_write remote type_ buf_to_send fresh now s =
        done (pos 0)
          (insert_tcp_client_socket remote fresh (
            write fresh
              (record (new_info type_ remote now) { send_buf = buf_to_send; is_client = true }) s))
          ((connect_then_write buf_to_send, fresh) ∷ [])

    -- The socket that a request or an answer goes out on.
    unfoldable pub find_socket : E → Bool → Skeleton E → Option ℕ
    unfolding find_tcp_server_socket find_idle_tcp_client_socket
    find_socket remote i_am_server s =
        if i_am_server
        then find_tcp_server_socket remote s
        else find_idle_tcp_client_socket remote s

    -- On the socket that has been found, or on a new connection.
    unfoldable pub write_or_connect :
        Option ℕ → E → SocketType → List ℕ → Bool → ℕ → ℕ → Skeleton E → Acted E ℤ
    unfolding write_then_read to_connect_then_write
    write_or_connect (some p) remote type_ buf_to_send i_am_server fresh now s =
        write_then_read p buf_to_send s
    write_or_connect none remote type_ buf_to_send i_am_server fresh now s =
        if i_am_server
        then done minus_one s []
        else to_connect_then_write remote type_ buf_to_send fresh now s

    -- Skeleton::ToWriteThenRead for an address.
    unfoldable pub to_write_then_read :
        E → SocketType → List ℕ → Bool → ℕ → ℕ → Skeleton E → Acted E ℤ
    unfolding write_or_connect find_socket
    to_write_then_read remote type_ buf_to_send i_am_server fresh now s =
        write_or_connect (find_socket remote i_am_server s) remote type_ buf_to_send i_am_server
          fresh now s

    -- Skeleton::ToWriteThenCallBack, which looks for a client's socket either way.
    unfoldable pub to_write_then_call_back :
        E → SocketType → List ℕ → Bool → ℕ → ℕ → Skeleton E → Acted E ℤ
    unfolding write_or_connect find_idle_tcp_client_socket
    to_write_then_call_back remote type_ buf_to_send i_am_server fresh now s =
        write_or_connect (find_idle_tcp_client_socket remote s) remote type_ buf_to_send i_am_server
          fresh now s

    -- Skeleton::ToWriteThenClose, which logs through the null pointer where no socket is found.
    unfoldable pub to_write_then_close : E → List ℕ → Bool → Skeleton E → Acted E ℤ
    unfolding find_socket write
    to_write_then_close remote buf_to_send i_am_server s = elim (find_socket remote i_am_server s) [
      | none ↦ aborted
      | some p ↦
          done (pos 0) (write p (record (s.info p) { send_buf = buf_to_send }) s)
            ((write_then_close, p) ∷ [])
    ]

    -- Skeleton::HandleConnectThenWrite; the second mark is an error of local_endpoint().
    unfoldable pub handle_connect_then_write :
        Bool → Bool → ℕ → List ℕ → ℕ → Skeleton E → Acted E Unit
    unfolding start_write write touch insert_tcp_client_socket destroy_socket
    handle_connect_then_write true no_end now buf_to_send p s = done tt (destroy_socket p s).0 []
    handle_connect_then_write false true now buf_to_send p s =
        done tt (destroy_socket p (touch now p s)).0 []
    handle_connect_then_write false false now buf_to_send p s =
        let i = (touch now p s).info p in
        if i.in_use
        then aborted
        else start_write tt i.type_ p (
            insert_tcp_client_socket i.remote_endpoint p (
              write p (record i { is_connected = true; in_use = true; send_buf = buf_to_send })
                (touch now p s)))

    -- Skeleton::HandleWriteThenClose.
    unfoldable pub handle_write_then_close : ℕ → Skeleton E → Acted E Unit
    unfolding destroy_socket
    handle_write_then_close p s = done tt (destroy_socket p s).0 []

    -- Skeleton::HandleAnythingThenNothing.
    unfoldable pub handle_anything_then_nothing : Bool → ℕ → ℕ → Skeleton E → Acted E Unit
    unfolding touch destroy_socket
    handle_anything_then_nothing true now p s = done tt (destroy_socket p s).0 []
    handle_anything_then_nothing false now p s = done tt (touch now p s) []
