-- ===== src/Asio.antt =====
-- aanf/asio-based/include/server.hpp: the first AANF, whose sockets have a flag for reading and one
-- for writing. client.hpp has the same code without the listening side. The sources do not compile as
-- they stand; where an expression names nothing, it is read by the declaration that it means, and
-- `if (it->first)` after find() as the test that the key is there.
pub mod Idle
use kknf.Base.{
  ℕ, ◌+◌, ◌-◌, List, [], ◌∷◌, ◌++◌, Option, none, some, Bool, true, false, not, ◌&&◌, ◌||◌, ltb,
  leb, ◌==◌, if◌then◌else◌,
}
use kknf.Base.Int.{ℤ, pos, negsuc, minus_one, leb_ℤ, ltb_ℤ, ◌-ℤ◌}
use kknf.Base.Map.{Order, Map, find, assign, erase}

-- A SocketInfo: its flags, the far end, and the capacity of `recv_buf_`.
pub record ConnectionInfo (E : Type 0) : Type 0 where
  pub in_read : Bool
  pub in_write : Bool
  pub client_side : Bool
  pub has_connected : Bool
  pub remote_point : E
  pub recv_capacity : ℕ

-- The Server: its sockets by their pointers, and its tables.
pub record AsioServer (E : Type 0) : Type 0 where
  pub sockets : ℕ → ConnectionInfo E
  pub server_map : Map E ℕ
  pub client_map : Map E (List ℕ)
  pub closed_sockets : List ℕ
  pub max_recv_size : ℕ
  pub init_recv_size : ℕ

-- The asynchronous operation that a call starts.
pub data AsioOp : Type 0 where
  async_connect async_write async_read_len async_accept no_op : AsioOp
  async_read_data : ℤ → AsioOp

-- What a call comes to; `none` is a failed assertion, exit() or an exception.
abbrev pub AsioRan : Type 0 → Type 0 → Type 0
AsioRan E A = Option (AsioServer E × A)

-- `list::remove` of a pointer.
unfoldable pub remove_socket : ℕ → List ℕ → List ℕ
remove_socket p [] = []
remove_socket p (q ∷ qs) = let rest = remove_socket p qs in if q == p then rest else q ∷ rest

-- SocketInfo::SocketInfo, for a socket to or from `e`.
unfoldable pub new_connection : {E : Type 0} → E → ConnectionInfo E
new_connection e = record {
  in_read = false;
  in_write = false;
  client_side = false;
  has_connected = false;
  remote_point = e;
  recv_capacity = 0;
}

-- The answer of DestroySocket is not looked at.
abbrev pub with_no_op : {E : Type 0} → AsioRan E ℤ → AsioRan E AsioOp
with_no_op none = none
with_no_op (some (after, code)) = some (after, no_op)

module _ {E : Type 0} where
  unfoldable pub set_info : ℕ → ConnectionInfo E → AsioServer E → AsioServer E
  set_info p i s = record s { sockets = λ q. if q == p then i else s.sockets q }

  -- Server::FindIdleTCPClientSocket, along the list of a key.
  unfoldable pub first_unused : AsioServer E → List ℕ → Option ℕ
  first_unused s [] = none
  first_unused s (p ∷ ps) =
      let rest = first_unused s ps in
      if (s.sockets p).in_write || (s.sockets p).in_read then rest else some p

  unfoldable pub idle_of : AsioServer E → Option (List ℕ) → Option ℕ
  unfolding first_unused
  idle_of s none = none
  idle_of s (some ps) = first_unused s ps

  -- Server::ToReadLThenReadV, Server::ToWriteThenRead and Server::ToWriteThenClose start the operation
  -- and no more.
  unfoldable pub start_read_len : ℕ → AsioServer E → AsioServer E × AsioOp
  start_read_len p s = (s, async_read_len)

  unfoldable pub begin_write : ℕ → AsioServer E → AsioServer E × AsioOp
  begin_write p s = (s, async_write)

  -- Server::HandleWriteThenReadL.
  unfoldable pub wrote_then_read_len : ℕ → AsioServer E → AsioRan E AsioOp
  unfolding set_info
  wrote_then_read_len p s =
      let i = s.sockets p in
      if i.in_write && not i.in_read && i.has_connected
      then some (set_info p (record i { in_write = false; in_read = true }) s, async_read_len)
      else none

  module _ ⦃o : Order E⦄ where
    -- Server::FindIdleTCPClientSocket.
    unfoldable pub find_idle : E → AsioServer E → Option ℕ
    unfolding idle_of
    find_idle key s = idle_of s (find key s.client_map)

    -- Server::InsertTCPClientSocket.
    unfoldable pub insert_client : E → ℕ → AsioServer E → Option (AsioServer E)
    insert_client key p s =
        if (s.sockets p).in_write || (s.sockets p).in_read
        then none
        else some (record s {
          client_map = elim (find key s.client_map) [
            | none ↦ assign key (p ∷ []) s.client_map
            | some ps ↦ assign key (ps ++ p ∷ []) s.client_map
          ];
        })

    -- Server::InsertTCPServerSocket.
    unfoldable pub insert_server : E → ℕ → AsioServer E → AsioServer E × ℤ
    insert_server key p s = elim (find key s.server_map) [
      | some q ↦ (s, minus_one)
      | none ↦ (record s { server_map = assign key p s.server_map }, pos 0)
    ]

    -- Where a socket leaves the tables.
    unfoldable pub leave_tables : ℕ → AsioServer E → AsioServer E × ℤ
    unfolding remove_socket
    leave_tables p s =
        let key = (s.sockets p).remote_point in
        if (s.sockets p).client_side
        then elim (find key s.client_map) [
          | none ↦ (s, minus_one)
          | some ps ↦
              (record s { client_map = assign key (remove_socket p ps) s.client_map }, pos 0)
        ]
        else (record s { server_map = erase key s.server_map }, pos 0)

    -- Server::DestroySocket.
    unfoldable pub destroy_connection : ℕ → AsioServer E → AsioRan E ℤ
    unfolding leave_tables
    destroy_connection p s =
        if (s.sockets p).in_read || (s.sockets p).in_write
        then some (leave_tables p (record s { closed_sockets = p ∷ s.closed_sockets }))
        else none

    -- The handlers end with the socket destroyed.
    unfoldable pub drop_connection : ℕ → AsioServer E → AsioRan E AsioOp
    unfolding destroy_connection
    drop_connection p s = with_no_op (destroy_connection p s)

    -- Server::HandleConnectThenWrite, whatever the error.
    unfoldable pub connected_then_write : ℕ → AsioServer E → AsioRan E AsioOp
    unfolding set_info insert_client
    connected_then_write p s =
        let known = set_info p (record (s.sockets p) { has_connected = true }) s in
        elim (insert_client (s.sockets p).remote_point p known) [
          | none ↦ none
          | some t ↦ some (set_info p (record (t.sockets p) { in_write = true }) t, async_write)
        ]

    -- Server::HandleAccept; `fails` is its error.
    unfoldable pub accepted_then_read : Bool → ℕ → AsioServer E → AsioRan E (AsioOp × AsioOp)
    unfolding set_info insert_server start_read_len
    accepted_then_read true p s = none
    accepted_then_read false p s =
        let (inserted, code) = insert_server (s.sockets p).remote_point p s in
        if ltb_ℤ code (pos 0)
        then none
        else let reading =
            set_info p (record (s.sockets p) { in_read = true; recv_capacity = s.init_recv_size })
              inserted in
          let (after, op) = start_read_len p reading in some (after, (op, async_accept))

    -- Server::HandleReadLThenReadV, with the length that has come. A length below 0 is over any
    -- capacity as a size_t, and reserve() throws.
    unfoldable pub len_then_data : Bool → ℤ → ℕ → AsioServer E → AsioRan E AsioOp
    unfolding drop_connection set_info
    len_then_data true len p s = drop_connection p s
    len_then_data false len p s =
        if ltb_ℤ (pos s.max_recv_size) len then drop_connection p s else elim len [
          | negsuc n ↦ none
          | pos n ↦ some (
            if ltb (s.sockets p).recv_capacity n
                then set_info p (record (s.sockets p) { recv_capacity = n }) s
                else s,
            async_read_data (pos n -ℤ pos 4),
          )
        ]

    -- Server::HandleReadVThenProcess: without an error it goes on to the assertion on the length and to
    -- ProcessData, which is not virtual and fails an assertion, so what follows is not reached.
    unfoldable pub data_then_process : Bool → ℕ → AsioServer E → AsioRan E AsioOp
    unfolding set_info
    data_then_process fails p s =
        let i = s.sockets p in
        let read = set_info p (record i { in_read = false }) s in
        if i.in_read && not i.in_write && fails then some (read, no_op) else none

    -- Server::HandleWriteThenClose.
    unfoldable pub wrote_then_close : Bool → ℕ → AsioServer E → AsioRan E AsioOp
    unfolding drop_connection
    wrote_then_close fails p s =
        let i = s.sockets p in
        if i.client_side && i.in_write && not i.in_read && i.has_connected
        then if fails then drop_connection p s else some (s, no_op)
        else none
