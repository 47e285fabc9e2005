-- ===== src/Libevent/Sockets.antt =====
-- aanf/libevent-based/src/socket_pool.cc: how sockets are made and entered in the table of the
-- SocketPool. `E` stands for SocketKey, an address, a port and a type, with `key` its constructor and
-- an order, which the source does not give.
pub mod Enters
use kknf.Base.{ℕ, List, [], ◌∷◌, ◌++◌, Option, none, some}
use kknf.Base.Int.{ℤ, pos}
use kknf.Base.Map.{Order, Map, find, assign}

pub data PoolType : Type 0 where
  t_tcp_listen t_tcp_client t_tcp_server t_udp_client t_udp_server : PoolType

pub data DataFormat : Type 0 where
  df_bin df_http df_line df_usr_1 df_usr_2 df_usr_3 : DataFormat

-- Which class a Socket is an object of.
pub data SocketClass : Type 0 where
  bin_tcp_socket line_tcp_socket http_tcp_socket : SocketClass

-- A Socket of the pool: its class, its type, its own end and the far end.
pub record PoolSocket (A : Type 0) : Type 0 where
  pub class_ : SocketClass
  pub type_of : PoolType
  pub my_end : A
  pub peer_end : A

-- The class for a data format; `none` where the switch has no case.
unfoldable pub class_for : DataFormat → Option SocketClass
class_for df_bin = some bin_tcp_socket
class_for df_line = some line_tcp_socket
class_for df_http = some http_tcp_socket
class_for other = none

module _ {A E : Type 0} ⦃o : Order E⦄ (key : A → PoolType → E) (blank : E) where
  -- The key in AddSocket: the own end of a listening socket, the far end of a connection; for other
  -- types it is not set (`blank`).
  unfoldable pub key_by_type : PoolType → PoolSocket A → E
  key_by_type t_tcp_client sk = key sk.peer_end t_tcp_client
  key_by_type t_tcp_server sk = key sk.peer_end t_tcp_server
  key_by_type t_tcp_listen sk = key sk.my_end t_tcp_listen
  key_by_type other sk = blank

  -- The body of AddSocket for a key and what find() gives for it.
  unfoldable pub add_to :
      E
      → PoolSocket A
      → Map E (List (PoolSocket A))
      → Option (List (PoolSocket A))
      → Map E (List (PoolSocket A)) × ℤ
  add_to k sk table (some sks) = (assign k (sks ++ sk ∷ []) table, pos 1)
  add_to k sk table none = (assign k (sk ∷ []) table, pos 0)

  -- SocketPool::AddSocket.
  unfoldable pub add_socket :
      PoolSocket A → Map E (List (PoolSocket A)) → Map E (List (PoolSocket A)) × ℤ
  unfolding key_by_type add_to
  add_socket sk table =
      add_to (key_by_type sk.type_of sk) sk table (find (key_by_type sk.type_of sk) table)

  -- A socket of the class that the switch on the data format makes, prepared and added. What the
  -- preparation answers is not looked at: `prepare` gives the two ends that it leaves in the socket.
  unfoldable pub make_and_add :
      PoolType
      → A × A
      → Option SocketClass
      → Map E (List (PoolSocket A))
      → Map E (List (PoolSocket A)) × Option (PoolSocket A)
  unfolding add_socket
  make_and_add type ends none table = (table, none)
  make_and_add type ends (some c) table =
      let sk : PoolSocket A = record {
        class_ = c;
        type_of = type;
        my_end = ends.0;
        peer_end = ends.1;
      } in
      ((add_socket sk table).0, some sk)

  -- SocketPool::CreateClientSocket: the table, and the socket if there is one.
  unfoldable pub create_client_socket :
      PoolType
      → DataFormat
      → A × A
      → Map E (List (PoolSocket A))
      → Map E (List (PoolSocket A)) × Option (PoolSocket A)
  unfolding make_and_add class_for
  create_client_socket t_tcp_client format ends table =
      make_and_add t_tcp_client ends (class_for format) table
  create_client_socket other format ends table = (table, none)

  -- SocketPool::CreateServerSocket.
  unfoldable pub create_server_socket :
      PoolType
      → DataFormat
      → A × A
      → Map E (List (PoolSocket A))
      → Map E (List (PoolSocket A)) × Option (PoolSocket A)
  unfolding make_and_add class_for
  create_server_socket t_tcp_server format ends table =
      make_and_add t_tcp_server ends (class_for format) table
  create_server_socket other format ends table = (table, none)
