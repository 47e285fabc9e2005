-- ===== src/Nf/Socket.antt =====
-- all-sync/socket.hpp: a descriptor with its two ends. The setters are updates of the fields. The
-- results of fcntl and setsockopt are arguments.
use kknf.Base.{ℕ, List, [], Option, none, some, Bool, if◌then◌else◌}
use kknf.Base.Int.{ℤ, pos, minus_one}

-- `my_ip_` and `peer_ip_` are the addresses as the system keeps them, as numbers.
pub record Socket : Type 0 where
  pub sk : ℕ
  pub my_ipstr : List ℕ
  pub my_ip : ℕ
  pub my_port : ℕ
  pub peer_ipstr : List ℕ
  pub peer_ip : ℕ
  pub peer_port : ℕ
  pub id : ℕ
  pub type_ : ℕ

-- No listen socket belongs to it.
abbrev pub no_id : ℕ
no_id = 0xffffffff

-- The constructor, on a descriptor that the system has given.
unfoldable pub new_socket : ℕ → Socket
new_socket sk = record {
  sk = sk;
  my_ipstr = [];
  my_ip = 0;
  my_port = 0;
  peer_ipstr = [];
  peer_ip = 0;
  peer_port = 0;
  id = no_id;
  type_ = 0;
}

-- The numbers of `type_`.
abbrev pub notype : ℕ
notype = 0

abbrev pub tcp_listen : ℕ
tcp_listen = 1

abbrev pub tcp_server : ℕ
tcp_server = 2

abbrev pub udp : ℕ
udp = 3

abbrev pub local : ℕ
local = 4

abbrev pub tcp_client : ℕ
tcp_client = 5

-- Socket::Close.
abbrev pub close_socket : ℤ
close_socket = pos 0

-- Socket::SetNonBlock, with the flags that F_GETFL gives (none: -1) and whether F_SETFL takes the new
-- ones.
abbrev pub set_non_block : Option ℕ → Bool → ℤ
set_non_block none taken = minus_one
set_non_block (some flags) taken = if taken then pos 0 else minus_one

-- Socket::SetReuse, with the value of the option that is set, which is 0.
abbrev pub set_reuse : Bool → ℤ × ℕ
set_reuse taken = (if taken then pos 0 else minus_one, 0)
