-- ===== src/Tests/Aanf.antt =====
-- aanf/asio-based2 on small inputs, where an address is a number.
use kknf.Base.{
  ℕ, ◌-◌, ◌≡◌, ◌≤◌, ◌↔◌, refl, List, [], ◌∷◌, some, none, true, false, if◌then◌else◌, ◌==◌,
}
use kknf.Base.Int.{pos}
use kknf.Base.Map.{find, number_order}
use kknf.Aanf.Udp.{UdpSocketInfo, new_udp_socket_info}
use kknf.Aanf.Udp.Repeats.{Event, write, sent}
use kknf.Aanf.Tables.{Skeleton, tcp_lv, find_idle_tcp_client_socket, sweep_server_socket}
use kknf.Aanf.Tables.Servers.{Entry, sweep_server_socket-expires}
use kknf.Aanf.Sync.{
  Answers, returned, to_write_then_read_sync, exchange, connect_to, read_len, read_data,
}

abbrev udp_socket : UdpSocketInfo ℕ
udp_socket = new_udp_socket_info

abbrev events : List (Event ℕ)
events = write (2, 5 ∷ []) ∷ sent ∷ sent ∷ []

-- Pointer 1 is an idle client socket to the address 80, every other is a server socket from 90.
abbrev pub tables : Skeleton ℕ
tables = record {
  info = λ p.
      if p == 1
      then record {
        type_ = tcp_lv;
        remote_endpoint = 80;
        is_open = true;
        create_time = 0;
        access_time = 0;
        in_use = false;
        is_client = true;
        is_connected = true;
        recv_buf = [];
        recv_buf_filled = 0;
        send_buf = [];
      }
      else record {
        type_ = tcp_lv;
        remote_endpoint = 90;
        is_open = true;
        create_time = 0;
        access_time = 10;
        in_use = true;
        is_client = false;
        is_connected = true;
        recv_buf = [];
        recv_buf_filled = 0;
        send_buf = [];
      };
  servers = (90, 2) ∷ [];
  clients = (80, 1 ∷ []) ∷ [];
  init_recv_buf_size = 1024;
  max_recv_buf_size = 1000;
}

sweep_server_socket-expires_example :
    Entry 90 2 (sweep_server_socket 50 20 tables).servers
    ↔ (Entry 90 2 tables.servers × (50 - 20 ≤ (tables.info 2).access_time))
sweep_server_socket-expires_example = sweep_server_socket-expires 50 20 90 2 tables

abbrev answers : Answers
answers = record {
  connected = true;
  written = true;
  len_field = some (0, 0, 0, 4);
  arrived = 0;
  fresh = 7;
  now = 60;
}

abbrev reply : List ℕ
reply = 0 ∷ 0 ∷ 0 ∷ 4 ∷ []

-- No idle socket to the address 81: a new connection on pointer 7.
abbrev after_connect : Skeleton ℕ
after_connect =
    let s = connect_to 81 tcp_lv answers tables in
    record s { info = λ q. if q == 7 then record (s.info 7) { send_buf = 9 ∷ [] } else s.info q }

no_idle : find_idle_tcp_client_socket 81 tables ≡ none
unfolding find_idle_tcp_client_socket find
no_idle = refl

connected_done :
    to_write_then_read_sync 81 (9 ∷ []) tcp_lv [] answers tables
    ≡ returned (pos 0) after_connect reply
unfolding to_write_then_read_sync exchange read_len read_data find_idle_tcp_client_socket find
    connect_to
connected_done = refl
