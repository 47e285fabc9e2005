-- ===== src/Tests/System.antt =====
-- aanf/asio-based2: the running skeleton and the synchronous client, on small inputs.
use kknf.Base.{
  ℕ, ◌+◌, ◌≡◌, ◌≤◌, ◌≢◌, ◌⊎◌, refl, List, [], ◌∷◌, ◌++◌, none, some, true, false, arith, length,
}
use kknf.Base.Int.{pos}
use kknf.Base.Map.{find, number_order}
use kknf.Nf.Stream.{htonl}
use kknf.Aanf.Tables.{
  Skeleton, tcp_lv, write, new_info, find_idle_tcp_client_socket, insert_tcp_client_socket,
}
use kknf.Aanf.Sync.{returned}
use kknf.Aanf.Requests.{
  connect_then_write, done, Acted, to_write_then_read, to_write_then_call_back, write_or_connect,
  find_socket, to_connect_then_write,
}
use kknf.Aanf.System.{System, Reach, start, later, request}
use kknf.Aanf.System.Exclusive.{under_way, Reach-one_request, Reach-requests_safe}
use kknf.Aanf.Client.{Exchange, connected, first_request, first_len, first_data, next_request}
use kknf.Aanf.Client.Reply.{arrives, next_request-reply}
use kknf.Tests.Aanf.{tables}

abbrev body : List ℕ
body = 8 ∷ 9 ∷ []

next_request-reply_example :
    next_request 1 (5 ∷ []) [] (arrives body (7 ∷ [])) tables
    ≡ returned
        (pos 0)
        (write 1 (record (tables.info 1) { send_buf = 5 ∷ [] }) tables)
        (htonl (4 + length body) ++ body)
next_request-reply_example =
    next_request-reply 1 (5 ∷ []) [] body (7 ∷ []) tables (omega arith) (omega arith)

-- The first reply is just a length; the second request is not written.
abbrev first : Exchange
first = record { written = true; len_field = some (0, 0, 0, 4); incoming = [] }

abbrev second : Exchange
second = record { written = false; len_field = none; incoming = [] }

abbrev four : List ℕ
four = 0 ∷ 0 ∷ 0 ∷ 4 ∷ []

abbrev with_connection : Skeleton ℕ
with_connection = insert_tcp_client_socket 81 7 (connected 81 (5 ∷ []) 7 60 tables)

first_done :
    first_request 81 (5 ∷ []) [] true first 7 60 tables ≡ returned (pos 0) with_connection four
unfolding first_request first_len first_data
first_done = refl

no_idle : find_idle_tcp_client_socket 81 tables ≡ none
unfolding find_idle_tcp_client_socket find
no_idle = refl

-- Nothing is connected, and then a request goes to the address 81.
abbrev idle : System ℕ
idle = record {
  skeleton = record tables { info = λ p. new_info tcp_lv 0 0; servers = []; clients = [] };
  pending = [];
}

abbrev requesting : Skeleton ℕ
requesting =
    insert_tcp_client_socket 81 7 (
      write 7 (record (new_info tcp_lv 81 60) { send_buf = 5 ∷ []; is_client = true })
        idle.skeleton)

requested :
    to_write_then_read 81 tcp_lv (5 ∷ []) false 7 60 idle.skeleton
    ≡ done (pos 0) requesting ((connect_then_write (5 ∷ []), 7) ∷ [])
unfolding to_write_then_read write_or_connect find_socket to_connect_then_write
    find_idle_tcp_client_socket find
requested = refl

abbrev busy : System ℕ
busy = record { skeleton = requesting; pending = (connect_then_write (5 ∷ []), 7) ∷ [] }

reached : Reach idle busy
reached = later start (
    request 81 tcp_lv (5 ∷ []) 7 60 (pos 0) requesting ((connect_then_write (5 ∷ []), 7) ∷ [])
      (tt, tt, tt) requested)

Reach-one_request_example :
    (((requesting.info 7).is_client ≡ false) ⊎ (under_way 7 busy ≤ 1))
    × ((find_idle_tcp_client_socket 81 requesting ≢ some 7)
        ⊎ ((requesting.info 7).is_client ≡ true) × (under_way 7 busy ≡ 0))
unfolding new_info
Reach-one_request_example = Reach-one_request idle busy 81 7 (refl, refl, refl, λ p. refl) reached

Reach-requests_safe_example :
    (to_write_then_read 81 tcp_lv (6 ∷ []) false 8 70 requesting ≢ Acted.aborted)
    × (to_write_then_call_back 81 tcp_lv (6 ∷ []) true 8 70 requesting ≢ Acted.aborted)
unfolding new_info
Reach-requests_safe_example =
    Reach-requests_safe idle busy 81 tcp_lv (6 ∷ []) true 8 70 (refl, refl, refl, λ p. refl) reached
