-- ===== src/Tests/Http.antt =====
-- aanf/asio-based2: HTTP packets and accepted connections, on small inputs.
use kknf.Base.{
  ℕ, ◌+◌, ◌≡◌, ◌≤◌, ◌↔◌, ◌⊎◌, refl, List, [], ◌∷◌, ◌++◌, Option, none, some, true, false, arith,
  length, take,
}
use kknf.Base.Int.{ℤ, pos, ◌≤ℤ◌, ◌+ℤ◌, ◌-ℤ◌}
use kknf.Aanf.Tables.{Skeleton, tcp_lv, write, touch, find_tcp_server_socket}
use kknf.Aanf.Read.{processed, nothing}
use kknf.Aanf.Http.{
  empty_line, length_key, search_key, until, reads_on, grow, content_length, read_content,
  after_content, handle_read_http_head, handle_read_http_content, answer_continue,
}
use kknf.Aanf.Http.Bounds.{packet_size, handle_read_http_head-fits}
use kknf.Aanf.Http.Content.{receive, handle_read_http_content-loses_rest}
use kknf.Aanf.Requests.{Op, aborted}
use kknf.Aanf.Accept.{AcceptorInfo, handle_accept}
use kknf.Aanf.Accept.Serves.{IsFirstRead, Serves, handle_accept-Serves}
use kknf.Base.Map.{number_order}
use kknf.Tests.Aanf.{tables}

-- "Content-Length 3", and the empty line.
abbrev head : List ℕ
head = length_key ++ 51 ∷ empty_line

-- Pointer 1 is a client's socket in use that has read the head.
abbrev with_head : Skeleton ℕ
with_head = record tables {
  info = λ p. record (tables.info 1) { in_use = true; recv_buf = head; recv_buf_filled = 20 };
}

abbrev cast : List ℕ → Option ℤ
cast digits = some (pos 3)

abbrev process : List ℕ → ℤ
process packet = pos 1

abbrev grown : Skeleton ℕ
grown = grow (pos 23) 1 (touch 70 1 with_head)

head_read : handle_read_http_head false 20 cast process 70 1 with_head ≡ reads_on grown 20 3 false
unfolding handle_read_http_head read_content content_length search_key until answer_continue ◌+ℤ◌
    ◌-ℤ◌
head_read = refl

handle_read_http_head-fits_example :
    (total : ℤ) × (packet_size cast head ≡ some total)
    × ((20 + 3 ≤ length (grown.info 1).recv_buf) ↔ (pos 20 ≤ℤ total))
handle_read_http_head-fits_example =
    handle_read_http_head-fits cast process 20 70 1 20 3 false with_head grown (omega arith)
      (omega arith) (omega arith) head_read

abbrev content : List ℕ
content = 7 ∷ 8 ∷ 9 ∷ []

-- The state after ProcessData() has answered 1.
abbrev after : Skeleton ℕ
after =
    let s = receive 20 content 1 grown in
    let t = touch 80 1 (write 1 (record (s.info 1) { recv_buf = head; recv_buf_filled = 0 }) s) in
    write 1 (record (t.info 1) { in_use = false }) t

content_read :
    handle_read_http_content false process 80 1 (receive 20 content 1 grown)
    ≡ processed head after nothing
unfolding handle_read_http_content after_content grow touch write
content_read = refl

handle_read_http_content-loses_rest_example : head ≡ take 20 (with_head.info 1).recv_buf
handle_read_http_content-loses_rest_example =
    handle_read_http_content-loses_rest cast process 20 70 80 1 20 3 false content head with_head
      grown after nothing (omega arith) refl head_read content_read

abbrev acceptor : AcceptorInfo
acceptor = record { type_ = tcp_lv; sk_info = 5; accepting = true }

handle_accept-Serves_example :
    let r = handle_accept false (some 95) true 0 6 70 acceptor tables in
    ((find_tcp_server_socket 95 tables ≡ none) × Serves 95 6 acceptor tables r)
    ⊎ ((r ≡ aborted)
        × (((q : ℕ) × (find_tcp_server_socket 95 tables ≡ some q))
            ⊎ ((ops : List (Op × ℕ)) → ¬ IsFirstRead tcp_lv 5 ops)))
handle_accept-Serves_example =
    handle_accept-Serves 95 0 6 70 acceptor tables (λ e. absurd (omega (arith, e)))
