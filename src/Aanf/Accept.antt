-- ===== src/Aanf/Accept.antt =====
-- aanf/asio-based2/include: the acceptors of skeleton.hpp, TCPAcceptorInfo of socketinfo.hpp, and the
-- timer. What accept() brings is an argument, and whether open(), bind() and listen() all succeed; where
-- one does not, it throws.
pub mod Serves
use kknf.Base.{
  ℕ, List, [], ◌∷◌, ◌++◌, Option, none, some, Bool, true, false, not, ◌||◌, if◌then◌else◌,
}
use kknf.Base.Int.{ℤ, pos, minus_one, ltb_ℤ}
use kknf.Base.Map.{Order, Map, find, assign}
use kknf.Aanf.Tables.{
  SocketType, tcp_lv, tcp_http, Skeleton, new_info, write, set_recv_buf, insert_tcp_server_socket,
  sweep_server_socket,
}
use kknf.Aanf.Read.{to_read_l_then_read_v}
use kknf.Aanf.Http.{to_read_http_head}
use kknf.Aanf.Requests.{Acted, done, aborted, read_l_then_read_v, read_http_head}

-- TCPAcceptorInfo, and whether an async_accept() of it is under way.
pub record AcceptorInfo : Type 0 where
  pub type_ : SocketType
  pub sk_info : ℕ
  pub accepting : Bool

-- `timer_handler_list_`: each handler gets the time.
abbrev pub TimerHandlers : Type 0 → Type 0
TimerHandlers E = List (ℕ → Skeleton E → Skeleton E)

module _ {E : Type 0} where
  -- A new SocketInfo without a far end yet, for which `unset` stands.
  unfoldable pub reset : SocketType → E → ℕ → ℕ → Skeleton E → Skeleton E
  unfolding new_info write
  reset type_ unset fresh now s = write fresh (new_info type_ unset now) s

  module _ ⦃o : Order E⦄ where
    -- Skeleton::InsertTCPAcceptor.
    unfoldable pub insert_tcp_acceptor :
        E → AcceptorInfo → Map E AcceptorInfo → Map E AcceptorInfo × ℤ
    insert_tcp_acceptor key a acceptors = elim (find key acceptors) [
      | some b ↦ (acceptors, minus_one)
      | none ↦ (assign key a acceptors, pos 0)
    ]

    -- Skeleton::AddTCPAcceptor; `none` is an exception, where the acceptor cannot listen, or exit(1).
    unfoldable pub add_tcp_acceptor :
        Bool
        → E
        → SocketType
        → E
        → ℕ
        → ℕ
        → Map E AcceptorInfo × Skeleton E
        → Option (Map E AcceptorInfo × Skeleton E)
    unfolding insert_tcp_acceptor reset
    add_tcp_acceptor opens endpoint type_ unset fresh now (acceptors, s) =
        let a : AcceptorInfo = record { type_ = type_; sk_info = fresh; accepting = true } in
        let (inserted, ret) = insert_tcp_acceptor endpoint a acceptors in
        if not opens || ltb_ℤ ret (pos 0)
        then none
        else some (inserted, reset type_ unset fresh now s)

    -- The first read of a connection.
    unfoldable pub start_read : SocketType → ℕ → AcceptorInfo → Skeleton E → Acted E AcceptorInfo
    unfolding to_read_http_head to_read_l_then_read_v
    start_read tcp_http p a s = done a (to_read_http_head p s).0 ((read_http_head, p) ∷ [])
    start_read tcp_lv p a s = done a (to_read_l_then_read_v p s).0 ((read_l_then_read_v, p) ∷ [])
    start_read _ p a s = aborted

    -- From the insertion on, for a connection from `remote`.
    unfoldable pub serve_connection : E → ℕ → AcceptorInfo → Skeleton E → Acted E AcceptorInfo
    unfolding start_read insert_tcp_server_socket set_recv_buf write
    serve_connection remote p a s =
        let known = write p (record (s.info p) { remote_endpoint = remote }) s in
        let (inserted, ret) = insert_tcp_server_socket remote p known in
        if ltb_ℤ ret (pos 0)
        then aborted
        else start_read (s.info p).type_ p (record a { accepting = true })
            (set_recv_buf s.init_recv_buf_size p inserted)

    -- Skeleton::HandleAccept: an error of accept(), the far end (none: an error), whether the near end
    -- is known, and the new pointer for the next connection.
    unfoldable pub handle_accept :
        Bool → Option E → Bool → E → ℕ → ℕ → AcceptorInfo → Skeleton E → Acted E AcceptorInfo
    unfolding serve_connection reset write
    handle_accept true remote near unset fresh now a s = aborted
    handle_accept false remote near unset fresh now a s =
        let p = a.sk_info in
        let accepted =
          write p (record (s.info p) { is_connected = true; in_use = true; type_ = a.type_ }) s in
        let next = record a { sk_info = fresh; accepting = false } in
        elim remote [
          | none ↦ done next (reset a.type_ unset fresh now accepted) []
          | some r ↦
              if near
              then serve_connection r p next (reset a.type_ unset fresh now accepted)
              else done next (reset a.type_ unset fresh now accepted) []
        ]

module _ {E : Type 0} where
  -- Skeleton::AddTimerHandler.
  unfoldable pub add_timer_handler :
      (ℕ → Skeleton E → Skeleton E) → TimerHandlers E → TimerHandlers E
  add_timer_handler func handlers = handlers ++ func ∷ []

  -- What Skeleton::Run adds to the handlers before the loop of the system starts.
  unfoldable pub run_handlers : ℕ → TimerHandlers E → TimerHandlers E
  unfolding add_timer_handler sweep_server_socket
  run_handlers server_timeout handlers =
      add_timer_handler (λ now s. sweep_server_socket now server_timeout s) handlers

  unfoldable pub call_all : TimerHandlers E → ℕ → Skeleton E → Skeleton E
  call_all [] now s = s
  call_all (func ∷ handlers) now s = call_all handlers now (func now s)

  -- Skeleton::HandleTimeout; the timer is then set again in either case.
  unfoldable pub handle_timeout : Bool → TimerHandlers E → ℕ → Skeleton E → Skeleton E
  unfolding call_all
  handle_timeout true handlers now s = s
  handle_timeout false handlers now s = call_all handlers now s
