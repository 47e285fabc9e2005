-- ===== src/Aanf/System/Safe.antt =====
-- A request in a state that keeps the invariant fails no assertion.
use kknf.Base.{
  ℕ, ◌≡◌, ◌≢◌, ◌&&◌, ◌||◌, refl, List, Option, some, none, Bool, true, false, arith, if◌then◌else◌,
}
use kknf.Base.Int.{ℤ, pos}
use kknf.Base.Map.{Order}
use kknf.Aanf.Tables.{
  SocketType, tcp_lv, tcp_http, tcp_line, tcp_tlv, tcp_usr1, tcp_unknown, Skeleton, write,
  find_idle_tcp_client_socket,
}
use kknf.Aanf.Requests.{
  aborted, start_write, write_then_read, to_connect_then_write, write_or_connect, find_socket,
  to_write_then_read, to_write_then_call_back,
}
use kknf.Aanf.System.{System}
use kknf.Aanf.System.Effect.{serves}
use kknf.Aanf.System.Invariant.{Inv}
use kknf.Aanf.System.Kept.{idle-not_busy, idle-client}

module _ {E : Type 0} where
  start_write-serves :
      (r : ℤ) (type_ : SocketType) (p : ℕ) (s : Skeleton E)
      → serves type_ ≡ true
      → start_write r type_ p s ≢ aborted
  unfolding start_write
  start_write-serves r tcp_lv p s h e = cc
  start_write-serves r tcp_http p s h e = cc
  start_write-serves r tcp_line p s h e = cc
  start_write-serves r tcp_tlv p s h e = cc
  start_write-serves r tcp_usr1 p s h e = cc
  start_write-serves r tcp_unknown p s h e = cc

  write_then_read-serves :
      (p : ℕ) (buf : List ℕ) (s : Skeleton E)
      → (s.info p).in_use ≡ false
      → serves (s.info p).type_ ≡ true
      → write_then_read p buf s ≢ aborted
  unfolding write_then_read
  write_then_read-serves p buf s n h =
      by ((s.info p).is_client && (s.info p).in_use) (ground (arith, n))
    where
      u : Skeleton E
      u =
          write p
            (record (s.info p) {
              in_use = (s.info p).is_client || (s.info p).in_use;
              send_buf = buf;
            })
            s

      by :
          (b : Bool)
          → b ≡ false
          → (if b then aborted else start_write (pos 0) (s.info p).type_ p u) ≢ aborted
      by true e = cc
      by false e = start_write-serves (pos 0) (s.info p).type_ p u h

  module _ ⦃o : Order E⦄ where
    write_or_connect-safe :
        (found : Option ℕ) (remote : E) (type_ : SocketType) (buf : List ℕ) (i_am_server : Bool)
        (fresh now : ℕ) (s : System E)
        → Inv s
        → find_idle_tcp_client_socket remote s.skeleton ≡ found
        → write_or_connect found remote type_ buf i_am_server fresh now s.skeleton ≢ aborted
    unfolding write_or_connect to_connect_then_write
    write_or_connect-safe none remote type_ buf true fresh now s v f = λ e. cc
    write_or_connect-safe none remote type_ buf false fresh now s v f = λ e. cc
    write_or_connect-safe (some p) remote type_ buf i_am_server fresh now s v f =
        let i = idle-not_busy remote p s.skeleton f in
        let c = idle-client remote p s.skeleton v.tables f in
        write_then_read-serves p buf s.skeleton (ground (arith, i))
          (ground (arith, i, c, v.phases p))

    -- Both kinds of requests.
    pub requests_safe :
        (remote : E) (type_ : SocketType) (buf : List ℕ) (i_am_server : Bool) (fresh now : ℕ)
        (s : System E)
        → Inv s
        → (to_write_then_read remote type_ buf false fresh now s.skeleton ≢ aborted)
          × (to_write_then_call_back remote type_ buf i_am_server fresh now s.skeleton ≢ aborted)
    unfolding to_write_then_read to_write_then_call_back find_socket
    requests_safe remote type_ buf i_am_server fresh now s v =
        let found = find_idle_tcp_client_socket remote s.skeleton in
        (
          write_or_connect-safe found remote type_ buf false fresh now s v refl,
          write_or_connect-safe found remote type_ buf i_am_server fresh now s v refl,
        )
