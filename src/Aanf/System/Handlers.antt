-- ===== src/Aanf/System/Handlers.antt =====
-- The effect of each handler.
use kknf.Base.{ℕ, ◌≡◌, refl, List, Bool, true, false, arith, if◌then◌else◌}
use kknf.Base.Int.{ℤ, pos, negsuc, ◌-ℤ◌}
use kknf.Base.Map.{Order}
use kknf.Nf.Stream.{ntohl, to_int}
use kknf.Aanf.Tables.{SocketInfo, Skeleton, write, touch, set_recv_buf, insert_tcp_client_socket}
use kknf.Aanf.Read.{
  aborted, same_int, make_room, put_len, after_process, to_read_l_then_read_v,
  handle_write_then_read_l, handle_read_l_then_read_v, handle_read_v_then_process,
}
use kknf.Aanf.Http.{
  resize, after_content, to_read_http_head, handle_write_then_read_http_head,
  handle_read_http_content,
}
use kknf.Aanf.Requests.{
  Op, connect_then_write, write_then_read_l, read_l_then_read_v, read_v_then_process,
  write_then_read_http_head, read_http_head, write_then_close, anything_then_nothing, Acted, done,
  start_write, handle_connect_then_write, handle_write_then_close, handle_anything_then_nothing,
}
use kknf.Aanf.System.{after_read, after_handled}
use kknf.Aanf.System.Effect.{connects, exchanges, Effect, write-Effect, start_write-starts}
use kknf.Aanf.System.Sides.{
  insert_tcp_client_socket-info, destroy_socket-flags, destroy_socket-TablesOk,
  insert_tcp_client_socket-TablesOk,
}

module _ {E : Type 0} ⦃o : Order E⦄ (client : ℕ → Bool) (q c e p : ℕ) where
  pub write_then_read_l-Effect :
      (error : Bool) (now : ℕ) (s t : Skeleton E) (ops : List (Op × ℕ))
      → after_read read_l_then_read_v p (handle_write_then_read_l error now p s) ≡ done tt t ops
      → Effect client q c e write_then_read_l p s t ops
  unfolding handle_write_then_read_l set_recv_buf touch write
  write_then_read_l-Effect true now s t ops h = ground arith
  write_then_read_l-Effect false now s t ops h = ground arith

  pub write_then_close-Effect :
      (s t : Skeleton E) (ops : List (Op × ℕ))
      → handle_write_then_close p s ≡ done tt t ops
      → Effect client q c e write_then_close p s t ops
  unfolding handle_write_then_close
  write_then_close-Effect s t ops h =
      ground (arith, destroy_socket-flags p q s, destroy_socket-TablesOk client p s)

  pub read_l_then_read_v-Effect :
      (error : Bool) (now : ℕ) (s t : Skeleton E) (ops : List (Op × ℕ))
      → after_read read_v_then_process p (handle_read_l_then_read_v error now p s) ≡ done tt t ops
      → Effect client q c e read_l_then_read_v p s t ops
  unfolding handle_read_l_then_read_v make_room put_len set_recv_buf touch write
  read_l_then_read_v-Effect true now s t ops h =
      ground (arith, destroy_socket-flags p q s, destroy_socket-TablesOk client p s)
  read_l_then_read_v-Effect false now s t ops h = ground (
    arith,
    destroy_socket-flags p q (touch now p s),
    destroy_socket-TablesOk client p (touch now p s),
  )

  after_process-Effect :
      (packet : List ℕ) (ret : ℤ) (s t : Skeleton E) (ops : List (Op × ℕ))
      → after_handled read_l_then_read_v p (after_process packet ret p s) ≡ done tt t ops
      → Effect client q c e read_v_then_process p s t ops
  unfolding after_process to_read_l_then_read_v set_recv_buf write
  after_process-Effect packet (pos n) s t ops h = ground arith
  after_process-Effect packet (negsuc n) s t ops h =
      ground (arith, destroy_socket-flags p q s, destroy_socket-TablesOk client p s)

  pub read_v_then_process-Effect :
      (error : Bool) (byte_num now : ℕ) (process : List ℕ → ℤ) (s t : Skeleton E)
      (ops : List (Op × ℕ))
      → after_handled read_l_then_read_v p
          (handle_read_v_then_process error byte_num process now p s)
        ≡ done tt t ops
      → Effect client q c e read_v_then_process p s t ops
  unfolding handle_read_v_then_process touch write
  read_v_then_process-Effect true byte_num now process s t ops h =
      ground (arith, destroy_socket-flags p q s, destroy_socket-TablesOk client p s)
  read_v_then_process-Effect false byte_num now process s t ops h =
      let i = s.info p in
      write-Effect client q c e read_v_then_process p (record i { access_time = now }) s t ops refl
        refl refl refl
        (after_process-Effect i.recv_buf (process i.recv_buf) (touch now p s) t ops
          (checked (same_int (pos byte_num) (to_int (ntohl i.recv_buf) -ℤ pos 4)) h))
    where
      checked :
          (b : Bool)
          → after_handled read_l_then_read_v p (
              if b
              then after_process (s.info p).recv_buf (process (s.info p).recv_buf) p (touch now p s)
              else aborted)
            ≡ done tt t ops
          → after_handled read_l_then_read_v p
              (after_process (s.info p).recv_buf (process (s.info p).recv_buf) p (touch now p s))
            ≡ done tt t ops
      checked true g = g
      checked false g = cc

  after_content-Effect :
      (packet : List ℕ) (ret : ℤ) (op : Op) (s t : Skeleton E) (ops : List (Op × ℕ))
      → exchanges op ≡ 1
      → connects op ≡ 0
      → after_handled read_http_head p (after_content packet ret p s) ≡ done tt t ops
      → Effect client q c e op p s t ops
  unfolding after_content to_read_http_head set_recv_buf write
  after_content-Effect packet (pos n) op s t ops x y h = ground arith
  after_content-Effect packet (negsuc n) op s t ops x y h =
      ground (arith, destroy_socket-flags p q s, destroy_socket-TablesOk client p s)

  pub read_http_content-Effect :
      (error : Bool) (now : ℕ) (process : List ℕ → ℤ) (op : Op) (s t : Skeleton E)
      (ops : List (Op × ℕ))
      → exchanges op ≡ 1
      → connects op ≡ 0
      → after_handled read_http_head p (handle_read_http_content error process now p s)
        ≡ done tt t ops
      → Effect client q c e op p s t ops
  unfolding handle_read_http_content touch write
  read_http_content-Effect true now process op s t ops x y h = ground arith
  read_http_content-Effect false now process op s t ops x y h =
      let i = s.info p in
      let packet = resize i.recv_buf_filled i.recv_buf in
      let emptied : SocketInfo E = record i { recv_buf = packet; recv_buf_filled = 0 } in
      let w : Skeleton E = write p emptied s in
      write-Effect client q c e op p emptied s t ops refl refl refl refl (
        write-Effect client q c e op p (record (w.info p) { access_time = now }) w t ops refl refl
          refl refl (after_content-Effect packet (process packet) op (touch now p w) t ops x y h))

  pub write_then_read_http_head-Effect :
      (error : Bool) (now : ℕ) (s t : Skeleton E) (ops : List (Op × ℕ))
      → after_read read_http_head p (handle_write_then_read_http_head error now p s) ≡ done tt t ops
      → Effect client q c e write_then_read_http_head p s t ops
  unfolding handle_write_then_read_http_head to_read_http_head set_recv_buf touch write
  write_then_read_http_head-Effect true now s t ops h =
      ground (arith, destroy_socket-flags p q s, destroy_socket-TablesOk client p s)
  write_then_read_http_head-Effect false now s t ops h = ground arith

  pub anything_then_nothing-Effect :
      (error : Bool) (now : ℕ) (s t : Skeleton E) (ops : List (Op × ℕ))
      → handle_anything_then_nothing error now p s ≡ done tt t ops
      → Effect client q c e anything_then_nothing p s t ops
  unfolding handle_anything_then_nothing touch write
  anything_then_nothing-Effect true now s t ops h =
      ground (arith, destroy_socket-flags p q s, destroy_socket-TablesOk client p s)
  anything_then_nothing-Effect false now s t ops h = ground arith

  pub connect_then_write-Effect :
      (error no_end : Bool) (now : ℕ) (buf buf' : List ℕ) (s t : Skeleton E) (ops : List (Op × ℕ))
      → client p ≡ true
      → handle_connect_then_write error no_end now buf p s ≡ done tt t ops
      → Effect client q c e (connect_then_write buf') p s t ops
  unfolding handle_connect_then_write insert_tcp_client_socket touch write
  connect_then_write-Effect true no_end now buf buf' s t ops k h =
      ground (arith, destroy_socket-flags p q s, destroy_socket-TablesOk client p s)
  connect_then_write-Effect false true now buf buf' s t ops k h = ground (
    arith,
    destroy_socket-flags p q (touch now p s),
    destroy_socket-TablesOk client p (touch now p s),
  )
  connect_then_write-Effect false false now buf buf' s t ops k h =
      by ((touch now p s).info p).in_use refl h
    where
      i : SocketInfo E
      i = (touch now p s).info p

      u : Skeleton E
      u = write p (record i { is_connected = true; in_use = true; send_buf = buf }) (touch now p s)

      by :
          (b : Bool)
          → i.in_use ≡ b
          → (if b
              then Acted.aborted
              else start_write tt i.type_ p (insert_tcp_client_socket i.remote_endpoint p u))
            ≡ done tt t ops
          → Effect client q c e (connect_then_write buf') p s t ops
      by true y g = cc
      by false y g =
          let v = insert_tcp_client_socket i.remote_endpoint p u in
          ground (
            arith,
            start_write-starts i.type_ p q tt tt v t ops g,
            insert_tcp_client_socket-info i.remote_endpoint p u,
            insert_tcp_client_socket-TablesOk client i.remote_endpoint p u k,
          )
