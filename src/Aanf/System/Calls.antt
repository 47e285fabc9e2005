-- ===== src/Aanf/System/Calls.antt =====
-- The effect of the calls that the program makes, of an accepted connection and of the timer.
use kknf.Base.{
  ℕ, ◌≡◌, refl, List, [], ◌∷◌, Bool, true, false, ◌-◌, ◌&&◌, ◌||◌, arith, if◌then◌else◌,
}
use kknf.Base.Int.{ℤ, pos}
use kknf.Base.Map.{Map}
use kknf.Aanf.Tables.{
  SocketInfo, Skeleton, is_busy, write, sweep_loop, close_all, sweep_server_socket,
}
use kknf.Aanf.Requests.{Op, anything_then_nothing, done, aborted, start_write, write_then_read}
use kknf.Aanf.System.Effect.{ServersOk, Effect, start_write-starts}

module _ {E : Type 0} where
  -- A request on an idle socket, or an answer on a connection that was accepted, has the effect of the one
  -- operation that it starts.
  pub write_then_read-Effect :
      (client : ℕ → Bool) (q c e p : ℕ) (buf : List ℕ) (r : ℤ) (s t : Skeleton E)
      (ops : List (Op × ℕ))
      → ((s.info p).is_client ≡ true → is_busy (s.info p) ≡ false)
      → write_then_read p buf s ≡ done r t ops
      → Effect client q c e anything_then_nothing p s t ops
  unfolding write_then_read write
  write_then_read-Effect client q c e p buf r s t ops i h =
      by ((s.info p).is_client && (s.info p).in_use) h
    where
      u : Skeleton E
      u =
          write p
            (record (s.info p) {
              in_use = (s.info p).is_client || (s.info p).in_use;
              send_buf = buf;
            })
            s

      by :
          (b : Bool)
          → (if b then aborted else start_write (pos 0) (s.info p).type_ p u) ≡ done r t ops
          → Effect client q c e anything_then_nothing p s t ops
      by true g = cc
      by false g = ground (arith, i, start_write-starts (s.info p).type_ p q (pos 0) r u t ops g)

  sweep_loop-ServersOk :
      (client : ℕ → Bool) (expire : ℕ) (info : ℕ → SocketInfo E) (m : Map E ℕ)
      → ServersOk client m
      → ServersOk client (sweep_loop expire info m).0
  unfolding sweep_loop
  sweep_loop-ServersOk client expire info [] h = tt
  sweep_loop-ServersOk client expire info ((k, p) ∷ m) h =
      ground (arith, h, sweep_loop-ServersOk client expire info m h.1)

  close_all-keeps :
      (ps : List ℕ) (q : ℕ) (s : Skeleton E)
      → ((close_all ps s).servers ≡ s.servers)
        × ((close_all ps s).clients ≡ s.clients)
        × (((close_all ps s).info q).is_client ≡ (s.info q).is_client)
        × (((close_all ps s).info q).in_use ≡ (s.info q).in_use)
        × (((close_all ps s).info q).is_connected ≡ (s.info q).is_connected)
        × (((close_all ps s).info q).type_ ≡ (s.info q).type_)
  unfolding close_all write
  close_all-keeps [] q s = (refl, refl, refl, refl, refl, refl)
  close_all-keeps (p ∷ ps) q s =
      ground (arith, close_all-keeps ps q (write p (record (s.info p) { is_open = false }) s))

  pub sweep_server_socket-Effect :
      (client : ℕ → Bool) (q c e p now milliseconds : ℕ) (s : Skeleton E)
      → Effect client q c e anything_then_nothing p s (sweep_server_socket now milliseconds s) []
  unfolding sweep_server_socket
  sweep_server_socket-Effect client q c e p now milliseconds s =
      let (kept, closed) = sweep_loop (now - milliseconds) s.info s.servers in
      let (sv, cl, a, b, d, ty) = close_all-keeps closed q (record s { servers = kept }) in
      rw (sv, cl, a, b, d, ty)
        (
          λ (h, g). (sweep_loop-ServersOk client (now - milliseconds) s.info s.servers h, g),
          refl,
          λ h. ground (arith, h),
        )
