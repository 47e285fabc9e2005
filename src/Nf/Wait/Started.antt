-- ===== src/Nf/Wait/Started.antt =====
-- From the first loop of TCPWaitToRead to the second.
use kknf.Base.{ℕ, ◌≤◌, ◌<◌, ◌≡◌, refl, List, [], ◌∷◌, ◌++◌, Option, none, some, Bool, arith, length}
use kknf.Base.Int.{ℤ, minus_two}
use kknf.Nf.Socket.{Socket}
use kknf.Nf.Wait.{Interest, Wake, returned, add_all, wait_added, wait_loop, tcp_wait_to_read}

module _ (can_add : ℕ → Bool) (wakes : List Wake) (ss : List Socket) (triggered errors : List ℕ)
    (num : ℕ) (timeout : ℤ) (l : Interest) where
  added :
      (r : Interest × Option ℕ)
      → r.1 ≡ none
      → wait_added wakes num timeout triggered errors r
        ≡ wait_loop wakes num timeout
            (record { triggered = triggered; errors = errors; interest = r.0 })
  unfolding wait_added
  added (l', none) e = refl
  added (l', some i) e = cc

  refused :
      (r : Interest × Option ℕ) (k : ℕ)
      → r.1 ≡ some k
      → wait_added wakes num timeout triggered errors r
        ≡ returned minus_two
            (record { triggered = triggered; errors = errors ++ k ∷ []; interest = r.0 })
  unfolding wait_added
  refused (l', none) k e = cc
  refused (l', some i) k e = ground arith

  -- With every descriptor added, the call goes on to wait.
  pub tcp_wait_to_read-added :
      0 < num
      → num ≤ length ss
      → (add_all can_add ss 0 [] l).1 ≡ none
      → tcp_wait_to_read can_add wakes ss triggered errors num timeout l
        ≡ wait_loop wakes num timeout (record {
          triggered = triggered;
          errors = errors;
          interest = (add_all can_add ss 0 [] l).0;
        })
  unfolding tcp_wait_to_read
  tcp_wait_to_read-added h fits e = ground (arith, added (add_all can_add ss 0 [] l) e)

  -- With one of them refused, it returns -2.
  pub tcp_wait_to_read-refused :
      (k : ℕ)
      → 0 < num
      → num ≤ length ss
      → (add_all can_add ss 0 [] l).1 ≡ some k
      → tcp_wait_to_read can_add wakes ss triggered errors num timeout l
        ≡ returned minus_two (record {
          triggered = triggered;
          errors = errors ++ k ∷ [];
          interest = (add_all can_add ss 0 [] l).0;
        })
  unfolding tcp_wait_to_read
  tcp_wait_to_read-refused k h fits e = ground (arith, refused (add_all can_add ss 0 [] l) k e)
