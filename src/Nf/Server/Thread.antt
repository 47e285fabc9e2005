-- ===== src/Nf/Server/Thread.antt =====
-- all-sync/server.hpp: ServerThreadProc, the thread that polls: RunServer to the end of its loop.
use kknf.Base.{ℕ, List, Bool, if◌then◌else◌, ◌≢◌, ◌≡◌, arith, All, length}
use kknf.Base.Int.{ℤ, pos, ltb_ℤ}
use kknf.Nf.Server.{Server}
use kknf.Nf.Server.Poll.{aborts}
use kknf.Nf.Server.Start.{run_server}
use kknf.Nf.Server.Timer.{Wait, Ended, broken, epoll_loop}
use kknf.Nf.Server.Loop.{AllServed, epoll_loop-no_abort}

-- How the thread ends: RunServer returns an error, or its loop ends or goes on.
pub data Ran : Type 0 where
  refused : ℤ → Server → Ran
  looped : Ended → Ran

-- ServerThreadProc; EpollLoop starts with the interval of the timer.
unfoldable pub server_thread_proc : (ℕ → Bool) → List (Bool × Wait) → Server → Ran
server_thread_proc can_add ws srv =
    let (srv', code) = run_server can_add srv in
    if ltb_ℤ code (pos 0)
    then refused code srv'
    else looped (epoll_loop ws srv'.timer_interval srv')

run_server-ready :
    (can_add : ℕ → Bool) (srv : Server) → (run_server can_add srv).0.ready ≡ srv.ready
unfolding run_server
run_server-ready can_add srv = ground arith

-- The thread that polls fails no assertion, where in every round each event is for a socket of a known
-- type and, for a connection, with an index that has a ready list when the thread starts.
pub server_thread_proc-no_abort :
    (can_add : ℕ → Bool) (ws : List (Bool × Wait)) (srv : Server)
    → All (λ (w : Bool × Wait). AllServed (length srv.ready) w.1) ws
    → server_thread_proc can_add ws srv ≢ looped (broken aborts)
unfolding server_thread_proc
server_thread_proc-no_abort can_add ws srv h =
    let t = (run_server can_add srv).0 in
    λ e.
      ground
        (arith, epoll_loop-no_abort ws t.timer_interval t (rw (run_server-ready can_add srv) h))
