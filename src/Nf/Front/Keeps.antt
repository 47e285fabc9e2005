-- ===== src/Nf/Front/Keeps.antt =====
-- A round of Process() neither loses the socket of its client nor touches the rest of the Server.
use kknf.Base.{ℕ, ◌≡◌, refl, sym, ◌∙◌, ◌⊎◌, List, [], ◌∷◌, ◌++◌, Bool, arith}
use kknf.Base.Int.{ℤ}
use kknf.Nf.Socket.{Socket}
use kknf.Nf.Server.{Server, got, get_server_ready_socket, insert_server_reuse_socket}
use kknf.Nf.Worker.{◌>>=◌, Worker, Incoming, ended, take_ready_socket, receive, send}
use kknf.Nf.Front.{
  Round, Asking, Request, receive_request, connect, wait, ask, ask_over, wait_replies,
  receive_value, read_value, read_request, put_client_socket, answer, serve, process,
}
use kknf.Nf.Stream.{frame}
use kknf.Nf.Worker.Ends.{Holds, ended-Holds, >>=-Holds}

-- The socket has been handed back, or closed and deleted.
abbrev pub Returned : ℕ → Socket → ℤ → Server → Server → Type 0
Returned index sk note srv after =
    (after ≡ (insert_server_reuse_socket index sk note srv).0)
    ⊎ (after ≡ record srv { closed = srv.closed ++ sk ∷ [] })

module _ (index : ℕ) (sk : Socket) (r : Round) (srv : Server) where
  abbrev End : Worker → Type 0
  End f = Returned index sk r.note srv f.srv

  abbrev Same : {A : Type 0} → A → Worker → Type 0
  Same a f = f.srv ≡ srv

  receive-Same : (i : Incoming) (f : Worker) → f.srv ≡ srv → Holds End Same (receive i f)
  unfolding receive
  receive-Same i f h = ground arith

  send-Same :
      (to : Socket) (bytes : _) (as' : _) (f : Worker)
      → f.srv ≡ srv
      → Holds End Same (send to bytes as' f)
  unfolding send
  send-Same to bytes as' f h = ground arith

  connect-Same : (port : ℕ) (a : _) (f : Worker) → f.srv ≡ srv → Holds End Same (connect port a f)
  unfolding connect
  connect-Same port a f h = ground arith

  wait-Same :
      (can_add : ℕ → Bool) (wakes : _) (one two : Socket) (f : Worker)
      → f.srv ≡ srv
      → Holds End Same (wait can_add wakes one two f)
  unfolding wait
  wait-Same can_add wakes one two f h = ground arith

  put_client_socket-Same :
      (s : Socket) (f : Worker) → f.srv ≡ srv → Holds End Same (put_client_socket s f)
  unfolding put_client_socket
  put_client_socket-Same s f h = ground arith

  read_value-Same : (buf : List ℕ) (f : Worker) → f.srv ≡ srv → Holds End Same (read_value buf f)
  unfolding read_value
  read_value-Same buf f h = ground arith

  read_request-Same :
      (buf : List ℕ) (f : Worker) → f.srv ≡ srv → Holds End Same (read_request buf f)
  unfolding read_request
  read_request-Same buf f h = ground arith

  ask_over-Same :
      (packet : List ℕ) (a : Asking) (backend : Socket) (f : Worker)
      → f.srv ≡ srv
      → Holds End Same (ask_over index sk r.note packet a backend f)
  unfolding ask_over
  ask_over-Same packet a backend f h = ground (arith, send-Same backend (frame packet) a.sends f h)

  ask-Same :
      (port : ℕ) (packet : List ℕ) (a : Asking) (f : Worker)
      → f.srv ≡ srv
      → Holds End Same (ask index sk r.note port packet a f)
  unfolding ask
  ask-Same port packet a f h =
      >>=-Holds End Same Same (connect port a.connect) _ f (connect-Same port a.connect f h)
        (λ found g e. ground (arith, ask_over-Same packet a))

  wait_replies-Same :
      (one two : Socket) (f : Worker)
      → f.srv ≡ srv
      → Holds End Same (wait_replies index sk r one two f)
  unfolding wait_replies
  wait_replies-Same one two f h = ground (arith, wait-Same r.can_add r.wakes one two f h)

  receive_value-Same :
      (one two : Socket) (i : Incoming) (f : Worker)
      → f.srv ≡ srv
      → Holds End Same (receive_value index sk r.note one two i f)
  unfolding receive_value
  receive_value-Same one two i f h =
      >>=-Holds End Same Same (receive i) _ f (receive-Same i f h)
        (λ came g e. grind (arith, read_value-Same))

  answer-End :
      (seq a2 b2 : ℕ) (f : Worker)
      → f.srv ≡ srv
      → Holds End (λ u g. ⊥) (answer index sk r seq a2 b2 f)
  unfolding answer
  answer-End seq a2 b2 f h =
      >>=-Holds End Same (λ u g. ⊥) (send sk _ r.answer) _ f (send-Same sk _ r.answer f h)
        (λ sent g e. ground arith)

  serve-End :
      (req : Request) (f : Worker) → f.srv ≡ srv → Holds End (λ u g. ⊥) (serve index sk r req f)
  unfolding serve
  serve-End req f h =
      >>=-Holds End Same _ (ask index sk r.note _ _ _) _ f (ask-Same _ _ _ f h) (λ one f1 e1.
        >>=-Holds End Same _ (ask index sk r.note _ _ _) _ f1 (ask-Same _ _ _ f1 e1) (λ two f2 e2.
          >>=-Holds End Same _ (wait_replies index sk r one two) _ f2
            (wait_replies-Same one two f2 e2)
            (λ u f3 e3.
              >>=-Holds End Same _ (receive_value index sk r.note one two _) _ f3
                (receive_value-Same one two _ f3 e3)
                (λ a2 f4 e4.
                  >>=-Holds End Same _ (receive_value index sk r.note one two _) _ f4
                    (receive_value-Same one two _ f4 e4)
                    (λ b2 f5 e5.
                      >>=-Holds End Same _ (put_client_socket one) _ f5
                        (put_client_socket-Same one f5 e5)
                        (λ u f6 e6.
                          >>=-Holds End Same _ (put_client_socket two) _ f6
                            (put_client_socket-Same two f6 e6)
                            (λ u f7 e7. answer-End req.seq a2 b2 f7 e7)))))))

  receive_request-Same :
      (i : Incoming) (f : Worker) → f.srv ≡ srv → Holds End Same (receive_request sk i f)
  unfolding receive_request
  receive_request-Same i f h =
      >>=-Holds End Same Same (receive i) _ f (receive-Same i f h)
        (λ came g e. grind (arith, read_request-Same))

pub process-taken :
    (index : ℕ) (r : Round) (f : Worker) (srv : Server) (sk : Socket)
    → get_server_ready_socket index f.srv ≡ got srv sk
    → process index r f
      ≡ (receive_request sk r.request >>= serve index sk r) (record f { srv = srv })
unfolding process take_ready_socket
process-taken index r f srv sk e = rw (e, ◌>>=◌)

-- However the calls of a round of Process() answer, if the round ends after it has taken a socket from
-- the ready list, the socket has been handed back to the Server, or closed and deleted, and all else
-- in the Server is as taking the socket left it.
pub process-Returned :
    (index : ℕ) (r : Round) (f after : Worker) (srv : Server) (sk : Socket)
    → get_server_ready_socket index f.srv ≡ got srv sk
    → process index r f ≡ ended after
    → Returned index sk r.note srv after.srv
process-Returned index r f after srv sk e h =
    ended-Holds (End index sk r srv) (λ u g. ⊥)
      ((receive_request sk r.request >>= serve index sk r) (record f { srv = srv }))
      (>>=-Holds (End index sk r srv) (Same index sk r srv) (λ u g. ⊥)
        (receive_request sk r.request) (serve index sk r) _
        (receive_request-Same index sk r srv r.request (record f { srv = srv }) refl)
        (λ req g. serve-End index sk r srv req g))
      (sym (process-taken index r f srv sk e) ∙ h)
