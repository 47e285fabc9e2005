-- ===== src/Nf/Front/Backends.antt =====
-- What a round of Process() does with its sockets to the two backends.
use kknf.Base.{
  ℕ, Option, Option-cases, ◌≡◌, refl, sym, ◌∙◌, ◌⊎◌, inl, inr, List, [], ◌∷◌, ◌++◌, none, some,
  arith, append_assoc,
}
use kknf.Base.Int.{ℤ}
use kknf.Nf.Socket.{Socket}
use kknf.Nf.Connect
use kknf.Nf.Pool.{Client, Got, insert_client_socket, get_client_socket, get_idle_client_socket}
use kknf.Nf.Server.{insert_server_reuse_socket}
use kknf.Nf.Worker.{◌>>=◌, Worker, Incoming, Result, next, ended, failed, receive, send}
use kknf.Nf.Front.{
  Round, Asking, Request, connect, wait, ask, wait_replies, receive_value, read_value,
  put_client_socket, answer, serve, bb1_port, bb2_port, backend_ip, packet_of,
}
use kknf.Nf.Worker.Ends.{Holds, ended-Holds, >>=-Holds}

-- Both sockets are closed and deleted, or both are back in the pool.
abbrev pub BothKept : Socket → Socket → Worker → Worker → Type 0
BothKept one two f after =
    ((after.closed ≡ f.closed ++ one ∷ two ∷ []) × (after.client ≡ f.client))
    ⊎ ((after.closed ≡ f.closed)
        × ((c : Client) × (insert_client_socket one f.client ≡ some c)
            × (insert_client_socket two c ≡ some after.client)))

module _ (index : ℕ) (sk : Socket) (r : Round) (one two : Socket) (f : Worker) where
  abbrev Kept : Worker → Type 0
  Kept = BothKept one two f

  -- The sockets are still held.
  abbrev Held : {A : Type 0} → A → Worker → Type 0
  Held a g = (g.closed ≡ f.closed) × (g.client ≡ f.client)

  -- Both are back.
  abbrev Back : {A : Type 0} → A → Worker → Type 0
  Back a g =
      (g.closed ≡ f.closed)
      × ((c : Client) × (insert_client_socket one f.client ≡ some c)
          × (insert_client_socket two c ≡ some g.client))

  wait_replies-Kept : (g : Worker) → Held tt g → Holds Kept Held (wait_replies index sk r one two g)
  unfolding wait_replies wait
  wait_replies-Kept g h = ground (arith, append_assoc f.closed (one ∷ []) (two ∷ []))

  receive-Held : (i : Incoming) (g : Worker) → Held tt g → Holds Kept Held (receive i g)
  unfolding receive
  receive-Held i g h = ground arith

  receive_value-Kept :
      (i : Incoming) (g : Worker)
      → Held tt g
      → Holds Kept Held (receive_value index sk r.note one two i g)
  unfolding receive_value read_value
  receive_value-Kept i g h =
      >>=-Holds Kept Held Held (receive i) _ g (receive-Held i g h)
        (λ came k e. ground (arith, append_assoc f.closed (one ∷ []) (two ∷ [])))

  -- The first one is back.
  abbrev FirstBack : {A : Type 0} → A → Worker → Type 0
  FirstBack a g = (g.closed ≡ f.closed) × (insert_client_socket one f.client ≡ some g.client)

  put_first : (g : Worker) → Held tt g → Holds Kept FirstBack (put_client_socket one g)
  unfolding put_client_socket
  put_first g h = rw h.1 (ground arith)

  put_second : (g : Worker) → FirstBack tt g → Holds Kept Back (put_client_socket two g)
  unfolding put_client_socket
  put_second g h = second (insert_client_socket two g.client) refl
    where
      second :
          (o : Option Client)
          → insert_client_socket two g.client ≡ o
          → Holds Kept Back (elim o [ none ↦ failed | some c ↦ next tt (record g { client = c }) ])
      second none e = tt
      second (some c) e = (h.0, (g.client, h.1, e))

  send-Back : (bytes : List ℕ) (g : Worker) → Back tt g → Holds Kept Back (send sk bytes r.answer g)
  unfolding send
  send-Back bytes g h = ground (arith, h)

  answer-Kept :
      (seq a2 b2 : ℕ) (g : Worker)
      → Back tt g
      → Holds Kept (λ u k. ⊥) (answer index sk r seq a2 b2 g)
  unfolding answer
  answer-Kept seq a2 b2 g h =
      >>=-Holds Kept Back (λ u k. ⊥) (send sk _ r.answer) _ g (send-Back _ g h)
        (λ ok k e. ground (arith, e))

  -- What `serve` does once it has both sockets.
  abbrev rest : Request → Worker → Result (Unit {0})
  rest req g =
      (wait_replies index sk r one two >>= λ u.
      receive_value index sk r.note one two r.reply1 >>= λ a2.
      receive_value index sk r.note one two r.reply2 >>= λ b2.
      put_client_socket one >>= λ u. put_client_socket two >>= λ u. answer index sk r req.seq a2 b2)
        g

  rest-Kept : (req : Request) → Holds Kept (λ u k. ⊥) (rest req f)
  rest-Kept req =
      >>=-Holds Kept Held (λ u k. ⊥) (wait_replies index sk r one two) _ f
        (wait_replies-Kept f (refl, refl))
        (λ u f1 e1.
          >>=-Holds Kept Held (λ u k. ⊥) (receive_value index sk r.note one two r.reply1) _ f1
            (receive_value-Kept r.reply1 f1 e1)
            (λ a2 f2 e2.
              >>=-Holds Kept Held (λ u k. ⊥) (receive_value index sk r.note one two r.reply2) _ f2
                (receive_value-Kept r.reply2 f2 e2)
                (λ b2 f3 e3.
                  >>=-Holds Kept FirstBack (λ u k. ⊥) (put_client_socket one) _ f3 (put_first f3 e3)
                    (λ u f4 e4.
                      >>=-Holds Kept Back (λ u k. ⊥) (put_client_socket two) _ f4 (put_second f4 e4)
                        (λ u f5 e5. answer-Kept req.seq a2 b2 f5 e5)))))

-- Where both backends have been asked and the round then ends, the two sockets to them are closed and
-- deleted with the pool unchanged, or both are back in the pool with none closed.
pub serve-BothKept :
    (index : ℕ) (sk : Socket) (r : Round) (req : Request) (f f1 f2 after : Worker)
    (one two : Socket)
    → ask index sk r.note bb1_port (packet_of req.seq req.a) r.bb1 f ≡ next one f1
    → ask index sk r.note bb2_port (packet_of req.seq req.b) r.bb2 f1 ≡ next two f2
    → serve index sk r req f ≡ ended after
    → BothKept one two f2 after
unfolding serve
serve-BothKept index sk r req f f1 f2 after one two e1 e2 h =
    ended-Holds (Kept index sk r one two f2) (λ u k. ⊥) (rest index sk r one two f2 req f2)
      (rest-Kept index sk r one two f2 req) (sym served ∙ h)
  where
    served : serve index sk r req f ≡ rest index sk r one two f2 req f2
    served = rw (e1, ◌>>=◌) (rw (e2, ◌>>=◌) refl)

get_client_socket-none :
    (ip : List ℕ) (port : ℕ) (c : Client) (x : Client × Option Socket)
    → get_client_socket ip port c ≡ some x
    → x.1 ≡ none
    → x.0 ≡ c
unfolding get_client_socket
get_client_socket-none ip port c x e n = ground arith

-- Without a socket the pool is as before.
get_idle_client_socket-none :
    (ip : List ℕ) (port : ℕ) (a : Connect.Answers) (opened : List ℕ) (c : Client) (g : Got)
    → get_idle_client_socket ip port a opened c ≡ some g
    → g.socket ≡ none
    → g.client ≡ c
unfolding get_idle_client_socket
get_idle_client_socket-none ip port a opened c g e n =
    elim (Option-cases (get_client_socket ip port c)) [
      | inl e' ↦ ground arith
      | inr (x, e') ↦ ground (arith, get_client_socket-none ip port c x e')
    ]

ask-no_socket :
    (index : ℕ) (sk : Socket) (note : ℤ) (port : ℕ) (packet : List ℕ) (a : Asking) (f : Worker)
    (g : Got)
    → get_idle_client_socket backend_ip port a.connect f.opened f.client ≡ some g
    → g.socket ≡ none
    → ask index sk note port packet a f
      ≡ ended
          (record f { srv = (insert_server_reuse_socket index sk note f.srv).0; opened = g.opened })
unfolding ask connect
ask-no_socket index sk note port packet a f g e n =
    ground (arith, get_idle_client_socket-none backend_ip port a.connect f.opened f.client g e n)

-- Where BB1 has been asked and there is no socket to BB2, neither an idle one nor a new one, the round
-- ends with the client's socket handed back and the pool and the closed sockets as they were, so the
-- socket to BB1 is neither closed nor back in the pool.
pub serve-loses_first :
    (index : ℕ) (sk : Socket) (r : Round) (req : Request) (f f1 : Worker) (one : Socket) (g : Got)
    → ask index sk r.note bb1_port (packet_of req.seq req.a) r.bb1 f ≡ next one f1
    → get_idle_client_socket backend_ip bb2_port r.bb2.connect f1.opened f1.client ≡ some g
    → g.socket ≡ none
    → serve index sk r req f
      ≡ ended (record f1 {
        srv = (insert_server_reuse_socket index sk r.note f1.srv).0;
        opened = g.opened;
      })
unfolding serve
serve-loses_first index sk r req f f1 one g e1 e2 no_socket =
    rw (e1, ◌>>=◌)
      (rw
        (
          ask-no_socket index sk r.note bb2_port (packet_of req.seq req.b) r.bb2 f1 g e2 no_socket,
          ◌>>=◌,
        )
        refl)
