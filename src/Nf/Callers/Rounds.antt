-- ===== src/Nf/Callers/Rounds.antt =====
-- all-sync/test_multi_pool_client.cc: the loop of main(), round after round.
use kknf.Base.{ℕ, ◌+◌, ◌≡◌, refl, List, [], ◌∷◌, Option, some, arith, All, length}
use kknf.Base.Int.{ℤ}
use kknf.Nf.Stream.{RecvAnswer}
use kknf.Nf.Worker.{Incoming}
use kknf.Nf.Front.{Asking}
use kknf.Nf.Pools.{Number}
use kknf.Nf.Callers.{
  Caller, Called, went_on, returns, blocked, over_read, failed, call_numbers, line_reply, call_line,
  call_datagram, and_then,
}

-- The three Clients, and the static `seq`.
pub record Callers : Type 0 where
  pub one : Caller
  pub two : Caller
  pub three : Caller
  pub seq : ℕ

-- The answers of one round.
pub record Answers : Type 0 where
  pub numbers : Asking
  pub number_came : Incoming
  pub line : Asking
  pub line_came : RecvAnswer
  pub line_wire : List ℕ
  pub udp_fd : Option ℕ
  pub to_ip : Option ℕ
  pub udp_sent : ℤ
  pub datagram : Option (List ℕ × List ℕ × ℕ)

-- The third part, and the end of the round.
unfoldable pub last_call : Answers → Callers → Called Callers (Unit {0})
unfolding call_datagram
last_call a c =
    and_then (λ three. record c { three = three })
      (call_datagram (c.seq + 2) a.udp_fd a.to_ip a.udp_sent a.datagram c.three)
      (λ n three. went_on tt (record c { three = three; seq = c.seq + 4 }))

-- The second part and the third.
unfoldable pub later_calls : Answers → Callers → Called Callers (Unit {0})
unfolding last_call call_line line_reply
later_calls a c =
    and_then (λ two. record c { two = two })
      (call_line a.line (line_reply a.line_came a.line_wire) c.two)
      (λ l two. last_call a (record c { two = two }))

-- One round of the loop.
unfoldable pub round : Answers → Callers → Called Callers (Unit {0})
unfolding later_calls call_numbers
round a c =
    and_then (λ one. record c { one = one }) (call_numbers c.seq a.numbers a.number_came c.one)
      (λ n one. later_calls a (record c { one = one }))

-- Round after round, until main() returns.
unfoldable pub rounds : List Answers → Callers → Called Callers (Unit {0})
unfolding round
rounds [] c = went_on tt c
rounds (a ∷ as') c = and_then (λ x. x) (round a c) (λ u c'. rounds as' c')

and_then-went_on :
    {S T A B : Type 0} (put : S → T) (r : Called S A) (k : A → S → Called T B) (b : B) (t : T)
    → and_then put r k ≡ went_on b t
    → (a : A) × (s : S) × (r ≡ went_on a s) × (k a s ≡ went_on b t)
and_then-went_on put (went_on a s) k b t e = (a, s, refl, e)
and_then-went_on put (returns code s) k b t e = cc
and_then-went_on put blocked k b t e = cc
and_then-went_on put over_read k b t e = cc
and_then-went_on put failed k b t e = cc

call_datagram-opened :
    (seq : ℕ) (fd to_ip : Option ℕ) (ret : ℤ) (came : Option (List ℕ × List ℕ × ℕ)) (c c' : Caller)
    (n : Number) (x : ℕ)
    → fd ≡ some x
    → call_datagram seq fd to_ip ret came c ≡ went_on n c'
    → c'.opened ≡ x ∷ c.opened
unfolding call_datagram
call_datagram-opened seq fd to_ip ret came c c' n x e h = ground arith

-- A socket for datagrams is open at the end of a round.
last_call-opened :
    (a : Answers) (c c' : Callers) (x : ℕ)
    → a.udp_fd ≡ some x
    → last_call a c ≡ went_on tt c'
    → c'.three.opened ≡ x ∷ c.three.opened
unfolding last_call
last_call-opened a c c' x e h =
    let (n, three, q, k) =
      and_then-went_on (λ t. record c { three = t })
        (call_datagram (c.seq + 2) a.udp_fd a.to_ip a.udp_sent a.datagram c.three)
        (λ n three. went_on tt (record c { three = three; seq = c.seq + 4 })) tt c' h in
    ground (
      arith,
      call_datagram-opened (c.seq + 2) a.udp_fd a.to_ip a.udp_sent a.datagram c.three three n x e q,
    )

round-opened :
    (a : Answers) (c c' : Callers) (x : ℕ)
    → a.udp_fd ≡ some x
    → round a c ≡ went_on tt c'
    → c'.three.opened ≡ x ∷ c.three.opened
unfolding round later_calls
round-opened a c c' x e h =
    let (n, one, q, k) =
      and_then-went_on (λ t. record c { one = t })
        (call_numbers c.seq a.numbers a.number_came c.one)
        (λ n one. later_calls a (record c { one = one })) tt c' h in
    let (l, two, q', k') =
      and_then-went_on (λ t. record c { one = one; two = t })
        (call_line a.line (line_reply a.line_came a.line_wire) c.two)
        (λ l two. last_call a (record c { one = one; two = two })) tt c' k in
    last_call-opened a (record c { one = one; two = two }) c' x e k'

-- Where main() is still in its loop after some rounds, each of which got a socket for datagrams, each of
-- these sockets is open: there are as many more open descriptors as there were rounds.
pub rounds-leaks :
    (as' : List Answers) (c c' : Callers)
    → All (λ (a : Answers). (x : ℕ) × (a.udp_fd ≡ some x)) as'
    → rounds as' c ≡ went_on tt c'
    → length c'.three.opened ≡ length c.three.opened + length as'
unfolding rounds
rounds-leaks [] c c' h e = ground arith
rounds-leaks (a ∷ as') c c' ((x, h), hs) e =
    let (u, d, q, k) = and_then-went_on (λ t. t) (round a c) (λ u t. rounds as' t) tt c' e in
    ground (arith, round-opened a c d x h q, rounds-leaks as' d c' hs k)
