-- ===== src/Nf/Pool/Refines.antt =====
-- The pool against its specification: one first-in first-out queue for each address.
use kknf.Base.{ℕ, ◌≡◌, ◌≢◌, refl, List, [], ◌∷◌, ◌++◌, Option, none, some, arith, if◌then◌else◌}
use kknf.Base.Map.{same, same-eq, find, assign, erase}
use kknf.Base.Map.Laws.{find-assign, find-erase}
use kknf.Nf.Addr.{SocketAddr}
use kknf.Nf.Addr.Order.{addr_order}
use kknf.Nf.Socket.{Socket}
use kknf.Nf.Pool.{Client, peer_addr, no_sockets, get_client_socket, insert_client_socket}

-- A caller of the pool.
pub data Call : Type 0 where
  get : List ℕ → ℕ → Call
  insert : Socket → Call

-- What one call does to the pool, and what it returns.
abbrev pub call : Call → Client → Option (Client × Option Socket)
call (get ip port) c = get_client_socket ip port c
call (insert sk) c = elim (insert_client_socket sk c) [ none ↦ none | some d ↦ some (d, none) ]

-- The specification: the sockets of each address in the order in which they came.
abbrev pub Queues : Type 0
Queues = SocketAddr → List Socket

abbrev pub head? : List Socket → Option Socket
head? [] = none
head? (s ∷ ss) = some s

abbrev pub tail : List Socket → List Socket
tail [] = []
tail (s ∷ ss) = ss

abbrev pub update : SocketAddr → List Socket → Queues → Queues
update a ss q b = if same b a then ss else q b

abbrev pub spec : Call → Queues → Queues × Option Socket
spec (get ip port) q =
    let a : SocketAddr = record { ip = ip; port = port } in (update a (tail (q a)) q, head? (q a))
spec (insert sk) q = (update (peer_addr sk) (q (peer_addr sk) ++ sk ∷ []) q, none)

-- The pool's list for an address, empty where there is no entry.
abbrev pub or_empty : Option (List Socket) → List Socket
or_empty none = []
or_empty (some ss) = ss

-- The pool stands for these queues, and keeps no empty list.
pub record Agrees (c : Client) (q : Queues) : Type 0 where
  pub same_lists : (a : SocketAddr) → or_empty (find a c.idle) ≡ q a
  pub no_empty : (a : SocketAddr) → find a c.idle ≢ some []

erase-Agrees :
    (a : SocketAddr) (c : Client) (q : Queues)
    → Agrees c q
    → Agrees (record c { idle = erase a c.idle }) (update a [] q)
erase-Agrees a c q h = record {
  same_lists = λ b. ground (arith, find-erase b a c.idle, h.same_lists b);
  no_empty = λ b. ground (arith, find-erase b a c.idle, h.no_empty b);
}

assign-Agrees :
    (a : SocketAddr) (s : Socket) (ss : List Socket) (c : Client) (q : Queues)
    → Agrees c q
    → Agrees (record c { idle = assign a (s ∷ ss) c.idle }) (update a (s ∷ ss) q)
assign-Agrees a s ss c q h = record {
  same_lists = λ b. ground (arith, find-assign b a (s ∷ ss) c.idle, h.same_lists b);
  no_empty = λ b. ground (arith, find-assign b a (s ∷ ss) c.idle, h.no_empty b);
}

-- Where there is no entry, nothing changes.
absent-Agrees :
    (a : SocketAddr) (c : Client) (q : Queues)
    → Agrees c q
    → find a c.idle ≡ none
    → Agrees c (update a [] q)
absent-Agrees a c q h e = record {
  same_lists = λ b. ground (arith, same-eq b a, h.same_lists b);
  no_empty = h.no_empty;
}

-- The answer of `GetClientSocket` by what `find` has found.
get-Agrees :
    (a : SocketAddr) (c : Client) (q : Queues) (o : Option (List Socket))
    → Agrees c q
    → find a c.idle ≡ o
    → (d : Client) × (get_client_socket a.ip a.port c ≡ some (d, head? (q a)))
      × Agrees d (update a (tail (q a)) q)
unfolding get_client_socket
get-Agrees a c q none h e =
    let none_waits : q a ≡ [] = ground (arith, h.same_lists a) in
    rw (e, get_client_socket, none_waits) (c, refl, absent-Agrees a c q h e)
get-Agrees a c q (some []) h e = absurd (h.no_empty a e)
get-Agrees a c q (some (s ∷ [])) h e =
    let waits : q a ≡ s ∷ [] = ground (arith, h.same_lists a) in
    rw (e, get_client_socket, waits) (_, refl, erase-Agrees a c q h)
get-Agrees a c q (some (s ∷ t ∷ rest)) h e =
    let waits : q a ≡ s ∷ t ∷ rest = ground (arith, h.same_lists a) in
    rw (e, get_client_socket, waits) (_, refl, assign-Agrees a t rest c q h)

insert-Agrees :
    (sk : Socket) (c : Client) (q : Queues) (o : Option (List Socket))
    → Agrees c q
    → find (peer_addr sk) c.idle ≡ o
    → (d : Client) × (insert_client_socket sk c ≡ some d)
      × Agrees d (update (peer_addr sk) (q (peer_addr sk) ++ sk ∷ []) q)
unfolding insert_client_socket
insert-Agrees sk c q none h e =
    let none_waits : q (peer_addr sk) ≡ [] = ground (arith, h.same_lists (peer_addr sk)) in
    rw (e, insert_client_socket, none_waits) (_, refl, assign-Agrees (peer_addr sk) sk [] c q h)
insert-Agrees sk c q (some []) h e = absurd (h.no_empty (peer_addr sk) e)
insert-Agrees sk c q (some (s ∷ rest)) h e =
    let waits : q (peer_addr sk) ≡ s ∷ rest = ground (arith, h.same_lists (peer_addr sk)) in
    rw (e, insert_client_socket, waits)
      (_, refl, assign-Agrees (peer_addr sk) s (rest ++ sk ∷ []) c q h)

call-Agrees :
    (k : Call) (c : Client) (q : Queues)
    → Agrees c q
    → (d : Client) × (call k c ≡ some (d, (spec k q).1)) × Agrees d (spec k q).0
call-Agrees (get ip port) c q h = get-Agrees (record { ip = ip; port = port }) c q _ h refl
call-Agrees (insert sk) c q h =
    let (d, e, a) = insert-Agrees sk c q _ h refl in (d, rw (e, call), a)

-- The answers to a history of calls; `none` is a failed assertion.
unfoldable pub run : List Call → Client → Option (List (Option Socket))
run [] c = some []
run (k ∷ ks) c = elim (call k c) [
  | none ↦ none
  | some (d, r) ↦ elim (run ks d) [ none ↦ none | some rs ↦ some (r ∷ rs) ]
]

unfoldable pub spec_run : List Call → Queues → List (Option Socket)
spec_run [] q = []
spec_run (k ∷ ks) q = (spec k q).1 ∷ spec_run ks (spec k q).0

run-eq-spec_run :
    (ks : List Call) (c : Client) (q : Queues) → Agrees c q → run ks c ≡ some (spec_run ks q)
unfolding run spec_run
run-eq-spec_run [] c q h = refl
run-eq-spec_run (k ∷ ks) c q h =
    let (d, e, a) = call-Agrees k c q h in rw (e, run) (rw (run-eq-spec_run ks d _ a))

no_sockets-Agrees : Agrees no_sockets (λ a. [])
unfolding find
no_sockets-Agrees = record { same_lists = λ a. refl; no_empty = λ a e. cc }

-- In any history of calls on a pool that starts empty no assertion fails, and every call returns
-- what first-in first-out queues, one for each address, would return.
pub pool-refines-queues : (ks : List Call) → run ks no_sockets ≡ some (spec_run ks (λ a. []))
pool-refines-queues ks = run-eq-spec_run ks no_sockets (λ a. []) no_sockets-Agrees
