-- ===== src/Nf/Server/Flush.antt =====
-- all-sync/server.hpp: `server_sk_map` as an ordered map, and its flush to the ready lists.
use kknf.Base.{
  ℕ, ◌<◌, ◌≤◌, zero, suc, ◌≡◌, refl, ap, inl, inr, List, [], ◌∷◌, ◌++◌, append-nil, append_assoc,
  Option, none, some, ◌==◌, if◌then◌else◌, arith, get_elem?, set, Option-cases,
}
use kknf.Nf.Socket.{Socket}
use kknf.Nf.Server.{Server, SocketMap, push, insert_at, insert_server_ready_socket}

-- The sockets under a key.
abbrev pub under : ℕ → SocketMap → List Socket
under index [] = []
under index ((j, ss) ∷ m) = let rest = under index m in if index == j then ss ++ rest else rest

-- Every key is above a bound, and the keys ascend.
abbrev pub AllAbove : ℕ → SocketMap → Type 0
AllAbove j [] = Unit
AllAbove j ((k, ss) ∷ m) = (j < k) × AllAbove j m

abbrev pub IsSorted : SocketMap → Type 0
IsSorted [] = Unit
IsSorted ((k, ss) ∷ m) = AllAbove k m × IsSorted m

under-above : (j : ℕ) (m : SocketMap) → AllAbove j m → under j m ≡ []
under-above j [] h = refl
under-above j ((k, ss) ∷ m) (h, hs) = ground (arith, under-above j m hs)

AllAbove-mono : (i j : ℕ) (m : SocketMap) → i ≤ j → AllAbove j m → AllAbove i m
AllAbove-mono i j [] h hs = tt
AllAbove-mono i j ((k, ss) ∷ m) h (n, ns) = (omega arith, AllAbove-mono i j m h ns)

push-AllAbove :
    (j i : ℕ) (s : Socket) (m : SocketMap) → j < i → AllAbove j m → AllAbove j (push i s m)
unfolding push
push-AllAbove j i s [] h hs = (h, tt)
push-AllAbove j i s ((k, ss) ∷ m) h (n, ns) = ground (arith, push-AllAbove j i s m h ns)

pub push-IsSorted : (i : ℕ) (s : Socket) (m : SocketMap) → IsSorted m → IsSorted (push i s m)
unfolding push
push-IsSorted i s [] h = (tt, tt)
push-IsSorted i s ((k, ss) ∷ m) (n, ns) =
    ground (arith, AllAbove-mono i k m, push-AllAbove k i s m, push-IsSorted i s m ns)

pub under-push :
    (i j : ℕ) (s : Socket) (m : SocketMap)
    → IsSorted m
    → under i (push j s m) ≡ (if i == j then under i m ++ s ∷ [] else under i m)
unfolding push
under-push i j s [] h = refl
under-push i j s ((k, ss) ∷ m) (n, ns) = ground (
  arith,
  under-push i j s m ns,
  under-above k m n,
  under-above j m,
  AllAbove-mono j k m,
  append_assoc ss (under i m) (s ∷ []),
  append-nil ss,
  append-nil (ss ++ s ∷ []),
)

-- A list with more at its end, where there is a list.
abbrev pub extended : List Socket → Option (List Socket) → Option (List Socket)
extended sks none = none
extended sks (some ss) = some (ss ++ sks)

extended_nil : (o : Option (List Socket)) → extended [] o ≡ o
extended_nil none = refl
extended_nil (some ss) = ap (λ l. some l) (append-nil ss)

extended_twice :
    (xs ys : List Socket) (o : Option (List Socket))
    → extended ys (extended xs o) ≡ extended (xs ++ ys) o
extended_twice xs ys none = refl
extended_twice xs ys (some ss) = ap (λ l. some l) (append_assoc ss xs ys)

get_elem?-set :
    (lists : List (List Socket)) (i k : ℕ) (ss sks : List Socket)
    → get_elem? lists i ≡ some ss
    → get_elem? (set lists i (ss ++ sks)) k
      ≡ (if k == i then extended sks (get_elem? lists k) else get_elem? lists k)
get_elem?-set [] i k ss sks e = cc
get_elem?-set (l ∷ ls) zero zero ss sks e = ground arith
get_elem?-set (l ∷ ls) zero (suc k) ss sks e = ground arith
get_elem?-set (l ∷ ls) (suc i) zero ss sks e = ground arith
get_elem?-set (l ∷ ls) (suc i) (suc k) ss sks e = ground (arith, get_elem?-set ls i k ss sks e)

insert_at-get_elem? :
    (i k : ℕ) (sks : List Socket) (lists lists' : List (List Socket))
    → insert_at i sks lists ≡ some lists'
    → get_elem? lists' k ≡ (if k == i then extended sks (get_elem? lists k) else get_elem? lists k)
unfolding insert_at
insert_at-get_elem? i k sks lists lists' e = elim (Option-cases (get_elem? lists i)) [
  | inl n ↦ absurd (ground arith)
  | inr (ss, q) ↦ ground (arith, get_elem?-set lists i k ss sks q)
]

pub flush-get_elem? :
    (k : ℕ) (m : SocketMap) (srv srv' : Server)
    → insert_server_ready_socket m srv ≡ some srv'
    → get_elem? srv'.ready k ≡ extended (under k m) (get_elem? srv.ready k)
unfolding insert_server_ready_socket
flush-get_elem? k [] srv srv' e = ground (arith, extended_nil (get_elem? srv.ready k))
flush-get_elem? k ((i, sks) ∷ m) srv srv' e = elim (Option-cases (insert_at i sks srv.ready)) [
  | inl n ↦ absurd (ground arith)
  | inr (lists, q) ↦ ground (
    arith,
    insert_at-get_elem? i k sks srv.ready lists q,
    flush-get_elem? k m (record srv { ready = lists }) srv',
    extended_twice sks (under k m) (get_elem? srv.ready k),
  )
]
