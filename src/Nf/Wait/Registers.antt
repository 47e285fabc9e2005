-- ===== src/Nf/Wait/Registers.antt =====
-- Which descriptors TCPWaitToRead hands to epoll.
use kknf.Base.{
  ℕ, ◌⊎◌, ◌+◌, ◌≤◌, ◌<◌, ◌≡◌, refl, List, [], ◌∷◌, ◌++◌, some, Bool, arith, length, All, All-append,
  Bool-cases, inl, inr, append-nil, append_assoc,
}
use kknf.Base.Int.{ℤ, minus_two}
use kknf.Nf.Socket.{Socket}
use kknf.Nf.Wait.Started.{tcp_wait_to_read-refused}
use kknf.Nf.Wait.{Interest, Wake, returned, add_all, ctl_del, roll_back, tcp_wait_to_read}

add_all-ignores_fds :
    (can_add : ℕ → Bool) (ss ts : List Socket) (i : ℕ) (filled : List ℕ) (l : Interest)
    → length ss ≡ length ts
    → add_all can_add ss i filled l ≡ add_all can_add ts i filled l
unfolding add_all
add_all-ignores_fds can_add [] [] i filled l e = refl
add_all-ignores_fds can_add [] (t ∷ ts) i filled l e = absurd (omega arith)
add_all-ignores_fds can_add (s ∷ ss) [] i filled l e = absurd (omega arith)
add_all-ignores_fds can_add (s ∷ ss) (t ∷ ts) i filled l e =
    rw (
      add_all-ignores_fds can_add ss ts (i + 1) (filled ++ i ∷ []) (l ++ (i, i) ∷ []) (omega arith))

-- What TCPWaitToRead does is the same for any two lists of sockets of one length: the number that
-- line 83 writes into the union takes the place of the descriptor that line 82 has put there, so
-- the descriptors of the sockets never reach epoll.
pub tcp_wait_to_read-ignores_fds :
    (can_add : ℕ → Bool) (wakes : List Wake) (ss ts : List Socket) (triggered errors : List ℕ)
    (num : ℕ) (timeout : ℤ) (l : Interest)
    → length ss ≡ length ts
    → tcp_wait_to_read can_add wakes ss triggered errors num timeout l
      ≡ tcp_wait_to_read can_add wakes ts triggered errors num timeout l
unfolding tcp_wait_to_read
tcp_wait_to_read-ignores_fds can_add wakes ss ts triggered errors num timeout l e =
    rw (e, add_all-ignores_fds can_add ss ts 0 [] l e)

-- No descriptor below `n` is in the list.
abbrev pub AllFrom : ℕ → Interest → Type 0
AllFrom n = All (λ e. n ≤ e.0)

abbrev In : List ℕ → ℕ → Type 0
In [] x = ⊥
In (fd ∷ fds) x = (x ≡ fd) ⊎ In fds x

In-append : (fds gds : List ℕ) (x : ℕ) → In fds x ⊎ In gds x → In (fds ++ gds) x
In-append [] gds x (inl h) = elim h [ ]
In-append [] gds x (inr h) = h
In-append (fd ∷ fds) gds x (inl (inl e)) = inl e
In-append (fd ∷ fds) gds x (inl (inr h)) = inr (In-append fds gds x (inl h))
In-append (fd ∷ fds) gds x (inr h) = inr (In-append fds gds x (inr h))

-- The entries are for descriptors among these.
abbrev Covered : List ℕ → Interest → Type 0
Covered fds = All (λ e. In fds e.0)

Covered-append : (fds gds : List ℕ) (l : Interest) → Covered fds l → Covered (fds ++ gds) l
Covered-append fds gds [] h = tt
Covered-append fds gds (e ∷ l) h = (In-append fds gds e.0 (inl h.0), Covered-append fds gds l h.1)

ctl_del-append : (fd : ℕ) (l m : Interest) → ctl_del fd (l ++ m) ≡ ctl_del fd l ++ ctl_del fd m
unfolding ctl_del
ctl_del-append fd [] m = refl
ctl_del-append fd (e ∷ l) m = ground (arith, ctl_del-append fd l m)

ctl_del-AllFrom : (fd n : ℕ) (l : Interest) → fd < n → AllFrom n l → ctl_del fd l ≡ l
unfolding ctl_del
ctl_del-AllFrom fd n [] h a = refl
ctl_del-AllFrom fd n (e ∷ l) h a = ground (arith, ctl_del-AllFrom fd n l h a.1, a.0)

ctl_del-Covered :
    (fd : ℕ) (fds : List ℕ) (l : Interest) → Covered (fd ∷ fds) l → Covered fds (ctl_del fd l)
unfolding ctl_del
ctl_del-Covered fd fds [] h = tt
ctl_del-Covered fd fds (e ∷ l) h = ground (arith, ctl_del-Covered fd fds l h.1, h.0)

-- The roll back takes away what was added and nothing else.
roll_back-append :
    (fds : List ℕ) (n : ℕ) (l m : Interest)
    → All (λ fd. fd < n) fds
    → AllFrom n l
    → Covered fds m
    → roll_back fds (l ++ m) ≡ l
unfolding roll_back
roll_back-append [] n l [] b a c = append-nil l
roll_back-append [] n l (e ∷ m) b a c = absurd c.0
roll_back-append (fd ∷ fds) n l m b a c =
    rw (ctl_del-append fd l m, ctl_del-AllFrom fd n l b.0 a)
      (roll_back-append fds n l (ctl_del fd m) b.1 a (ctl_del-Covered fd fds m c))

add_all-restores :
    (can_add : ℕ → Bool) (ss : List Socket) (i n k : ℕ) (filled : List ℕ) (l m : Interest)
    → i + length ss ≤ n
    → All (λ fd. fd < n) filled
    → AllFrom n l
    → Covered filled m
    → (add_all can_add ss i filled (l ++ m)).1 ≡ some k
    → (add_all can_add ss i filled (l ++ m)).0 ≡ l
unfolding add_all
add_all-restores can_add [] i n k filled l m h b a c e = cc
add_all-restores can_add (s ∷ ss) i n k filled l m h b a c e = elim (Bool-cases (can_add i)) [
  | inl added ↦
      rw (added, append_assoc l m ((i, i) ∷ []))
        (add_all-restores can_add ss (i + 1) n k (filled ++ i ∷ []) l (m ++ (i, i) ∷ [])
          (omega arith) within a with_entry
          (rw (added, append_assoc l m ((i, i) ∷ []), add_all) at e))
  | inr refused ↦
      rw refused (roll_back-append (filled ++ i ∷ []) n l m within a (Covered-append filled _ m c))
]
  where
    within : All (λ fd. fd < n) (filled ++ i ∷ [])
    within = All-append (λ fd. fd < n) filled (i ∷ []) b (omega arith, tt)

    with_entry : Covered (filled ++ i ∷ []) (m ++ (i, i) ∷ [])
    with_entry =
        All-append (λ x. In (filled ++ i ∷ []) x.0) m ((i, i) ∷ []) (Covered-append filled _ m c)
          (In-append filled (i ∷ []) i (inr (inl refl)), tt)

-- Where epoll refuses one of the descriptors, TCPWaitToRead returns -2 and names that socket in the
-- list of errors; the interest list is as it was before the call, if no descriptor below the number
-- of sockets was in it.
pub tcp_wait_to_read-restores :
    (can_add : ℕ → Bool) (wakes : List Wake) (ss : List Socket) (triggered errors : List ℕ)
    (num k : ℕ) (timeout : ℤ) (l : Interest)
    → 0 < num
    → num ≤ length ss
    → AllFrom (length ss) l
    → (add_all can_add ss 0 [] l).1 ≡ some k
    → tcp_wait_to_read can_add wakes ss triggered errors num timeout l
      ≡ returned minus_two
          (record { triggered = triggered; errors = errors ++ k ∷ []; interest = l })
tcp_wait_to_read-restores can_add wakes ss triggered errors num k timeout l h fits a e =
    rw restored at
      (tcp_wait_to_read-refused can_add wakes ss triggered errors num timeout l k h fits e)
  where
    restored : (add_all can_add ss 0 [] l).0 ≡ l
    restored = rw append-nil at (
        add_all-restores can_add ss 0 (length ss) k [] l [] (omega arith) tt a tt (rw append-nil e))
