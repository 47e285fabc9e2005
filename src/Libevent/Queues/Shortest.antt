-- ===== src/Libevent/Queues/Shortest.antt =====
-- A message goes to a queue that none is shorter than, so the queues stay level.
use kknf.Base.{
  ℕ, zero, suc, ◌+◌, ◌-◌, ◌^◌, ◌≤◌, ◌<◌, ◌≡◌, ◌⊎◌, inl, inr, ◌≢◌, refl, ap, ◌∙◌, List, [], ◌∷◌,
  ◌++◌, some, true, false, Bool-cases, arith, length, ltb, ◌==◌, get_elem?, set, All, ℕ-cases,
}
use kknf.Base.Int.{pos, minus_two}
use kknf.Libevent.Queues.{sizes_of, shortest_from, shortest, push_to, push_message}

eq_test : (m n : ℕ) → m ≡ n → (m == n) ≡ true
eq_test m n e = ground arith

ne_test : (m n : ℕ) → m ≢ n → (m == n) ≡ false
ne_test m n d = ground arith

ne_lt : (m n : ℕ) → m ≢ n → m ≤ n → m < n
ne_lt m n d h = ground arith

one_more_test : (n : ℕ) → (n + 1 == 1) ≡ (n == 0)
one_more_test n = ground arith

module _ {ℓ} {Message : Type ℓ} where
  -- Where the scan ends: at the queue it came with, which no queue is shorter than, or at one of the
  -- list, which is shorter than that and no longer than any of the list.
  Found : List (List Message) → ℕ → ℕ → ℕ → ℕ → Type ℓ
  Found queues i tmp_min tmp_which r =
      ((r ≡ tmp_which) × All (λ q. tmp_min ≤ length q) queues)
      ⊎ ((j : ℕ) × (q : List Message) × (r ≡ i + j)
          × (get_elem? queues j ≡ some q)
          × (length q < tmp_min)
          × All (λ q'. length q ≤ length q') queues)

  All_le :
      (m n : ℕ) (queues : List (List Message))
      → m ≤ n
      → All (λ q. n ≤ length q) queues
      → All (λ q. m ≤ length q) queues
  All_le m n [] h a = tt
  All_le m n (q ∷ queues) h a = (omega arith, All_le m n queues h a.1)

  shortest_from-Found :
      (queues : List (List Message)) (i m w : ℕ)
      → Found queues i m w (shortest_from (sizes_of queues) i m w)
  unfolding Found shortest_from
  shortest_from-Found [] i m w = inl (refl, tt)
  shortest_from-Found (q ∷ queues) i m w = elim (Bool-cases (ltb (length q) m)) [
    | inl less ↦
        rw (less, shortest_from)
          (elim (shortest_from-Found queues (i + 1) (length q) i) [
            | inl (at, a) ↦ inr (0, q, omega (arith, at), refl, ground arith, (omega arith, a))
            | inr (j, q', at, e, l, a) ↦
                inr (suc j, q', omega (arith, at), e, ground arith, (omega arith, a))
          ])
    | inr more ↦
        rw (more, shortest_from)
          (elim (shortest_from-Found queues (i + 1) m w) [
            | inl (at, a) ↦ inl (at, (ground arith, a))
            | inr (j, q', at, e, l, a) ↦ inr (suc j, q', omega (arith, at), e, l, (ground arith, a))
          ])
  ]

  -- Every queue is shorter than the largest int, and there is one.
  shortest-Found :
      (q0 : List Message) (queues : List (List Message))
      → All (λ q. length q < 2 ^ 31 - 1) (q0 ∷ queues)
      → (q : List Message) × (get_elem? (q0 ∷ queues) (shortest (sizes_of (q0 ∷ queues))) ≡ some q)
        × All (λ q'. length q ≤ length q') (q0 ∷ queues)
  unfolding shortest Found
  shortest-Found q0 queues small = elim (shortest_from-Found (q0 ∷ queues) 0 (2 ^ 31 - 1) 0) [
    | inl (at, a) ↦ absurd (omega arith)
    | inr (j, q, at, e, l, a) ↦
        let there : shortest_from (sizes_of (q0 ∷ queues)) 0 (2 ^ 31 - 1) 0 ≡ j =
          omega (arith, at) in
        (q, rw there e, a)
  ]

  All_full :
      (n : ℕ) (queues : List (List Message))
      → All (λ q. n ≤ length q) queues
      → All (λ q. length q ≤ n) queues
      → All (λ q. length q ≡ n) queues
  All_full n [] a b = tt
  All_full n (q ∷ queues) a b = (omega arith, All_full n queues a.1 b.1)

  All_small :
      (m n : ℕ) (queues : List (List Message))
      → m < n
      → All (λ q. length q ≤ m) queues
      → All (λ q. length q < n) queues
  All_small m n [] h a = tt
  All_small m n (q ∷ queues) h a = (omega arith, All_small m n queues h a.1)

  All_at :
      (n which : ℕ) (q : List Message) (queues : List (List Message))
      → get_elem? queues which ≡ some q
      → All (λ q'. length q' ≤ n) queues
      → length q ≤ n
  All_at n which q [] e a = cc
  All_at n zero q (q' ∷ queues) e a = ground (arith, a.0)
  All_at n (suc which) q (q' ∷ queues) e a = All_at n which q queues e a.1

  push_to_full :
      (max_size : ℕ) (msg : Message) (which : ℕ) (queues : List (List Message)) (q : List Message)
      → length q ≡ max_size
      → push_to max_size msg which queues (some q) ≡ some (minus_two, queues, false)
  unfolding push_to
  push_to_full max_size msg which queues q e = rw (eq_test (length q) max_size e)

  push_to_free :
      (max_size : ℕ) (msg : Message) (which : ℕ) (queues : List (List Message)) (q : List Message)
      → length q ≢ max_size
      → push_to max_size msg which queues (some q)
        ≡ some (pos 0, set queues which (q ++ msg ∷ []), length q == 0)
  unfolding push_to
  push_to_free max_size msg which queues q d =
      rw (ne_test (length q) max_size d, one_more_test (length q))

  -- Where no receive queue is over its largest size and none changes between the scan and the push,
  -- PushMessageToRecvQueue puts the message at the end of a queue that none is shorter than, answers 0
  -- and signals a worker exactly if that queue was empty; or all the queues are full, and it answers -2
  -- with nothing changed.
  pub push_message-shortest :
      (max_size : ℕ) (msg : Message) (q0 : List Message) (queues : List (List Message))
      → max_size < 2 ^ 31 - 1
      → All (λ q. length q ≤ max_size) (q0 ∷ queues)
      → (q : List Message) × (which : ℕ) × (get_elem? (q0 ∷ queues) which ≡ some q)
        × All (λ q'. length q ≤ length q') (q0 ∷ queues)
        × (((length q < max_size)
              × (push_message max_size msg (sizes_of (q0 ∷ queues)) (q0 ∷ queues)
                  ≡ some (pos 0, set (q0 ∷ queues) which (q ++ msg ∷ []), length q == 0)))
            ⊎ (All (λ q'. length q' ≡ max_size) (q0 ∷ queues)
                × (push_message max_size msg (sizes_of (q0 ∷ queues)) (q0 ∷ queues)
                    ≡ some (minus_two, q0 ∷ queues, false))))
  unfolding push_message
  push_message-shortest max_size msg q0 queues small fits =
      let all : List (List Message) = q0 ∷ queues in
      let which : ℕ = shortest (sizes_of all) in
      let (q, e, least) =
        shortest-Found q0 queues (All_small max_size (2 ^ 31 - 1) (q0 ∷ queues) small fits) in
      let pushed : push_message max_size msg (sizes_of all) all
          ≡ push_to max_size msg which all (some q) =
        ap (push_to max_size msg which all) e in
      (
        q,
        which,
        e,
        least,
        elim (ℕ-cases (length q) max_size) [
          | inl full ↦ inr (
            All_full max_size all (All_le max_size (length q) all (omega arith) least) fits,
            pushed ∙ push_to_full max_size msg which all q full,
          )
          | inr free ↦
              let below = All_at max_size which q all e fits in
              inl (
                omega (arith, ne_lt (length q) max_size free below),
                pushed ∙ push_to_free max_size msg which all q free,
              )
        ],
      )
