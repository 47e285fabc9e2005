-- ===== src/Libevent/Queues/Level.antt =====
-- Messages that only come keep the queues level.
use kknf.Base.{
  ℕ, zero, suc, ◌+◌, ◌-◌, ◌^◌, ◌≤◌, ◌<◌, ◌≡◌, inl, inr, refl, List, [], ◌∷◌, ◌++◌, some, none,
  arith, length, get_elem?, set, replicate, All, length-append, length-set, length-replicate,
  ℕ-cases,
}
use kknf.Base.Int.{ℤ, pos, negsuc}
use kknf.Libevent.Queues.{sizes_of, Pushed, push_message, new_queues}
use kknf.Libevent.Queues.Shortest.{push_message-shortest}

All_replicate {ℓ κ} : {A : Type ℓ} (P : A → Type κ) (x : A) (n : ℕ) → P x → All P (replicate n x)
All_replicate P x zero h = tt
All_replicate P x (suc n) h = (h, All_replicate P x n h)

module _ {ℓ} {Message : Type ℓ} where
  -- The queues after a push.
  abbrev queues_of : List (List Message) → Pushed Message → List (List Message)
  queues_of before none = before
  queues_of before (some (code, after, signal)) = after

  -- The queues after pushes of messages one after the other.
  unfoldable pub push_all : ℕ → List Message → List (List Message) → List (List Message)
  push_all max_size [] queues = queues
  push_all max_size (msg ∷ msgs) queues =
      push_all max_size msgs (queues_of queues (push_message max_size msg (sizes_of queues) queues))

  All_set {κ} :
      (P : List Message → Type κ) (queues : List (List Message)) (which : ℕ) (q : List Message)
      → All P queues
      → P q
      → All P (set queues which q)
  All_set P [] which q a h = tt
  All_set P (q' ∷ queues) zero q a h = (h, a.1)
  All_set P (q' ∷ queues) (suc which) q a h = (a.0, All_set P queues which q a.1 h)

  -- All lengths are `m` or `m + 1`, and none is over the largest size.
  abbrev Level : ℕ → ℕ → List (List Message) → Type 0
  Level max_size m queues =
      All (λ q. (m ≤ length q) × (length q ≤ m + 1) × (length q ≤ max_size)) queues

  Level-fits :
      (max_size m : ℕ) (queues : List (List Message))
      → Level max_size m queues
      → All (λ q. length q ≤ max_size) queues
  Level-fits max_size m [] h = tt
  Level-fits max_size m (q ∷ queues) h = (h.0.2, Level-fits max_size m queues h.1)

  -- Where no queue is shorter than `m + 1`, the lengths are level from there on.
  Level-up :
      (max_size m n : ℕ) (queues : List (List Message))
      → m < n
      → All (λ q. n ≤ length q) queues
      → Level max_size m queues
      → Level max_size (m + 1) queues
  Level-up max_size m n [] l a h = tt
  Level-up max_size m n (q ∷ queues) l a h =
      ((omega arith, omega arith, h.0.2), Level-up max_size m n queues l a.1 h.1)

  Level-at :
      (max_size m which : ℕ) (q : List Message) (queues : List (List Message))
      → get_elem? queues which ≡ some q
      → Level max_size m queues
      → (m ≤ length q) × (length q ≤ m + 1)
  Level-at max_size m which q [] e h = cc
  Level-at max_size m zero q (q' ∷ queues) e h = ground (arith, h.0)
  Level-at max_size m (suc which) q (q' ∷ queues) e h = Level-at max_size m which q queues e h.1

  push-Level :
      (max_size m : ℕ) (msg : Message) (q0 : List Message) (queues : List (List Message))
      → max_size < 2 ^ 31 - 1
      → Level max_size m (q0 ∷ queues)
      → (m' : ℕ) × Level max_size m' (
          queues_of
            (q0 ∷ queues)
            (push_message max_size msg (sizes_of (q0 ∷ queues)) (q0 ∷ queues)))
        × (length (
              queues_of
                (q0 ∷ queues)
                (push_message max_size msg (sizes_of (q0 ∷ queues)) (q0 ∷ queues)))
            ≡ suc (length queues))
  push-Level max_size m msg q0 queues small h =
      let all : List (List Message) = q0 ∷ queues in
      let (q, which, e, least, how) =
        push_message-shortest max_size msg q0 queues small (Level-fits max_size m all h) in
      let q' : List Message = q ++ msg ∷ [] in
      let longer : length q' ≡ length q + 1 = length-append q (msg ∷ []) in
      let near = Level-at max_size m which q all e h in
      elim how [
        | inr (full, same) ↦ rw same (m, h, refl)
        | inl (room, new) ↦ rw new (elim (ℕ-cases (length q) m) [
          | inl lowest ↦ (
            m,
            All_set (λ p. (m ≤ length p) × (length p ≤ m + 1) × (length p ≤ max_size)) all which q'
                h (omega arith),
            length-set all which q',
          )
          | inr higher ↦ (
            m + 1,
            All_set (λ p. (m + 1 ≤ length p) × (length p ≤ m + 1 + 1) × (length p ≤ max_size)) all
                which q' (Level-up max_size m (length q) all (ground arith) least h) (omega arith),
            length-set all which q',
          )
        ])
      ]

  push_all-Level :
      (max_size m k : ℕ) (msgs : List Message) (queues : List (List Message))
      → max_size < 2 ^ 31 - 1
      → length queues ≡ suc k
      → Level max_size m queues
      → (m' : ℕ) × Level max_size m' (push_all max_size msgs queues)
  unfolding push_all
  push_all-Level max_size m k [] queues small e h = (m, h)
  push_all-Level max_size m k (msg ∷ msgs) [] small e h = absurd (omega arith)
  push_all-Level max_size m k (msg ∷ msgs) (q0 ∷ queues) small e h =
      let (m', level, long) = push-Level max_size m msg q0 queues small h in
      push_all-Level max_size m' (length queues) msgs
        (queues_of (q0 ∷ queues) (push_message max_size msg (sizes_of (q0 ∷ queues)) (q0 ∷ queues)))
        small long level

  new_queues_lem :
      (send_num recv_num : ℤ) (recv_queues send_queues : List (List Message))
      → new_queues send_num recv_num ≡ some (recv_queues, send_queues)
      → (k : ℕ) × (recv_queues ≡ replicate (suc k) [])
  unfolding new_queues
  new_queues_lem send_num (negsuc n) recv_queues send_queues e = absurd (ground arith)
  new_queues_lem send_num (pos zero) recv_queues send_queues e = absurd (ground arith)
  new_queues_lem send_num (pos (suc k)) recv_queues send_queues e = (k, ground arith)

  -- Whatever messages are pushed to the receive queues of a new NetFrame before any is taken, the
  -- lengths of the queues stay within one of each other, and none is over the largest size.
  pub push_all-level :
      (send_num recv_num : ℤ) (max_size : ℕ) (msgs : List Message)
      (recv_queues send_queues : List (List Message))
      → new_queues send_num recv_num ≡ some (recv_queues, send_queues)
      → max_size < 2 ^ 31 - 1
      → (m : ℕ) × All
          (λ q. (m ≤ length q) × (length q ≤ m + 1) × (length q ≤ max_size))
          (push_all max_size msgs recv_queues)
  push_all-level send_num recv_num max_size msgs recv_queues send_queues e small =
      let (k, new) = new_queues_lem send_num recv_num recv_queues send_queues e in
      push_all-Level max_size 0 k msgs recv_queues small (rw new (length-replicate (suc k) [])) (
        rw new (
          All_replicate {A = List Message}
            (λ q. (0 ≤ length q) × (length q ≤ 0 + 1) × (length q ≤ max_size)) [] (suc k)
            (omega arith)))
