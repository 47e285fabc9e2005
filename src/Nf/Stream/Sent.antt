-- ===== src/Nf/Stream/Sent.antt =====
-- TCPSend sends every byte of the buffer once and in order, or says that it has not.
use kknf.Base.{
  ℕ, ◌≤◌, ◌<◌, ◌≡◌, ◌≢◌, refl, ◌⊎◌, inl, inr, List, [], ◌∷◌, ◌++◌, append-nil, append_assoc, none,
  some, arith, length, take, drop, take-append-drop, All, sym, length-drop, ◌∙◌, ap,
}
use kknf.Base.Int.{pos, minus_two}
use kknf.Nf.Stream.{SendAnswer, took, send_failed, send_loop, tcp_send}

-- Nothing is lost or sent twice, wherever the loop stands.
send_loop-append :
    (answers : List SendAnswer) (taken bs : List ℕ)
    → (send_loop answers taken bs).taken ++ (send_loop answers taken bs).left ≡ taken ++ bs
unfolding send_loop
send_loop-append [] taken [] = refl
send_loop-append (a ∷ answers) taken [] = refl
send_loop-append [] taken (b ∷ bs) = refl
send_loop-append (took n ∷ answers) taken (b ∷ bs) = rw (
  send_loop-append answers (taken ++ take n (b ∷ bs)) (drop n (b ∷ bs)),
  append_assoc,
  take-append-drop n (b ∷ bs),
)
send_loop-append (send_failed errno ∷ answers) taken (b ∷ bs) =
    ground (arith, send_loop-append answers taken (b ∷ bs))

-- The codes: 0 with nothing left, -2 with something left, or still running with something left.
send_loop-code :
    (answers : List SendAnswer) (taken bs : List ℕ)
    → let s = send_loop answers taken bs in
      ((s.code ≡ some (pos 0)) × (s.left ≡ []))
      ⊎ ((s.code ≡ some minus_two) × (s.left ≢ []))
      ⊎ ((s.code ≡ none) × (s.left ≢ []))
unfolding send_loop
send_loop-code [] taken [] = inl (refl, refl)
send_loop-code (a ∷ answers) taken [] = inl (refl, refl)
send_loop-code [] taken (b ∷ bs) = inr (inr (refl, λ e. cc))
send_loop-code (took n ∷ answers) taken (b ∷ bs) =
    send_loop-code answers (taken ++ take n (b ∷ bs)) (drop n (b ∷ bs))
send_loop-code (send_failed errno ∷ answers) taken (b ∷ bs) =
    ground (arith, send_loop-code answers taken (b ∷ bs))

-- Whatever send() answers, what the system has taken and what is left make up the buffer, in order.
-- TCPSend returns 0 with nothing left, or -2 with something left, or is still in its loop with
-- something left.
pub tcp_send-exact :
    (bs : List ℕ) (answers : List SendAnswer)
    → let s = tcp_send (some bs) answers in
      (s.taken ++ s.left ≡ bs)
      × (((s.code ≡ some (pos 0)) × (s.left ≡ []))
          ⊎ ((s.code ≡ some minus_two) × (s.left ≢ []))
          ⊎ ((s.code ≡ none) × (s.left ≢ [])))
unfolding tcp_send
tcp_send-exact bs answers = (send_loop-append answers [] bs, send_loop-code answers [] bs)

-- An answer after which TCPSend is no worse off: some bytes taken.
abbrev pub Takes : SendAnswer → Type 0
Takes (took n) = 0 < n
Takes (send_failed errno) = ⊥

send_loop-returns :
    (answers : List SendAnswer) (taken bs : List ℕ)
    → All Takes answers
    → length bs ≤ length answers
    → (send_loop answers taken bs).code ≡ some (pos 0)
unfolding send_loop
send_loop-returns [] taken [] t h = refl
send_loop-returns (a ∷ answers) taken [] t h = refl
send_loop-returns [] taken (b ∷ bs) t h = absurd (omega arith)
send_loop-returns (took n ∷ answers) taken (b ∷ bs) t h =
    send_loop-returns answers _ (drop n (b ∷ bs)) t.1 (omega (arith, length-drop n (b ∷ bs), t.0))
send_loop-returns (send_failed errno ∷ answers) taken (b ∷ bs) t h = absurd t.0

-- If every send() takes at least one byte, TCPSend returns 0 after at most as many calls as the
-- buffer has bytes, and the system has taken the whole buffer.
pub tcp_send-returns :
    (bs : List ℕ) (answers : List SendAnswer)
    → All Takes answers
    → length bs ≤ length answers
    → ((tcp_send (some bs) answers).code ≡ some (pos 0)) × ((tcp_send (some bs) answers).taken ≡ bs)
unfolding tcp_send
tcp_send-returns bs answers t h =
    let code = send_loop-returns answers [] bs t h in
    let whole = send_loop-append answers [] bs in
    elim (send_loop-code answers [] bs) [
      | inl (_, e) ↦ (code, sym (append-nil _) ∙ ap (◌++◌ _) (sym e) ∙ whole)
      | inr (inl (c, _)) ↦ absurd (cc)
      | inr (inr (c, _)) ↦ absurd (cc)
    ]
