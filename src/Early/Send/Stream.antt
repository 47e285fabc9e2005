-- ===== src/Early/Send/Stream.antt =====
-- The peer gets the bytes of the messages that SendMessage takes, in order and once.
use kknf.Base.{
  take-nil, ℕ, zero, suc, ◌+◌, ◌-◌, ◌≤◌, ◌<◌, ◌≡◌, refl, ap, ap₂, sym, ◌∙◌, inl, inr, List, [], ◌∷◌,
  ◌++◌, some, true, false, Bool-cases, arith, leb, length, take, drop, min, All, length-take,
  length-drop, length-append, drop-drop,
}
use kknf.Early.Send.{
  Buffer, unsent, offered_bytes, drop_sent, MessageToSend, seek_loop, seek_forward,
}

-- The bounds of a buffer are in order, and in its block.
pub record IsBuffer (b : Buffer) : Type 0 where
  pub in_order : b.head ≤ b.tail
  pub in_block : b.tail ≤ length b.bytes

abbrev pub HasBuffer : ℕ × Buffer → Type 0
HasBuffer (id, b) = IsBuffer b

drop-append : (n : ℕ) (xs ys : List ℕ) → drop n (xs ++ ys) ≡ drop n xs ++ drop (n - length xs) ys
drop-append zero xs ys = let z : 0 - length xs ≡ 0 = omega arith in rw z refl
drop-append (suc n) [] ys = let z : suc n - 0 ≡ suc n = omega arith in rw z refl
drop-append (suc n) (x ∷ xs) ys =
    let z : suc n - suc (length xs) ≡ n - length xs = omega arith in rw z (drop-append n xs ys)

drop-take : (k n : ℕ) (xs : List ℕ) → drop k (take n xs) ≡ take (n - k) (drop k xs)
drop-take zero n xs = let z : n - 0 ≡ n = omega arith in rw z refl
drop-take (suc k) zero xs = let z : 0 - suc k ≡ 0 = omega arith in rw z refl
drop-take (suc k) (suc n) [] = sym (take-nil (suc n - suc k))
drop-take (suc k) (suc n) (x ∷ xs) =
    let z : suc n - suc k ≡ n - k = omega arith in rw z (drop-take k n xs)

drop_all : (n : ℕ) (xs : List ℕ) → length xs ≤ n → drop n xs ≡ []
drop_all zero [] h = refl
drop_all zero (x ∷ xs) h = absurd (omega arith)
drop_all (suc n) [] h = refl
drop_all (suc n) (x ∷ xs) h = drop_all n xs (omega arith)

drop_past : (n k : ℕ) (xs ys : List ℕ) → length xs ≡ k → k ≤ n → drop n (xs ++ ys) ≡ drop (n - k) ys
drop_past n k xs ys e h =
    let z : n - length xs ≡ n - k = omega arith in
    rw (drop-append n xs ys, drop_all n xs (omega arith), z) refl

drop_within : (n : ℕ) (xs ys : List ℕ) → n ≤ length xs → drop n (xs ++ ys) ≡ drop n xs ++ ys
drop_within n xs ys h = let z : n - length xs ≡ 0 = omega arith in rw (drop-append n xs ys, z) refl

leb_le : (m n : ℕ) → leb m n ≡ true → m ≤ n
leb_le m n h = ground arith

lt_of_leb : (m n : ℕ) → leb m n ≡ false → n < m
lt_of_leb m n h = ground arith

length-unsent : (b : Buffer) → IsBuffer b → length (unsent b) ≡ b.tail - b.head
length-unsent b v =
    omega (arith, length-take (b.tail - b.head) (drop b.head b.bytes), length-drop b.head b.bytes)

later : (t h k : ℕ) → t - h - k ≡ t - (h + k)
later t h k = omega arith

-- A buffer of which `k` more bytes have gone.
unsent-advance : (b : Buffer) (k : ℕ) → unsent (record b { head = b.head + k }) ≡ drop k (unsent b)
unsent-advance b k = sym (
    drop-take k (b.tail - b.head) (drop b.head b.bytes)
    ∙ ap₂ take (later b.tail b.head k) (drop-drop b.head k (b.head + k) b.bytes refl))

-- What is left after `left` of the offered bytes have gone.
pub drop_sent-rest :
    (left : ℕ) (msgs : List (ℕ × Buffer)) (back : List Buffer)
    → All HasBuffer msgs
    → left ≤ length (offered_bytes msgs)
    → (msgs' : List (ℕ × Buffer)) × (back' : List Buffer) × (drop_sent left msgs back
        ≡ some (msgs', back'))
      × (offered_bytes msgs' ≡ drop left (offered_bytes msgs))
      × All HasBuffer msgs'
unfolding drop_sent offered_bytes
drop_sent-rest zero msgs back v h = (msgs, back, refl, refl, v)
drop_sent-rest (suc left) [] back v h = absurd (omega arith)
drop_sent-rest (suc left) ((id, b) ∷ msgs) back v h =
    let len : ℕ = b.tail - b.head in
    let long : length (unsent b) ≡ len = length-unsent b v.0 in
    elim (Bool-cases (leb len (suc left))) [
      | inl whole ↦
          let (msgs', back', e, o, v') =
            drop_sent-rest (suc left - len) msgs (back ++ b ∷ []) v.1
              (omega (arith, length-append (unsent b) (offered_bytes msgs))) in
          rw whole (
            msgs',
            back',
            e,
            o
                ∙ sym (
                    drop_past (suc left) len (unsent b) (offered_bytes msgs) long
                      (leb_le len (suc left) whole)),
            v',
          )
      | inr part ↦ rw part (
        (id, record b { head = b.head + suc left }) ∷ msgs,
        back,
        refl,
        ap (λ bs. bs ++ offered_bytes msgs) (unsent-advance b (suc left))
            ∙ sym (
                drop_within (suc left) (unsent b) (offered_bytes msgs)
                  (omega (arith, lt_of_leb len (suc left) part))),
        (
          record {
            in_order = omega (arith, lt_of_leb len (suc left) part);
            in_block = omega arith;
          },
          v.1,
        ),
      )
    ]

-- The bytes of buffers one behind the other.
abbrev pub all_unsent : List Buffer → List ℕ
all_unsent [] = []
all_unsent (b ∷ bs) = unsent b ++ all_unsent bs

-- Where the loop of SeekForward ends.
seek_loop-rest :
    (left : ℕ) (passed cur : List Buffer)
    → All IsBuffer cur
    → let (m, over) = seek_loop left passed cur in
      (all_unsent m.cur ≡ drop left (all_unsent cur)) × (over ≡ left - length (all_unsent cur))
unfolding seek_loop
seek_loop-rest zero passed cur v = (refl, omega arith)
seek_loop-rest (suc left) passed [] v = (refl, omega arith)
seek_loop-rest (suc left) passed (b ∷ bs) v =
    let len : ℕ = b.tail - b.head in
    let long : length (unsent b) ≡ len = length-unsent b v.0 in
    elim (Bool-cases (leb len (suc left))) [
      | inl whole ↦
          let (rest, over) =
            seek_loop-rest (suc left - len) (passed ++ record b { head = b.tail } ∷ []) bs v.1 in
          rw whole (
            rest
                ∙ sym (
                    drop_past (suc left) len (unsent b) (all_unsent bs) long
                      (leb_le len (suc left) whole)),
            over ∙ omega (arith, length-append (unsent b) (all_unsent bs)),
          )
      | inr part ↦
          let less : suc left < len = lt_of_leb len (suc left) part in
          rw part (
            ap (λ bytes. bytes ++ all_unsent bs) (unsent-advance b (suc left))
                ∙ sym (drop_within (suc left) (unsent b) (all_unsent bs) (omega arith)),
            omega (arith, length-append (unsent b) (all_unsent bs)),
          )
    ]

-- TCPMessageToSend::SeekForward on a message that is not all sent passes over the next `num` bytes,
-- or over all that are left where there are fewer: what is left to send is the rest, and it answers
-- how many it has passed.
pub seek_forward-drop :
    (num : ℕ) (b : Buffer) (bs passed : List Buffer)
    → All IsBuffer (b ∷ bs)
    → (m : MessageToSend) × (seek_forward num (record { passed = passed; cur = b ∷ bs })
        ≡ some (min num (length (all_unsent (b ∷ bs))), m))
      × (all_unsent m.cur ≡ drop num (all_unsent (b ∷ bs)))
unfolding seek_forward
seek_forward-drop num b bs passed v =
    let (rest, over) = seek_loop-rest num passed (b ∷ bs) v in
    (
      (seek_loop num passed (b ∷ bs)).0,
      ap (λ n. some (n, (seek_loop num passed (b ∷ bs)).0)) (omega (arith, over)),
      rest,
    )
