-- ===== src/Libevent/Write/Blocks.antt =====
-- What WriteHandler sends of the blocks, and which stay.
use kknf.Base.{
  take-append_short, ℕ, zero, suc, ◌-◌, ◌≤◌, ◌<◌, ◌≡◌, refl, ap, List, [], ◌∷◌, ◌++◌, some, true,
  false, arith, length, take, map, min, leb, ◌==◌, length-append, append_assoc, take-length_append,
}
use kknf.Base.Int.{pos}
use kknf.Libevent.Write.{SendList, WritevAnswer, join, vec_loop, write_done, write_handler}

part_of : (k n : ℕ) → k < n → leb n k ≡ false
part_of k n h = ground arith

some_bytes : (k : ℕ) → 0 < k → (k == 0) ≡ false
some_bytes k h = ground arith

-- A call in which writev() takes a part of the first block sends the start of that block, wherever
-- the last call has stopped in it, and keeps all the blocks.
write_handler-part :
    (b : List ℕ) (bs : List (List ℕ)) (at : ℕ) (a : WritevAnswer)
    → 0 < a.takes
    → a.takes < length b
    → write_handler a (record { blocks = b ∷ bs; front_pos = at })
      ≡ some (record {
        write_code = pos 0;
        after = record { blocks = b ∷ bs; front_pos = a.takes };
        sent_bytes = take a.takes b;
      })
unfolding write_handler vec_loop write_done
write_handler-part b bs at a some_taken part =
    let rest : List ℕ = join (take 998 bs) in
    let num : min a.takes (length (b ++ rest)) ≡ a.takes = omega (arith, length-append b rest) in
    rw (
      num,
      some_bytes a.takes some_taken,
      part_of a.takes (length b) part,
      take-append_short a.takes b rest (omega arith),
    )

-- Where writev() takes `k` bytes of the first block and then, in the next call, `j`, both less than
-- the block has, the peer gets the first `k` bytes of the block and then its first `j` bytes again:
-- WriteHandler answers 0 and notes where it stopped, but goes on from the start of the block.
pub write_handler-sends_again :
    (b : List ℕ) (bs : List (List ℕ)) (a a' : WritevAnswer)
    → 0 < a.takes
    → a.takes < length b
    → 0 < a'.takes
    → a'.takes < length b
    → (q : SendList) × (write_handler a (record { blocks = b ∷ bs; front_pos = 0 })
        ≡ some (record { write_code = pos 0; after = q; sent_bytes = take a.takes b }))
      × (write_handler a' q
          ≡ some (record {
            write_code = pos 0;
            after = record { blocks = b ∷ bs; front_pos = a'.takes };
            sent_bytes = take a'.takes b;
          }))
write_handler-sends_again b bs a a' s p s' p' = (
  record { blocks = b ∷ bs; front_pos = a.takes },
  write_handler-part b bs 0 a s p,
  write_handler-part b bs a.takes a' s' p',
)

-- The loop past whole blocks.
vec_loop-whole :
    (pre post : List (List ℕ)) (b : List ℕ) (at unset : ℕ)
    → 0 < length b
    → vec_loop
        (map length (pre ++ (b ∷ post)) ++ unset ∷ [])
        (length (join pre))
        (record { blocks = pre ++ (b ∷ post); front_pos = at })
      ≡ some (record { blocks = b ∷ post; front_pos = 0 })
unfolding vec_loop
vec_loop-whole [] post b at unset h = rw (part_of 0 (length b) h)
vec_loop-whole (p ∷ pre) post b at unset h =
    let all : leb (length p) (length (p ++ join pre)) ≡ true =
      whole_first (length p) (length (p ++ join pre)) (omega (arith, length-append p (join pre))) in
    let left : length (p ++ join pre) - length p ≡ length (join pre) =
      omega (arith, length-append p (join pre)) in
    rw (all, left) (vec_loop-whole pre post b at unset h)
  where
    whole_first : (m n : ℕ) → m ≤ n → leb m n ≡ true
    whole_first m n h = ground arith

take_all {ℓ} : {A : Type ℓ} (n : ℕ) (xs : List A) → length xs ≤ n → take n xs ≡ xs
take_all zero [] h = refl
take_all zero (x ∷ xs) h = absurd (omega arith)
take_all (suc n) [] h = refl
take_all (suc n) (x ∷ xs) h = ap (◌∷◌ x) (take_all n xs (omega arith))

join-append : (xs ys : List (List ℕ)) → join (xs ++ ys) ≡ join xs ++ join ys
join-append [] ys = refl
join-append (x ∷ xs) ys = rw (join-append xs ys, append_assoc)

-- Where writev() takes just the blocks of `pre`, of at most 999, they leave the send list, the next
-- call starts with the first of the others, and the peer has got the bytes of `pre` in order.
pub write_handler-whole :
    (pre post : List (List ℕ)) (b : List ℕ) (at : ℕ) (a : WritevAnswer)
    → length (pre ++ (b ∷ post)) < 1000
    → 0 < length b
    → 0 < a.takes
    → a.takes ≡ length (join pre)
    → write_handler a (record { blocks = pre ++ (b ∷ post); front_pos = at })
      ≡ some (record {
        write_code = pos 0;
        after = record { blocks = b ∷ post; front_pos = 0 };
        sent_bytes = join pre;
      })
unfolding write_handler write_done
write_handler-whole pre post b at a few some_left some_taken e =
    let offered : take 999 (pre ++ (b ∷ post)) ≡ pre ++ (b ∷ post) =
      take_all 999 (pre ++ (b ∷ post)) (omega arith) in
    let num : min a.takes (length (join pre ++ join (b ∷ post))) ≡ length (join pre) =
      omega (arith, length-append (join pre) (join (b ∷ post))) in
    rw (
      offered,
      join-append pre (b ∷ post),
      num,
      some_bytes (length (join pre)) (omega arith),
      take-length_append (join pre) (join (b ∷ post)),
      vec_loop-whole pre post b at a.unset_len some_left,
    )
