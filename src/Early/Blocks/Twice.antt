-- ===== src/Early/Blocks/Twice.antt =====
-- A new MemPool hands each large block out twice, and no small one.
use kknf.Base.{
  ℕ, zero, suc, ◌+◌, ◌*◌, ◌<◌, ◌≡◌, refl, ap, sym, ◌∙◌, append-nil, drop-drop, List, [], ◌∷◌, ◌++◌,
  none, some, arith, length, drop, drop-length_append,
}
use kknf.Early.Blocks.{BlockPool, block_starts, new_block_pool, get_small_block, get_large_block}

-- The pool after `n` calls of GetLargeBlock, none of whose blocks came back.
unfoldable pub get_large_blocks : ℕ → BlockPool → BlockPool
get_large_blocks zero p = p
get_large_blocks (suc n) p = get_large_blocks n (get_large_block p).1

length-block_starts : (pool size i n : ℕ) → length (block_starts pool size i n) ≡ n
unfolding block_starts
length-block_starts pool size i zero = refl
length-block_starts pool size i (suc n) = ap suc (length-block_starts pool size (i + 1) n)

drop-nil : (n : ℕ) → drop {A = ℕ} n [] ≡ []
drop-nil zero = refl
drop-nil (suc n) = refl

-- The calls take blocks from the front of the list.
get_large_blocks-drop :
    (n : ℕ) (l : List ℕ) (p : BlockPool)
    → get_large_blocks n (record p { idle_large = l }) ≡ record p { idle_large = drop n l }
unfolding get_large_blocks get_large_block
get_large_blocks-drop zero l p = refl
get_large_blocks-drop (suc n) [] p =
    get_large_blocks-drop n [] p ∙ ap (λ l. record p { idle_large = l }) (drop-nil n)
get_large_blocks-drop (suc n) (s ∷ rest) p = get_large_blocks-drop n rest p

-- The block at place `i` of a run of them.
drop-block_starts :
    (pool size j n i : ℕ) (rest : List ℕ)
    → i < n
    → (t : List ℕ) × (drop i (block_starts pool size j n ++ rest) ≡ (pool + (j + i) * size) ∷ t)
unfolding block_starts
drop-block_starts pool size j zero i rest h = absurd (omega arith)
drop-block_starts pool size j (suc n) zero rest h = (
  block_starts pool size (j + 1) n ++ rest,
  ap (λ k. (pool + k * size) ∷ (block_starts pool size (j + 1) n ++ rest)) (omega arith),
)
drop-block_starts pool size j (suc n) (suc i) rest h =
    let (t, e) = drop-block_starts pool size (j + 1) n i rest (omega arith) in
    (t, e ∙ ap (λ k. (pool + k * size) ∷ t) (omega arith))

-- The next block of a pool whose list is known.
get_large_block-cons :
    (s : ℕ) (l t : List ℕ) (p : BlockPool)
    → l ≡ s ∷ t
    → (get_large_block (record p { idle_large = l })).0
      ≡ some (record { start = s; size = p.large_block_size })
unfolding get_large_block
get_large_block-cons s l t p e = rw e refl

-- A MemPool that its constructor has made hands out each of its large blocks twice: with no block
-- put back, call `i` of GetLargeBlock (from 0 on) and the call `large_num` calls later answer the
-- same block. GetSmallBlock has none.
pub get_large_block-twice :
    (large_pool small_pool large_size large_num small_size small_num i : ℕ)
    → i < large_num
    → let p = new_block_pool large_pool small_pool large_size large_num small_size small_num in
      ((get_large_block (get_large_blocks i p)).0
        ≡ some (record { start = large_pool + i * large_size; size = large_size }))
      × ((get_large_block (get_large_blocks (large_num + i) p)).0
          ≡ some (record { start = large_pool + i * large_size; size = large_size }))
      × ((get_small_block p).0 ≡ none)
unfolding new_block_pool get_small_block
get_large_block-twice large_pool small_pool large_size large_num small_size small_num i h =
    let p = new_block_pool large_pool small_pool large_size large_num small_size small_num in
    let run : List ℕ = block_starts large_pool large_size 0 large_num in
    let (t, first) = drop-block_starts large_pool large_size 0 large_num i run h in
    let (t', second) = drop-block_starts large_pool large_size 0 large_num i [] h in
    let again : drop (large_num + i) (run ++ run) ≡ (large_pool + (0 + i) * large_size) ∷ t' =
      sym (drop-drop large_num i (large_num + i) (run ++ run) refl)
      ∙ ap (drop i) (behind run large_num (length-block_starts large_pool large_size 0 large_num))
      ∙ second in
    let start : large_pool + (0 + i) * large_size ≡ large_pool + i * large_size =
      ap (λ k. large_pool + k * large_size) (omega arith) in
    (
      rw (get_large_blocks-drop i (run ++ run) p) (
          get_large_block-cons (large_pool + i * large_size) (drop i (run ++ run)) t p
            (first ∙ ap (λ k. k ∷ t) start)),
      rw (get_large_blocks-drop (large_num + i) (run ++ run) p) (
          get_large_block-cons (large_pool + i * large_size) (drop (large_num + i) (run ++ run)) t'
            p (again ∙ ap (λ k. k ∷ t') start)),
      refl,
    )
  where
    behind : (l : List ℕ) (n : ℕ) → length l ≡ n → drop n (l ++ l) ≡ l ++ []
    behind l n e = rw (← e) (drop-length_append l l ∙ sym (append-nil l))
