-- ===== src/Early/Blocks.antt =====
-- nf/buffer.hpp: MemPool, with a list of idle blocks for each of two sizes. cppnf/buffer.hpp and
-- zxbnf/buffer.hpp have the same code.
pub mod Twice
use kknf.Base.{
  ℕ, zero, suc, ◌+◌, ◌-◌, ◌*◌, ◌%◌, List, [], ◌∷◌, ◌++◌, Option, none, some, Bool, ◌==◌,
  if◌then◌else◌,
}

-- A Block: where it starts, and its length.
pub record Block : Type 0 where
  pub start : ℕ
  pub size : ℕ

pub record BlockPool : Type 0 where
  pub large_pool : ℕ
  pub small_pool : ℕ
  pub large_block_size : ℕ
  pub large_block_num : ℕ
  pub small_block_size : ℕ
  pub small_block_num : ℕ
  pub idle_large : List ℕ
  pub idle_small : List ℕ

-- A loop of the constructor: `pool + i * size`, for `n` blocks from `i` on.
unfoldable pub block_starts : ℕ → ℕ → ℕ → ℕ → List ℕ
block_starts pool size i zero = []
block_starts pool size i (suc n) = (pool + i * size) ∷ block_starts pool size (i + 1) n

-- MemPool::MemPool, with the two addresses that malloc() answers: both loops are over the large
-- blocks.
unfoldable pub new_block_pool : ℕ → ℕ → ℕ → ℕ → ℕ → ℕ → BlockPool
unfolding block_starts
new_block_pool large_pool small_pool large_size large_num small_size small_num = record {
  large_pool = large_pool;
  small_pool = small_pool;
  large_block_size = large_size;
  large_block_num = large_num;
  small_block_size = small_size;
  small_block_num = small_num;
  idle_large =
      block_starts large_pool large_size 0 large_num
      ++ block_starts large_pool large_size 0 large_num;
  idle_small = [];
}

-- MemPool::GetSmallBlock; `none` is a null pointer.
unfoldable pub get_small_block : BlockPool → Option Block × BlockPool
get_small_block p = elim (p.idle_small) [
  | [] ↦ (none, p)
  | s ∷ rest ↦
      (some (record { start = s; size = p.small_block_size }), record p { idle_small = rest })
]

-- MemPool::GetLargeBlock.
unfoldable pub get_large_block : BlockPool → Option Block × BlockPool
get_large_block p = elim (p.idle_large) [
  | [] ↦ (none, p)
  | s ∷ rest ↦
      (some (record { start = s; size = p.large_block_size }), record p { idle_large = rest })
]

-- `(b->start() - pool) % size == 0`, for a pointer on either side of `pool`.
abbrev at_block : ℕ → ℕ → ℕ → Bool
at_block start pool size = (start - pool + (pool - start)) % size == 0

-- MemPool::PutBlock; `none` is a failed assertion.
unfoldable pub put_block : Block → BlockPool → Option BlockPool
put_block b p =
    if b.size == p.large_block_size
    then if at_block b.start p.large_pool p.large_block_size
      then some (record p { idle_large = b.start ∷ p.idle_large })
      else none
    else if b.size == p.small_block_size
    then if at_block b.start p.small_pool p.small_block_size
      then some (record p { idle_small = b.start ∷ p.idle_small })
      else none
    else none
