-- ===== src/Libevent/Memory.antt =====
-- aanf/libevent-based/src/memblock.cc: MemBlock, and what MemPool::GetMemBlock answers. What its pool
-- holds is not modelled: whether it has a block, and how long that is, is an argument.
use kknf.Base.{ℕ, ◌≡◌, ◌≤◌, ◌<◌, arith, List, [], Option, none, some, ◌||◌, if◌then◌else◌}
use kknf.Base.Int.{ℤ, pos, leb_ℤ, ltb_ℤ}

-- A MemBlock: the bytes from `start_` on that are used, and `len_`. `used_` is their number.
pub record MemBlock : Type 0 where
  pub used : List ℕ
  pub len : ℕ

-- An empty block of the pool.
unfoldable pub from_pool : Option ℕ → Option MemBlock
from_pool none = none
from_pool (some len) = some (record { used = []; len = len })

-- MemPool::GetMemBlock; `none` is its -1, or its -2 where the pool has no block, which leave the pointer
-- of the caller null. The length of the block that the pool has, new or recycled, is an argument.
unfoldable pub get_mem_block : ℕ → Option ℕ → ℤ → Option MemBlock
unfolding from_pool
get_mem_block max_block_size pool size =
    if leb_ℤ size (pos 0) || ltb_ℤ (pos max_block_size) size then none else from_pool pool

-- A size in range gets the block of the pool.
pub get_mem_block_lem :
    (max room size : ℕ)
    → 0 < size
    → size ≤ max
    → get_mem_block max (some room) (pos size) ≡ some (record { used = []; len = room })
unfolding get_mem_block from_pool
get_mem_block_lem max room size h fits = ground arith

from_pool-empty : (pool : Option ℕ) (mb : MemBlock) → from_pool pool ≡ some mb → mb.used ≡ []
unfolding from_pool
from_pool-empty none mb e = cc
from_pool-empty (some len) mb e = ground arith

pub get_mem_block-empty :
    (max : ℕ) (pool : Option ℕ) (size : ℤ) (mb : MemBlock)
    → get_mem_block max pool size ≡ some mb
    → mb.used ≡ []
unfolding get_mem_block
get_mem_block-empty max pool size mb e = ground (arith, from_pool-empty pool mb)
