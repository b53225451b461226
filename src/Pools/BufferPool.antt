-- ===== src/Pools/BufferPool.antt =====
-- include/common.hpp, `BufferPool`. A pointer is a number and `nullptr` is 0.
pub mod Laws
use uring_sync.Base.{
  ℕ, zero, suc, List, [], ◌∷◌, Bool, true, false, Option, none, some, set, get_or, replicate,
}
use uring_sync.Base.Int.{ℤ, pos, negsuc}
use uring_sync.Pools.Slots.{first_free, free_slot, count_free}

pub record BufferPool : Type 0 where
  pub buffers : List ℕ
  pub available : List Bool
  pub buffer_size : ℕ
  pub count : ℕ

-- The loop of the constructor, from `i` with `n` rounds left. `aligned_alloc` is not part of the
-- program: `alloc i` is what its call in round `i` returns.
alloc_from : (ℕ → ℕ) → ℕ → ℕ → List ℕ
alloc_from alloc i zero = []
alloc_from alloc i (suc n) = alloc i ∷ alloc_from alloc (suc i) n

unfoldable pub new : (ℕ → ℕ) → ℕ → ℕ → BufferPool
unfolding alloc_from
new alloc count buffer_size = record {
  buffers = alloc_from alloc 0 count;
  available = replicate count true;
  buffer_size = buffer_size;
  count = count;
}

-- {pointer, index}, or {nullptr, -1} if none is available.
abbrev handed : BufferPool → Option ℕ → (ℕ × ℤ) × BufferPool
handed p none = ((0, negsuc 0), p)
handed p (some i) =
    ((get_or p.buffers i 0, pos i), record p { available = set p.available i false })

unfoldable pub acquire : BufferPool → (ℕ × ℤ) × BufferPool
unfolding first_free
acquire p = handed p (first_free p.count 0 p.available)

unfoldable pub release : BufferPool → ℤ → BufferPool
unfolding free_slot
release p index = record p { available = free_slot p.count index p.available }

unfoldable pub available_count : BufferPool → ℕ
unfolding count_free
available_count p = count_free p.available 0
