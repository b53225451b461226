-- ===== src/Pools/Tests.antt =====
-- include/common.hpp, `BufferPool`: its properties on a pool of two.
use uring_sync.Base.{ℕ, ◌+◌, ◌*◌, refl, [], ◌∷◌, inl, inr}
use uring_sync.Base.Int.{pos}
use uring_sync.Pools.BufferPool.{BufferPool, available_count}
use uring_sync.Pools.BufferPool
use uring_sync.Pools.BufferPool.Laws.{
  Sized, Hands, acquire_lem, Reach, Step, here, next, acquires, releases, Reach-IsOwned,
}
use uring_sync.Pools.BufferPool.Laws

abbrev alloc : ℕ → ℕ
alloc i = 4096 * (i + 1)

-- Two buffers are taken, and the first is given back.
abbrev once : BufferPool
once = (BufferPool.acquire (BufferPool.new alloc 2 4096)).1

abbrev twice : BufferPool
twice = (BufferPool.acquire once).1

abbrev back : BufferPool
back = BufferPool.release twice (pos 0)

reached : Reach (BufferPool.new alloc 2 4096) [] back (1 ∷ [])
unfolding BufferPool.new BufferPool.acquire
reached = next (next (next here (acquires 0 refl)) (acquires 1 refl)) (releases 0 (inr (inl refl)))

Reach-IsOwned_example : Laws.IsOwned back (1 ∷ [])
Reach-IsOwned_example = Reach-IsOwned alloc 2 4096 reached
