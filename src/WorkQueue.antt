-- ===== src/WorkQueue.antt =====
-- include/common.hpp, `WorkQueue<T>`. Each method runs under the mutex, so a method is one step and
-- threads interleave between calls. The head of the list is the front of the queue.
pub mod Fifo
mod Tests
use uring_sync.Base.{
  ℕ, List, [], ◌∷◌, ◌++◌, Bool, true, false, Option, none, some, ◌&&◌, length, not, ◌||◌,
}

pub record WorkQueue {ℓ} (A : Type ℓ) : Type ℓ where
  pub queue : List A
  pub done : Bool

module _ {ℓ} {A : Type ℓ} where
  unfoldable pub new : WorkQueue A
  new = record { queue = []; done = false }

  unfoldable pub push : WorkQueue A → A → WorkQueue A
  push q item = record q { queue = q.queue ++ item ∷ [] }

  -- `for (auto& item : items) queue_.push(std::move(item));`, on the queue.
  push_each : List A → List A → List A
  push_each queue [] = queue
  push_each queue (item ∷ items) = push_each (queue ++ item ∷ []) items

  unfoldable pub push_bulk : WorkQueue A → List A → WorkQueue A
  unfolding push_each
  push_bulk q items = record q { queue = push_each q.queue items }

  -- `queue_.empty()`, `queue_.front()` and `queue_.pop()`.
  abbrev pub empty : List A → Bool
  empty [] = true
  empty (a ∷ rest) = false

  abbrev front : List A → Option A
  front [] = none
  front (a ∷ rest) = some a

  abbrev popped : List A → List A
  popped [] = []
  popped (a ∷ rest) = rest

  -- The item that goes out by reference, or `none` for the result false.
  unfoldable pub try_pop : WorkQueue A → Option A × WorkQueue A
  try_pop q = (front q.queue, record q { queue = popped q.queue })

  -- What the wait of `wait_pop` tests: while it is false the thread sleeps.
  unfoldable pub can_wake : WorkQueue A → Bool
  can_wake q = not (empty q.queue) || q.done

  -- `wait_pop`: `none` while the thread sleeps, and else the result of the call.
  unfoldable pub wait_pop : WorkQueue A → Option (Option A × WorkQueue A)
  unfolding can_wake
  wait_pop q = elim (can_wake q) [
    | true ↦ some (front q.queue, record q { queue = popped q.queue })
    | false ↦ none
  ]

  unfoldable pub set_done : WorkQueue A → WorkQueue A
  set_done q = record q { done = true }

  unfoldable pub is_done : WorkQueue A → Bool
  is_done q = q.done && empty q.queue

  unfoldable pub size : WorkQueue A → ℕ
  size q = length q.queue
