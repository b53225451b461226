-- ===== src/WorkQueue/Tests.antt =====
-- include/common.hpp, `WorkQueue<T>`: its properties on a short sequence of calls.
use uring_sync.Base.{ℕ, ◌≡◌, List, [], ◌∷◌, ◌++◌, true, some}
use uring_sync.WorkQueue.{new, wait_pop, is_done, empty, front, popped}
use uring_sync.WorkQueue.Fifo.{
  Call, pushes, pushes_bulk, tries, waits, finishes, run, run-fifo, run-never_sleeps,
}

abbrev calls : List (Call ℕ)
calls = waits ∷ pushes 1 ∷ pushes_bulk (2 ∷ 3 ∷ []) ∷ waits ∷ tries ∷ finishes ∷ []

run-fifo_example : (run new calls).0 ++ (run new calls).1.queue ≡ new.queue ++ 1 ∷ 2 ∷ 3 ∷ []
run-fifo_example = run-fifo new calls

run-never_sleeps_example :
    let r = (run new (calls ++ waits ∷ [])).1 in
    (r.done ≡ true)
    × (wait_pop r ≡ some (front r.queue, record r { queue = popped r.queue }))
    × (is_done r ≡ empty r.queue)
run-never_sleeps_example =
    run-never_sleeps new (waits ∷ pushes 1 ∷ pushes_bulk (2 ∷ 3 ∷ []) ∷ waits ∷ tries ∷ [])
      (waits ∷ [])
