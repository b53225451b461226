-- ===== src/Worker/Steps.antt =====
-- src/main.cpp, `worker_thread`: where a worker starts, and what can happen to it, in which order.
use uring_sync.Base.{ℕ, ◌+◌, ◌≡◌, List, [], false, some, length}
use uring_sync.Base.Maps.{lookup}
use uring_sync.Pools.BufferPool
use uring_sync.Pools.PipePool.{PipePool}
use uring_sync.WorkQueue.{WorkQueue}
use uring_sync.WorkQueue
use uring_sync.Base.Int.{ℤ}
use uring_sync.WorkQueue.Fifo.{Call, run, pushed}
use uring_sync.FileCopy.Types.{Config, Stats, Statx, Sqe}
use uring_sync.FileCopy.Start.{FileWorkItem}
use uring_sync.Worker.{Worker, Pipeline, looping, processing, complete, turn}

-- The queue that `main` hands to its workers: `push_bulk` of all files, and then `set_done`.
unfoldable pub loaded : List FileWorkItem → WorkQueue FileWorkItem
loaded files = WorkQueue.set_done (WorkQueue.push_bulk WorkQueue.new files)

abbrev pub no_stats : Stats
no_stats = record {
  files_total = 0;
  files_completed = 0;
  files_failed = 0;
  bytes_total = 0;
  bytes_copied = 0;
  dirs_created = 0;
}

-- The worker at the head of its outer loop. `alloc` gives the buffers, and `pipes` is its pipe pool.
unfoldable pub begun : Config → (ℕ → ℕ) → PipePool → WorkQueue FileWorkItem → Worker
begun cfg alloc pipes queue = record {
  point = looping;
  queue = queue;
  queue_exhausted = false;
  pipeline = record {
    pool = BufferPool.new alloc cfg.queue_depth cfg.chunk_size;
    pipes = pipes;
    in_flight = [];
    requests = [];
    stats = no_stats;
    closed = [];
  };
}

module _ (address : List ℕ → ℕ) (cfg : Config) where
  -- All that can happen next. While the thread is in `wait_and_process` the kernel may answer any
  -- request, also one that is not submitted yet, with any result; the other workers may call `try_pop` and `wait_pop` at any time.
  -- The number counts the items that they took out.
  pub data Step (w : Worker) : ℕ → Worker → Type 0 where
    turns : Step w 0 (turn address cfg w)
    completes :
        (ctx : ℕ) (sqe : Sqe) (result : ℤ) (stx : Statx) (l : Pipeline)
        → w.point ≡ processing
        → lookup ctx w.pipeline.requests ≡ some sqe
        → complete cfg ctx sqe result stx w.pipeline ≡ some l
        → Step w 0 (record w { pipeline = l })
    others :
        (cs : List (Call FileWorkItem))
        → pushed cs ≡ []
        → Step w (length (run w.queue cs).0) (record w { queue = (run w.queue cs).1 })

  -- `taken` counts what the other workers took in all.
  pub data Reach (w : Worker) : ℕ → Worker → Type 0 where
    here : Reach w 0 w
    next :
        {taken more : ℕ} {v u : Worker} → Reach w taken v → Step v more u → Reach w (taken + more) u
