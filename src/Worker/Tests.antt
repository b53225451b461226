-- ===== src/Worker/Tests.antt =====
-- src/main.cpp, `worker_thread`: a worker with a queue depth of 2 and two files. Another worker takes the
-- first; the second cannot be opened.
use uring_sync.Base.{
  ℕ, suc, ◌+◌, ◌*◌, ◌≤◌, ◌≡◌, ◌≢◌, refl, List, [], ◌∷◌, true, false, Option, none, some, arith,
  length,
}
use uring_sync.Base.Int.{ℤ, pos, negsuc}
use uring_sync.Pools.Slots.{first_free, free_slot}
use uring_sync.Pools.BufferPool
use uring_sync.Pools.PipePool.{PipePool, Pipe, built}
use uring_sync.Pools.PipePool
use uring_sync.WorkQueue.{try_pop}
use uring_sync.WorkQueue
use uring_sync.WorkQueue.Fifo.{run, step, tries}
use uring_sync.FileCopy.Types.{Config, Statx, openat, read_only}
use uring_sync.FileCopy.Advance.{advance_state}
use uring_sync.FileCopy.Start.{FileWorkItem, start_file}
use uring_sync.Worker.{
  Worker, Pipeline, complete, callback, turn, turn_at, fill, ask, check, wait, loop, take_up,
}
use uring_sync.Worker.Steps.{loaded, begun, Reach, turns, completes, others, here, next}
use uring_sync.Worker.Accounts.{Accounted}
use uring_sync.Worker.Whole.{Reach-Accounted, callback_finds_context, finished_lem}

-- A pointer that is greater than all others.
abbrev address : List ℕ → ℕ
address [] = 1
address (p ∷ ps) = suc (p + address ps)

abbrev cfg : Config
cfg = record {
  num_workers = 2;
  queue_depth = 2;
  chunk_size = 4096;
  verbose = false;
  use_splice = true;
  sync_mode = false;
  quiet = true;
  chunk_size_set = true;
  src_path = b'a' ∷ [];
  dst_path = b'b' ∷ [];
}

abbrev alloc : ℕ → ℕ
alloc i = 4096 * suc i

abbrev sys : ℕ → Option Pipe
sys i = some (record { read_fd = pos (10 + i); write_fd = pos (20 + i) })

abbrev pipes : PipePool
pipes = record {
  pipes =
      record { read_fd = pos 10; write_fd = pos 20 }
      ∷ record { read_fd = pos 11; write_fd = pos 21 }
      ∷ [];
  available = true ∷ true ∷ [];
  count = 2;
}

pipes_built : PipePool.new sys 2 ≡ built pipes
unfolding PipePool.new
pipes_built = refl

allocated : (i : ℕ) → alloc i ≢ 0
allocated i e = omega arith

abbrev item : ℕ → FileWorkItem
item n = record { src_path = b'a' ∷ n ∷ []; dst_path = b'b' ∷ n ∷ []; inode = n }

abbrev files : List FileWorkItem
files = item 1 ∷ item 2 ∷ []

abbrev start : Worker
start = begun cfg alloc pipes (loaded files)

abbrev robbed : Worker
robbed = record start { queue = (run start.queue (tries ∷ [])).1 }

-- In `wait_and_process`, with the request for the second file.
abbrev flying : Worker
flying =
    turn address cfg
      (turn address cfg (turn address cfg (turn address cfg (turn address cfg robbed))))

to_robbed : Reach address cfg start 1 robbed
unfolding begun loaded WorkQueue.set_done WorkQueue.push_bulk WorkQueue.new BufferPool.new run step
    try_pop
to_robbed = next here (others (tries ∷ []) refl)

to_flying : Reach address cfg start 1 flying
to_flying = next (next (next (next (next to_robbed turns) turns) turns) turns) turns

abbrev no_such_file : ℤ
no_such_file = negsuc 1

abbrev no_stx : Statx
no_stx = record { size = 0; mode = 0 }

Reach-Accounted_example : Accounted 2 2 1 flying
Reach-Accounted_example =
    Reach-Accounted address cfg alloc sys pipes files (omega arith) (omega arith) allocated
      pipes_built to_flying

callback_finds_context_example :
    ((l : Pipeline) × (complete cfg 1
          (openat (b'a' ∷ 2 ∷ []) read_only 0)
          no_such_file
          no_stx
          flying.pipeline
        ≡ some l))
    × (length flying.pipeline.requests ≤ 2)
unfolding begun loaded WorkQueue.set_done WorkQueue.push_bulk WorkQueue.new BufferPool.new run step
    try_pop turn_at fill ask check wait loop WorkQueue.is_done take_up start_file BufferPool.acquire
    first_free
callback_finds_context_example =
    callback_finds_context address cfg alloc sys pipes files (omega arith) (omega arith) allocated
      pipes_built 1 (openat (b'a' ∷ 2 ∷ []) read_only 0) no_such_file no_stx to_flying refl

abbrev answered : Pipeline
answered =
    elim (complete cfg 1 (openat (b'a' ∷ 2 ∷ []) read_only 0) no_such_file no_stx flying.pipeline) [
      | none ↦ flying.pipeline
      | some l ↦ l
    ]

abbrev done : Worker
done = turn address cfg (turn address cfg (record flying { pipeline = answered }))

to_done : Reach address cfg start 1 done
unfolding begun loaded WorkQueue.set_done WorkQueue.push_bulk WorkQueue.new BufferPool.new run step
    try_pop turn_at fill ask check wait loop WorkQueue.is_done take_up start_file BufferPool.acquire
    first_free complete callback advance_state BufferPool.release PipePool.release free_slot
to_done =
    next
      (next
        (next to_flying (
          completes 1 (openat (b'a' ∷ 2 ∷ []) read_only 0) no_such_file no_stx answered refl refl
            refl))
        turns)
      turns

finished_lem_example :
    (done.queue.queue ≡ [])
    × (done.pipeline.stats.files_completed + done.pipeline.stats.files_failed + 1 ≡ 2)
    × (done.pipeline.requests ≡ [])
    × (BufferPool.available_count done.pipeline.pool ≡ 2)
    × (PipePool.available_count done.pipeline.pipes ≡ done.pipeline.pipes.count)
unfolding begun loaded WorkQueue.set_done WorkQueue.push_bulk WorkQueue.new BufferPool.new run step
    try_pop turn_at fill ask check wait loop WorkQueue.is_done take_up start_file BufferPool.acquire
    first_free complete callback advance_state BufferPool.release PipePool.release free_slot
finished_lem_example =
    finished_lem address cfg alloc sys pipes files (omega arith) (omega arith) allocated pipes_built
      to_done refl
