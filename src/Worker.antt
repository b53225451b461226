-- ===== src/Worker.antt =====
-- src/main.cpp, `worker_thread`: the event loop of one asynchronous worker. The other workers take
-- items out of the same queue between its steps.
pub mod Steps
pub mod Entries
pub mod Sound
pub mod Holdings
pub mod Completion
pub mod Accounts
pub mod Turns
pub mod Whole
mod Tests
use uring_sync.Base.{
  ℕ, List, [], ◌∷◌, ◌++◌, Bool, true, false, Option, none, some, ◌&&◌, ◌||◌, not, ◌==◌, ltb,
  if◌then◌else◌, length, map, ◌≡◌, ◌+◌,
}
use uring_sync.Base.Int.{ℤ}
use uring_sync.Base.Maps.{lookup, put, erase, pointers}
use uring_sync.Pools.BufferPool.{BufferPool}
use uring_sync.Pools.BufferPool
use uring_sync.Pools.PipePool.{PipePool}
use uring_sync.Pools.PipePool
use uring_sync.WorkQueue.{WorkQueue, push, try_pop, wait_pop, empty}
use uring_sync.WorkQueue
use uring_sync.FileCopy.Types.{
  FileContext, FileState, Config, Stats, Statx, Sqe, openat, read_only, done, failed,
}
use uring_sync.FileCopy.Advance.{Machine, advance_state, is_over}
use uring_sync.FileCopy.Kernel.{store_stx}
use uring_sync.FileCopy.Start.{FileWorkItem, start_file}

-- What the worker owns. `in_flight` has each context beside its pointer, `requests` are prepared or
-- with the kernel, each with its context. `stats` is what this worker adds to the shared counters, and
-- `closed` the descriptors that it closed itself.
pub record Pipeline : Type 0 where
  pub pool : BufferPool
  pub pipes : PipePool
  pub in_flight : List (ℕ × FileContext)
  pub requests : List (ℕ × Sqe)
  pub stats : Stats
  pub closed : List ℤ

-- Where the thread is: at the head of the outer loop, at the head of the loop that fills the pipeline,
-- between its `try_pop` and its `is_done`, after that loop, before `wait_pop`, in `wait_and_process`,
-- or behind the outer loop.
pub data Point : Type 0 where
  looping filling asking checking waiting processing finished : Point

pub record Worker : Type 0 where
  pub point : Point
  pub queue : WorkQueue FileWorkItem
  pub queue_exhausted : Bool
  pub pipeline : Pipeline

abbrev pub tagged : ℕ → List Sqe → List (ℕ × Sqe)
tagged ctx [] = []
tagged ctx (sqe ∷ sqes) = (ctx, sqe) ∷ tagged ctx sqes

abbrev pub kept : Option PipePool → PipePool → PipePool
kept none pipes = pipes
kept (some p) pipes = p

-- The steps between the calls.
unfoldable pub ask : Worker → Worker
ask w = record w {
  point = checking;
  queue_exhausted = w.queue_exhausted || WorkQueue.is_done w.queue;
}

unfoldable pub check : Worker → Worker
check w = record w {
  point =
      if empty w.pipeline.in_flight
      then if w.queue_exhausted then finished else waiting
      else processing;
}

unfoldable pub loop : Worker → Worker
loop w = record w {
  point = if not w.queue_exhausted || not (empty w.pipeline.in_flight) then filling else finished;
}

-- The allocator is not part of the program: `address` gives the pointer of `new FileContext()`, from
-- the pointers in use.
module _ (address : List ℕ → ℕ) (cfg : Config) where
  -- The rest of `start_file`, for the context `c` with its buffer.
  abbrev pub joined : Pipeline → FileContext → BufferPool → Pipeline
  joined l c pool =
      let ctx = address (pointers l.in_flight) in
      record l {
        pool = pool;
        in_flight = l.in_flight ++ (ctx, c) ∷ [];
        requests = l.requests ++ (ctx, openat c.src_path read_only 0) ∷ [];
      }

  abbrev with_file : Pipeline → Option FileContext × BufferPool → Option Pipeline × Pipeline
  with_file l (none, pool) = (none, record l { pool = pool })
  with_file l (some c, pool) = (some (joined l c pool), joined l c pool)

  -- `start_file` with its effects: `none` for the result false, and the pipeline after it.
  unfoldable pub take_up : Pipeline → FileWorkItem → Option Pipeline × Pipeline
  unfolding start_file
  take_up l item = with_file l (start_file l.pool item)

  -- What follows `start_file(item)`: the thread goes on at `good`, or puts the item back and goes on at
  -- `bad`.
  abbrev pub with_item : Point → Point → Worker → FileWorkItem → Worker
  unfolding take_up
  with_item good bad w item = elim (take_up w.pipeline item).0 [
    | some l ↦ record w { point = good; pipeline = l }
    | none ↦ record w {
      point = bad;
      queue = push w.queue item;
      pipeline = (take_up w.pipeline item).1;
    }
  ]

  abbrev filled : Worker → Option FileWorkItem × WorkQueue FileWorkItem → Worker
  filled w (some item, q) = with_item filling checking (record w { queue = q }) item
  filled w (none, q) = record w { point = asking; queue = q }

  unfoldable pub fill : Worker → Worker
  unfolding take_up
  fill w =
      if not w.queue_exhausted && ltb (length w.pipeline.in_flight) cfg.queue_depth
      then filled w (try_pop w.queue)
      else record w { point = checking }

  -- While `wait_pop` sleeps, nothing changes.
  abbrev woken : Worker → Option (Option FileWorkItem × WorkQueue FileWorkItem) → Worker
  woken w none = w
  woken w (some (some item, q)) = with_item processing looping (record w { queue = q }) item
  woken w (some (none, q)) = record w { point = looping; queue = q; queue_exhausted = true }

  unfoldable pub wait : Worker → Worker
  unfolding take_up
  wait w = woken w (wait_pop w.queue)

  -- The next step of the thread, completions aside; `wait_and_process` ends in the outer loop.
  unfoldable pub turn_at : Point → Worker → Worker
  unfolding fill ask check wait loop
  turn_at looping w = loop w
  turn_at filling w = fill w
  turn_at asking w = ask w
  turn_at checking w = check w
  turn_at waiting w = wait w
  turn_at processing w = record w { point = looping }
  turn_at finished w = w

  abbrev pub turn : Worker → Worker
  turn w = turn_at w.point w

-- The rest of the callback, for the machine `m` that `advance_state` left.
abbrev pub settled : ℕ → Pipeline → Machine → Pipeline
settled ctx l m =
    let pipes = kept m.pipes l.pipes in
    if is_over m.ctx.state
    then record l {
      pool = BufferPool.release l.pool m.ctx.buffer_index;
      pipes = PipePool.release pipes m.ctx.pipe_index;
      in_flight = erase ctx l.in_flight;
      requests = l.requests ++ tagged ctx m.prepared;
      stats = m.stats;
      closed = m.closed;
    }
    else record l {
      pipes = pipes;
      in_flight = put ctx m.ctx l.in_flight;
      requests = l.requests ++ tagged ctx m.prepared;
      stats = m.stats;
      closed = m.closed;
    }

module _ (cfg : Config) where
  -- The callback of `wait_and_process`, for the request `sqe` that is answered; `stx` is what the kernel
  -- stored if that was `statx`. `none` is a callback with a context that does not exist any more.
  unfoldable pub callback : ℕ → Sqe → ℤ → Statx → Pipeline → Option Pipeline
  unfolding advance_state
  callback ctx sqe result stx l = elim (lookup ctx l.in_flight) [
    | none ↦ none
    | some c ↦ some (
        settled ctx l (
          advance_state cfg result (
            store_stx sqe stx (record {
              ctx = c;
              stats = l.stats;
              pipes = some l.pipes;
              prepared = [];
              closed = l.closed;
            }))))
  ]

  -- A completion takes its request from the ring and reaches the callback.
  unfoldable pub complete : ℕ → Sqe → ℤ → Statx → Pipeline → Option Pipeline
  unfolding callback
  complete ctx sqe result stx l =
      callback ctx sqe result stx (record l { requests = erase ctx l.requests })
