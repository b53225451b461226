-- ===== src/Worker/Whole.antt =====
-- src/main.cpp, `worker_thread`: whatever happens to a worker, from its start on.
use mathlib.Core.List.{Perm}
use mathlib.Core.List.Perm
use mathlib.Core.Logic.{∥∥₁_elim}
use mathlib.Core.Option.{some-injective}
use native.Mathlib.Nat.{ℕ_set, add-zero}
use uring_sync.Base.{
  ℕ, suc, ◌+◌, ◌<◌, ◌≤◌, ◌≡◌, ◌≢◌, refl, ap, sym, ◌∙◌, List, [], ◌∷◌, Option, some, length, arith,
  subst, Bool, false≢true, inl, inr,
}
use uring_sync.Base.Int.{ℤ}
use uring_sync.Pools.Slots.{count_free, count_free-eq-free_slots}
use uring_sync.Pools.Owners.{Owned, new-Owned}
use uring_sync.Pools.BufferPool
use uring_sync.Pools.BufferPool.Laws
use uring_sync.Pools.PipePool.{PipePool, Pipe, Built, built}
use uring_sync.Pools.PipePool
use uring_sync.Pools.PipePool.Laws as Pipes
use uring_sync.Pools.PipePool.Laws.{Accounts, new-Accounts}
use uring_sync.WorkQueue
use uring_sync.WorkQueue.Fifo.{queue-push_bulk}
use uring_sync.FileCopy.Types.{FileContext, Config, Sqe, Statx, word}
use uring_sync.FileCopy.Start.{FileWorkItem}
use uring_sync.Base.Maps.{lookup, pointers}
use uring_sync.Worker.{Worker, Pipeline, finished, complete, turn}
use uring_sync.Worker.Steps.{loaded, begun, Step, Reach, turns, completes, others, here, next}
use uring_sync.Worker.Entries.{slots, length-slots, length-Permᴰ}
use uring_sync.Worker.Turns.{turn_at-Good}
use uring_sync.Worker.Accounts.{Accounted, At, length-zero, completes-Good, others-Good}
use uring_sync.Worker.Completion.{complete-Sound}

length-requests : {xs ys : List ℕ} → Perm xs ys → length xs ≡ length ys
length-requests {xs} {ys} p = ∥∥₁_elim p (ℕ_set (length xs) (length ys)) length-Permᴰ

length-pointers : {A : Type 0} (es : List (ℕ × A)) → length (pointers es) ≡ length es
length-pointers [] = refl
length-pointers (e ∷ es) = ap suc (length-pointers es)

-- With nothing in flight, every slot is free.
free_again :
    (available : List Bool) (count : ℕ) (index : FileContext → ℤ) (es : List (ℕ × FileContext))
    → length es ≡ 0
    → Owned count available (slots index es)
    → count_free available 0 ≡ count
free_again available count index es h o =
    omega (arith, count_free-eq-free_slots available 0, length-slots index es, o.counted)

pub queue-loaded : (files : List FileWorkItem) → (loaded files).queue ≡ files
unfolding loaded WorkQueue.set_done WorkQueue.new
queue-loaded files = queue-push_bulk WorkQueue.new files

-- The files of the queue are few enough for the counters, `aligned_alloc` and `pipe` did not fail, and
-- `main` lets no queue depth of zero through.
module _ (address : List ℕ → ℕ) (cfg : Config) (alloc : ℕ → ℕ) (sys : ℕ → Option Pipe)
    (pipes : PipePool) (files : List FileWorkItem) (depth : 0 < cfg.queue_depth)
    (few : length files < word) (allocated : (i : ℕ) → alloc i ≢ 0)
    (opened : PipePool.new sys cfg.queue_depth ≡ built pipes) where
  begun-Accounted :
      Accounted cfg.queue_depth (length files) 0 (begun cfg alloc pipes (loaded files))
  unfolding begun
  begun-Accounted =
      let made = new-Accounts sys cfg.queue_depth in
      record {
        sound = record {
          count = unfold BufferPool.new in refl;
          allocated = λ i h e.
              allocated i (sym (Laws.get_or-new alloc cfg.queue_depth cfg.chunk_size i h) ∙ e);
          buffers = unfold BufferPool.new in new-Owned cfg.queue_depth;
          pipes =
              (subst (λ b. Accounts cfg.queue_depth (Pipes.opened sys 0 cfg.queue_depth) b) opened
                made).2;
          flying = tt;
          requests = Perm.nil;
        };
        room = omega arith;
        done = unfold loaded WorkQueue.set_done in refl;
        counted = omega (arith, ap length (queue-loaded files));
        exhausted = inl refl;
        at = tt;
      }

  Step-Accounted :
      {v u : Worker} {taken more : ℕ}
      → Accounted cfg.queue_depth (length files) taken v
      → Step address cfg v more u
      → Accounted cfg.queue_depth (length files) (taken + more) u
  Step-Accounted {v} {taken = t} g turns =
      subst (λ n. Accounted cfg.queue_depth (length files) n (turn address cfg v))
        (sym (add-zero t)) (turn_at-Good address cfg (length files) t depth v.point v g.at g)
  Step-Accounted {v} {taken = t} g (completes ctx sqe result stx l p q c) =
      let (m, done, sound, counted) =
        complete-Sound cfg cfg.queue_depth ctx v.pipeline sqe result stx g.sound q in
      let same : m ≡ l = some-injective m l (sym done ∙ c) in
      let counts = Accounted cfg.queue_depth (length files) in
      subst (λ n. counts n (record v { pipeline = l })) (sym (add-zero t))
        (subst (λ x. counts t (record v { pipeline = x })) same
          (completes-Good address cfg (length files) t v m few sound counted p g))
  Step-Accounted {v} {taken = t} g (others cs h) = others-Good address cfg (length files) t v cs h g

  -- Whatever happens to a worker, in whatever order: with a queue depth that is not zero, fewer than
  -- 2 ^ 64 files, no failed allocation and a pipe pool that was made, at every point of its loop each
  -- file in flight has a buffer, and a pipe if it uses one, that no other file has, and exactly one
  -- request with the ring; all other buffers and pipes are free; no more files are in flight than the
  -- queue depth, and every file of the queue is still there, taken by another worker, in flight, or
  -- counted once as completed or as failed.
  pub Reach-Accounted :
      {taken : ℕ} {w : Worker}
      → Reach address cfg (begun cfg alloc pipes (loaded files)) taken w
      → Accounted cfg.queue_depth (length files) taken w
  Reach-Accounted here = begun-Accounted
  Reach-Accounted (next r s) = Step-Accounted (Reach-Accounted r) s

  -- No completion reaches a context that was deleted: with a queue depth that is not zero, fewer than
  -- 2 ^ 64 files, no failed allocation and a pipe pool that was made, whenever a request is with the
  -- ring, the callback finds the context that it carries, whatever the result is. And never are more
  -- requests with the ring than the queue depth.
  pub callback_finds_context :
      {taken : ℕ} {w : Worker} (ctx : ℕ) (sqe : Sqe) (result : ℤ) (stx : Statx)
      → Reach address cfg (begun cfg alloc pipes (loaded files)) taken w
      → lookup ctx w.pipeline.requests ≡ some sqe
      → ((l : Pipeline) × (complete cfg ctx sqe result stx w.pipeline ≡ some l))
        × (length w.pipeline.requests ≤ cfg.queue_depth)
  callback_finds_context {w = w} ctx sqe result stx r q =
      let g = Reach-Accounted r in
      let (l, done, _, _) =
        complete-Sound cfg cfg.queue_depth ctx w.pipeline sqe result stx g.sound q in
      (
        (l, done),
        omega (
          arith,
          length-requests g.sound.requests,
          length-pointers w.pipeline.requests,
          length-pointers w.pipeline.in_flight,
          g.room,
        ),
      )

  -- A worker that has left its loop, with a queue depth that is not zero, fewer than 2 ^ 64 files, no
  -- failed allocation and a pipe pool that was made: the queue is empty, every file was taken by
  -- another worker or counted once as completed or as failed, no request is left with the ring, and
  -- every buffer and every pipe is free again.
  pub finished_lem :
      {taken : ℕ} {w : Worker}
      → Reach address cfg (begun cfg alloc pipes (loaded files)) taken w
      → w.point ≡ finished
      → (w.queue.queue ≡ [])
        × (w.pipeline.stats.files_completed + w.pipeline.stats.files_failed + taken ≡ length files)
        × (w.pipeline.requests ≡ [])
        × (BufferPool.available_count w.pipeline.pool ≡ cfg.queue_depth)
        × (PipePool.available_count w.pipeline.pipes ≡ w.pipeline.pipes.count)
  unfolding BufferPool.available_count PipePool.available_count
  finished_lem {taken} {w} r p =
      let g = Reach-Accounted r in
      let (spent, idle) = subst (λ q. At q w) p g.at in
      let empty_now : length w.pipeline.in_flight ≡ 0 = ap length idle in
      let drained : w.queue.queue ≡ [] = elim g.exhausted [
        | inl e ↦ absurd (false≢true (sym e ∙ spent))
        | inr q ↦ q
      ] in
      (
        drained,
        omega (arith, g.counted, empty_now, ap length drained),
        length-zero w.pipeline.requests (
            omega (
              arith,
              length-requests g.sound.requests,
              length-pointers w.pipeline.requests,
              length-pointers w.pipeline.in_flight,
              empty_now,
            )),
        free_again w.pipeline.pool.available _ (λ c. c.buffer_index) w.pipeline.in_flight empty_now
              g.sound.buffers
            ∙ g.sound.count,
        free_again w.pipeline.pipes.available _ (λ c. c.pipe_index) w.pipeline.in_flight empty_now
            g.sound.pipes,
      )
