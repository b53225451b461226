-- ===== src/Worker/Completion.antt =====
-- src/main.cpp, `worker_thread`: the callback of `wait_and_process`, and who owns what after it.
use mathlib.Core.List.{Permᴰ, Perm}
use mathlib.Core.List.Permᴰ
use mathlib.Core.List.Perm
use uring_sync.Base.{
  ℕ, ◌+◌, ◌≡◌, ap, sym, ◌∙◌, List, [], ◌∷◌, ◌++◌, append-nil, true, some, length, arith, All, subst,
}
use uring_sync.Base.Int.{ℤ}
use uring_sync.Pools.BufferPool
use uring_sync.Pools.BufferPool.Laws
use uring_sync.Pools.PipePool
use uring_sync.Pools.PipePool.Laws as PipeLaws
use uring_sync.FileCopy.Types.{FileContext, Config, Sqe, Statx, add64}
use uring_sync.FileCopy.Advance.{Machine, advance_state}
use uring_sync.FileCopy.Kernel.{store_stx}
use uring_sync.FileCopy.Branches.{is_live}
use uring_sync.FileCopy.Effects.{PipedAt, Outcome, goes_on, completes, fails, advance_state-Effect}
use uring_sync.Base.Maps.{pointers, lookup, erase}
use uring_sync.Worker.{Pipeline, kept, settled, complete, callback}
use uring_sync.Worker.Entries.{
  slot_of, All-Permᴰ, Owned-Permᴰ, length-Permᴰ, lookup-Permᴰ, put-Permᴰ, snoc-Permᴰ,
  pointers-Permᴰ, slots-Permᴰ,
}
use uring_sync.Worker.Holdings.{
  store_stx-Stored, release_buffer, release_pipe, Piping-IsOwned, requested-flying, requests_leave,
}
use uring_sync.Worker.Sound.{Sound, Flying, buffer_slots, pipe_slots, requests_join}

-- How many files are over, as the shared counters say it.
pub data Counted (l next : Pipeline) : Type 0 where
  none_over :
      length next.in_flight ≡ length l.in_flight
      → next.stats.files_completed ≡ l.stats.files_completed
      → next.stats.files_failed ≡ l.stats.files_failed
      → Counted l next
  completed :
      length next.in_flight + 1 ≡ length l.in_flight
      → next.stats.files_completed ≡ add64 l.stats.files_completed 1
      → next.stats.files_failed ≡ l.stats.files_failed
      → Counted l next
  failed :
      length next.in_flight + 1 ≡ length l.in_flight
      → next.stats.files_completed ≡ l.stats.files_completed
      → next.stats.files_failed ≡ add64 l.stats.files_failed 1
      → Counted l next

-- The call of `advance_state` in the callback, as one record of facts about the context `c` before it and
-- the machine `n` after it.
record Answered (l : Pipeline) (c : FileContext) (n : Machine) : Type 0 where
  buffer : n.ctx.buffer ≡ c.buffer
  index : n.ctx.buffer_index ≡ c.buffer_index
  piped : PipedAt n.ctx.state n.ctx.pipe_index
  owned :
      (rest : List ℕ)
      → PipeLaws.IsOwned l.pipes (slot_of c.pipe_index rest)
      → PipeLaws.IsOwned (kept n.pipes l.pipes) (slot_of n.ctx.pipe_index rest)
  outcome :
      Outcome
        (record {
          ctx = c;
          stats = l.stats;
          pipes = some l.pipes;
          prepared = [];
          closed = l.closed;
        })
        n

module _ (cfg : Config) (l : Pipeline) (c : FileContext) (sqe : Sqe) (result : ℤ)
    (stx : Statx) where
  abbrev base : Machine
  base = record { ctx = c; stats = l.stats; pipes = some l.pipes; prepared = []; closed = l.closed }

  abbrev after : Machine
  after = advance_state cfg result (store_stx sqe stx base)

  outcome_from :
      {m n v : Machine} → n.prepared ≡ m.prepared → n.stats ≡ m.stats → Outcome n v → Outcome m v
  outcome_from p t (goes_on q e f g a b) =
      goes_on q (e ∙ ap (λ x. x ++ q ∷ []) p) f g (a ∙ ap (λ x. x.files_completed) t)
        (b ∙ ap (λ x. x.files_failed) t)
  outcome_from p t (completes e g a b) =
      completes (e ∙ p) g (a ∙ ap (λ x. add64 x.files_completed 1) t)
        (b ∙ ap (λ x. x.files_failed) t)
  outcome_from p t (fails e g a b) =
      fails (e ∙ p) g (a ∙ ap (λ x. x.files_completed) t) (b ∙ ap (λ x. add64 x.files_failed 1) t)

  answered : is_live c.state ≡ true → PipedAt c.state c.pipe_index → Answered l c after
  answered live early =
      let m = store_stx sqe stx base in
      let s = store_stx-Stored sqe stx base in
      let here : PipedAt m.ctx.state m.ctx.pipe_index = rw (s.state, s.pipe) early in
      let e = advance_state-Effect cfg result m (ap is_live s.state ∙ live) here in
      record {
        buffer = e.buffer ∙ s.buffer;
        index = e.index ∙ s.index;
        piped = e.piped;
        owned = λ rest o.
            Piping-IsOwned m l.pipes after.pipes after.ctx.pipe_index rest s.rest.0 here
              (subst (λ z. PipeLaws.IsOwned l.pipes (slot_of z rest)) (sym s.pipe) o) e.piping;
        outcome = outcome_from s.rest.1 s.rest.2 e.outcome;
      }

module _ (cfg : Config) (depth ctx : ℕ) (l : Pipeline) (s : Sound depth l) (sqe : Sqe)
    (c : FileContext) (r : lookup ctx l.requests ≡ some sqe) (f : lookup ctx l.in_flight ≡ some c)
    (n : Machine) (a : Answered l c n) where
  abbrev taken : Pipeline
  taken = record l { requests = erase ctx l.requests }

  abbrev others : List (ℕ × FileContext)
  others = erase ctx l.in_flight

  split : Permᴰ l.in_flight ((ctx, c) ∷ others)
  split = lookup-Permᴰ ctx l.in_flight c f

  buffers_now : Laws.IsOwned l.pool (slot_of n.ctx.buffer_index (buffer_slots others))
  buffers_now = rw (a.index) (
      Owned-Permᴰ l.pool.count l.pool.available (slots-Permᴰ (λ x. x.buffer_index) split) s.buffers)

  pipes_now : PipeLaws.IsOwned (kept n.pipes l.pipes) (slot_of n.ctx.pipe_index (pipe_slots others))
  pipes_now =
      a.owned (pipe_slots others) (
        Owned-Permᴰ l.pipes.count l.pipes.available (slots-Permᴰ (λ x. x.pipe_index) split) s.pipes)

  flying_then : Flying l.pool.buffers (ctx, c) × All (Flying l.pool.buffers) others
  flying_then = All-Permᴰ (Flying l.pool.buffers) split s.flying

  requests_now : Perm (pointers taken.requests) (pointers others)
  requests_now = requests_leave l.requests l.in_flight ctx sqe c s.requests r f

  -- The pipeline of a file that is over.
  abbrev without : Pipeline
  without = record taken {
    pool = BufferPool.release l.pool n.ctx.buffer_index;
    pipes = PipePool.release (kept n.pipes l.pipes) n.ctx.pipe_index;
    in_flight = others;
    requests = taken.requests ++ [];
    stats = n.stats;
    closed = n.closed;
  }

  without-Sound : Sound depth without
  without-Sound =
      unfold BufferPool.release PipePool.release in
      record {
        count = s.count;
        allocated = s.allocated;
        buffers = release_buffer l.pool n.ctx.buffer_index (buffer_slots others) buffers_now;
        pipes = release_pipe (kept n.pipes l.pipes) n.ctx.pipe_index (pipe_slots others) pipes_now;
        flying = flying_then.1;
        requests = rw append-nil requests_now;
      }

  one_less : length others + 1 ≡ length l.in_flight
  one_less = omega (arith, length-Permᴰ split)

  settled-Sound : Sound depth (settled ctx taken n) × Counted l (settled ctx taken n)
  settled-Sound = elim (a.outcome) [
    | goes_on q e live over x y ↦
        let back = put-Permᴰ ctx l.in_flight c n.ctx f in
        let there = Permᴰ.symm back in
        rw (over, e)
          (
            record {
              count = s.count;
              allocated = s.allocated;
              buffers =
                  Owned-Permᴰ l.pool.count l.pool.available
                    (slots-Permᴰ (λ x. x.buffer_index) there) buffers_now;
              pipes =
                  Owned-Permᴰ (kept n.pipes l.pipes).count (kept n.pipes l.pipes).available
                    (slots-Permᴰ (λ x. x.pipe_index) there) pipes_now;
              flying = All-Permᴰ (Flying l.pool.buffers) there (
                record {
                  slot = flying_then.0.slot;
                  has_slot = a.index ∙ flying_then.0.has_slot;
                  has_buffer = a.buffer ∙ flying_then.0.has_buffer;
                  live = live;
                  piped = a.piped;
                },
                flying_then.1,
              );
              requests =
                  Perm.trans (requests_join taken.requests others ctx q n.ctx requests_now)
                    ∣ pointers-Permᴰ (Permᴰ.trans (snoc-Permᴰ others (ctx, n.ctx)) there) ∣₁;
            },
            none_over (length-Permᴰ back ∙ sym (length-Permᴰ split)) x y,
          )
    | completes e over x y ↦ rw (over, e) (without-Sound, completed one_less x y)
    | fails e over x y ↦ rw (over, e) (without-Sound, failed one_less x y)
  ]

-- A completion in `wait_and_process`, for a request that is with the ring and with whatever result.
-- It never reaches a context that is deleted.
pub complete-Sound :
    (cfg : Config) (depth ctx : ℕ) (l : Pipeline) (sqe : Sqe) (result : ℤ) (stx : Statx)
    → Sound depth l
    → lookup ctx l.requests ≡ some sqe
    → (next : Pipeline) × (complete cfg ctx sqe result stx l ≡ some next)
      × Sound depth next
      × Counted l next
unfolding complete callback
complete-Sound cfg depth ctx l sqe result stx s r =
    let (c, f) = requested-flying l.requests l.in_flight ctx sqe s.requests r in
    let mine = (All-Permᴰ (Flying l.pool.buffers) (lookup-Permᴰ ctx l.in_flight c f) s.flying).0 in
    let a = answered cfg l c sqe result stx mine.live mine.piped in
    let n = after cfg l c sqe result stx in
    let (sound, counted) = settled-Sound cfg depth ctx l s sqe c r f n a in
    (
      settled ctx (record l { requests = erase ctx l.requests }) n,
      rw (f, complete, callback),
      sound,
      counted,
    )
