-- ===== src/Worker/Sound.antt =====
-- src/main.cpp, `worker_thread`: who owns the buffers, the pipes and the requests of a worker.
use mathlib.Core.List.{Perm}
use mathlib.Core.List.Permᴰ
use mathlib.Core.List.Perm
use uring_sync.Base.{
  ℕ, ◌+◌, ◌<◌, ◌≡◌, ◌≢◌, refl, sym, ◌∙◌, List, [], ◌∷◌, ◌++◌, true, some, length, length-append,
  arith, All, get_or, subst, ==_false,
}
use uring_sync.Base.Int.{pos}
use uring_sync.Pools.BufferPool.{BufferPool}
use uring_sync.Pools.BufferPool
use uring_sync.Pools.BufferPool.Laws
use uring_sync.Pools.PipePool.Laws as PipeLaws
use uring_sync.FileCopy.Types.{FileContext, Config, Sqe}
use uring_sync.FileCopy.Branches.{is_live}
use uring_sync.FileCopy.Effects.{PipedAt}
use uring_sync.FileCopy.Start.{FileWorkItem, fresh, start_file}
use uring_sync.Base.Maps.{pointers}
use uring_sync.Worker.{Pipeline, take_up, joined}
use uring_sync.Worker.Entries.{
  slots, snoc-Permᴰ, All-Permᴰ, Owned-Permᴰ, pointers-Permᴰ, slots-Permᴰ, length-slots,
}

-- A file in flight has a request on its way and a buffer of its own, and no pipe too early.
pub record Flying (buffers : List ℕ) (e : ℕ × FileContext) : Type 0 where
  pub slot : ℕ
  pub has_slot : e.1.buffer_index ≡ pos slot
  pub has_buffer : e.1.buffer ≡ get_or buffers slot 0
  pub live : is_live e.1.state ≡ true
  pub piped : PipedAt e.1.state e.1.pipe_index

abbrev pub buffer_slots : List (ℕ × FileContext) → List ℕ
buffer_slots es = slots (λ c. c.buffer_index) es

abbrev pub pipe_slots : List (ℕ × FileContext) → List ℕ
pipe_slots es = slots (λ c. c.pipe_index) es

-- The buffers and the pipes that are taken are exactly those of the files in flight, each is with one
-- file, and each file in flight has exactly one request with the ring. `depth` is the queue depth.
pub record Sound (depth : ℕ) (l : Pipeline) : Type 0 where
  pub count : l.pool.count ≡ depth
  pub allocated : (i : ℕ) → i < depth → get_or l.pool.buffers i 0 ≢ 0
  pub buffers : Laws.IsOwned l.pool (buffer_slots l.in_flight)
  pub pipes : PipeLaws.IsOwned l.pipes (pipe_slots l.in_flight)
  pub flying : All (Flying l.pool.buffers) l.in_flight
  pub requests : Perm (pointers l.requests) (pointers l.in_flight)

-- A request and a file with the same pointer join.
pub requests_join :
    (rs : List (ℕ × Sqe)) (fs : List (ℕ × FileContext)) (p : ℕ) (sqe : Sqe) (c : FileContext)
    → Perm (pointers rs) (pointers fs)
    → Perm (pointers (rs ++ (p, sqe) ∷ [])) (pointers (fs ++ (p, c) ∷ []))
requests_join rs fs p sqe c h =
    Perm.trans ∣ pointers-Permᴰ (snoc-Permᴰ rs (p, sqe)) ∣₁
      (Perm.trans (Perm.cons p h) ∣ pointers-Permᴰ (Permᴰ.symm (snoc-Permᴰ fs (p, c))) ∣₁)

module _ (address : List ℕ → ℕ) (cfg : Config) where
  joined-Sound :
      (depth : ℕ) (l : Pipeline) (item : FileWorkItem) (pool : BufferPool) (i : ℕ)
      → Sound depth l
      → Laws.IsOwned pool (i ∷ buffer_slots l.in_flight)
      → pool.buffers ≡ l.pool.buffers
      → pool.count ≡ l.pool.count
      → Sound depth (joined address cfg l (fresh item (get_or l.pool.buffers i 0) (pos i)) pool)
  joined-Sound depth l item pool i s owned same count =
      let c = fresh item (get_or l.pool.buffers i 0) (pos i) in
      let ctx = address (pointers l.in_flight) in
      let moved = Permᴰ.symm (snoc-Permᴰ l.in_flight (ctx, c)) in
      record {
        count = count ∙ s.count;
        allocated = λ j h. subst (λ b. get_or b j 0 ≢ 0) (sym same) (s.allocated j h);
        buffers =
            Owned-Permᴰ pool.count pool.available (slots-Permᴰ (λ c. c.buffer_index) moved) owned;
        pipes =
            Owned-Permᴰ l.pipes.count l.pipes.available (slots-Permᴰ (λ c. c.pipe_index) moved)
              s.pipes;
        flying =
            subst (λ b. All (Flying b) (l.in_flight ++ (ctx, c) ∷ [])) (sym same)
              (All-Permᴰ (Flying l.pool.buffers) moved (
                record { slot = i; has_slot = refl; has_buffer = refl; live = refl; piped = refl },
                s.flying,
              ));
        requests = requests_join l.requests l.in_flight ctx _ c s.requests;
      }

  -- With room in the pipeline, `start_file` starts the file.
  pub take_up-Sound :
      (depth : ℕ) (l : Pipeline) (item : FileWorkItem)
      → Sound depth l
      → length l.in_flight < depth
      → (next : Pipeline) × (take_up address cfg l item ≡ (some next, next))
        × Sound depth next
        × (length next.in_flight ≡ length l.in_flight + 1)
        × (next.stats ≡ l.stats)
  unfolding take_up start_file
  take_up-Sound depth l item s h =
      let (i, inside, got, owned, same, count) =
        Laws.acquire_free l.pool (buffer_slots l.in_flight) s.buffers
          (omega (arith, length-slots (λ c. c.buffer_index) l.in_flight, s.count)) in
      let solid = ==_false (get_or l.pool.buffers i 0) 0 (s.allocated i (omega (arith, s.count))) in
      let pool = (BufferPool.acquire l.pool).1 in
      (
        joined address cfg l (fresh item (get_or l.pool.buffers i 0) (pos i)) pool,
        rw (got, solid),
        joined-Sound depth l item pool i s owned same count,
        length-append l.in_flight _,
        refl,
      )
