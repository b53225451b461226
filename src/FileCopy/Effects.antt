-- ===== src/FileCopy/Effects.antt =====
-- src/main.cpp, `advance_state`: what a completion leaves alone, what it counts, and which pipe it
-- takes.
use uring_sync.Base.{
  ℕ, ◌≡◌, ◌≢◌, refl, sym, ap, ◌∙◌, [], ◌∷◌, ◌++◌, true, false, some, arith, inl, inr, leb,
  Bool-cases, ◌==◌, Option, Option-cases, false≢true,
}
use uring_sync.Base.Int.{ℤ, pos, negsuc, ℤ-cases}
use uring_sync.Pools.PipePool.{PipePool}
use uring_sync.Pools.PipePool
use uring_sync.FileCopy.Types.{
  FileState, Config, Sqe, add64, opening_src, stating, opening_dst, reading, writing, closing_src,
  closing_dst, done, failed, queued, copying,
}
use uring_sync.FileCopy.Advance.{
  Machine, advance_state, start_read, start_splice, start_close, opened, with_pipe, dispatch, moved,
  is_over,
}
use uring_sync.FileCopy.Branches.{is_live}
use uring_sync.FileCopy.Disturbed.{advance_state-failed}

-- Before its copy is open, a file has no pipe.
abbrev pub PipedAt : FileState → ℤ → Type 0
PipedAt opening_src z = z ≡ negsuc 0
PipedAt stating z = z ≡ negsuc 0
PipedAt opening_dst z = z ≡ negsuc 0
PipedAt _ z = Unit

-- The file goes on with one request, or it is over and is counted once.
pub data Outcome (m n : Machine) : Type 0 where
  goes_on :
      (sqe : Sqe)
      → n.prepared ≡ m.prepared ++ sqe ∷ []
      → is_live n.ctx.state ≡ true
      → is_over n.ctx.state ≡ false
      → n.stats.files_completed ≡ m.stats.files_completed
      → n.stats.files_failed ≡ m.stats.files_failed
      → Outcome m n
  completes :
      n.prepared ≡ m.prepared
      → is_over n.ctx.state ≡ true
      → n.stats.files_completed ≡ add64 m.stats.files_completed 1
      → n.stats.files_failed ≡ m.stats.files_failed
      → Outcome m n
  fails :
      n.prepared ≡ m.prepared
      → is_over n.ctx.state ≡ true
      → n.stats.files_completed ≡ m.stats.files_completed
      → n.stats.files_failed ≡ add64 m.stats.files_failed 1
      → Outcome m n

-- For the pool and the pipe after a call: the pipe stays as it is; or a file that had none takes one;
-- or it finds none and copies with reads.
pub data Piping (m : Machine) (pipes : Option PipePool) (index : ℤ) : Type 0 where
  stays : pipes ≡ m.pipes → index ≡ m.ctx.pipe_index → Piping m pipes index
  takes :
      (pool : PipePool) (i : ℕ)
      → m.pipes ≡ some pool
      → m.ctx.state ≡ opening_dst
      → (PipePool.acquire pool).0.index ≡ pos i
      → pipes ≡ some (PipePool.acquire pool).1
      → index ≡ pos i
      → Piping m pipes index
  lacks :
      (pool : PipePool) (i : ℕ)
      → m.pipes ≡ some pool
      → (PipePool.acquire pool).0.index ≡ negsuc i
      → pipes ≡ some (PipePool.acquire pool).1
      → index ≡ m.ctx.pipe_index
      → Piping m pipes index

pub record Effect (m n : Machine) : Type 0 where
  pub buffer : n.ctx.buffer ≡ m.ctx.buffer
  pub index : n.ctx.buffer_index ≡ m.ctx.buffer_index
  pub outcome : Outcome m n
  pub piping : Piping m n.pipes n.ctx.pipe_index
  pub piped : PipedAt n.ctx.state n.ctx.pipe_index

-- What no step on the way to the next request changes.
record Same (m n : Machine) : Type 0 where
  buffer : n.ctx.buffer ≡ m.ctx.buffer
  index : n.ctx.buffer_index ≡ m.ctx.buffer_index
  prepared : n.prepared ≡ m.prepared
  completed : n.stats.files_completed ≡ m.stats.files_completed
  failed : n.stats.files_failed ≡ m.stats.files_failed

abbrev same :
    {m n : Machine}
    → n.ctx.buffer ≡ m.ctx.buffer
    → n.ctx.buffer_index ≡ m.ctx.buffer_index
    → n.prepared ≡ m.prepared
    → n.stats.files_completed ≡ m.stats.files_completed
    → n.stats.files_failed ≡ m.stats.files_failed
    → Same m n
same b i p c f = record { buffer = b; index = i; prepared = p; completed = c; failed = f }

-- A file that goes on with the request `sqe`.
abbrev goes :
    (m n v : Machine) (sqe : Sqe)
    → Same m n
    → v.prepared ≡ n.prepared ++ sqe ∷ []
    → v.ctx.buffer ≡ n.ctx.buffer
    → v.ctx.buffer_index ≡ n.ctx.buffer_index
    → v.stats ≡ n.stats
    → is_live v.ctx.state ≡ true
    → is_over v.ctx.state ≡ false
    → Piping m v.pipes v.ctx.pipe_index
    → PipedAt v.ctx.state v.ctx.pipe_index
    → Effect m v
goes m n v sqe s p b i t l o g r = record {
  buffer = b ∙ s.buffer;
  index = i ∙ s.index;
  outcome =
      goes_on sqe (p ∙ ap (λ x. x ++ sqe ∷ []) s.prepared) l o
        (ap (λ x. x.files_completed) t ∙ s.completed) (ap (λ x. x.files_failed) t ∙ s.failed);
  piping = g;
  piped = r;
}

module _ (cfg : Config) (m n : Machine) (s : Same m n) (g : Piping m n.pipes n.ctx.pipe_index) where
  start_read-Effect : Effect m (start_read cfg n)
  unfolding start_read
  start_read-Effect = goes m n (start_read cfg n) _ s refl refl refl refl refl refl g tt

  start_splice-Effect : Effect m (start_splice cfg n)
  unfolding start_splice
  start_splice-Effect = goes m n (start_splice cfg n) _ s refl refl refl refl refl refl g tt

  start_close-Effect : Effect m (start_close n)
  unfolding start_close
  start_close-Effect = goes m n (start_close n) _ s refl refl refl refl refl refl g tt

with_pipe-Effect :
    (cfg : Config) (m n : Machine) (pool : PipePool)
    → Same m n
    → m.pipes ≡ some pool
    → n.ctx.pipe_index ≡ m.ctx.pipe_index
    → m.ctx.state ≡ opening_dst
    → Effect m (with_pipe cfg n (PipePool.acquire pool))
with_pipe-Effect cfg m n pool s p i d =
    let (pipe, left) = PipePool.acquire pool in
    elim (ℤ-cases (PipePool.acquire pool).0.index) [
      | inl (k, h) ↦
          rw (h, with_pipe)
            (start_splice-Effect cfg m
              (record n {
                ctx = record n.ctx {
                  pipe_read_fd = pipe.read_fd;
                  pipe_write_fd = pipe.write_fd;
                  pipe_index = pipe.index;
                };
                pipes = some left;
              })
              (same s.buffer s.index s.prepared s.completed s.failed) (takes pool k p d h refl h))
      | inr (k, h) ↦
          rw (h, with_pipe)
            (start_read-Effect cfg m
              (record n { ctx = record n.ctx { use_splice = false }; pipes = some left })
              (same s.buffer s.index s.prepared s.completed s.failed) (lacks pool k p h refl i))
    ]

-- The rest of OPENING_DST.
opened-Effect :
    (cfg : Config) (m n : Machine)
    → Same m n
    → n.pipes ≡ m.pipes
    → n.ctx.pipe_index ≡ m.ctx.pipe_index
    → m.ctx.state ≡ opening_dst
    → Effect m (opened cfg n)
opened-Effect cfg m n s p i d = elim (Bool-cases (n.ctx.file_size == 0)) [
  | inl e ↦ rw e (start_close-Effect cfg m n s (stays p i))
  | inr e ↦ elim (Bool-cases n.ctx.use_splice) [
    | inl u ↦ elim (Option-cases n.pipes) [
      | inl o ↦
          let same : opened cfg n ≡ start_read cfg n = ground arith in
          rw same (start_read-Effect cfg m n s (stays p i))
      | inr (pool, o) ↦
          let same : opened cfg n ≡ with_pipe cfg n (PipePool.acquire pool) = ground arith in
          rw same (with_pipe-Effect cfg m n pool s (sym p ∙ o) i d)
    ]
    | inr u ↦
        let same : opened cfg n ≡ start_read cfg n = ground arith in
        rw same (start_read-Effect cfg m n s (stays p i))
  ]
]

dispatch-Effect :
    (cfg : Config) (s : FileState) (r : ℕ) (m : Machine)
    → m.ctx.state ≡ s
    → is_live s ≡ true
    → PipedAt s m.ctx.pipe_index
    → Effect m (dispatch cfg s r m)
unfolding dispatch
dispatch-Effect cfg queued r m e l h = cc
dispatch-Effect cfg opening_src r m e l h =
    goes m m _ _ (same refl refl refl refl refl) refl refl refl refl refl refl (stays refl refl) h
dispatch-Effect cfg stating r m e l h =
    goes m
      (record m {
        stats = record m.stats { bytes_total = add64 m.stats.bytes_total m.ctx.stx.size };
      })
      _ _ (same refl refl refl refl refl) refl refl refl refl refl refl (stays refl refl) h
dispatch-Effect cfg opening_dst r m e l h =
    opened-Effect cfg m (record m { ctx = record m.ctx { dst_fd = pos r } })
      (same refl refl refl refl refl) refl refl e
dispatch-Effect cfg reading r m e l h =
    goes m m _ _ (same refl refl refl refl refl) refl refl refl refl refl refl (stays refl refl) tt
dispatch-Effect cfg writing r m e l h =
    elim (Bool-cases (leb m.ctx.file_size (add64 m.ctx.offset m.ctx.last_read_size))) [
      | inl b ↦ rw b (
          start_close-Effect cfg m (moved m m.ctx.last_read_size) (same refl refl refl refl refl)
            (stays refl refl))
      | inr b ↦ rw b (
          start_read-Effect cfg m (moved m m.ctx.last_read_size) (same refl refl refl refl refl)
            (stays refl refl))
    ]
dispatch-Effect cfg copying r m e l h = cc
dispatch-Effect cfg FileState.splice_in r m e l h =
    goes m m _ _ (same refl refl refl refl refl) refl refl refl refl refl refl (stays refl refl) tt
dispatch-Effect cfg FileState.splice_out r m e l h =
    elim (Bool-cases (leb m.ctx.file_size (add64 m.ctx.offset r))) [
      | inl b ↦
          rw b
            (start_close-Effect cfg m (moved m r) (same refl refl refl refl refl) (stays refl refl))
      | inr b ↦
          rw b (
            start_splice-Effect cfg m (moved m r) (same refl refl refl refl refl) (stays refl refl))
    ]
dispatch-Effect cfg closing_src r m e l h =
    goes m m _ _ (same refl refl refl refl refl) refl refl refl refl refl refl (stays refl refl) tt
dispatch-Effect cfg closing_dst r m e l h = record {
  buffer = refl;
  index = refl;
  outcome = completes refl refl refl refl;
  piping = stays refl refl;
  piped = tt;
}
dispatch-Effect cfg done r m e l h = cc
dispatch-Effect cfg failed r m e l h = cc

is_live_not_done : (s : FileState) → is_live s ≡ true → s ≢ done
is_live_not_done s l e = false≢true (ap is_live (sym e) ∙ l)

-- Every completion of a file that has a request on its way, errors included.
pub advance_state-Effect :
    (cfg : Config) (result : ℤ) (m : Machine)
    → is_live m.ctx.state ≡ true
    → PipedAt m.ctx.state m.ctx.pipe_index
    → Effect m (advance_state cfg result m)
advance_state-Effect cfg (pos r) m l h =
    unfold advance_state in dispatch-Effect cfg m.ctx.state r m refl l h
advance_state-Effect cfg (negsuc e) m l h =
    rw (advance_state-failed cfg e m (is_live_not_done m.ctx.state l)) (record {
      buffer = refl;
      index = refl;
      outcome = fails refl refl refl refl;
      piping = stays refl refl;
      piped = tt;
    })
