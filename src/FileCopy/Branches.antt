-- ===== src/FileCopy/Branches.antt =====
-- src/main.cpp, `advance_state`: what holds of every call, for every state and result.
use uring_sync.Base.{
  ℕ, ◌≡◌, refl, [], ◌∷◌, ◌++◌, Bool, true, false, some, arith, ◌⊎◌, inl, inr, leb, Bool-cases, ◌==◌,
  Option-cases,
}
use uring_sync.Base.Int.{pos, ℤ-cases}
use uring_sync.Pools.PipePool.{PipePool, PipeHandle}
use uring_sync.Pools.PipePool
use uring_sync.FileCopy.Types.{
  FileState, Config, Sqe, add64, opening_src, stating, opening_dst, reading, writing, closing_src,
  closing_dst, done, failed, queued, copying,
}
use uring_sync.FileCopy.Advance.{
  Machine, advance_state, start_read, start_splice, start_close, opened, with_pipe, dispatch, moved,
}

-- The state diagram of a file, failures aside.
pub data Edge : FileState → FileState → Type 0 where
  stat_source : Edge opening_src stating
  open_copy : Edge stating opening_dst
  copy_empty : Edge opening_dst closing_src
  copy_by_read : Edge opening_dst reading
  copy_by_splice : Edge opening_dst FileState.splice_in
  write_chunk : Edge reading writing
  read_next : Edge writing reading
  written : Edge writing closing_src
  drain_pipe : Edge FileState.splice_in FileState.splice_out
  splice_next : Edge FileState.splice_out FileState.splice_in
  spliced : Edge FileState.splice_out closing_src
  close_copy : Edge closing_src closing_dst
  finish : Edge closing_dst done

-- The states in which a file has a request on its way.
abbrev pub is_live : FileState → Bool
is_live queued = false
is_live copying = false
is_live done = false
is_live failed = false
is_live _ = true

-- The requests after a call: one more where the file goes on, the same where it is done.
abbrev pub OneMore : Machine → Machine → Type 0
OneMore m n =
    ((sqe : Sqe) × (n.prepared ≡ m.prepared ++ sqe ∷ []) × (is_live n.ctx.state ≡ true))
    ⊎ ((n.prepared ≡ m.prepared) × (n.ctx.state ≡ done))

abbrev Goes : FileState → Machine → Machine → Type 0
Goes s m n = Edge s n.ctx.state × OneMore m n × (n.closed ≡ m.closed)

module _ (cfg : Config) (s : FileState) (m : Machine) where
  start_read-Goes : Edge s reading → Goes s m (start_read cfg m)
  unfolding start_read
  start_read-Goes e = (e, inl (_, refl, refl), refl)

  start_splice-Goes : Edge s FileState.splice_in → Goes s m (start_splice cfg m)
  unfolding start_splice
  start_splice-Goes e = (e, inl (_, refl, refl), refl)

  start_close-Goes : Edge s closing_src → Goes s m (start_close m)
  unfolding start_close
  start_close-Goes e = (e, inl (_, refl, refl), refl)

with_pipe-Goes :
    (cfg : Config) (m : Machine) (h : PipeHandle) (pool : PipePool)
    → Goes opening_dst m (with_pipe cfg m (h, pool))
with_pipe-Goes cfg m h pool = elim (ℤ-cases h.index) [
  | inl (n, i) ↦
      rw (i, with_pipe)
        (start_splice-Goes cfg opening_dst
          (record m {
            ctx = record m.ctx {
              pipe_read_fd = h.read_fd;
              pipe_write_fd = h.write_fd;
              pipe_index = h.index;
            };
            pipes = some pool;
          })
          copy_by_splice)
  | inr (n, i) ↦
      rw (i, with_pipe)
        (start_read-Goes cfg opening_dst
          (record m { ctx = record m.ctx { use_splice = false }; pipes = some pool }) copy_by_read)
]

opened-Goes : (cfg : Config) (m : Machine) → Goes opening_dst m (opened cfg m)
opened-Goes cfg m = elim (Bool-cases (m.ctx.file_size == 0)) [
  | inl e ↦ rw e (start_close-Goes cfg opening_dst m copy_empty)
  | inr e ↦ elim (Bool-cases m.ctx.use_splice) [
    | inl u ↦ elim (Option-cases m.pipes) [
      | inl n ↦
          let o : opened cfg m ≡ start_read cfg m = ground arith in
          rw o (start_read-Goes cfg opening_dst m copy_by_read)
      | inr (pool, p) ↦
          let got = PipePool.acquire pool in
          let o : opened cfg m ≡ with_pipe cfg m got = ground arith in
          rw o (with_pipe-Goes cfg m got.0 got.1)
    ]
    | inr u ↦
        let o : opened cfg m ≡ start_read cfg m = ground arith in
        rw o (start_read-Goes cfg opening_dst m copy_by_read)
  ]
]

dispatch-Goes :
    (cfg : Config) (s : FileState) (r : ℕ) (m : Machine)
    → is_live s ≡ true
    → Goes s m (dispatch cfg s r m)
unfolding dispatch
dispatch-Goes cfg queued r m l = cc
dispatch-Goes cfg opening_src r m l = (stat_source, inl (_, refl, refl), refl)
dispatch-Goes cfg stating r m l = (open_copy, inl (_, refl, refl), refl)
dispatch-Goes cfg opening_dst r m l =
    opened-Goes cfg (record m { ctx = record m.ctx { dst_fd = pos r } })
dispatch-Goes cfg reading r m l = (write_chunk, inl (_, refl, refl), refl)
dispatch-Goes cfg writing r m l =
    elim (Bool-cases (leb m.ctx.file_size (add64 m.ctx.offset m.ctx.last_read_size))) [
      | inl e ↦ rw e (start_close-Goes cfg writing (moved m m.ctx.last_read_size) written)
      | inr e ↦ rw e (start_read-Goes cfg writing (moved m m.ctx.last_read_size) read_next)
    ]
dispatch-Goes cfg copying r m l = cc
dispatch-Goes cfg FileState.splice_in r m l = (drain_pipe, inl (_, refl, refl), refl)
dispatch-Goes cfg FileState.splice_out r m l =
    elim (Bool-cases (leb m.ctx.file_size (add64 m.ctx.offset r))) [
      | inl e ↦ rw e (start_close-Goes cfg FileState.splice_out (moved m r) spliced)
      | inr e ↦ rw e (start_splice-Goes cfg FileState.splice_out (moved m r) splice_next)
    ]
dispatch-Goes cfg closing_src r m l = (close_copy, inl (_, refl, refl), refl)
dispatch-Goes cfg closing_dst r m l = (finish, inr (refl, refl), refl)
dispatch-Goes cfg done r m l = cc
dispatch-Goes cfg failed r m l = cc

-- A completion without error, of a file that has a request on its way: the state moves along an edge
-- of the diagram; either exactly one further request is prepared and the file still has a request on
-- its way, or none is and the file is done; and no descriptor is closed directly.
pub advance_state-Edge :
    (cfg : Config) (r : ℕ) (m : Machine)
    → is_live m.ctx.state ≡ true
    → let n = advance_state cfg (pos r) m in
      Edge m.ctx.state n.ctx.state × OneMore m n × (n.closed ≡ m.closed)
unfolding advance_state
advance_state-Edge cfg r m l = dispatch-Goes cfg m.ctx.state r m l

-- A file that is done or failed, or was not started, stays as it is under a completion without error.
pub advance_state_rests :
    (cfg : Config) (r : ℕ) (m : Machine)
    → is_live m.ctx.state ≡ false
    → advance_state cfg (pos r) m ≡ m
unfolding advance_state
advance_state_rests cfg r m l = ground arith
