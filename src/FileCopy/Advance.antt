-- ===== src/FileCopy/Advance.antt =====
-- src/main.cpp, `advance_state`: one completion of one file.
use uring_sync.Base.{
  ℕ, ◌%◌, ◌^◌, min, List, [], ◌∷◌, ◌++◌, Bool, true, false, Option, none, some, leb, ◌==◌,
  if◌then◌else◌,
}
use uring_sync.Base.Int.{ℤ, pos, negsuc}
use uring_sync.Pools.PipePool.{PipePool, PipeHandle}
use uring_sync.Pools.PipePool
use uring_sync.FileCopy.Types.{
  OpType, FileState, FileContext, Stats, Config, Sqe, add64, sub64, opening_src, stating,
  opening_dst, reading, writing, closing_src, closing_dst, done, failed, write_create_truncate,
  openat, close,
}

-- What a call of `advance_state` can change: the context, the statistics, the pipe pool (`none` for
-- a null pointer), the requests prepared so far and the descriptors that it closed itself.
pub record Machine : Type 0 where
  pub ctx : FileContext
  pub stats : Stats
  pub pipes : Option PipePool
  pub prepared : List Sqe
  pub closed : List ℤ

-- `ring.prepare_*(…, ctx)`, where the queue has room (the queue itself is `Ring`).
abbrev pub prepare : Sqe → Machine → Machine
prepare sqe m = record m { prepared = m.prepared ++ sqe ∷ [] }

-- `if (fd >= 0) close(fd);`
abbrev pub close_if_open : ℤ → List ℤ
close_if_open (pos fd) = pos fd ∷ []
close_if_open (negsuc n) = []

-- `std::min((uint64_t)cfg.chunk_size, ctx->file_size - ctx->offset)` as a uint32_t.
abbrev pub chunk : Config → FileContext → ℕ
chunk cfg c = min cfg.chunk_size (sub64 c.file_size c.offset) % 2 ^ 32

unfoldable pub fail : Machine → Machine
fail m = record m {
  ctx = record m.ctx { state = failed };
  stats = record m.stats { files_failed = add64 m.stats.files_failed 1 };
  closed = m.closed ++ (close_if_open m.ctx.src_fd ++ close_if_open m.ctx.dst_fd);
}

unfoldable pub start_read : Config → Machine → Machine
start_read cfg m =
    prepare (Sqe.read m.ctx.src_fd m.ctx.buffer (chunk cfg m.ctx) m.ctx.offset)
      (record m { ctx = record m.ctx { state = reading; current_op = OpType.read } })

unfoldable pub start_splice : Config → Machine → Machine
start_splice cfg m =
    prepare
      (Sqe.splice m.ctx.src_fd (pos m.ctx.offset) m.ctx.pipe_write_fd (negsuc 0) (chunk cfg m.ctx))
      (record m {
        ctx = record m.ctx { state = FileState.splice_in; current_op = OpType.splice_in };
      })

unfoldable pub start_close : Machine → Machine
start_close m =
    prepare (close m.ctx.src_fd)
      (record m { ctx = record m.ctx { state = closing_src; current_op = OpType.close_src } })

-- `pipe_pool->acquire()` and what follows.
abbrev pub with_pipe : Config → Machine → PipeHandle × PipePool → Machine
with_pipe cfg m (pipe, pool) = elim pipe.index [
  | pos i ↦ start_splice cfg (record m {
    ctx = record m.ctx {
      pipe_read_fd = pipe.read_fd;
      pipe_write_fd = pipe.write_fd;
      pipe_index = pipe.index;
    };
    pipes = some pool;
  })
  | negsuc n ↦
      start_read cfg (record m { ctx = record m.ctx { use_splice = false }; pipes = some pool })
]

abbrev pub opened : Config → Machine → Machine
opened cfg m =
    if m.ctx.file_size == 0
    then start_close m
    else if m.ctx.use_splice
    then elim m.pipes [
      | none ↦ start_read cfg m
      | some pool ↦ with_pipe cfg m (PipePool.acquire pool)
    ]
    else start_read cfg m

-- `ctx->offset += n; stats.bytes_copied += n;`
abbrev pub moved : Machine → ℕ → Machine
moved m n = record m {
  ctx = record m.ctx { offset = add64 m.ctx.offset n };
  stats = record m.stats { bytes_copied = add64 m.stats.bytes_copied n };
}

-- The `switch`, for a result that is not negative. The last clause is `default`.
unfoldable pub dispatch : Config → FileState → ℕ → Machine → Machine
unfolding start_read start_splice start_close
dispatch cfg opening_src result m = prepare (Sqe.statx (pos result)) (record m {
  ctx = record m.ctx { src_fd = pos result; state = stating; current_op = OpType.statx };
})
dispatch cfg stating result m =
    prepare (openat m.ctx.dst_path write_create_truncate (m.ctx.stx.mode % 512)) (record m {
      ctx = record m.ctx {
        file_size = m.ctx.stx.size;
        mode = m.ctx.stx.mode;
        use_splice = cfg.use_splice;
        state = opening_dst;
        current_op = OpType.open_dst;
      };
      stats = record m.stats { bytes_total = add64 m.stats.bytes_total m.ctx.stx.size };
    })
dispatch cfg opening_dst result m =
    opened cfg (record m { ctx = record m.ctx { dst_fd = pos result } })
dispatch cfg reading result m =
    prepare (Sqe.write m.ctx.dst_fd m.ctx.buffer result m.ctx.offset) (record m {
      ctx = record m.ctx { last_read_size = result; state = writing; current_op = OpType.write };
    })
dispatch cfg writing result m =
    let n = moved m m.ctx.last_read_size in
    if leb n.ctx.file_size n.ctx.offset then start_close n else start_read cfg n
dispatch cfg FileState.splice_in result m =
    prepare (Sqe.splice m.ctx.pipe_read_fd (negsuc 0) m.ctx.dst_fd (pos m.ctx.offset) result)
      (record m {
        ctx = record m.ctx {
          splice_len = result;
          state = FileState.splice_out;
          current_op = OpType.splice_out;
        };
      })
dispatch cfg FileState.splice_out result m =
    let n = moved m result in
    if leb n.ctx.file_size n.ctx.offset then start_close n else start_splice cfg n
dispatch cfg closing_src result m = prepare (close m.ctx.dst_fd) (record m {
  ctx = record m.ctx { src_fd = negsuc 0; state = closing_dst; current_op = OpType.close_dst };
})
dispatch cfg closing_dst result m = record m {
  ctx = record m.ctx { dst_fd = negsuc 0; state = done };
  stats = record m.stats { files_completed = add64 m.stats.files_completed 1 };
}
dispatch cfg _ result m = m

abbrev pub is_done : FileState → Bool
is_done done = true
is_done _ = false

-- `ctx->state == FileState::DONE || ctx->state == FileState::FAILED`, which `worker_thread` tests.
abbrev pub is_over : FileState → Bool
is_over done = true
is_over failed = true
is_over _ = false

unfoldable pub advance_state : Config → ℤ → Machine → Machine
unfolding dispatch fail
advance_state cfg (negsuc e) m = if is_done m.ctx.state then m else fail m
advance_state cfg (pos r) m = dispatch cfg m.ctx.state r m
