-- ===== src/FileCopy/Start.antt =====
-- src/main.cpp, `worker_thread`: its `start_file`, which takes a work item into the pipeline.
use uring_sync.Base.{ℕ, List, [], ◌∷◌, false, Option, none, some, ◌==◌, if◌then◌else◌}
use uring_sync.Base.Int.{ℤ, negsuc}
use uring_sync.Pools.BufferPool.{BufferPool}
use uring_sync.Pools.BufferPool
use uring_sync.Pools.PipePool.{PipePool}
use uring_sync.FileCopy.Types.{OpType, FileContext, Stats, opening_src, read_only, openat}
use uring_sync.FileCopy.Advance.{Machine}

pub record FileWorkItem : Type 0 where
  pub src_path : List ℕ
  pub dst_path : List ℕ
  pub inode : ℕ

-- `new FileContext()` with the assignments of `start_file`. The members with no initialiser,
-- `current_op` and `stx`, are assigned before they are read.
abbrev pub fresh : FileWorkItem → ℕ → ℤ → FileContext
fresh item buffer buf_idx = record {
  src_path = item.src_path;
  dst_path = item.dst_path;
  src_fd = negsuc 0;
  dst_fd = negsuc 0;
  state = opening_src;
  current_op = OpType.open_src;
  file_size = 0;
  offset = 0;
  mode = 0o644;
  buffer = buffer;
  buffer_index = buf_idx;
  last_read_size = 0;
  pipe_read_fd = negsuc 0;
  pipe_write_fd = negsuc 0;
  pipe_index = negsuc 0;
  splice_len = 0;
  stx = record { size = 0; mode = 0 };
  use_splice = false;
}

-- The new context with the request that opens its source.
abbrev pub started : FileContext → Stats → Option PipePool → Machine
started c stats pipes = record {
  ctx = c;
  stats = stats;
  pipes = pipes;
  prepared = openat c.src_path read_only 0 ∷ [];
  closed = [];
}

-- `if (!buffer) return false;`: `none` where no file is started.
unfoldable pub start_file : BufferPool → FileWorkItem → Option FileContext × BufferPool
start_file pool item =
    let ((buffer, buf_idx), taken) = BufferPool.acquire pool in
    (if buffer == 0 then none else some (fresh item buffer buf_idx), taken)
