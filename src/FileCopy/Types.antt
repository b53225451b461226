-- ===== src/FileCopy/Types.antt =====
-- include/common.hpp: operation types, the file's state machine, its context, the statistics; and
-- from src/main.cpp the configuration. A path is the list of its bytes, a pointer a number.
use uring_sync.Base.{ℕ, ◌+◌, ◌-◌, ◌%◌, ◌^◌, List, Bool}
use uring_sync.Base.Int.{ℤ}

pub data OpType : Type 0 where
  open_src open_dst statx read write copy_file_range splice_in splice_out close_src close_dst :
      OpType
  mkdir network_send network_recv : OpType

pub data FileState : Type 0 where
  queued opening_src stating opening_dst reading writing copying : FileState
  splice_in splice_out closing_src closing_dst done failed : FileState

-- What the program uses of `struct statx`.
pub record Statx : Type 0 where
  pub size : ℕ
  pub mode : ℕ

-- `file_size` and `offset` are uint64_t, `last_read_size` and `splice_len` uint32_t.
pub record FileContext : Type 0 where
  pub src_path : List ℕ
  pub dst_path : List ℕ
  pub src_fd : ℤ
  pub dst_fd : ℤ
  pub state : FileState
  pub current_op : OpType
  pub file_size : ℕ
  pub offset : ℕ
  pub mode : ℕ
  pub buffer : ℕ
  pub buffer_index : ℤ
  pub last_read_size : ℕ
  pub pipe_read_fd : ℤ
  pub pipe_write_fd : ℤ
  pub pipe_index : ℤ
  pub splice_len : ℕ
  pub stx : Statx
  pub use_splice : Bool

-- The atomic counters are uint64_t.
pub record Stats : Type 0 where
  pub files_total : ℕ
  pub files_completed : ℕ
  pub files_failed : ℕ
  pub bytes_total : ℕ
  pub bytes_copied : ℕ
  pub dirs_created : ℕ

pub record Config : Type 0 where
  pub num_workers : ℕ
  pub queue_depth : ℕ
  pub chunk_size : ℕ
  pub verbose : Bool
  pub use_splice : Bool
  pub sync_mode : Bool
  pub quiet : Bool
  pub chunk_size_set : Bool
  pub src_path : List ℕ
  pub dst_path : List ℕ

abbrev pub word : ℕ
word = 2 ^ 64

-- uint64_t a + b and a - b.
abbrev pub add64 : ℕ → ℕ → ℕ
add64 a b = (a + b) % word

abbrev pub sub64 : ℕ → ℕ → ℕ
sub64 a b = (a + word - b) % word

-- The flags of `open`, by the two combinations that the program passes.
pub data OpenFlags : Type 0 where
  read_only write_create_truncate : OpenFlags

-- A request as `io_uring_prep_*` fills it in, with the arguments of `prepare_*`.
pub data Sqe : Type 0 where
  openat : List ℕ → OpenFlags → ℕ → Sqe
  statx : ℤ → Sqe
  close : ℤ → Sqe
  -- descriptor, buffer, length, offset
  read write : ℤ → ℕ → ℕ → ℕ → Sqe
  -- fd_in, off_in, fd_out, off_out, length
  splice : ℤ → ℤ → ℤ → ℤ → ℕ → Sqe
