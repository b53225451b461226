-- ===== src/FileCopy/Tests.antt =====
-- The file copy over a small kernel of its own, which meets what `Obeys` asks for.
use uring_sync.Base.{
  ℕ, ◌-◌, ◌≡◌, ◌≢◌, min, refl, ap, List, [], ◌∷◌, ◌++◌, true, false, none, arith, length, take,
  drop,
}
use uring_sync.Base.Int.{ℤ, pos, negsuc}
use uring_sync.FileCopy.Types.{
  Stats, Config, Sqe, Statx, reading, writing, openat, close, read_only, write_create_truncate,
}
use uring_sync.FileCopy.Advance.{Machine, advance_state}
use uring_sync.FileCopy.Branches.{Edge, OneMore, advance_state-Edge}
use uring_sync.FileCopy.Handles.{Handle, source, copy, unused, unused-free}
use uring_sync.Base.Maps.{erase}
use uring_sync.FileCopy.Kernel.{Kernel, Obeys, run}
use uring_sync.FileCopy.Phases.{read_at}
use uring_sync.FileCopy.Start.{FileWorkItem, fresh, started}
use uring_sync.FileCopy.Copy.{Copied}
use uring_sync.FileCopy.Whole.{copy_file}
use uring_sync.FileCopy.Disturbed.{short_write_ignored, shrunk_never_ends, pairs}

record Disk : Type 0 where
  written : List ℕ
  memory : List ℕ
  piped : List ℕ
  open_now : List (ℕ × Handle)

abbrev opened : Handle → Disk → ℤ × Disk
opened h d = (pos (unused d.open_now), record d { open_now = (unused d.open_now, h) ∷ d.open_now })

abbrev closed : ℤ → List (ℕ × Handle) → List (ℕ × Handle)
closed (pos fd) hs = erase fd hs
closed (negsuc e) hs = hs

abbrev no_stx : Statx
no_stx = record { size = 0; mode = 0 }

-- Reads and splices move as much as they can; writes go to the end of the copy.
abbrev disk_exec : List ℕ → Sqe → Disk → ℤ × Statx × Disk
disk_exec src (openat path read_only mode) d = let (fd, e) = opened source d in (fd, no_stx, e)
disk_exec src (openat path write_create_truncate mode) d =
    let (fd, e) = opened copy d in (fd, no_stx, record e { written = [] })
disk_exec src (Sqe.statx fd) d = (pos 0, record { size = length src; mode = 0o644 }, d)
disk_exec src (close fd) d = (pos 0, no_stx, record d { open_now = closed fd d.open_now })
disk_exec src (Sqe.read fd buf len off) d =
    let n = min len (length src - off) in
    (pos n, no_stx, record d { memory = take n (drop off src) })
disk_exec src (Sqe.write fd buf len off) d =
    (pos len, no_stx, record d { written = d.written ++ take len d.memory })
disk_exec src (Sqe.splice fd_in (pos off) fd_out (negsuc m) len) d =
    let n = min len (length src - off) in
    (pos n, no_stx, record d { piped = d.piped ++ take n (drop off src) })
disk_exec src (Sqe.splice fd_in (negsuc m) fd_out (pos off) len) d = (
  pos len,
  no_stx,
  record d { written = d.written ++ take len d.piped; piped = drop len d.piped },
)
disk_exec src (Sqe.splice fd_in (pos off) fd_out (pos to) len) d = (negsuc 21, no_stx, d)
disk_exec src (Sqe.splice fd_in (negsuc m) fd_out (negsuc n) len) d = (negsuc 21, no_stx, d)

abbrev disk : List ℕ → Kernel
disk src = record {
  State = Disk;
  exec = disk_exec src;
  dst = λ d. d.written;
  mem = λ buf d. d.memory;
  pipe = λ d. d.piped;
}

abbrev disk-Obeys :
    (src : List ℕ) → Obeys (disk src) (b'a' ∷ []) (b'b' ∷ []) 0o644 (pos 8) (pos 9) src
disk-Obeys src = record {
  handles = λ d. d.open_now;
  open_source = λ w. (unused w.open_now, refl, refl, refl);
  stats = λ fd w h. (0, refl, refl, refl, refl);
  open_copy =
      λ permissions w e. (unused w.open_now, refl, unused-free w.open_now, refl, refl, refl);
  reads = λ fd i buf len off w e open_now h inside.
      (min len (length src - off), refl, omega arith, omega arith, omega arith, refl, refl, refl);
  writes = λ fd j buf len off w e open_now h at_end. (len, refl, refl, refl);
  splices_in = λ fd out i len off w e open_now to h inside.
      (min len (length src - off), refl, omega arith, omega arith, omega arith, refl, refl, refl);
  splices_out = λ fd out j len off w from e open_now h at_end. (refl, refl, refl, refl);
  closes = λ fd i w e. (0, refl, refl, ap (λ z. closed z w.open_now) e);
}

abbrev config : Config
config = record {
  num_workers = 1;
  queue_depth = 64;
  chunk_size = 2;
  verbose = false;
  use_splice = false;
  sync_mode = false;
  quiet = false;
  chunk_size_set = true;
  src_path = [];
  dst_path = [];
}

abbrev no_files : Stats
no_files = record {
  files_total = 1;
  files_completed = 0;
  files_failed = 0;
  bytes_total = 0;
  bytes_copied = 0;
  dirs_created = 0;
}

abbrev item : FileWorkItem
item = record { src_path = b'a' ∷ []; dst_path = b'b' ∷ []; inode = 7 }

abbrev bytes : List ℕ
bytes = 10 ∷ 20 ∷ 30 ∷ []

abbrev blank : Disk
blank = record { written = []; memory = []; piped = []; open_now = [] }

abbrev start : Machine
start = started (fresh item 4096 (pos 0)) no_files none

copy_runs : (run (disk bytes) config 9 blank start).0.written ≡ bytes
unfolding run advance_state
copy_runs = refl

copy_file_example :
    let r = run (disk bytes) config 11 blank start in
    Copied
      (disk bytes)
      (λ d. d.open_now)
      []
      bytes
      (record no_files { bytes_total = 3 })
      none
      []
      r.0
      r.1
copy_file_example =
    copy_file (disk bytes) config item 0o644 (pos 8) (pos 9) bytes (disk-Obeys bytes) 4096 (pos 0)
      no_files none blank 11 refl tt (omega arith) (omega arith) (omega arith) (omega arith)
      (omega arith)

abbrev in_writing : Machine
in_writing = record start {
  ctx = record start.ctx {
    state = writing;
    src_fd = pos 3;
    dst_fd = pos 4;
    file_size = 3;
    last_read_size = 2;
  };
}

advance_state-Edge_example :
    Edge writing (advance_state config (pos 2) in_writing).ctx.state
    × OneMore in_writing (advance_state config (pos 2) in_writing)
    × ((advance_state config (pos 2) in_writing).closed ≡ [])
advance_state-Edge_example = advance_state-Edge config 2 in_writing refl

short_write_ignored_example :
    (advance_state config (pos 1) in_writing ≡ advance_state config (pos 2) in_writing)
    × ((advance_state config (pos 1) in_writing).ctx.offset ≡ 2)
short_write_ignored_example = short_write_ignored config in_writing 1 2 refl

shrunk_never_ends_example :
    let r = (run (disk []) config (pairs 3) blank (read_at config in_writing 1)).1 in
    (r.ctx.state ≡ reading) × (r.ctx.offset ≡ 1) × (r.prepared ≢ [])
shrunk_never_ends_example =
    shrunk_never_ends (disk []) config 1 (λ fd buf len w. nothing_left len) (λ fd buf w. refl) 3
      in_writing blank (omega arith) (omega arith)
  where
    nothing_left : (len : ℕ) → ◌≡◌ {A = ℤ} (pos (min len (0 - 1))) (pos 0)
    nothing_left len = ground arith
