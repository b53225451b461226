-- ===== src/Main/Tests.antt =====
-- src/main.cpp: command lines, and a local copy of two files with one worker.
use mathlib.Core.List.{Perm}
use mathlib.Core.List.Perm
use uring_sync.Base.{
  ℕ, suc, ◌+◌, ◌*◌, ◌≤◌, ◌≡◌, ◌≢◌, refl, List, [], ◌∷◌, ◌++◌, true, false, Option, none, some,
  arith, leb, leb→le, if◌then◌else◌, All, Bool-cases, inl, inr,
}
use uring_sync.Base.Int.{pos, negsuc}
use uring_sync.Base.Text.{codes}
use uring_sync.Pools.Slots.{first_free, free_slot}
use uring_sync.Pools.BufferPool
use uring_sync.Pools.PipePool.{PipePool, Pipe, built}
use uring_sync.Pools.PipePool
use uring_sync.WorkQueue.{try_pop}
use uring_sync.WorkQueue
use uring_sync.FileCopy.Types.{Statx, openat, read_only}
use uring_sync.FileCopy.Advance.{advance_state}
use uring_sync.FileCopy.Start.{FileWorkItem, start_file}
use uring_sync.Worker.{
  Worker, Pipeline, complete, callback, turn, turn_at, fill, ask, check, wait, loop, take_up,
}
use uring_sync.Worker.Steps.{loaded, begun, no_stats, Reach, turns, completes, here, next}
use uring_sync.Main.Numbers.{atoi, to_string}
use uring_sync.Main.Network.{parse_host_port, send_mode, recv_mode}
use uring_sync.Main.Network.Ports.{parse_host_port-printed}
use uring_sync.Main.Network.Encrypted.{Encrypts, asks_tls, recv_values, modes-Encrypts}
use uring_sync.Main.Network.Sound.{IsSound, modes-IsSound}
use uring_sync.Main.Local.{
  Opt, queue_depth, chunk_size, options, StatResult, Tree, regular, directory, empty_result,
  scan_entries, scan_files, Launch, launches, local_copy, exit_code,
}
use uring_sync.Main.Local.Launched.{IsSorted, Sorts}
use uring_sync.Main.Local.Exit.{exit_code_lem}

parse_host_port-printed_example :
    parse_host_port (codes "::1" ++ b':' ∷ to_string 9999) ≡ some (codes "::1", 9999)
parse_host_port-printed_example = parse_host_port-printed (codes "::1") 9999 (omega arith)

abbrev send_args : List (List ℕ)
send_args = codes "/data" ∷ codes "h:9999" ∷ codes "--secret" ∷ codes "k" ∷ codes "--tls" ∷ []

abbrev recv_args : List (List ℕ)
recv_args =
    codes "/backup"
    ∷ codes "--listen"
    ∷ codes "9999"
    ∷ codes "--tls"
    ∷ codes "--secret"
    ∷ codes "k"
    ∷ []

modes-IsSound_example : IsSound (send_mode recv_args) × IsSound (recv_mode recv_args)
modes-IsSound_example = modes-IsSound recv_args

modes-Encrypts_example :
    Encrypts true (send_mode send_args)
    × Encrypts (asks_tls recv_values send_args) (recv_mode send_args)
modes-Encrypts_example = modes-Encrypts send_args

-- Insertion by inode.
abbrev insert : FileWorkItem → List FileWorkItem → List FileWorkItem
insert x [] = x ∷ []
insert x (y ∷ ys) = let rest = insert x ys in if leb x.inode y.inode then x ∷ y ∷ ys else y ∷ rest

abbrev by_inode : List FileWorkItem → List FileWorkItem
by_inode [] = []
by_inode (x ∷ xs) = insert x (by_inode xs)

abbrev AtLeast : ℕ → FileWorkItem → Type 0
AtLeast n y = n ≤ y.inode

All-insert :
    (n : ℕ) (x : FileWorkItem) (xs : List FileWorkItem)
    → n ≤ x.inode
    → All (AtLeast n) xs
    → All (AtLeast n) (insert x xs)
All-insert n x [] h a = (h, tt)
All-insert n x (y ∷ ys) h a = elim (Bool-cases (leb x.inode y.inode)) [
  | inl e ↦ rw e (h, a)
  | inr e ↦ rw e (a.0, All-insert n x ys h a.1)
]

All-trans : (m n : ℕ) (xs : List FileWorkItem) → m ≤ n → All (AtLeast n) xs → All (AtLeast m) xs
All-trans m n [] h a = tt
All-trans m n (x ∷ xs) h a = (omega arith, All-trans m n xs h a.1)

insert-IsSorted : (x : FileWorkItem) (xs : List FileWorkItem) → IsSorted xs → IsSorted (insert x xs)
insert-IsSorted x [] s = (tt, tt)
insert-IsSorted x (y ∷ ys) s = elim (Bool-cases (leb x.inode y.inode)) [
  | inl e ↦ let le = leb→le x.inode y.inode e in rw e ((le, All-trans x.inode y.inode ys le s.0), s)
  | inr e ↦ rw e (All-insert y.inode x ys (ground arith) s.0, insert-IsSorted x ys s.1)
]

insert-Perm : (x : FileWorkItem) (xs : List FileWorkItem) → Perm (insert x xs) (x ∷ xs)
insert-Perm x [] = Perm.refl (x ∷ [])
insert-Perm x (y ∷ ys) = elim (Bool-cases (leb x.inode y.inode)) [
  | inl e ↦ rw e (Perm.refl (x ∷ y ∷ ys))
  | inr e ↦ rw e (Perm.trans (Perm.cons y (insert-Perm x ys)) (Perm.swap x y ys))
]

by_inode-Sorts : Sorts by_inode
by_inode-Sorts = record { perm = permuted; sorted = ordered }
  where
    permuted : (items : List FileWorkItem) → Perm (by_inode items) items
    permuted [] = Perm.nil
    permuted (x ∷ xs) = Perm.trans (insert-Perm x (by_inode xs)) (Perm.cons x (permuted xs))

    ordered : (items : List FileWorkItem) → IsSorted (by_inode items)
    ordered [] = tt
    ordered (x ∷ xs) = insert-IsSorted x (by_inode xs) (ordered xs)

-- A directory `s` with the files `s/b`, of inode 7, and `s/a`, of inode 3.
abbrev tree : Tree
tree = record {
  stat = stats;
  entries = λ base.
      some (record { path = codes "s/b"; is_regular = true })
      ∷ some (record { path = codes "s/a"; is_regular = true })
      ∷ [];
  relative = λ path base. drop_base path;
  directories = λ path. true;
  parents = λ path. true;
}
  where
    drop_base : List ℕ → List ℕ
    drop_base (c ∷ slash ∷ rest) = rest
    drop_base rest = []

    stats : List ℕ → Option StatResult
    stats (c ∷ []) = some (record { kind = directory; size = 4096; inode = 1 })
    stats (c ∷ slash ∷ name ∷ []) =
        some (record { kind = regular; size = 10; inode = if leb name b'a' then 3 else 7 })
    stats rest = none

abbrev item : ℕ → ℕ → FileWorkItem
item name inode = record {
  src_path = b's' ∷ b'/' ∷ name ∷ [];
  dst_path = b'd' ∷ b'/' ∷ name ∷ [];
  inode = inode;
}

abbrev opts : List Opt
opts = queue_depth (codes "2") ∷ chunk_size (codes "4096") ∷ Opt.quiet ∷ []

abbrev operands : List (List ℕ)
operands = codes "s" ∷ codes "d" ∷ []

abbrev launch : Launch
launch = record {
  cfg = record {
    num_workers = 1;
    queue_depth = 2;
    chunk_size = 4096;
    verbose = false;
    use_splice = true;
    sync_mode = false;
    quiet = true;
    chunk_size_set = true;
    src_path = codes "s";
    dst_path = codes "d";
  };
  queue = loaded (item b'a' 3 ∷ item b'b' 7 ∷ []);
  stats = record no_stats { files_total = 2 };
}

launched : local_copy tree by_inode opts operands ≡ launches launch
unfolding local_copy options scan_files scan_entries empty_result atoi
launched = refl

-- A pointer that is greater than all others.
abbrev address : List ℕ → ℕ
address [] = 1
address (p ∷ ps) = suc (p + address ps)

abbrev alloc : ℕ → ℕ
alloc i = 4096 * suc i

abbrev sys : ℕ → Option Pipe
sys i = some (record { read_fd = pos (10 + i); write_fd = pos (20 + i) })

abbrev pipes : PipePool
pipes = record {
  pipes =
      record { read_fd = pos 10; write_fd = pos 20 }
      ∷ record { read_fd = pos 11; write_fd = pos 21 }
      ∷ [];
  available = true ∷ true ∷ [];
  count = 2;
}

pipes_built : PipePool.new sys 2 ≡ built pipes
unfolding PipePool.new
pipes_built = refl

allocated : (i : ℕ) → alloc i ≢ 0
allocated i e = omega arith

abbrev start : Worker
start = begun launch.cfg alloc pipes launch.queue

-- In `wait_and_process`, with a request for each file.
abbrev flying : Worker
flying = turn address launch.cfg (
    turn address launch.cfg
      (turn address launch.cfg (turn address launch.cfg (turn address launch.cfg start))))

to_flying : Reach address launch.cfg start 0 flying
to_flying = next (next (next (next (next here turns) turns) turns) turns) turns

-- No file can be opened.
abbrev failed : ℕ → ℕ → Pipeline → Pipeline
failed ctx name l =
    elim (complete launch.cfg ctx (openat (b's' ∷ b'/' ∷ name ∷ []) read_only 0) (negsuc 1)
      (record { size = 0; mode = 0 }) l) [ none ↦ l | some l' ↦ l' ]

abbrev answered : Worker
answered = record flying { pipeline = failed 3 b'b' (failed 1 b'a' flying.pipeline) }

abbrev once_answered : Worker
once_answered = record flying { pipeline = failed 1 b'a' flying.pipeline }

abbrev done : Worker
done = turn address launch.cfg (
    turn address launch.cfg
      (turn address launch.cfg (turn address launch.cfg (turn address launch.cfg answered))))

to_done : Reach address launch.cfg start 0 done
unfolding begun loaded WorkQueue.set_done WorkQueue.push_bulk WorkQueue.new BufferPool.new try_pop
    turn_at fill ask check wait loop WorkQueue.is_done take_up start_file BufferPool.acquire
    first_free complete callback advance_state BufferPool.release PipePool.release free_slot
to_done =
    let stx : Statx = record { size = 0; mode = 0 } in
    let one = next to_flying (
      completes 1 (openat (codes "s/a") read_only 0) (negsuc 1) stx once_answered.pipeline refl refl
        refl) in
    let both : Reach address launch.cfg start 0 answered = next one (
      completes 3 (openat (codes "s/b") read_only 0) (negsuc 1) stx answered.pipeline refl refl
        refl) in
    next (next (next (next (next both turns) turns) turns) turns) turns

exit_code_lem_example :
    (done.pipeline.stats.files_completed + done.pipeline.stats.files_failed ≡ 2)
    × (exit_code done.pipeline.stats ≡ 0 → done.pipeline.stats.files_completed ≡ 2)
    × (done.pipeline.stats.files_failed ≡ 0 → exit_code done.pipeline.stats ≡ 0)
unfolding begun loaded WorkQueue.set_done WorkQueue.push_bulk WorkQueue.new BufferPool.new try_pop
    turn_at fill ask check wait loop WorkQueue.is_done take_up start_file BufferPool.acquire
    first_free complete callback advance_state BufferPool.release PipePool.release free_slot
exit_code_lem_example =
    exit_code_lem tree by_inode by_inode-Sorts opts operands launch address alloc sys pipes launched
      (omega arith) allocated pipes_built to_done refl
