-- ===== src/Main/Local.antt =====
-- src/main.cpp: a local copy, from its options to its exit code.
pub mod Options
pub mod Launched
pub mod Exit
use uring_sync.Base.{
  ℕ, zero, suc, ◌+◌, ◌*◌, ◌^◌, ◌%◌, List, [], ◌∷◌, ◌++◌, Bool, true, false, ◌&&◌, not, Option, none,
  some, ltb, ◌==◌, if◌then◌else◌, length,
}
use uring_sync.Base.Int.{ℤ, pos, negsuc}
use uring_sync.Paths.{join}
use uring_sync.SizeStats.{SizeStats, observe, pick_chunk_size, no_samples}
use uring_sync.SizeStats
use uring_sync.WorkQueue.{WorkQueue}
use uring_sync.FileCopy.Types.{Config, Stats}
use uring_sync.FileCopy.Start.{FileWorkItem}
use uring_sync.Worker.Steps.{loaded, no_stats}
use uring_sync.Main.Numbers.{atoi}

-- What `getopt_long` gives for one option, with its argument; it is not part of the program.
pub data Opt : Type 0 where
  jobs chunk_size queue_depth : List ℕ → Opt
  verbose quiet no_splice sync help unknown : Opt

abbrev pub defaults : Config
defaults = record {
  num_workers = 1;
  queue_depth = 64;
  chunk_size = 128 * 1024;
  verbose = false;
  use_splice = true;
  sync_mode = false;
  quiet = false;
  chunk_size_set = false;
  src_path = [];
  dst_path = [];
}

-- The options so far, or the exit code with which `main` returns.
pub data Configured : Type 0 where
  configured : Config → Configured
  returns : ℕ → Configured

-- `cfg.x = std::atoi(optarg); if (cfg.x <= 0) ... return 1;`
abbrev pub checked : (ℕ → Config) → ℤ → Configured
checked with_value (negsuc n) = returns 1
checked with_value (pos zero) = returns 1
checked with_value (pos (suc n)) = configured (with_value (suc n))

abbrev pub option : Opt → Config → Configured
option (jobs optarg) cfg = checked (λ n. record cfg { num_workers = n }) (atoi optarg)
option (chunk_size optarg) cfg =
    checked (λ n. record cfg { chunk_size = n; chunk_size_set = true }) (atoi optarg)
option (queue_depth optarg) cfg = checked (λ n. record cfg { queue_depth = n }) (atoi optarg)
option verbose cfg = configured (record cfg { verbose = true })
option quiet cfg = configured (record cfg { quiet = true })
option no_splice cfg = configured (record cfg { use_splice = false })
option sync cfg = configured (record cfg { sync_mode = true })
option help cfg = returns 0
option unknown cfg = returns 1

-- `while ((opt = getopt_long(...)) != -1)`
unfoldable pub options : List Opt → Config → Configured
options [] cfg = configured cfg
options (opt ∷ opts) cfg = elim (option opt cfg) [
  | configured cfg' ↦ options opts cfg'
  | returns code ↦ returns code
]

-- `argc - optind < 2`, over the arguments that are no options.
abbrev pub with_paths : List (List ℕ) → Config → Configured
with_paths (src ∷ dst ∷ rest) cfg = configured (record cfg { src_path = src; dst_path = dst })
with_paths _ cfg = returns 1

abbrev pub then_paths : List (List ℕ) → Configured → Configured
then_paths operands (configured cfg) = with_paths operands cfg
then_paths operands (returns code) = returns code

-- What `stat` gives, as far as the scan looks at it.
pub data FileKind : Type 0 where
  regular directory other : FileKind

pub record StatResult : Type 0 where
  pub kind : FileKind
  pub size : ℕ
  pub inode : ℕ

-- An entry of `fs::recursive_directory_iterator`: its path and `is_regular_file()`.
pub record Entry : Type 0 where
  pub path : List ℕ
  pub is_regular : Bool

-- The file system and its library, which are not part of the program. `stat` is `none` where it fails;
-- in `entries` a `none` is where the iterator, `is_regular_file` or `fs::relative` throws; `relative`
-- is what `fs::relative` gives, and `directories`
-- and `parents` are `fs::create_directories` of a path and of the parent of a path, false where they
-- throw.
pub record Tree : Type 0 where
  pub stat : List ℕ → Option StatResult
  pub entries : List ℕ → List (Option Entry)
  pub relative : List ℕ → List ℕ → List ℕ
  pub directories : List ℕ → Bool
  pub parents : List ℕ → Bool

pub record ScanResult : Type 0 where
  pub files : List FileWorkItem
  pub size_stats : SizeStats

unfoldable pub empty_result : ScanResult
unfolding SizeStats.new
empty_result = record { files = []; size_stats = SizeStats.new }

module _ (tree : Tree) where
  -- The inode and the size, if `stat` succeeds.
  abbrev pub found : List ℕ → List ℕ → Option StatResult → ScanResult → ScanResult
  unfolding observe
  found src_file dst_file none r = record r {
    files = r.files ++ record { src_path = src_file; dst_path = dst_file; inode = 0 } ∷ [];
  }
  found src_file dst_file (some st) r = record {
    files = r.files ++ record { src_path = src_file; dst_path = dst_file; inode = st.inode } ∷ [];
    size_stats = observe r.size_stats st.size;
  }

  -- The loop over the entries. An exception leaves it, and what was found so far is the result.
  unfoldable pub scan_entries : List ℕ → List ℕ → List (Option Entry) → ScanResult → ScanResult
  unfolding observe join
  scan_entries src_base dst_base [] r = r
  scan_entries src_base dst_base (none ∷ entries) r = r
  scan_entries src_base dst_base (some e ∷ entries) r =
      let dst_file = join dst_base (tree.relative e.path src_base) in
      elim e.is_regular [
        | false ↦ scan_entries src_base dst_base entries r
        | true ↦ elim (tree.parents dst_file) [
          | false ↦ r
          | true ↦
              scan_entries src_base dst_base entries (found e.path dst_file (tree.stat e.path) r)
        ]
      ]

  abbrev pub scan_kind : List ℕ → List ℕ → ℕ → FileKind → ScanResult
  unfolding observe scan_entries empty_result
  scan_kind src_base dst_base size regular = record {
    files = record { src_path = src_base; dst_path = dst_base; inode = 0 } ∷ [];
    size_stats = observe SizeStats.new size;
  }
  scan_kind src_base dst_base size other = empty_result
  scan_kind src_base dst_base size directory =
      if tree.directories dst_base
      then scan_entries src_base dst_base (tree.entries src_base) empty_result
      else empty_result

  abbrev pub scan_stat : List ℕ → List ℕ → Option StatResult → ScanResult
  unfolding observe scan_entries empty_result
  scan_stat src_base dst_base none = empty_result
  scan_stat src_base dst_base (some st) = scan_kind src_base dst_base st.size st.kind

  unfoldable pub scan_files : List ℕ → List ℕ → ScanResult
  unfolding observe scan_entries empty_result
  scan_files src_base dst_base = scan_stat src_base dst_base (tree.stat src_base)

-- What the workers are started with.
pub record Launch : Type 0 where
  pub cfg : Config
  pub queue : WorkQueue FileWorkItem
  pub stats : Stats

pub data Outcome : Type 0 where
  launches : Launch → Outcome
  ends : ℕ → Outcome

abbrev pub is_none : List FileWorkItem → Bool
is_none [] = true
is_none (item ∷ items) = false

-- Phase 1.5.
abbrev pub tuned : SizeStats → Config → Config
tuned stats cfg =
    if not cfg.chunk_size_set && not (no_samples stats.samples)
    then record cfg { chunk_size = pick_chunk_size stats }
    else cfg

-- `if (cfg.num_workers <= 0) { cfg.num_workers = 1; }`
abbrev pub manned : Config → Config
manned cfg = if cfg.num_workers == 0 then record cfg { num_workers = 1 } else cfg

-- `sort` is `std::sort` by inode; it is not part of the program.
module _ (tree : Tree) (sort : List FileWorkItem → List FileWorkItem) where
  abbrev pub started : Config → ScanResult → Outcome
  started cfg scan =
      let files = sort scan.files in
      if is_none files
      then ends 1
      else launches (record {
        cfg = tuned scan.size_stats cfg;
        queue = loaded files;
        stats = record no_stats { files_total = length files };
      })

  -- The phases up to the threads.
  abbrev pub phases : Configured → Outcome
  phases (returns code) = ends code
  phases (configured cfg) = started (manned cfg) (scan_files tree cfg.src_path cfg.dst_path)

  unfoldable pub local_copy : List Opt → List (List ℕ) → Outcome
  local_copy opts operands = phases (then_paths operands (options opts defaults))

-- The last phase, with the counters that the workers leave.
unfoldable pub exit_code : Stats → ℕ
exit_code stats = if ltb 0 stats.files_failed then 1 else 0
