-- ===== src/SizeStats.antt =====
-- include/common.hpp, `SizeStats`: sampled file sizes, and the chunk size chosen from them.
pub mod Sorting
mod Tests
pub mod Bounds
pub mod Share
use uring_sync.Base.{
  ℕ, ◌+◌, ◌-◌, ◌*◌, ◌/◌, ◌%◌, ◌^◌, max, List, [], ◌∷◌, ◌++◌, Bool, true, false, ◌&&◌, length,
  get_or, leb, ltb, ◌==◌, if◌then◌else◌,
}
use Sorting.{sort}

-- `file_count` is a uint64_t; it counts files and stays far below 2 ^ 64.
pub record SizeStats : Type 0 where
  pub samples : List ℕ
  pub file_count : ℕ

unfoldable pub new : SizeStats
new = record { samples = []; file_count = 0 }

unfoldable pub observe : SizeStats → ℕ → SizeStats
observe s size =
    let file_count = s.file_count + 1 in
    if leb file_count 20
    then record { samples = s.samples ++ size ∷ []; file_count = file_count }
    else let interval = max 1 (file_count / 100) in
      if file_count % interval == 0 && ltb (length s.samples) 200
      then record { samples = s.samples ++ size ∷ []; file_count = file_count }
      else record { samples = s.samples; file_count = file_count }

-- `observe` for each file of a scan, in turn.
unfoldable pub observe_all : SizeStats → List ℕ → SizeStats
observe_all s [] = s
observe_all s (size ∷ sizes) = observe_all (observe s size) sizes

abbrev pub no_samples : List ℕ → Bool
no_samples [] = true
no_samples (x ∷ xs) = false

-- `pct` is a constant of the program between 0 and 100.
unfoldable pub percentile : SizeStats → ℕ → ℕ
unfolding sort
percentile s pct =
    if no_samples s.samples
    then 0
    else let sorted = sort s.samples in
      let idx = length sorted * pct / 100 in
      get_or sorted (if leb (length sorted) idx then length sorted - 1 else idx) 0

-- The ladder of `pick_chunk_size`.
abbrev pub chunk_for : ℕ → ℕ
chunk_for p90 =
    if leb p90 (32 * 1024)
    then 64 * 1024
    else if leb p90 (128 * 1024)
    then 128 * 1024
    else if leb p90 (512 * 1024)
    then 256 * 1024
    else if leb p90 (2 * 1024 * 1024)
    then 512 * 1024
    else 1024 * 1024

unfoldable pub pick_chunk_size : SizeStats → ℕ
unfolding percentile
pick_chunk_size s = if no_samples s.samples then 128 * 1024 else chunk_for (percentile s 90)
