-- ===== src/SyncCopy.antt =====
-- src/main.cpp, `sync_worker_thread`: the copy of one file with blocking calls.
pub mod Whole
mod Tests
use uring_sync.Base.{ℕ, zero, suc, ◌+◌, ◌-◌, ◌%◌, List, Bool, true, false, ltb}
use uring_sync.Base.Int.{ℤ, pos, negsuc}
use uring_sync.FileCopy.Types.{Stats, Statx, add64}
use uring_sync.FileCopy.Start.{FileWorkItem}

-- The system calls of the thread. They are not part of the program: what they do is an argument.
-- `open_source` is `open` with O_RDONLY and `open_copy` with O_WRONLY | O_CREAT | O_TRUNC;
-- `copy_file_range` has the two descriptors, the two offsets and the length. `dst` is
-- the text of the copy.
pub record Calls : Type 1 where
  pub State : Type 0
  pub open_source : List ℕ → State → ℤ × State
  pub fstat : ℕ → State → ℤ × Statx × State
  pub open_copy : List ℕ → ℕ → State → ℤ × State
  pub copy_file_range : ℕ → ℕ → ℕ → ℕ → ℕ → State → ℤ × State
  pub close : ℕ → State → State
  pub dst : State → List ℕ

module _ (k : Calls) where
  -- `while (off_in < file_size)`. A round that goes on copies a byte or more, so that `file_size`
  -- rounds are enough. The Boolean is `success`.
  copy_range : ℕ → ℕ → ℕ → ℕ → ℕ → ℕ → Stats → k.State → Bool × Stats × k.State
  copy_range zero src_fd dst_fd off_in off_out file_size stats s = (true, stats, s)
  copy_range (suc rounds) src_fd dst_fd off_in off_out file_size stats s =
      elim (ltb off_in file_size) [
        | false ↦ (true, stats, s)
        | true ↦
            let (copied, s') =
              k.copy_file_range src_fd dst_fd off_in off_out (file_size - off_in) s in
            elim copied [
              | pos zero ↦ (false, stats, s')
              | pos (suc n) ↦
                  copy_range rounds src_fd dst_fd (off_in + suc n) (off_out + suc n) file_size
                    (record stats { bytes_copied = add64 stats.bytes_copied (suc n) }) s'
              | negsuc e ↦ (false, stats, s')
            ]
      ]

  abbrev count_failed : Stats → Stats
  count_failed stats = record stats { files_failed = add64 stats.files_failed 1 }

  abbrev count : Bool → Stats → Stats
  count true stats = record stats { files_completed = add64 stats.files_completed 1 }
  count false stats = count_failed stats

  -- One round of `while (work_queue.wait_pop(item))`; `posix_fadvise` is a hint and is left out, and
  -- so are the messages.
  unfoldable pub sync_file : FileWorkItem → Stats → k.State → Stats × k.State
  unfolding copy_range
  sync_file item stats s =
      let (src, s₁) = k.open_source item.src_path s in
      elim src [
        | negsuc e ↦ (count_failed stats, s₁)
        | pos src_fd ↦
            let (r, st, s₂) = k.fstat src_fd s₁ in
            elim r [
              | negsuc e ↦ (count_failed stats, k.close src_fd s₂)
              | pos _ ↦
                  let sized = record stats { bytes_total = add64 stats.bytes_total st.size } in
                  let (dst, s₃) = k.open_copy item.dst_path (st.mode % 512) s₂ in
                  elim dst [
                    | negsuc e ↦ (count_failed sized, k.close src_fd s₃)
                    | pos dst_fd ↦
                        let (success, copied, s₄) =
                          copy_range st.size src_fd dst_fd 0 0 st.size sized s₃ in
                        (count success copied, k.close dst_fd (k.close src_fd s₄))
                  ]
            ]
      ]
