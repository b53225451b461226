-- ===== src/FileCopy/Disturbed.antt =====
-- src/main.cpp, `advance_state`: failures, and results of the kernel that the code does not look at.
use native.Mathlib.Nat.{add-zero}
use uring_sync.Base.{ℕ, zero, suc, ◌<◌, ◌≡◌, ◌≢◌, refl, ap, ◌∙◌, [], ◌++◌, arith}
use uring_sync.Base.Int.{ℤ, pos, negsuc}
use uring_sync.FileCopy.Types.{Config, Sqe, add64, reading, writing, done, failed, word}
use uring_sync.FileCopy.Advance.{Machine, advance_state, close_if_open}
use uring_sync.FileCopy.Kernel.{Kernel, run}
use uring_sync.FileCopy.Phases.{read_at, write_at, after_read, sent, wanted, read-write, write-read}
use uring_sync.FileCopy.Copy.{run-step}

-- A negative result ends a file in every state but DONE: the state is FAILED, the file counts as
-- failed, exactly the descriptors that are open are closed, no request follows, and the rest of the
-- context and the other counters stay.
pub advance_state-failed :
    (cfg : Config) (e : ℕ) (m : Machine)
    → m.ctx.state ≢ done
    → advance_state cfg (negsuc e) m ≡ record m {
      ctx = record m.ctx { state = failed };
      stats = record m.stats { files_failed = add64 m.stats.files_failed 1 };
      closed = m.closed ++ (close_if_open m.ctx.src_fd ++ close_if_open m.ctx.dst_fd);
    }
unfolding advance_state
advance_state-failed cfg e m h = ground arith

-- In WRITING the result of the write is not looked at: however many bytes the kernel says that it
-- wrote, the next state is the same, and its offset goes on by the size of the read.
pub short_write_ignored :
    (cfg : Config) (m : Machine) (r q : ℕ)
    → m.ctx.state ≡ writing
    → (advance_state cfg (pos r) m ≡ advance_state cfg (pos q) m)
      × ((advance_state cfg (pos r) m).ctx.offset ≡ add64 m.ctx.offset m.ctx.last_read_size)
unfolding advance_state
short_write_ignored cfg m r q h = ground arith

-- n rounds of two requests.
abbrev pub pairs : ℕ → ℕ
pairs zero = 0
pairs (suc n) = suc (suc (pairs n))

-- A file that shrank after `statx`, to at most `off` bytes: every read at `off` gives 0 and every
-- write of 0 bytes succeeds. Then the file is never finished: after any number of reads and writes it
-- waits for the same read at the same offset.
pub shrunk_never_ends :
    (k : Kernel) (cfg : Config) (off : ℕ)
    → ((fd : ℤ) (buf len : ℕ) (w : k.State) → (k.exec (Sqe.read fd buf len off) w).0 ≡ pos 0)
    → ((fd : ℤ) (buf : ℕ) (w : k.State) → (k.exec (Sqe.write fd buf 0 off) w).0 ≡ pos 0)
    → (n : ℕ) (m : Machine) (w : k.State) → off < m.ctx.file_size
    → m.ctx.file_size < word
    → let r = (run k cfg (pairs n) w (read_at cfg m off)).1 in
      (r.ctx.state ≡ reading) × (r.ctx.offset ≡ off) × (r.prepared ≢ [])
unfolding run
shrunk_never_ends k cfg off reads writes zero m w h f = (refl, refl, λ e. cc)
shrunk_never_ends k cfg off reads writes (suc n) m w h f =
    let request = Sqe.read m.ctx.src_fd m.ctx.buffer (wanted cfg m.ctx off) off in
    let v = (k.exec request w).2 in
    let put = Sqe.write m.ctx.dst_fd m.ctx.buffer 0 off in
    let again : advance_state cfg (pos 0) (sent (write_at cfg m off 0))
        ≡ read_at cfg (after_read m 0) off =
      write-read cfg m off 0 0 (omega arith) f
      ∙ ap (λ o. read_at cfg (after_read m 0) o) (add-zero off) in
    rw
      (
        run-step k cfg (suc (pairs n)) w (read_at cfg m off) request 0 (write_at cfg m off 0)
            (reads m.ctx.src_fd m.ctx.buffer (wanted cfg m.ctx off) w) (read-write cfg m off 0),
        run-step k cfg (pairs n) v (write_at cfg m off 0) put 0 (read_at cfg (after_read m 0) off)
            (writes m.ctx.dst_fd m.ctx.buffer v) again,
      )
      (shrunk_never_ends k cfg off reads writes n (after_read m 0) (k.exec put v).2 h f)
