-- ===== src/FileCopy/Phases.antt =====
-- src/main.cpp, `advance_state`: the machine at each point of an undisturbed copy, as equations.
use uring_sync.Base.{ℕ, ◌+◌, ◌-◌, ◌^◌, ◌<◌, ◌≡◌, min, refl, List, [], ◌∷◌, arith}
use uring_sync.Base.Int.{pos, negsuc}
use uring_sync.FileCopy.Types.{
  OpType, FileState, FileContext, Stats, Config, Sqe, add64, word, close, reading, writing,
  closing_src, closing_dst, done,
}
use uring_sync.FileCopy.Advance.{
  Machine, advance_state, start_read, start_splice, start_close, chunk,
}

abbrev pub goes_on : Machine → FileContext → Stats → List Sqe → Machine
goes_on m c s requests = record m { ctx = c; stats = s; prepared = requests }

-- The statistics and the context with `off` bytes of the file copied.
abbrev pub copied_stats : Stats → ℕ → Stats
copied_stats s off = record s { bytes_copied = add64 s.bytes_copied off }

abbrev pub at : FileContext → FileState → OpType → ℕ → FileContext
at c state op off = record c { state = state; current_op = op; offset = off }

-- How much the next read or splice asks for.
abbrev pub wanted : Config → FileContext → ℕ → ℕ
wanted cfg c off = chunk cfg (record c { offset = off })

module _ (cfg : Config) (m : Machine) where
  open m use {ctx, stats}

  abbrev pub read_at : ℕ → Machine
  read_at off =
      goes_on m (at ctx reading OpType.read off) (copied_stats stats off)
        (Sqe.read ctx.src_fd ctx.buffer (wanted cfg ctx off) off ∷ [])

  abbrev pub write_at : ℕ → ℕ → Machine
  write_at off n =
      goes_on m (record (at ctx writing OpType.write off) { last_read_size = n })
        (copied_stats stats off) (Sqe.write ctx.dst_fd ctx.buffer n off ∷ [])

  abbrev pub splice_in_at : ℕ → Machine
  splice_in_at off =
      goes_on m (at ctx FileState.splice_in OpType.splice_in off) (copied_stats stats off)
        (Sqe.splice ctx.src_fd (pos off) ctx.pipe_write_fd (negsuc 0) (wanted cfg ctx off) ∷ [])

  abbrev pub splice_out_at : ℕ → ℕ → Machine
  splice_out_at off n =
      goes_on m (record (at ctx FileState.splice_out OpType.splice_out off) { splice_len = n })
        (copied_stats stats off)
        (Sqe.splice ctx.pipe_read_fd (negsuc 0) ctx.dst_fd (pos off) n ∷ [])

  abbrev pub close_src_at : ℕ → Machine
  close_src_at off =
      goes_on m (at ctx closing_src OpType.close_src off) (copied_stats stats off)
        (close ctx.src_fd ∷ [])

  abbrev pub close_dst_at : ℕ → Machine
  close_dst_at off =
      goes_on m (record (at ctx closing_dst OpType.close_dst off) { src_fd = negsuc 0 })
        (copied_stats stats off) (close ctx.dst_fd ∷ [])

  abbrev pub done_at : ℕ → Machine
  done_at off =
      goes_on m (record (at ctx done OpType.close_dst off) { src_fd = negsuc 0; dst_fd = negsuc 0 })
        (record (copied_stats stats off) { files_completed = add64 stats.files_completed 1 }) []

-- A machine whose last request is on its way.
abbrev pub sent : Machine → Machine
sent m = record m { prepared = [] }

-- The context after a chunk of n bytes was read, or spliced into the pipe.
abbrev pub after_read : Machine → ℕ → Machine
after_read m n = record m { ctx = record m.ctx { last_read_size = n } }

abbrev pub after_splice : Machine → ℕ → Machine
after_splice m n = record m { ctx = record m.ctx { splice_len = n } }

add64_assoc : (a b c : ℕ) → add64 (add64 a b) c ≡ add64 a (b + c)
add64_assoc a b c = omega arith

module _ (cfg : Config) (m : Machine) where
  open m use {ctx, stats}

  -- A read of n bytes is followed by a write of n bytes at the same offset.
  pub read-write :
      (off n : ℕ) → advance_state cfg (pos n) (sent (read_at cfg m off)) ≡ write_at cfg m off n
  unfolding advance_state
  read-write off n = refl

  -- After the write comes the next read, as long as bytes are left, and then the close.
  pub write-read :
      (off n r : ℕ)
      → off + n < ctx.file_size
      → ctx.file_size < word
      → advance_state cfg (pos r) (sent (write_at cfg m off n))
        ≡ read_at cfg (after_read m n) (off + n)
  unfolding advance_state start_read
  write-read off n r h f = ground (arith, add64_assoc stats.bytes_copied off n)

  pub write-close :
      (off n r : ℕ)
      → off + n ≡ ctx.file_size
      → ctx.file_size < word
      → advance_state cfg (pos r) (sent (write_at cfg m off n))
        ≡ close_src_at cfg (after_read m n) (off + n)
  unfolding advance_state start_close
  write-close off n r h f = ground (arith, add64_assoc stats.bytes_copied off n)

  pub splice_in-splice_out :
      (off n : ℕ)
      → advance_state cfg (pos n) (sent (splice_in_at cfg m off)) ≡ splice_out_at cfg m off n
  unfolding advance_state
  splice_in-splice_out off n = refl

  pub splice_out-splice_in :
      (off n : ℕ)
      → off + n < ctx.file_size
      → ctx.file_size < word
      → advance_state cfg (pos n) (sent (splice_out_at cfg m off n))
        ≡ splice_in_at cfg (after_splice m n) (off + n)
  unfolding advance_state start_splice
  splice_out-splice_in off n h f = ground (arith, add64_assoc stats.bytes_copied off n)

  pub splice_out-close :
      (off n : ℕ)
      → off + n ≡ ctx.file_size
      → ctx.file_size < word
      → advance_state cfg (pos n) (sent (splice_out_at cfg m off n))
        ≡ close_src_at cfg (after_splice m n) (off + n)
  unfolding advance_state start_close
  splice_out-close off n h f = ground (arith, add64_assoc stats.bytes_copied off n)

  pub close-close :
      (off r : ℕ)
      → advance_state cfg (pos r) (sent (close_src_at cfg m off)) ≡ close_dst_at cfg m off
  unfolding advance_state
  close-close off r = refl

  pub close-done :
      (off r : ℕ) → advance_state cfg (pos r) (sent (close_dst_at cfg m off)) ≡ done_at cfg m off
  unfolding advance_state
  close-done off r = refl

  -- What is asked for before the end is at least one byte, and no more than is left.
  pub wanted_lem :
      (off : ℕ)
      → 0 < cfg.chunk_size
      → cfg.chunk_size < 2 ^ 31
      → off < ctx.file_size
      → ctx.file_size < word
      → wanted cfg ctx off ≡ min cfg.chunk_size (ctx.file_size - off)
  wanted_lem off c d h f = omega arith
