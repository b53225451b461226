-- ===== src/FileCopy/Data.antt =====
-- src/main.cpp, `advance_state`: a file from the moment at which both of its descriptors are open, over
-- a kernel where nothing fails.
use uring_sync.FileCopy.Handles.{Handle, source, copy}
use uring_sync.Base.{
  ℕ, ◌+◌, ◌*◌, ◌^◌, ◌<◌, ◌≤◌, ◌≡◌, refl, sym, subst, ◌∙◌, List, [], ◌∷◌, false, Option, none, some,
  arith, length, Bool-cases, Option-cases, inl, inr, ◌==◌, if◌then◌else◌,
}
use uring_sync.Base.Int.{ℤ, pos, ℤ-cases}
use uring_sync.Pools.PipePool.{PipePool, PipeHandle}
use uring_sync.Pools.PipePool
use uring_sync.FileCopy.Types.{Config, word}
use uring_sync.FileCopy.Advance.{Machine, opened, with_pipe, start_read, start_splice, start_close}
use uring_sync.FileCopy.Kernel.{Kernel, Obeys, run}
use uring_sync.FileCopy.Phases.{read_at, splice_in_at, close_src_at}
use uring_sync.FileCopy.Copy.{Copied, finish, copy_read, copy_splice}

-- Which pipe pool the copy of a file leaves: an empty file, and one that is copied without splice,
-- asks for no pipe.
abbrev pub pool_after : Config → ℕ → Option PipePool → Option PipePool
pool_after cfg size none = none
pool_after cfg size (some pool) =
    if size == 0
    then some pool
    else if cfg.use_splice
    then some (PipePool.acquire pool).1
    else some pool

-- The machine with the pipe that it was handed, and without one.
abbrev piping : Machine → PipeHandle → PipePool → Machine
piping m h pool = record m {
  ctx = record m.ctx { pipe_read_fd = h.read_fd; pipe_write_fd = h.write_fd; pipe_index = h.index };
  pipes = some pool;
}

abbrev pipeless : Machine → PipePool → Machine
pipeless m pool = record m { ctx = record m.ctx { use_splice = false }; pipes = some pool }

-- What the first request for data looks like, from a machine that has copied nothing yet.
module _ (cfg : Config) (m : Machine) (at_start : m.ctx.offset ≡ 0) (nothing : m.prepared ≡ [])
    (counter : m.stats.bytes_copied < word) where
  start_close-at : start_close m ≡ close_src_at cfg m 0
  unfolding start_close
  start_close-at = ground arith

  start_read-at : start_read cfg m ≡ read_at cfg m 0
  unfolding start_read
  start_read-at = ground arith

  start_splice-at : start_splice cfg m ≡ splice_in_at cfg m 0
  unfolding start_splice
  start_splice-at = ground arith

-- The pipe that the pool hands out next, if it has one, has these ends.
abbrev pub HandsPipe : ℤ → ℤ → Option PipePool → Type 0
HandsPipe pipe_read pipe_write none = Unit
HandsPipe pipe_read pipe_write (some pool) =
    let h = (PipePool.acquire pool).0 in
    (n : ℕ) → h.index ≡ pos n → (h.read_fd ≡ pipe_read) × (h.write_fd ≡ pipe_write)

module _ (k : Kernel) (cfg : Config) {src_path dst_path : List ℕ} {mode : ℕ}
    {pipe_read pipe_write : ℤ} (src : List ℕ)
    (o : Obeys k src_path dst_path mode pipe_read pipe_write src) (i j : ℕ)
    (before : List (ℕ × Handle)) (other : (j == i) ≡ false) where
  module _ (positive : 0 < cfg.chunk_size) (small : cfg.chunk_size < 2 ^ 31)
      (fits : length src < word) (f : ℕ) (u : k.State) (enough : 2 * length src + 2 ≤ f)
      (created : k.dst u ≡ []) (drained : k.pipe u ≡ [])
      (held : o.handles u ≡ (j, copy) ∷ (i, source) ∷ before) where
    abbrev pub Ends : Machine → Option PipePool → Machine → Type 0
    Ends m ps n =
        Copied k o.handles before src m.stats ps m.closed (run k cfg f u n).0 (run k cfg f u n).1

    module _ (m : Machine) (z : m.ctx.offset ≡ 0) (p : m.prepared ≡ [])
        (b : m.stats.bytes_copied < word) (s : m.ctx.file_size ≡ length src)
        (fi : m.ctx.src_fd ≡ pos i) (fj : m.ctx.dst_fd ≡ pos j) where
      close-Ends : length src ≡ 0 → Ends m m.pipes (start_close m)
      close-Ends e = rw (start_close-at cfg m z p b) (
          finish k cfg src o i j before other m f u 0 (omega arith) (sym e) fi fj held
            (created ∙ sym (empty src e)))
        where
          empty : (xs : List ℕ) → length xs ≡ 0 → xs ≡ []
          empty [] h = refl
          empty (x ∷ xs) h = absurd (omega arith)

      read-Ends : 0 < length src → Ends m m.pipes (start_read cfg m)
      read-Ends e = rw (start_read-at cfg m z p b) (
          copy_read k cfg src o i j before other positive small fits (length src) m f u 0
            (length src) s (omega arith) e (omega arith) enough fi fj held created)

      splice-Ends :
          0 < length src
          → m.ctx.pipe_read_fd ≡ pipe_read
          → m.ctx.pipe_write_fd ≡ pipe_write
          → Ends m m.pipes (start_splice cfg m)
      splice-Ends e pr pw = rw (start_splice-at cfg m z p b) (
          copy_splice k cfg src o i j before other positive small fits (length src) m f u 0
            (length src) s (omega arith) e (omega arith) enough fi fj held pr pw created drained)

    -- The pool has a pipe for the file, or has none left.
    piped :
        (m : Machine)
        → m.ctx.offset ≡ 0
        → m.prepared ≡ []
        → m.stats.bytes_copied < word
        → m.ctx.file_size ≡ length src
        → m.ctx.src_fd ≡ pos i
        → m.ctx.dst_fd ≡ pos j
        → 0 < length src
        → (h : PipeHandle) (pool : PipePool)
        → ((n : ℕ) → h.index ≡ pos n → (h.read_fd ≡ pipe_read) × (h.write_fd ≡ pipe_write))
        → Ends m (some pool) (with_pipe cfg m (h, pool))
    piped m z p b s fi fj e h pool given = elim (ℤ-cases h.index) [
      | inl (n, idx) ↦
          let (pr, pw) = given n idx in
          let got : with_pipe cfg m (h, pool) ≡ start_splice cfg (piping m h pool) =
            rw idx (rw idx) in
          rw got (splice-Ends (piping m h pool) z p b s fi fj e pr pw)
      | inr (n, idx) ↦
          let missed : with_pipe cfg m (h, pool) ≡ start_read cfg (pipeless m pool) = rw idx in
          rw missed (read-Ends (pipeless m pool) z p b s fi fj e)
    ]

    -- From the moment at which both files are open.
    pub data_phase :
        (m : Machine)
        → m.ctx.offset ≡ 0
        → m.prepared ≡ []
        → m.stats.bytes_copied < word
        → m.ctx.file_size ≡ length src
        → m.ctx.use_splice ≡ cfg.use_splice
        → m.ctx.src_fd ≡ pos i
        → m.ctx.dst_fd ≡ pos j
        → HandsPipe pipe_read pipe_write m.pipes
        → Ends m (pool_after cfg (length src) m.pipes) (opened cfg m)
    data_phase m z p b s q fi fj hp = elim (Bool-cases (length src == 0)) [
      | inl e ↦
          let opens : opened cfg m ≡ start_close m = ground arith in
          let keeps : pool_after cfg (length src) m.pipes ≡ m.pipes = ground arith in
          rw (opens, keeps) (close-Ends m z p b s fi fj (ground arith))
      | inr e ↦ elim (Option-cases m.pipes) [
        | inl none_given ↦
            let opens : opened cfg m ≡ start_read cfg m = ground arith in
            let keeps : pool_after cfg (length src) m.pipes ≡ m.pipes = ground arith in
            rw (opens, keeps) (read-Ends m z p b s fi fj (ground arith))
        | inr (pool, given) ↦ elim (Bool-cases cfg.use_splice) [
          | inl on ↦
              let taken = PipePool.acquire pool in
              let opens : opened cfg m ≡ with_pipe cfg m taken = ground arith in
              let takes : pool_after cfg (length src) m.pipes ≡ some taken.1 = ground arith in
              rw (opens, takes)
                (piped m z p b s fi fj (ground arith) taken.0 taken.1
                  (subst (HandsPipe pipe_read pipe_write) given hp))
          | inr off ↦
              let opens : opened cfg m ≡ start_read cfg m = ground arith in
              let keeps : pool_after cfg (length src) m.pipes ≡ m.pipes = ground arith in
              rw (opens, keeps) (read-Ends m z p b s fi fj (ground arith))
        ]
      ]
    ]
