-- ===== src/FileCopy/Whole.antt =====
-- src/main.cpp, `advance_state`: a file from its start to its end, over a kernel where nothing fails.
use uring_sync.Base.Maps.{lookup}
use uring_sync.FileCopy.Handles.{source, copy, lookup-first, apart}
use uring_sync.Base.{
  ap, ℕ, zero, suc, ◌+◌, ◌*◌, ◌%◌, ◌^◌, ◌<◌, ◌≤◌, ◌≡◌, refl, sym, subst, ◌∙◌, List, [], ◌∷◌, false,
  Option, arith, length, ◌==◌,
}
use uring_sync.Base.Int.{ℤ, pos}
use uring_sync.Pools.PipePool.{PipePool}
use uring_sync.FileCopy.Types.{
  FileContext, Stats, Config, Sqe, Statx, add64, word, openat, read_only, write_create_truncate,
  OpType, stating, opening_dst,
}
use uring_sync.FileCopy.Advance.{Machine, advance_state, opened}
use uring_sync.FileCopy.Kernel.{Kernel, Obeys, run}
use uring_sync.FileCopy.Data.{pool_after, HandsPipe, data_phase}
use uring_sync.FileCopy.Copy.{Copied, run-step}
use uring_sync.FileCopy.Start.{FileWorkItem, fresh, started}

-- The machine behind the first and the second request, with what they prepared.
abbrev statting : FileContext → Stats → Option PipePool → ℕ → Machine
statting c s pipes src_fd = record {
  ctx = record c { src_fd = pos src_fd; state = stating; current_op = OpType.statx };
  stats = s;
  pipes = pipes;
  prepared = Sqe.statx (pos src_fd) ∷ [];
  closed = [];
}

abbrev creating : Config → FileContext → Stats → Option PipePool → ℕ → Statx → Machine
creating cfg c s pipes src_fd stx = record {
  ctx = record c {
    src_fd = pos src_fd;
    state = opening_dst;
    current_op = OpType.open_dst;
    file_size = stx.size;
    mode = stx.mode;
    stx = stx;
    use_splice = cfg.use_splice;
  };
  stats = record s { bytes_total = add64 s.bytes_total stx.size };
  pipes = pipes;
  prepared = openat c.dst_path write_create_truncate (stx.mode % 512) ∷ [];
  closed = [];
}

-- The machine behind the third request, at the moment `opened` looks at it.
abbrev ready : Config → FileContext → Stats → Option PipePool → ℕ → Statx → ℕ → Machine
ready cfg c s pipes src_fd stx dst_fd = record {
  ctx = record c {
    src_fd = pos src_fd;
    dst_fd = pos dst_fd;
    state = opening_dst;
    current_op = OpType.open_dst;
    file_size = stx.size;
    mode = stx.mode;
    stx = stx;
    use_splice = cfg.use_splice;
  };
  stats = record s { bytes_total = add64 s.bytes_total stx.size };
  pipes = pipes;
  prepared = [];
  closed = [];
}

module _ (k : Kernel) (cfg : Config) (item : FileWorkItem) (mode : ℕ) (pipe_read pipe_write : ℤ)
    (src : List ℕ) (o : Obeys k item.src_path item.dst_path mode pipe_read pipe_write src)
    (buffer : ℕ) (buf_idx : ℤ) (s : Stats) (pipes : Option PipePool) where
  abbrev pub c : FileContext
  c = fresh item buffer buf_idx

  -- The three requests that open the files.
  opening :
      (w : k.State)
      → k.pipe w ≡ []
      → (src_fd : ℕ) × (stx : Statx) × (dst_fd : ℕ) × (u : k.State) × (stx.size ≡ length src)
        × ((dst_fd == src_fd) ≡ false)
        × (o.handles u ≡ (dst_fd, copy) ∷ (src_fd, source) ∷ o.handles w)
        × (k.dst u ≡ [])
        × (k.pipe u ≡ [])
        × ((f : ℕ)
            → run k cfg (suc (suc (suc f))) w (started c s pipes)
              ≡ run k cfg f u (opened cfg (ready cfg c s pipes src_fd stx dst_fd)))
  unfolding advance_state
  opening w p =
      let first = openat item.src_path read_only 0 in
      let (src_fd, e₁, h₁, p₁) = o.open_source w in
      let w₁ = (k.exec first w).2 in
      let second = Sqe.statx (pos src_fd) in
      let (n, e₂, meta, h₂, p₂) =
        o.stats src_fd w₁ (ap (lookup src_fd) h₁ ∙ lookup-first src_fd source (o.handles w)) in
      let stx = (k.exec second w₁).1 in
      let w₂ = (k.exec second w₁).2 in
      let third = openat item.dst_path write_create_truncate (stx.mode % 512) in
      let (dst_fd, e₃, unused, h₃, d, p₃) =
        o.open_copy (stx.mode % 512) w₂ (ap (λ m. m.mode % 512) meta) in
      let m₀ = started c s pipes in
      let m₁ = statting c s pipes src_fd in
      let m₂ = creating cfg c s pipes src_fd stx in
      (
        src_fd,
        stx,
        dst_fd,
        (k.exec third w₂).2,
        ap (λ m. m.size) meta,
        apart src_fd dst_fd source (o.handles w) (sym (ap (lookup dst_fd) (h₂ ∙ h₁)) ∙ unused),
        h₃ ∙ ap (λ h. (dst_fd, copy) ∷ h) (h₂ ∙ h₁),
        d,
        p₃ ∙ p₂ ∙ p₁ ∙ p,
        λ f.
            run-step k cfg (suc (suc f)) w m₀ first src_fd m₁ e₁ refl
            ∙ run-step k cfg (suc f) w₁ m₁ second n m₂ e₂ refl
            ∙ run-step k cfg f w₂ m₂ third dst_fd
                (opened cfg (ready cfg c s pipes src_fd stx dst_fd)) e₃ refl,
      )

  -- An undisturbed copy, whole: on a kernel that `Obeys` for the two paths of the item and for the pipe
  -- that the pool hands out, with that pipe empty, a chunk size from 1 to 2 ^ 31 - 1, and a file size
  -- and a byte counter below 2 ^ 64. From the first request on, with two rounds for each byte and five
  -- more, the copy, made at its path with the permission bits of the source, has the bytes of the
  -- source; exactly the descriptors of before are open; the file is done and counted, as `Copied`
  -- says; `bytes_total` counts it, and of the pipe pool at most one pipe was taken.
  pub copy_file :
      (w : k.State) (f : ℕ)
      → k.pipe w ≡ []
      → HandsPipe pipe_read pipe_write pipes
      → 0 < cfg.chunk_size
      → cfg.chunk_size < 2 ^ 31
      → length src < word
      → s.bytes_copied < word
      → 2 * length src + 5 ≤ f
      → let r = run k cfg f w (started c s pipes) in
        Copied k o.handles
          (o.handles w)
          src
          (record s { bytes_total = add64 s.bytes_total (length src) })
          (pool_after cfg (length src) pipes)
          []
          r.0
          r.1
  copy_file w zero p hp a b fits l h = absurd (omega arith)
  copy_file w (suc zero) p hp a b fits l h = absurd (omega arith)
  copy_file w (suc (suc zero)) p hp a b fits l h = absurd (omega arith)
  copy_file w (suc (suc (suc f))) p hp a b fits l h =
      let (src_fd, stx, dst_fd, u, size, other, held, created, drained, go) = opening w p in
      let m = ready cfg c s pipes src_fd stx dst_fd in
      let copied =
        data_phase k cfg src o src_fd dst_fd (o.handles w) other a b fits f u (omega arith) created
          drained held m refl refl l size refl refl refl hp in
      let r = run k cfg f u (opened cfg m) in
      rw (go f) (
        subst
          (λ n.
            Copied k o.handles (o.handles w) src (record s { bytes_total = add64 s.bytes_total n })
              (pool_after cfg (length src) pipes) [] r.0 r.1)
          size copied)
