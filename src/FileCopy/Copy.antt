-- ===== src/FileCopy/Copy.antt =====
-- src/main.cpp, `advance_state`: the loops of an undisturbed copy end, with the whole file copied.
use uring_sync.Base.Maps.{lookup, erase}
use uring_sync.FileCopy.Handles.{Handle, source, copy, lookup-first, lookup-second, erase-both}
use uring_sync.Base.{
  false, some, ◌==◌, ℕ, zero, suc, ◌+◌, ◌-◌, ◌*◌, ◌^◌, ◌<◌, ◌≤◌, ◌≡◌, refl, ap, ◌∙◌, List, [], ◌∷◌,
  ◌++◌, Option, arith, length, take, drop, length-take, length-drop, take-add, take_all, drop_all,
  dec_lt,
}
use uring_sync.Base.Int.{ℤ, pos, negsuc}
use uring_sync.Pools.PipePool.{PipePool}
use uring_sync.FileCopy.Types.{Stats, Config, Sqe, add64, word, close, done}
use uring_sync.FileCopy.Advance.{Machine, advance_state}
use uring_sync.FileCopy.Kernel.{Kernel, Obeys, run, store_stx}
use uring_sync.FileCopy.Phases.{
  copied_stats, wanted, read_at, write_at, splice_in_at, splice_out_at, close_src_at, close_dst_at,
  done_at, sent, after_read, after_splice, read-write, write-read, write-close,
  splice_in-splice_out, splice_out-splice_in, splice_out-close, close-close, close-done, wanted_lem,
}

-- What holds when `src` was copied by a machine that started with the statistics `s`, the pipe pool
-- `pipes` and the closed descriptors `closed`, when the descriptors `before` were open: the copy has
-- the same bytes, the file is done, both its descriptors are closed and given up, nothing is left to
-- submit, and the counters went up by one file and its
-- length.
pub record Copied (k : Kernel) (handles : k.State → List (ℕ × Handle)) (before : List (ℕ × Handle))
    (src : List ℕ) (s : Stats) (pipes : Option PipePool) (closed : List ℤ) (w : k.State)
    (n : Machine) : Type 0 where
  pub content : k.dst w ≡ src
  pub released : handles w ≡ before
  pub finished : n.ctx.state ≡ done
  pub src_closed : n.ctx.src_fd ≡ negsuc 0
  pub dst_closed : n.ctx.dst_fd ≡ negsuc 0
  pub idle : n.prepared ≡ []
  pub no_other_close : n.closed ≡ closed
  pub same_pipes : n.pipes ≡ pipes
  pub counted :
      n.stats ≡ record (copied_stats s (length src)) { files_completed = add64 s.files_completed 1 }

module _ (k : Kernel) (cfg : Config) where
  -- One round of `run`, for a request that succeeds.
  pub run-step :
      (f : ℕ) (w : k.State) (m : Machine) (sqe : Sqe) (r : ℕ) (n : Machine)
      → (k.exec sqe w).0 ≡ pos r
      → advance_state cfg (pos r) (store_stx sqe (k.exec sqe w).1 (sent m)) ≡ n
      → run k cfg (suc f) w (record m { prepared = sqe ∷ [] }) ≡ run k cfg f (k.exec sqe w).2 n
  unfolding run
  run-step f w m sqe r n e a = rw (e, a)

  pub run-done : (f : ℕ) (w : k.State) (m : Machine) → run k cfg f w (sent m) ≡ (w, sent m)
  unfolding run
  run-done zero w m = refl
  run-done (suc f) w m = refl

module _ (k : Kernel) (src : List ℕ) where
  -- One more chunk of the source behind what is copied.
  chunk_copied :
      (d c : List ℕ) (off n : ℕ)
      → d ≡ take off src
      → c ≡ take n (drop off src)
      → d ++ take n c ≡ take (off + n) src
  chunk_copied d c off n hd hc =
      rw (hd, hc, take_all n (take n (drop off src)) (omega (arith, length-take n (drop off src))))
        (take-add off n src)

  copied_so_far :
      (w : k.State) (off : ℕ) → k.dst w ≡ take off src → off ≤ length src → off ≡ length (k.dst w)
  copied_so_far w off d h = rw d (omega (arith, length-take off src))

-- `i` and `j` are the descriptors of the source and of the copy, and `before` those that were open.
module _ (k : Kernel) (cfg : Config) {src_path dst_path : List ℕ} {mode : ℕ}
    {pipe_read pipe_write : ℤ} (src : List ℕ)
    (o : Obeys k src_path dst_path mode pipe_read pipe_write src) (i j : ℕ)
    (before : List (ℕ × Handle)) (other : (j == i) ≡ false) where
  abbrev Both : k.State → Type 0
  Both w = o.handles w ≡ (j, copy) ∷ (i, source) ∷ before

  source_open : (w : k.State) → Both w → lookup i (o.handles w) ≡ some source
  source_open w h = ap (lookup i) h ∙ lookup-second i j source copy before other

  copy_open : (w : k.State) → Both w → lookup j (o.handles w) ≡ some copy
  copy_open w h = ap (lookup j) h ∙ lookup-first j copy ((i, source) ∷ before)

  abbrev Ends : Machine → ℕ → k.State → Machine → Type 0
  Ends m f w n =
      Copied k o.handles before src m.stats m.pipes m.closed (run k cfg f w n).0 (run k cfg f w n).1

  -- Both descriptors are closed, and the file is done.
  pub finish :
      (m : Machine) (f : ℕ) (w : k.State) (off : ℕ)
      → 2 ≤ f
      → off ≡ length src
      → m.ctx.src_fd ≡ pos i
      → m.ctx.dst_fd ≡ pos j
      → Both w
      → k.dst w ≡ src
      → Ends m f w (close_src_at cfg m off)
  finish m zero w off h e fi fj hs d = absurd (omega arith)
  finish m (suc zero) w off h e fi fj hs d = absurd (omega arith)
  finish m (suc (suc f)) w off h e fi fj hs d =
      let (r, er, dr, hr) = o.closes m.ctx.src_fd i w fi in
      let v = (k.exec (close m.ctx.src_fd) w).2 in
      let (q, eq, dq, hq) = o.closes m.ctx.dst_fd j v fj in
      let first =
        run-step k cfg (suc f) w (close_src_at cfg m off) (close m.ctx.src_fd) r _ er
          (close-close cfg m off r) in
      let second =
        run-step k cfg f v (close_dst_at cfg m off) (close m.ctx.dst_fd) q _ eq
          (close-done cfg m off q) in
      rw (first, second, run-done k cfg f (k.exec (close m.ctx.dst_fd) v).2 (done_at cfg m off))
        (record {
          content = dq ∙ dr ∙ d;
          released =
              hq ∙ ap (erase j) (hr ∙ ap (erase i) hs) ∙ erase-both i j source copy before other;
          finished = refl;
          src_closed = refl;
          dst_closed = refl;
          idle = refl;
          no_other_close = refl;
          same_pipes = refl;
          counted = rw e;
        })

  module _ (positive : 0 < cfg.chunk_size) (small : cfg.chunk_size < 2 ^ 31)
      (fits : length src < word) where
    -- A read and a write, which copy some chunk of n bytes.
    read_chunk :
        (m : Machine) (w : k.State) (off : ℕ)
        → m.ctx.file_size ≡ length src
        → off < length src
        → m.ctx.src_fd ≡ pos i
        → m.ctx.dst_fd ≡ pos j
        → Both w
        → k.dst w ≡ take off src
        → (n : ℕ) × (u : k.State) × (0 < n)
          × (off + n ≤ length src)
          × (k.dst u ≡ take (off + n) src)
          × Both u
          × ((f : ℕ) (next : Machine)
              → ((r : ℕ) → advance_state cfg (pos r) (sent (write_at cfg m off n)) ≡ next)
              → run k cfg (suc (suc f)) w (read_at cfg m off) ≡ run k cfg f u next)
    read_chunk m w off s e fi fj hs d =
        let len = wanted cfg m.ctx off in
        let asks = wanted_lem cfg m off positive small (omega arith) (omega arith) in
        let request = Sqe.read m.ctx.src_fd m.ctx.buffer len off in
        let (n, er, some_read, _, inside, in_mem, dr, hr) =
          o.reads m.ctx.src_fd i m.ctx.buffer len off w fi (source_open w hs) (omega (arith, asks))
            e in
        let v = (k.exec request w).2 in
        let put = Sqe.write m.ctx.dst_fd m.ctx.buffer n off in
        let held : length (k.mem m.ctx.buffer v) ≡ n =
          rw in_mem (omega (arith, length-take n (drop off src), length-drop off src)) in
        let (r, ew, dw, hw) =
          o.writes m.ctx.dst_fd j m.ctx.buffer n off v fj (copy_open v (hr ∙ hs))
            (omega (arith, held)) (copied_so_far k src v off (dr ∙ d) (omega arith)) in
        (
          n,
          (k.exec put v).2,
          some_read,
          inside,
          dw ∙ chunk_copied k src (k.dst v) (k.mem m.ctx.buffer v) off n (dr ∙ d) in_mem,
          hw ∙ hr ∙ hs,
          λ f next step.
              run-step k cfg (suc f) w (read_at cfg m off) request n _ er (read-write cfg m off n)
              ∙ run-step k cfg f v (write_at cfg m off n) put r next ew (step r),
        )

    -- With `left` bytes to go, two rounds for each of them and two to close are enough.
    pub copy_read :
        (bound : ℕ) (m : Machine) (f : ℕ) (w : k.State) (off left : ℕ)
        → m.ctx.file_size ≡ length src
        → off + left ≡ length src
        → 0 < left
        → left ≤ bound
        → 2 * left + 2 ≤ f
        → m.ctx.src_fd ≡ pos i
        → m.ctx.dst_fd ≡ pos j
        → Both w
        → k.dst w ≡ take off src
        → Ends m f w (read_at cfg m off)
    copy_read zero m f w off left s e l b h fi fj hs d = absurd (omega arith)
    copy_read (suc bound) m zero w off left s e l b h fi fj hs d = absurd (omega arith)
    copy_read (suc bound) m (suc zero) w off left s e l b h fi fj hs d = absurd (omega arith)
    copy_read (suc bound) m (suc (suc f)) w off left s e l b h fi fj hs d =
        let (n, u, some_read, inside, copied, still, go) =
          read_chunk m w off s (omega arith) fi fj hs d in
        elim (dec_lt (off + n) (length src)) [
          | yes more ↦
              rw
                (go f (read_at cfg (after_read m n) (off + n))
                  (λ r. write-read cfg m off n r (omega arith) (omega arith)))
                (copy_read bound (after_read m n) f u (off + n) (left - n) s (omega arith)
                  (omega arith) (omega arith) (omega arith) fi fj still copied)
          | no end ↦
              rw
                (go f (close_src_at cfg (after_read m n) (off + n))
                  (λ r. write-close cfg m off n r (omega arith) (omega arith)))
                (finish (after_read m n) f u (off + n) (omega arith) (omega arith) fi fj still
                  (copied ∙ take_all (off + n) src (omega arith)))
        ]

    -- A splice into the empty pipe and one out of it, which copy some chunk of n bytes and leave the
    -- pipe empty.
    splice_chunk :
        (m : Machine) (w : k.State) (off : ℕ)
        → m.ctx.file_size ≡ length src
        → off < length src
        → m.ctx.src_fd ≡ pos i
        → m.ctx.dst_fd ≡ pos j
        → Both w
        → m.ctx.pipe_read_fd ≡ pipe_read
        → m.ctx.pipe_write_fd ≡ pipe_write
        → k.dst w ≡ take off src
        → k.pipe w ≡ []
        → (n : ℕ) × (u : k.State) × (0 < n)
          × (off + n ≤ length src)
          × (k.dst u ≡ take (off + n) src)
          × (k.pipe u ≡ [])
          × Both u
          × ((f : ℕ) (next : Machine)
              → advance_state cfg (pos n) (sent (splice_out_at cfg m off n)) ≡ next
              → run k cfg (suc (suc f)) w (splice_in_at cfg m off) ≡ run k cfg f u next)
    splice_chunk m w off s e fi fj hs pr pw d empty =
        let len = wanted cfg m.ctx off in
        let asks = wanted_lem cfg m off positive small (omega arith) (omega arith) in
        let request = Sqe.splice m.ctx.src_fd (pos off) m.ctx.pipe_write_fd (negsuc 0) len in
        let (n, er, some_read, _, inside, in_pipe, dr, hr) =
          o.splices_in m.ctx.src_fd m.ctx.pipe_write_fd i len off w fi (source_open w hs) pw
            (omega (arith, asks)) e in
        let v = (k.exec request w).2 in
        let filled : k.pipe v ≡ take n (drop off src) =
          in_pipe ∙ ap (λ p. p ++ take n (drop off src)) empty in
        let put = Sqe.splice m.ctx.pipe_read_fd (negsuc 0) m.ctx.dst_fd (pos off) n in
        let held : length (k.pipe v) ≡ n =
          rw filled (omega (arith, length-take n (drop off src), length-drop off src)) in
        let (ew, dw, drained, hw) =
          o.splices_out m.ctx.pipe_read_fd m.ctx.dst_fd j n off v pr fj (copy_open v (hr ∙ hs))
            (omega (arith, held)) (copied_so_far k src v off (dr ∙ d) (omega arith)) in
        (
          n,
          (k.exec put v).2,
          some_read,
          inside,
          dw ∙ chunk_copied k src (k.dst v) (k.pipe v) off n (dr ∙ d) filled,
          drained ∙ drop_all n (k.pipe v) (omega (arith, held)),
          hw ∙ hr ∙ hs,
          λ f next step.
              run-step k cfg (suc f) w (splice_in_at cfg m off) request n _ er
                (splice_in-splice_out cfg m off n)
              ∙ run-step k cfg f v (splice_out_at cfg m off n) put n next ew step,
        )

    pub copy_splice :
        (bound : ℕ) (m : Machine) (f : ℕ) (w : k.State) (off left : ℕ)
        → m.ctx.file_size ≡ length src
        → off + left ≡ length src
        → 0 < left
        → left ≤ bound
        → 2 * left + 2 ≤ f
        → m.ctx.src_fd ≡ pos i
        → m.ctx.dst_fd ≡ pos j
        → Both w
        → m.ctx.pipe_read_fd ≡ pipe_read
        → m.ctx.pipe_write_fd ≡ pipe_write
        → k.dst w ≡ take off src
        → k.pipe w ≡ []
        → Ends m f w (splice_in_at cfg m off)
    copy_splice zero m f w off left s e l b h fi fj hs pr pw d p = absurd (omega arith)
    copy_splice (suc bound) m zero w off left s e l b h fi fj hs pr pw d p = absurd (omega arith)
    copy_splice (suc bound) m (suc zero) w off left s e l b h fi fj hs pr pw d p =
        absurd (omega arith)
    copy_splice (suc bound) m (suc (suc f)) w off left s e l b h fi fj hs pr pw d p =
        let (n, u, some_read, inside, copied, empty, still, go) =
          splice_chunk m w off s (omega arith) fi fj hs pr pw d p in
        elim (dec_lt (off + n) (length src)) [
          | yes more ↦
              rw
                (go f (splice_in_at cfg (after_splice m n) (off + n))
                  (splice_out-splice_in cfg m off n (omega arith) (omega arith)))
                (copy_splice bound (after_splice m n) f u (off + n) (left - n) s (omega arith)
                  (omega arith) (omega arith) (omega arith) fi fj still pr pw copied empty)
          | no end ↦
              rw
                (go f (close_src_at cfg (after_splice m n) (off + n))
                  (splice_out-close cfg m off n (omega arith) (omega arith)))
                (finish (after_splice m n) f u (off + n) (omega arith) (omega arith) fi fj still
                  (copied ∙ take_all (off + n) src (omega arith)))
        ]
