-- ===== src/SyncCopy/Whole.antt =====
-- src/main.cpp, `sync_worker_thread`: the copy of one file with calls that work.
use uring_sync.Base.Maps.{lookup, erase}
use uring_sync.Base.{
  sym, ◌∷◌, none, some, ℕ, zero, suc, ◌+◌, ◌-◌, ◌%◌, ◌<◌, ◌≤◌, ◌≡◌, refl, ap, ◌∙◌, List, [], ◌++◌,
  true, arith, length, take, drop, length-take, take_all, take-add, ltb-false, lt→ltb, dec_lt,
}
use uring_sync.Base.Int.{pos}
use uring_sync.FileCopy.Handles.{
  Handle, source, copy, lookup-first, lookup-second, apart, erase-both,
}
use uring_sync.FileCopy.Types.{Stats, add64, word}
use uring_sync.FileCopy.Start.{FileWorkItem}
use uring_sync.SyncCopy.{Calls, copy_range, sync_file}

-- Calls that work on a source at `src_path` with the bytes `src` and the mode `mode`, and on its copy
-- at `dst_path`. Each open gives a descriptor; `fstat` of the source's gives the size and the mode;
-- `copy_file_range` from the source's to the copy's moves some of the bytes at the offset, at least
-- one, to the end of the copy. `handles` are the descriptors that are open. Of other paths, modes and
-- descriptors nothing is said.
pub record Copies (k : Calls) (src_path dst_path : List ℕ) (mode : ℕ) (src : List ℕ) : Type 0 where
  pub handles : k.State → List (ℕ × Handle)
  pub opens_source :
      (s : k.State)
      → let r = k.open_source src_path s in
        (n : ℕ) × (r.0 ≡ pos n) × (handles r.1 ≡ (n, source) ∷ handles s)
  pub stats :
      (fd : ℕ) (s : k.State)
      → lookup fd (handles s) ≡ some source
      → let r = k.fstat fd s in
        (n : ℕ) × (r.0 ≡ pos n)
        × (r.1 ≡ record { size = length src; mode = mode })
        × (handles r.2 ≡ handles s)
  pub opens_copy :
      (permissions : ℕ) (s : k.State)
      → permissions ≡ mode % 512
      → let r = k.open_copy dst_path permissions s in
        (n : ℕ) × (r.0 ≡ pos n)
        × (lookup n (handles s) ≡ none)
        × (handles r.1 ≡ (n, copy) ∷ handles s)
        × (k.dst r.1 ≡ [])
  pub copies :
      (fd_in fd_out off to len : ℕ) (s : k.State)
      → lookup fd_in (handles s) ≡ some source
      → lookup fd_out (handles s) ≡ some copy
      → 0 < len
      → off + len ≤ length src
      → to ≡ length (k.dst s)
      → let r = k.copy_file_range fd_in fd_out off to len s in
        (n : ℕ) × (r.0 ≡ pos (suc n))
        × (suc n ≤ len)
        × (k.dst r.1 ≡ k.dst s ++ take (suc n) (drop off src))
        × (handles r.1 ≡ handles s)
  pub closes :
      (fd : ℕ) (s : k.State)
      → (k.dst (k.close fd s) ≡ k.dst s) × (handles (k.close fd s) ≡ erase fd (handles s))

module _ (k : Calls) where
  copy_range-step :
      (rounds i o off to size : ℕ) (stats : Stats) (s : k.State) (n : ℕ)
      → off < size
      → (k.copy_file_range i o off to (size - off) s).0 ≡ pos (suc n)
      → copy_range k (suc rounds) i o off to size stats s
        ≡ copy_range k rounds i o
            (off + suc n)
            (to + suc n)
            size
            (record stats { bytes_copied = add64 stats.bytes_copied (suc n) })
            (k.copy_file_range i o off to (size - off) s).1
  unfolding copy_range
  copy_range-step rounds i o off to size stats s n h e =
      rw (lt→ltb off size h, copy_range) (rw (e, copy_range))

  copy_range-end :
      (rounds i o off to size : ℕ) (stats : Stats) (s : k.State)
      → size ≤ off
      → copy_range k rounds i o off to size stats s ≡ (true, stats, s)
  unfolding copy_range
  copy_range-end zero i o off to size stats s h = refl
  copy_range-end (suc rounds) i o off to size stats s h = rw (ltb-false off size h, copy_range)

  module _ (item : FileWorkItem) (mode : ℕ) (src : List ℕ)
      (c : Copies k item.src_path item.dst_path mode src) where
    copy_range-copies :
        (rounds i o off : ℕ) (stats : Stats) (s : k.State)
        → lookup i (c.handles s) ≡ some source
        → lookup o (c.handles s) ≡ some copy
        → off ≤ length src
        → length src ≤ off + rounds
        → k.dst s ≡ take off src
        → off ≡ length (k.dst s)
        → stats.bytes_copied + (length src - off) < word
        → (t : k.State) × (copy_range k rounds i o off off (length src) stats s
            ≡ (true, record stats { bytes_copied = stats.bytes_copied + (length src - off) }, t))
          × (k.dst t ≡ src)
          × (c.handles t ≡ c.handles s)
    copy_range-copies zero i o off stats s hi ho h e d to w =
        let over : length src ≤ off = omega arith in
        (
          s,
          copy_range-end zero i o off off (length src) stats s over ∙ (ground arith),
          d ∙ take_all off src over,
          refl,
        )
    copy_range-copies (suc rounds) i o off stats s hi ho h e d to w =
        elim (dec_lt off (length src)) [
          | no end ↦
              let over : length src ≤ off = omega arith in
              (
                s,
                copy_range-end (suc rounds) i o off off (length src) stats s over ∙ (ground arith),
                d ∙ take_all off src over,
                refl,
              )
          | yes more ↦
              let (n, moved, fits, out, kept) =
                c.copies i o off off (length src - off) s hi ho (omega arith) (omega arith) to in
              let s' = (k.copy_file_range i o off off (length src - off) s).1 in
              let d' : k.dst s' ≡ take (off + suc n) src =
                out ∙ ap (λ b. b ++ take (suc n) (drop off src)) d ∙ take-add off (suc n) src in
              let counted : add64 stats.bytes_copied (suc n) ≡ stats.bytes_copied + suc n =
                omega arith in
              let (t, ran, all, held) =
                copy_range-copies rounds i o (off + suc n)
                  (record stats { bytes_copied = add64 stats.bytes_copied (suc n) }) s'
                  (ap (lookup i) kept ∙ hi) (ap (lookup o) kept ∙ ho) (omega arith) (omega arith) d'
                  (omega (arith, ap length d', length-take (off + suc n) src))
                  (omega (arith, counted)) in
              (
                t,
                copy_range-step rounds i o off off (length src) stats s n more moved
                    ∙ ran
                    ∙ (ground (arith, counted)),
                all,
                held ∙ kept,
              )
        ]

    -- With calls that work on the two paths of the item and a byte counter that does not wrap,
    -- `sync_file` returns with the copy, made at its path with the permission bits of the source,
    -- holding the bytes of the source, however few bytes each `copy_file_range` moves; exactly the
    -- descriptors of before are open; the file is counted as completed and not as failed, and its
    -- size is added to both byte counters.
    pub sync_file-copies :
        (stats : Stats) (s : k.State)
        → stats.bytes_copied + length src < word
        → let r = sync_file k item stats s in
          (k.dst r.1 ≡ src)
          × (c.handles r.1 ≡ c.handles s)
          × (r.0 ≡ record stats {
            files_completed = add64 stats.files_completed 1;
            bytes_total = add64 stats.bytes_total (length src);
            bytes_copied = stats.bytes_copied + length src;
          })
    unfolding sync_file
    sync_file-copies stats s w =
        let o = k.open_source item.src_path s in
        let (i, opened, hs₁) = c.opens_source s in
        let f = k.fstat i o.1 in
        let first = lookup-first i source (c.handles s) in
        let (z, statted, meta, hs₂) = c.stats i o.1 (ap (lookup i) hs₁ ∙ first) in
        let p = k.open_copy item.dst_path (f.1.mode % 512) f.2 in
        let (j, made, unused, hs₃, blank) =
          c.opens_copy (f.1.mode % 512) f.2 (ap (λ m. m.mode % 512) meta) in
        let held = hs₂ ∙ hs₁ in
        let both : c.handles p.1 ≡ (j, copy) ∷ (i, source) ∷ c.handles s =
          hs₃ ∙ ap (λ h. (j, copy) ∷ h) held in
        let other = apart i j source (c.handles s) (sym (ap (lookup j) held) ∙ unused) in
        let whole : length src - 0 ≡ length src = omega arith in
        let total = record stats { bytes_total = add64 stats.bytes_total (length src) } in
        let (t, ran, all, kept) =
          copy_range-copies (length src) i j 0 total p.1
            (ap (lookup i) both ∙ lookup-second i j source copy (c.handles s) other)
            (ap (lookup j) both ∙ lookup-first j copy ((i, source) ∷ c.handles s)) (omega arith)
            (omega arith) blank (omega (arith, ap length blank)) (omega arith) in
        let (text_i, hs_i) = c.closes i t in
        let (text_j, hs_j) = c.closes j (k.close i t) in
        let left : c.handles (k.close j (k.close i t)) ≡ c.handles s =
          hs_j
          ∙ ap (erase j) (hs_i ∙ ap (erase i) (kept ∙ both))
          ∙ erase-both i j source copy (c.handles s) other in
        rw (opened, sync_file)
          (rw (statted, sync_file)
            (rw (made, ap (λ m. m.size) meta, ran, sync_file)
              (text_j ∙ text_i ∙ all, left, rw whole)))
