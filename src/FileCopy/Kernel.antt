-- ===== src/FileCopy/Kernel.antt =====
-- The kernel below `advance_state`. It is not part of the program: what it does is an argument, with
-- the documented behaviour of the calls as named hypotheses.
use uring_sync.Base.Maps.{lookup, erase}
use uring_sync.FileCopy.Handles.{Handle, source, copy}
use uring_sync.Base.{
  ◌%◌, none, some, ℕ, zero, suc, ◌+◌, ◌<◌, ◌≤◌, ◌≡◌, List, [], ◌∷◌, ◌++◌, take, drop, length,
}
use uring_sync.Base.Int.{ℤ, pos, negsuc}
use uring_sync.FileCopy.Types.{Config, Sqe, Statx, read_only, write_create_truncate, openat, close}
use uring_sync.FileCopy.Advance.{Machine, advance_state}

-- `exec` gives the result of a request, what `statx` stored, and the state after it. Of the state
-- the program's correctness needs three views: the destination's bytes, the bytes in the buffer at an
-- address, and the bytes in the file's pipe.
pub record Kernel : Type 1 where
  pub State : Type 0
  pub exec : Sqe → State → ℤ × Statx × State
  pub dst : State → List ℕ
  pub mem : ℕ → State → List ℕ
  pub pipe : State → List ℕ

-- The calls on a regular source file at `src_path` with the bytes `src` and the mode `mode`, on its copy
-- at `dst_path` and on a pipe with the ends `pipe_read` and `pipe_write`, while nothing fails: each open
-- gives a descriptor, and that with O_TRUNC leaves an empty file; a read or a splice before the end of
-- the source moves at least one byte and at most what was asked for; a write at the end of the copy
-- stores all of its bytes; a splice out of the pipe moves all that was asked for. `handles` are the
-- descriptors that are open. Of other paths, modes and descriptors nothing is said.
pub record Obeys (k : Kernel) (src_path dst_path : List ℕ) (mode : ℕ) (pipe_read pipe_write : ℤ)
    (src : List ℕ) : Type 0 where
  pub handles : k.State → List (ℕ × Handle)
  pub open_source :
      (w : k.State)
      → let r = k.exec (openat src_path read_only 0) w in
        (fd : ℕ) × (r.0 ≡ pos fd)
        × (handles r.2 ≡ (fd, source) ∷ handles w)
        × (k.pipe r.2 ≡ k.pipe w)
  pub stats :
      (fd : ℕ) (w : k.State)
      → lookup fd (handles w) ≡ some source
      → let r = k.exec (Sqe.statx (pos fd)) w in
        (n : ℕ) × (r.0 ≡ pos n)
        × (r.1 ≡ record { size = length src; mode = mode })
        × (handles r.2 ≡ handles w)
        × (k.pipe r.2 ≡ k.pipe w)
  pub open_copy :
      (permissions : ℕ) (w : k.State)
      → permissions ≡ mode % 512
      → let r = k.exec (openat dst_path write_create_truncate permissions) w in
        (fd : ℕ) × (r.0 ≡ pos fd)
        × (lookup fd (handles w) ≡ none)
        × (handles r.2 ≡ (fd, copy) ∷ handles w)
        × (k.dst r.2 ≡ [])
        × (k.pipe r.2 ≡ k.pipe w)
  pub reads :
      (fd : ℤ) (i buf len off : ℕ) (w : k.State)
      → fd ≡ pos i
      → lookup i (handles w) ≡ some source
      → 0 < len
      → off < length src
      → let r = k.exec (Sqe.read fd buf len off) w in
        (n : ℕ) × (r.0 ≡ pos n)
        × (0 < n)
        × (n ≤ len)
        × (off + n ≤ length src)
        × (k.mem buf r.2 ≡ take n (drop off src))
        × (k.dst r.2 ≡ k.dst w)
        × (handles r.2 ≡ handles w)
  pub writes :
      (fd : ℤ) (j buf len off : ℕ) (w : k.State)
      → fd ≡ pos j
      → lookup j (handles w) ≡ some copy
      → len ≤ length (k.mem buf w)
      → off ≡ length (k.dst w)
      → let r = k.exec (Sqe.write fd buf len off) w in
        (n : ℕ) × (r.0 ≡ pos n)
        × (k.dst r.2 ≡ k.dst w ++ take len (k.mem buf w))
        × (handles r.2 ≡ handles w)
  pub splices_in :
      (fd out : ℤ) (i len off : ℕ) (w : k.State)
      → fd ≡ pos i
      → lookup i (handles w) ≡ some source
      → out ≡ pipe_write
      → 0 < len
      → off < length src
      → let r = k.exec (Sqe.splice fd (pos off) out (negsuc 0) len) w in
        (n : ℕ) × (r.0 ≡ pos n)
        × (0 < n)
        × (n ≤ len)
        × (off + n ≤ length src)
        × (k.pipe r.2 ≡ k.pipe w ++ take n (drop off src))
        × (k.dst r.2 ≡ k.dst w)
        × (handles r.2 ≡ handles w)
  pub splices_out :
      (fd out : ℤ) (j len off : ℕ) (w : k.State)
      → fd ≡ pipe_read
      → out ≡ pos j
      → lookup j (handles w) ≡ some copy
      → len ≤ length (k.pipe w)
      → off ≡ length (k.dst w)
      → let r = k.exec (Sqe.splice fd (negsuc 0) out (pos off) len) w in
        (r.0 ≡ pos len)
        × (k.dst r.2 ≡ k.dst w ++ take len (k.pipe w))
        × (k.pipe r.2 ≡ drop len (k.pipe w))
        × (handles r.2 ≡ handles w)
  pub closes :
      (fd : ℤ) (i : ℕ) (w : k.State)
      → fd ≡ pos i
      → let r = k.exec (close fd) w in
        (n : ℕ) × (r.0 ≡ pos n) × (k.dst r.2 ≡ k.dst w) × (handles r.2 ≡ erase i (handles w))

-- `statx` stores into `ctx->stx`; no other request touches the context.
abbrev pub store_stx : Sqe → Statx → Machine → Machine
store_stx (Sqe.statx fd) stx m = record m { ctx = record m.ctx { stx = stx } }
store_stx _ stx m = m

-- One file on its own: the oldest prepared request is submitted and completes, `advance_state` takes
-- its result, and so on until nothing is prepared. `fuel` bounds the rounds.
module _ (k : Kernel) (cfg : Config) where
  unfoldable pub run : ℕ → k.State → Machine → k.State × Machine
  run zero w m = (w, m)
  run (suc fuel) w m = elim m.prepared [
    | [] ↦ (w, m)
    | sqe ∷ rest ↦
        let (res, stx, w') = k.exec sqe w in
        run fuel w' (advance_state cfg res (store_stx sqe stx (record m { prepared = rest })))
  ]
