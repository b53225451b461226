-- ===== src/Main/Local/Launched.antt =====
-- src/main.cpp: what a local copy is started with, and how it ends.
use mathlib.Core.List.{Perm}
use uring_sync.Base.{
  ℕ, ◌<◌, ◌≤◌, ◌≡◌, refl, ap, sym, subst, List, [], ◌∷◌, Bool, true, false, arith, All, length,
  Bool-cases, inl, inr, false≢true,
}
use uring_sync.WorkQueue.{WorkQueue}
use uring_sync.WorkQueue
use uring_sync.WorkQueue.Fifo.{queue-push_bulk}
use uring_sync.FileCopy.Types.{Config}
use uring_sync.FileCopy.Start.{FileWorkItem}
use uring_sync.Worker.Steps.{loaded, no_stats}
use uring_sync.Main.Local.{
  Opt, Configured, configured, returns, defaults, options, then_paths, Tree, ScanResult, scan_files,
  tuned, manned, is_none, Launch, Outcome, launches, ends, started, phases, local_copy,
}
use uring_sync.Main.Local.Options.{
  IsValid, ValidConfigured, tuned-IsValid, manned-IsValid, with_paths-IsValid, options-Valid,
  defaults-IsValid,
}

-- By inode.
abbrev pub IsSorted : List FileWorkItem → Type 0
IsSorted [] = Unit
IsSorted (a ∷ items) = All (λ b. a.inode ≤ b.inode) items × IsSorted items

-- What `std::sort` promises.
pub record Sorts (sort : List FileWorkItem → List FileWorkItem) : Type 0 where
  pub perm : (items : List FileWorkItem) → Perm (sort items) items
  pub sorted : (items : List FileWorkItem) → IsSorted (sort items)

-- A launch with the files of the scan `scan`.
pub record IsLaunch (scan : ScanResult) (l : Launch) : Type 0 where
  pub valid : IsValid l.cfg
  pub files : Perm l.queue.queue scan.files
  pub sorted : IsSorted l.queue.queue
  pub done : l.queue.done ≡ true
  pub some_file : 0 < length l.queue.queue
  pub total : l.stats.files_total ≡ length l.queue.queue
  pub counters : (l.stats.files_completed ≡ 0) × (l.stats.files_failed ≡ 0)

abbrev launched : Outcome → Launch → Launch
launched (launches l) d = l
launched (ends code) d = d

abbrev is_launch : Outcome → Bool
is_launch (launches l) = true
is_launch (ends code) = false

module _ (tree : Tree) (sort : List FileWorkItem → List FileWorkItem) (o : Sorts sort) where
  started-IsLaunch :
      (cfg : Config) (scan : ScanResult) (l : Launch)
      → IsValid cfg
      → started tree sort cfg scan ≡ launches l
      → IsLaunch scan l × (l.queue ≡ loaded (sort scan.files))
  unfolding loaded WorkQueue.set_done WorkQueue.new
  started-IsLaunch cfg scan l v h = elim (Bool-cases (is_none (sort scan.files))) [
    | inl e ↦ absurd (false≢true (ap is_launch (rw e at h)))
    | inr e ↦
        let files = sort scan.files in
        let made : Launch = record {
          cfg = tuned scan.size_stats cfg;
          queue = loaded files;
          stats = record no_stats { files_total = length files };
        } in
        let same : made ≡ l = ap (λ r. launched r made) (rw e at h) in
        let kept : (loaded files).queue ≡ files = queue-push_bulk WorkQueue.new files in
        subst (λ x. IsLaunch scan x × (x.queue ≡ loaded files)) same
          (
            record {
              valid = tuned-IsValid scan.size_stats cfg v;
              files = subst (λ q. Perm q scan.files) (sym kept) (o.perm scan.files);
              sorted = subst IsSorted (sym kept) (o.sorted scan.files);
              done = refl;
              some_file = subst (λ q. 0 < length q) (sym kept) (not_none files e);
              total = sym (ap length kept);
              counters = (refl, refl);
            },
            refl,
          )
  ]
    where
      not_none : (items : List FileWorkItem) → is_none items ≡ false → 0 < length items
      not_none [] e = absurd (false≢true (sym e))
      not_none (item ∷ items) e = omega arith

  phases-IsLaunch :
      (operands : List (List ℕ)) (o : Configured) (l : Launch)
      → ValidConfigured o
      → phases tree sort (then_paths operands o) ≡ launches l
      → (src dst : List ℕ) × (rest : List (List ℕ)) × (operands ≡ src ∷ dst ∷ rest)
        × IsLaunch (scan_files tree src dst) l
        × (l.queue ≡ loaded (sort (scan_files tree src dst).files))
  phases-IsLaunch operands (returns code) l v h = absurd (false≢true (ap is_launch h))
  phases-IsLaunch [] (configured cfg) l v h = absurd (false≢true (ap is_launch h))
  phases-IsLaunch (src ∷ []) (configured cfg) l v h = absurd (false≢true (ap is_launch h))
  phases-IsLaunch (src ∷ dst ∷ rest) (configured cfg) l v h =
      let set : Config = record cfg { src_path = src; dst_path = dst } in
      let kept = with_paths-IsValid src dst cfg v in
      let (launch, queue) =
        started-IsLaunch (manned set) (scan_files tree src dst) l (manned-IsValid set kept) h in
      (src, dst, rest, refl, launch, queue)

  pub local_copy-IsLaunch :
      (opts : List Opt) (operands : List (List ℕ)) (l : Launch)
      → local_copy tree sort opts operands ≡ launches l
      → (src dst : List ℕ) × (rest : List (List ℕ)) × (operands ≡ src ∷ dst ∷ rest)
        × IsLaunch (scan_files tree src dst) l
        × (l.queue ≡ loaded (sort (scan_files tree src dst).files))
  unfolding local_copy
  local_copy-IsLaunch opts operands l h =
      phases-IsLaunch operands (options opts defaults) l
        (options-Valid opts defaults defaults-IsValid) h
