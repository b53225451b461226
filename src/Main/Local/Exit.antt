-- ===== src/Main/Local/Exit.antt =====
-- src/main.cpp: the exit code of a local copy with one worker.
use uring_sync.Base.{
  ℕ, ◌+◌, ◌<◌, ◌≡◌, ◌≢◌, refl, ap, ◌∙◌, subst, List, Option, ltb, arith, length, Bool-cases, inl,
  inr,
}
use uring_sync.Pools.PipePool.{PipePool, Pipe, built}
use uring_sync.Pools.PipePool
use uring_sync.FileCopy.Types.{Stats, word}
use uring_sync.FileCopy.Start.{FileWorkItem}
use uring_sync.Worker.{Worker, finished}
use uring_sync.Worker.Steps.{begun, Reach}
use uring_sync.Worker.Whole.{finished_lem, queue-loaded}
use uring_sync.Main.Local.{Opt, Tree, Launch, launches, scan_files, local_copy, exit_code}
use uring_sync.Main.Local.Launched.{Sorts, local_copy-IsLaunch}

exit_code-zero : (stats : Stats) → exit_code stats ≡ 0 → stats.files_failed ≡ 0
unfolding exit_code
exit_code-zero stats h = elim (Bool-cases (ltb 0 stats.files_failed)) [
  | inl e ↦ omega (arith, rw e at h)
  | inr e ↦ ground arith
]

zero-exit_code : (stats : Stats) → stats.files_failed ≡ 0 → exit_code stats ≡ 0
unfolding exit_code
zero-exit_code stats h = rw h refl

-- How a local copy with one worker ends, whatever the kernel answers and in whatever order: if `main`
-- starts the worker, no allocation fails, the pipe pool is made and the files are fewer than 2 ^ 64,
-- then when the worker has left its loop each file was counted once, as completed or as failed; if the
-- exit code is then 0, all files were counted as completed; and it is 0 if none failed.
pub exit_code_lem :
    (tree : Tree) (sort : List FileWorkItem → List FileWorkItem) (o : Sorts sort) (opts : List Opt)
    (operands : List (List ℕ)) (l : Launch) (address : List ℕ → ℕ) (alloc : ℕ → ℕ)
    (sys : ℕ → Option Pipe) (pipes : PipePool) {w : Worker}
    → local_copy tree sort opts operands ≡ launches l
    → length l.queue.queue < word
    → ((i : ℕ) → alloc i ≢ 0)
    → PipePool.new sys l.cfg.queue_depth ≡ built pipes
    → Reach address l.cfg (begun l.cfg alloc pipes l.queue) 0 w
    → w.point ≡ finished
    → (w.pipeline.stats.files_completed + w.pipeline.stats.files_failed ≡ l.stats.files_total)
      × (exit_code w.pipeline.stats ≡ 0 → w.pipeline.stats.files_completed ≡ l.stats.files_total)
      × (w.pipeline.stats.files_failed ≡ 0 → exit_code w.pipeline.stats ≡ 0)
exit_code_lem tree sort o opts operands l address alloc sys pipes {w} h few allocated opened r p =
    let (src, dst, _, _, launch, queue) = local_copy-IsLaunch tree sort o opts operands l h in
    let (depth, _) = launch.valid.depth in
    let files = sort (scan_files tree src dst).files in
    let same : l.queue.queue ≡ files = ap (λ q. q.queue) queue ∙ queue-loaded files in
    let number : l.stats.files_total ≡ length files = launch.total ∙ ap length same in
    let (_, counted, _, _, _) =
      finished_lem address l.cfg alloc sys pipes files depth (subst (λ q. length q < word) same few)
        allocated opened (subst (λ q. Reach address l.cfg (begun l.cfg alloc pipes q) 0 w) queue r)
        p in
    let all : w.pipeline.stats.files_completed + w.pipeline.stats.files_failed
        ≡ l.stats.files_total =
      omega (arith, counted, number) in
    (
      all,
      λ e. omega (arith, all, exit_code-zero w.pipeline.stats e),
      zero-exit_code w.pipeline.stats,
    )
