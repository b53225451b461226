-- ===== src/Net/Sender/Collect/Whole.antt =====
-- src/net.cpp, `run_sender` from the authentication on: what it sends.
use uring_sync.Base.{ℕ, suc, ◌≡◌, refl, ap, ap₂, ◌∙◌, List, [], ◌∷◌, ◌++◌, Bool, false, some}
use uring_sync.Base.Int.{ℤ, negsuc}
use uring_sync.Paths.{has, filename-name, parent_path-name}
use uring_sync.Protocol.SafePath.{slash}
use uring_sync.Net.Stream.{SourceFile, stream}
use uring_sync.Net.Sender.{Host, sent, failed, send_file}
use uring_sync.Net.Sender.Sending.{Works}
use uring_sync.Net.Sender.Run.{send_each, send_files, send_files-sends, ServesAll, paths}
use uring_sync.Net.Sender.Collect.{
  Directories, regular, directory, send_kind, send_collected, run_sender,
}
use uring_sync.Net.Sender.Collect.Directory.{
  Entries, names, all_files, IsWithin, Shows, collect_files-collects,
}

module _ (h : Host) (v : Works h) (d : Directories) (retries : ℕ)
    (pipe_read_fd pipe_write_fd : ℤ) where
  -- Without splice, on a host that works: from the authentication on, `run_sender` on a directory whose
  -- entries, at any depth, are `entries`, and whose files can all be opened, gives the peer exactly the
  -- stream of its files, in the order of `readdir` with a directory's files in its place, and returns
  -- 0; entries that are no files or directories, that are gone, or that cannot be listed are left out.
  pub run_sender-sends :
      (depth : ℕ) (src_path : List ℕ) (entries : Entries) (fs : List SourceFile) (s : h.sock.State)
      → d.stat src_path ≡ some directory
      → d.readdir src_path ≡ some (names entries)
      → Shows d src_path [] entries
      → IsWithin depth entries
      → all_files entries ≡ paths fs
      → ServesAll h src_path fs
      → (t : h.sock.State) × (run_sender h d
            (suc depth)
            retries
            pipe_read_fd
            pipe_write_fd
            false
            src_path
            s
          ≡ sent t)
        × (h.sock.sent t ≡ h.sock.sent s ++ stream fs)
  unfolding run_sender
  run_sender-sends depth src_path entries fs s kind listed shows within same serves =
      let (t, ran, out) =
        send_files-sends h v retries pipe_read_fd pipe_write_fd src_path fs s serves in
      let found =
        collect_files-collects d src_path depth entries listed shows within ∙ ap some same in
      let call = send_kind h d (suc depth) retries pipe_read_fd pipe_write_fd false src_path in
      let send = send_collected h d (suc depth) retries pipe_read_fd pipe_write_fd false src_path in
      (t, ap (λ k. call k s) kind ∙ ap (λ found. send found s) found ∙ ran, out)

send_files-missing :
    (h : Host) (retries : ℕ) (pipe_read_fd pipe_write_fd : ℤ) (use_splice : Bool)
    (base rel : List ℕ) (s : h.sock.State) (error : ℕ)
    → (h.open_file (base ++ slash ∷ rel) s).0 ≡ negsuc error
    → send_files h retries pipe_read_fd pipe_write_fd use_splice base (rel ∷ []) s ≡ failed
unfolding send_files send_each send_file
send_files-missing h retries pipe_read_fd pipe_write_fd use_splice base rel s error missing =
    rw (missing, send_each, send_file) refl

-- A single file that is named without a directory is looked for at the root: when nothing there has
-- that name, `run_sender` fails, although `stat` found the file.
pub bare_name_lost :
    (h : Host) (d : Directories) (depth retries : ℕ) (pipe_read_fd pipe_write_fd : ℤ)
    (use_splice : Bool) (name : List ℕ) (s : h.sock.State) (error : ℕ)
    → has slash name ≡ false
    → d.stat name ≡ some regular
    → (h.open_file (slash ∷ name) s).0 ≡ negsuc error
    → run_sender h d depth retries pipe_read_fd pipe_write_fd use_splice name s ≡ failed
unfolding run_sender
bare_name_lost h d depth retries pipe_read_fd pipe_write_fd use_splice name s error bare kind
      missing =
    let send = send_files h retries pipe_read_fd pipe_write_fd use_splice in
    ap (λ k. send_kind h d depth retries pipe_read_fd pipe_write_fd use_splice name k s) kind
    ∙ ap₂ (λ base rel. send base (rel ∷ []) s) (parent_path-name name bare)
        (filename-name name bare)
    ∙ send_files-missing h retries pipe_read_fd pipe_write_fd use_splice [] name s error missing
