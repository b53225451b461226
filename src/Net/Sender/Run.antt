-- ===== src/Net/Sender/Run.antt =====
-- src/net.cpp, `run_sender`: from the list of files to ALL_DONE.
use uring_sync.Base.{
  ℕ, ◌*◌, ◌≡◌, refl, ap, sym, ◌∙◌, List, [], ◌∷◌, ◌++◌, Bool, false, Option, none, some, arith, All,
  append_assoc, append-nil,
}
use uring_sync.Base.Int.{ℤ}
use uring_sync.Protocol.Messages.{make_all_done}
use uring_sync.Protocol.SafePath.{slash}
use uring_sync.Net.Socket.{send_msg, send_all-sends}
use uring_sync.Net.Stream.{SourceFile, message, messages, stream}
use uring_sync.Net.Sender.{Host, Sent, sent, failed, unfinished, send_file}
use uring_sync.Net.Sender.Sending.{Works, Serves, send_file-sends}

abbrev pub buf_size : ℕ
buf_size = 128 * 1024

module _ (h : Host) (retries : ℕ) (pipe_read_fd pipe_write_fd : ℤ) (use_splice : Bool) where
  -- `for (const auto& rel_path : files)`. The counter only serves the progress messages.
  unfoldable pub send_each : List ℕ → List (List ℕ) → h.sock.State → Sent h.sock.State
  unfolding send_file
  send_each base_path [] s = sent s
  send_each base_path (rel_path ∷ files) s =
      elim (send_file h retries pipe_read_fd pipe_write_fd use_splice buf_size base_path rel_path
        s) [ sent t ↦ send_each base_path files t | failed ↦ failed | unfinished ↦ unfinished ]

  abbrev ended : Option h.sock.State → Sent h.sock.State
  ended none = failed
  ended (some s) = sent s

  abbrev with_all_done : Sent h.sock.State → Sent h.sock.State
  with_all_done (sent s) = ended (send_msg h.sock make_all_done s)
  with_all_done failed = failed
  with_all_done unfinished = unfinished

  -- `failed` is exit code 1; the pipe and the socket are closed at each end.
  unfoldable pub send_files : List ℕ → List (List ℕ) → h.sock.State → Sent h.sock.State
  unfolding send_each
  send_files base_path files s = with_all_done (send_each base_path files s)

abbrev pub paths : List SourceFile → List (List ℕ)
paths [] = []
paths (f ∷ fs) = f.path ∷ paths fs

-- All files can be opened below `base_path`.
abbrev pub ServesAll : Host → List ℕ → List SourceFile → Type 0
ServesAll h base_path fs = All (λ f. Serves h (base_path ++ slash ∷ f.path) f.content f.mode) fs

module _ (h : Host) (v : Works h) (retries : ℕ) (pipe_read_fd pipe_write_fd : ℤ)
    (base_path : List ℕ) where
  send_each-sends :
      (fs : List SourceFile) (s : h.sock.State)
      → ServesAll h base_path fs
      → (t : h.sock.State) × (send_each h retries pipe_read_fd pipe_write_fd false base_path
            (paths fs)
            s
          ≡ sent t)
        × (h.sock.sent t ≡ h.sock.sent s ++ messages fs)
  unfolding send_each
  send_each-sends [] s o = (s, refl, sym (append-nil (h.sock.sent s)))
  send_each-sends (f ∷ fs) s o =
      let (s₁, ran, out) =
        send_file-sends h v retries pipe_read_fd pipe_write_fd buf_size base_path f.path f.content
          f.mode s (omega arith) o.0 in
      let (t, done, all) = send_each-sends fs s₁ o.1 in
      (
        t,
        rw (ran, send_each) done,
        all
            ∙ ap (λ x. x ++ messages fs) out
            ∙ append_assoc (h.sock.sent s) (message f) (messages fs),
      )

  -- Without splice, on a host that works and whose files can all be opened, `run_sender` gives the peer
  -- exactly the stream of its files and returns 0.
  pub send_files-sends :
      (fs : List SourceFile) (s : h.sock.State)
      → ServesAll h base_path fs
      → (t : h.sock.State) × (send_files h retries pipe_read_fd pipe_write_fd false base_path
            (paths fs)
            s
          ≡ sent t)
        × (h.sock.sent t ≡ h.sock.sent s ++ stream fs)
  unfolding send_files send_msg
  send_files-sends fs s o =
      let (s₁, ran, out) = send_each-sends fs s o in
      let (t, done, last, _) = send_all-sends h.sock v.delivers make_all_done s₁ in
      (
        t,
        rw (ran, done),
        last
            ∙ ap (λ x. x ++ make_all_done) out
            ∙ append_assoc (h.sock.sent s) (messages fs) make_all_done,
      )
