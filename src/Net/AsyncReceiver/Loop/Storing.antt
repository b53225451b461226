-- ===== src/Net/AsyncReceiver/Loop/Storing.antt =====
-- src/net_uring.cpp, `AsyncReceiver::run`: the loop over the stream of a sender, on a kernel that works.
use uring_sync.Base.{
  ℕ, zero, suc, ◌+◌, ◌%◌, ◌<◌, ◌≤◌, ◌≡◌, refl, ap, ◌∙◌, List, [], ◌∷◌, ◌++◌, true, arith, length,
  All, append_assoc, All-get_or,
}
use uring_sync.Base.Int.{pos}
use uring_sync.Protocol.Messages.{make_all_done}
use uring_sync.Paths.{join}
use uring_sync.Net.Socket.{Socket, Delivers}
use uring_sync.Net.Stream.{SourceFile, Fits, message, messages, stream}
use uring_sync.Net.Receiver.Storing.{Stored}
use uring_sync.Net.AsyncReceiver.{Request}
use uring_sync.Net.AsyncReceiver.Loop.{
  Kernel, Run, complete, fresh, context_at, run_from, drain, started,
}
use uring_sync.Net.AsyncReceiver.Loop.Rounds.{
  run_from-going, stepped, settled-going, onward, request_of, opening_lem,
}
use uring_sync.Net.AsyncReceiver.Loop.Arriving.{
  receive_header-file, receive_header-last, entered, begin-file, begin-last,
}
use uring_sync.Net.AsyncReceiver.Loop.Pieces.{
  Serves, Rests, Idle, started-Idle, none_pending, Midway, Through, finishes, onward-going,
}

-- What the files of a sender leave below `dst_path`, after `log`.
abbrev pub stored : List ℕ → SourceFile → Stored
stored dst_path f = (join dst_path f.path, f.mode % 512, f.content)

abbrev pub log_after : List ℕ → List SourceFile → List Stored → List Stored
log_after dst_path [] log = log
log_after dst_path (f ∷ fs) log = log_after dst_path fs (stored dst_path f ∷ log)

-- Rounds that are enough: one for each byte, two more for each file, and one for ALL_DONE.
abbrev pub rounds_for : List SourceFile → ℕ
rounds_for [] = 1
rounds_for (f ∷ fs) = length f.content + 2 + rounds_for fs

rounds_pos : (fs : List SourceFile) → 0 < rounds_for fs
rounds_pos [] = omega arith
rounds_pos (f ∷ fs) = omega (arith, rounds_pos fs)

module _ (k : Socket) (del : Delivers k) (n : Kernel) (log : n.State → List Stored)
    (newest : n.State → ℕ) (o : Serves n log newest) (chunk_size : ℕ) (dst_path : List ℕ) where
  -- From header to header.
  one_file :
      (rounds : ℕ) (r : Run k n) (f : SourceFile) (rest : List ℕ)
      → Idle k n chunk_size dst_path r
      → Fits f
      → k.pending r.sock ≡ message f ++ rest
      → length f.content + 1 < rounds
      → Through k del n log newest o chunk_size dst_path rounds r
          (length f.content + 2)
          rest
          (stored dst_path f ∷ log r.disk)
          (r.files_completed + 1)
  one_file zero r f rest idle fits p h = absurd (omega arith)
  one_file (suc rounds) r f rest idle fits p h =
      let i = r.current in
      let old = context_at k true n chunk_size dst_path i r in
      let (t, header, stream) = receive_header-file k del f rest r.sock fits p in
      let (d, made, l) = o.parents (join dst_path f.path) r.disk in
      let (e, opened, l') = o.opens i (join dst_path f.path) (f.mode % 512) d in
      let c = entered k n chunk_size dst_path f old in
      let started = record c { fd = pos (newest e) } in
      let request = Request.openat (join dst_path f.path) (f.mode % 512) in
      let (u, ran, after) =
        opening_lem k n del c t r.closed f.content rest (newest e) refl refl refl fits.sized
          stream in
      let w : Midway k n log newest r started u e f.content rest (join dst_path f.path)
          (f.mode % 512) [] (log r.disk) =
        record {
          inside = idle.inside;
          same = idle.same;
          resting = idle.resting;
          room = (All-get_or Rests r.contexts i (fresh chunk_size) idle.resting idle.inside).1;
          fd = refl;
          received = refl;
          size = omega arith;
          small = fits.sized;
          stream = after;
          logged = l' ∙ ap (λ b. (join dst_path f.path, f.mode % 512, []) ∷ b) l;
        } in
      let (m, q, through, enough, still, done_with, stored_in, files) =
        finishes k del n log newest o chunk_size dst_path rounds r started u e f.content rest
          (join dst_path f.path) (f.mode % 512) [] (log r.disk) (omega arith) w in
      (
        m,
        q,
        run_from-going k n chunk_size dst_path rounds r _ e (i, pos (newest e))
              (begin-file k n chunk_size dst_path r f t d idle.hdr idle.quiet header made) opened
            ∙ ap (run_from k true n chunk_size dst_path rounds) (
                stepped k n chunk_size dst_path r i c (onward k n started f.content) t u e request
                  (request_of k n started f.content ∷ []) (pos (newest e)) idle.inside ran
                ∙ settled-going k n chunk_size dst_path r i (onward k n started f.content) u e
                    ((i, request_of k n started f.content) ∷ []) idle.inside
                    (onward-going k n started f.content))
            ∙ through,
        omega arith,
        still,
        done_with,
        stored_in,
        files,
      )

  ends :
      (rounds : ℕ) (r : Run k n)
      → Idle k n chunk_size dst_path r
      → k.pending r.sock ≡ make_all_done
      → run_from k true n chunk_size dst_path (suc rounds) r ≡ complete r.files_completed r.disk
  unfolding run_from drain
  ends rounds r idle p =
      let (t, header) = receive_header-last k del r.sock p in
      rw (begin-last k n chunk_size dst_path r t idle.hdr header, run_from)
        (rw (none_pending r.contexts idle.resting, drain) refl)

  all_files :
      (fs : List SourceFile) (rounds : ℕ) (r : Run k n)
      → Idle k n chunk_size dst_path r
      → All Fits fs
      → k.pending r.sock ≡ stream fs
      → rounds_for fs ≤ rounds
      → (e : n.State) × (run_from k true n chunk_size dst_path rounds r
          ≡ complete (r.files_completed + length fs) e)
        × (log e ≡ log_after dst_path fs (log r.disk))
  all_files [] zero r idle fits p h = absurd (omega arith)
  all_files [] (suc rounds) r idle fits p h =
      let same : r.files_completed ≡ r.files_completed + 0 = omega arith in
      (r.disk, ends rounds r idle p ∙ ap (λ n. complete n r.disk) same, refl)
  all_files (f ∷ fs) rounds r idle fits p h =
      let (m, q, through, enough, still, after, stored_in, files) =
        one_file rounds r f (stream fs) idle fits.0
          (p ∙ append_assoc (message f) (messages fs) make_all_done)
          (omega (arith, rounds_pos fs)) in
      let (e, finished, logged) = all_files fs m q still fits.1 after (omega arith) in
      let same : q.files_completed + length fs ≡ r.files_completed + suc (length fs) =
        omega (arith, files) in
      (
        e,
        through ∙ finished ∙ ap (λ n. complete n e) same,
        logged ∙ ap (log_after dst_path fs) stored_in,
      )

  -- From the stream of a sender whose files fit the protocol, with a queue depth and a chunk size
  -- that are not zero, on a kernel that works and a connection that stands: after one round for each
  -- byte, two more for each file and one, `AsyncReceiver::run` returns true with the right count, and
  -- the disk holds exactly the sender's files below the destination, each with its permission bits
  -- and its bytes, in the order in which they were sent.
  pub run-stores :
      (fs : List SourceFile) (queue_depth rounds : ℕ) (s : k.State) (d : n.State)
      → 0 < queue_depth
      → 0 < chunk_size
      → All Fits fs
      → k.pending s ≡ stream fs
      → rounds_for fs ≤ rounds
      → (e : n.State) × (run_from k true n chunk_size dst_path rounds
            (started k true n chunk_size dst_path queue_depth s d)
          ≡ complete (length fs) e)
        × (log e ≡ log_after dst_path fs (log d))
  unfolding started
  run-stores fs queue_depth rounds s d h c fits p enough =
      let r = started k true n chunk_size dst_path queue_depth s d in
      let (e, ran, logged) =
        all_files fs rounds r (started-Idle k n chunk_size dst_path queue_depth s d h c) fits p
          enough in
      (e, ran ∙ ap (λ m. complete m e) (omega arith), logged)
