-- ===== src/Net/AsyncReceiver/Loop/Pieces.antt =====
-- src/net_uring.cpp, `AsyncReceiver::run`: one file from its first write to its end, on a kernel that
-- works.
use uring_sync.Base.{
  ℕ, zero, suc, ◌+◌, ◌%◌, ◌<◌, ◌≤◌, ◌≡◌, refl, sym, ap, ◌∙◌, min, List, [], ◌∷◌, ◌++◌, true, false,
  some, arith, length, length-append, ap₂, drop, All, append_assoc, append-nil, take-append-drop,
  length-take, length-drop, get_or, set, length-set, All-set, All-get_or, All-replicate,
  length-replicate, get_or-set_self,
}
use native.Mathlib.Nat.{mod-lt}
use uring_sync.Base.Int.{ℤ, pos, negsuc}
use uring_sync.FileCopy.Types.{word}
use uring_sync.Net.Socket.{Socket, Delivers}
use uring_sync.Net.Stream.{stream}
use uring_sync.Net.Receiver.Storing.{Stored}
use uring_sync.Net.AsyncReceiver.{
  RecvContext, Request, done, recv_hdr, advance_recv_state, switch_recv,
}
use uring_sync.Net.AsyncReceiver.Loop.{
  Kernel, Run, started, fresh, is_hdr, is_ended, is_pending, any_pending, context_at, recycle,
  run_from, started,
}
use uring_sync.Net.AsyncReceiver.Loop.Rounds.{
  at, busy, run_from-going, begin-busy, stepped, settled-going, settled-ended, ending, filled,
  piece, write_of, onward, request_of, left_after, writing_lem,
}

-- A kernel that works, seen as the list of the files that were created, newest first, and the
-- descriptor of the newest: parents can be made, and the one request that is on its way completes, an
-- open by creating an empty file, a write at the end of the newest file by adding all its bytes, and a
-- close.
pub record Serves (n : Kernel) (log : n.State → List Stored) (newest : n.State → ℕ) : Type 0 where
  pub parents :
      (path : List ℕ) (d : n.State) → (e : n.State) × (n.parents path d ≡ some e) × (log e ≡ log d)
  pub opens :
      (i : ℕ) (path : List ℕ) (mode : ℕ) (d : n.State)
      → (e : n.State) × (n.wait ((i, Request.openat path mode) ∷ []) d
          ≡ (some ((i, pos (newest e)) ∷ []), e))
        × (log e ≡ (path, mode, []) ∷ log d)
  pub writes :
      (i : ℕ) (buf : List ℕ) (d : n.State) (path : List ℕ) (mode : ℕ) (bytes : List ℕ)
      (older : List Stored)
      → log d ≡ (path, mode, bytes) ∷ older
      → (e : n.State) × (n.wait
            ((i, Request.write (pos (newest d)) buf (length buf) (length bytes)) ∷ [])
            d
          ≡ (some ((i, pos (length buf)) ∷ []), e))
        × (log e ≡ (path, mode, bytes ++ buf) ∷ older)
        × (newest e ≡ newest d)
  pub closes :
      (i : ℕ) (fd : ℤ) (d : n.State)
      → (e : n.State) × (n.wait ((i, Request.close fd) ∷ []) d ≡ (some ((i, pos 0) ∷ []), e))
        × (log e ≡ log d)

-- A context that waits for nothing, with room in its buffer.
abbrev pub Rests : RecvContext → Type 0
Rests c = (is_pending c.state ≡ false) × (0 < c.buf_size)

-- Between two files.
pub record Idle (k : Socket) (n : Kernel) (chunk_size : ℕ) (dst_path : List ℕ) (r : Run k n)
    : Type 0 where
  pub inside : r.current < length r.contexts
  pub same : r.ctx_idx ≡ r.current
  pub hdr : is_hdr (context_at k true n chunk_size dst_path r.current r).state ≡ true
  pub quiet : r.outstanding ≡ []
  pub resting : All Rests r.contexts

pub none_pending : (cs : List RecvContext) → All Rests cs → any_pending cs ≡ false
none_pending [] a = refl
none_pending (c ∷ cs) a = rw (a.0.0, none_pending cs a.1)

module _ (k : Socket) (n : Kernel) (chunk_size : ℕ) (dst_path : List ℕ) where
  -- The end of a file, whose context is `c`.
  pub recycle-Idle :
      (base : Run k n) (c : RecvContext) (s : k.State) (d : n.State)
      → base.current < length base.contexts
      → base.ctx_idx ≡ base.current
      → All Rests base.contexts
      → Rests c
      → Idle k n chunk_size dst_path (
          recycle k true n chunk_size dst_path (record (at k n base base.current c s d []) {
            files_completed = base.files_completed + 1;
          }))
  recycle-Idle base c s d inside same resting rests =
      let cs = set base.contexts base.current c in
      let next = (base.ctx_idx + 1) % length cs in
      let again = record (get_or cs next (fresh chunk_size)) { state = recv_hdr; fd = negsuc 0 } in
      let counted : length cs ≡ length base.contexts = length-set base.contexts base.current c in
      let below : next < length cs = grind (arith, mod-lt) in
      let all : All Rests cs = All-set Rests base.contexts base.current c resting rests in
      let old = All-get_or Rests cs next (fresh chunk_size) all below in
      record {
        inside = omega (arith, length-set cs next again);
        same = refl;
        hdr = ap (λ x. is_hdr x.state) (get_or-set_self cs next again (fresh chunk_size) below);
        quiet = refl;
        resting = All-set Rests cs next again all (refl, old.1);
      }

  -- Before the first file.
  pub started-Idle :
      (queue_depth : ℕ) (s : k.State) (d : n.State)
      → 0 < queue_depth
      → 0 < chunk_size
      → Idle k n chunk_size dst_path (started k true n chunk_size dst_path queue_depth s d)
  unfolding started
  started-Idle zero s d h c = absurd (omega arith)
  started-Idle (suc depth) s d h c = record {
    inside = omega (arith, length-replicate depth (fresh chunk_size));
    same = refl;
    hdr = refl;
    quiet = refl;
    resting = All-replicate Rests (suc depth) (fresh chunk_size) (refl, c);
  }

-- The file that is created under `path`, with `bytes` written and `left` not received yet.
pub record Midway (k : Socket) (n : Kernel) (log : n.State → List Stored) (newest : n.State → ℕ)
    (base : Run k n) (c : RecvContext) (t : k.State) (d : n.State) (left rest : List ℕ)
    (path : List ℕ) (mode : ℕ) (bytes : List ℕ) (older : List Stored) : Type 0 where
  pub inside : base.current < length base.contexts
  pub same : base.ctx_idx ≡ base.current
  pub resting : All Rests base.contexts
  pub room : 0 < c.buf_size
  pub fd : c.fd ≡ pos (newest d)
  pub received : c.received ≡ length bytes
  pub size : c.received + length left ≡ c.file_size
  pub small : c.file_size < word
  pub stream : k.pending t ≡ left_after k n c left ++ rest
  pub logged : log d ≡ (path, mode, bytes) ∷ older

module _ (k : Socket) (n : Kernel) where
  pub onward-going : (c : RecvContext) (left : List ℕ) → is_ended (onward k n c left).state ≡ false
  onward-going c [] = refl
  onward-going c (x ∷ xs) = refl

  pub onward-busy : (c : RecvContext) (left : List ℕ) → is_hdr (onward k n c left).state ≡ false
  onward-busy c [] = refl
  onward-busy c (x ∷ xs) = refl

module _ (k : Socket) (del : Delivers k) (n : Kernel) (log : n.State → List Stored)
    (newest : n.State → ℕ) (o : Serves n log newest) (chunk_size : ℕ) (dst_path : List ℕ) where
  -- The context after a write of the piece in its buffer.
  abbrev advanced : RecvContext → List ℕ → RecvContext
  advanced c left = record (filled k n c left) {
    received = c.received + min (length left) c.buf_size;
  }

  -- A round that writes a piece.
  write_round :
      (rounds : ℕ) (base : Run k n) (c : RecvContext) (t : k.State) (d : n.State) (x : ℕ)
      (xs rest path : List ℕ) (mode : ℕ) (bytes : List ℕ) (older : List Stored)
      → Midway k n log newest base c t d (x ∷ xs) rest path mode bytes older
      → let left = drop (min (length (x ∷ xs)) c.buf_size) (x ∷ xs) in
        (u : k.State) × (e : n.State) × (run_from k true n chunk_size dst_path
            (suc rounds)
            (busy k n base base.current (onward k n c (x ∷ xs)) t d (request_of k n c (x ∷ xs)))
          ≡ run_from k true n chunk_size dst_path rounds (
              busy k n base base.current
                (onward k n (advanced c (x ∷ xs)) left)
                u
                e
                (request_of k n (advanced c (x ∷ xs)) left)))
        × Midway k n log newest base
            (advanced c (x ∷ xs))
            u
            e
            left
            rest
            path
            mode
            (bytes ++ piece k n c (x ∷ xs))
            older
  write_round rounds base c t d x xs rest path mode bytes older w =
      let i = base.current in
      let all = x ∷ xs in
      let len = min (length all) c.buf_size in
      let buf = piece k n c all in
      let left = drop len all in
      let counted : length buf ≡ len = omega (arith, length-take len all) in
      let (e, wrote, logged, same) = o.writes i buf d path mode bytes older w.logged in
      let request = write_of k n c all in
      let asked : Request.write (pos (newest d)) buf (length buf) (length bytes) ≡ request =
        ap₂ (λ p l. Request.write p buf l (length bytes)) (sym w.fd) counted
        ∙ ap (Request.write c.fd buf len) (sym w.received) in
      let (u, ran, stream) =
        writing_lem k n del (filled k n c all) t base.closed left rest (length buf) refl
          (omega (arith, length-drop len all, w.size)) w.small w.stream in
      (
        u,
        e,
        run_from-going k n chunk_size dst_path rounds _ _ e (i, pos (length buf))
              (begin-busy k n chunk_size dst_path base (filled k n c all) t d request w.inside refl)
              (ap (λ q. n.wait ((i, q) ∷ []) d) (sym asked) ∙ wrote)
            ∙ ap (run_from k true n chunk_size dst_path rounds) (
                stepped k n chunk_size dst_path base i (filled k n c all)
                  (onward k n (advanced c all) left) t u e request
                  (request_of k n (advanced c all) left ∷ []) (pos (length buf)) w.inside ran
                ∙ settled-going k n chunk_size dst_path base i (onward k n (advanced c all) left) u
                    e ((i, request_of k n (advanced c all) left) ∷ []) w.inside
                    (onward-going k n (advanced c all) left)),
        record {
          inside = w.inside;
          same = w.same;
          resting = w.resting;
          room = w.room;
          fd = w.fd ∙ ap pos (sym same);
          received = omega (arith, counted, length-append bytes buf, w.received);
          size = omega (arith, length-drop len all, w.size);
          small = w.small;
          stream = stream;
          logged = logged;
        },
      )

  -- What `rounds` rounds from `r` come to once a file is through, with `spent` rounds for it.
  abbrev pub Through : ℕ → Run k n → ℕ → List ℕ → List Stored → ℕ → Type 0
  Through rounds r spent rest stored files =
      (m : ℕ) × (q : Run k n) × (run_from k true n chunk_size dst_path rounds r
        ≡ run_from k true n chunk_size dst_path m q)
      × (rounds ≤ m + spent)
      × Idle k n chunk_size dst_path q
      × (k.pending q.sock ≡ rest)
      × (log q.disk ≡ stored)
      × (q.files_completed ≡ files)

  pub finishes :
      (rounds : ℕ) (base : Run k n) (c : RecvContext) (t : k.State) (d : n.State)
      (left rest path : List ℕ) (mode : ℕ) (bytes : List ℕ) (older : List Stored)
      → length left < rounds
      → Midway k n log newest base c t d left rest path mode bytes older
      → Through rounds
          (busy k n base base.current (onward k n c left) t d (request_of k n c left))
          (length left + 1)
          rest
          ((path, mode, bytes ++ left) ∷ older)
          (base.files_completed + 1)
  unfolding advance_recv_state switch_recv
  finishes zero base c t d left rest path mode bytes older h w = absurd (omega arith)
  finishes (suc rounds) base c t d [] rest path mode bytes older h w =
      let i = base.current in
      let (e, closed, kept) = o.closes i c.fd d in
      let ended = record (ending k n c) { fd = negsuc 0; state = done } in
      (
        rounds,
        _,
        run_from-going k n chunk_size dst_path rounds _ _ e (i, pos 0)
              (begin-busy k n chunk_size dst_path base (ending k n c) t d (Request.close c.fd)
                w.inside refl)
              closed
            ∙ ap (run_from k true n chunk_size dst_path rounds) (
                stepped k n chunk_size dst_path base i (ending k n c) ended t t e
                  (Request.close c.fd) [] (pos 0) w.inside refl
                ∙ settled-ended k n chunk_size dst_path base ended t e [] w.inside refl),
        omega arith,
        recycle-Idle k n chunk_size dst_path base ended t e w.inside w.same w.resting
            (refl, w.room),
        w.stream,
        kept ∙ w.logged ∙ ap (λ b. (path, mode, b) ∷ older) (sym (append-nil bytes)),
        refl,
      )
  finishes (suc rounds) base c t d (x ∷ xs) rest path mode bytes older h w =
      let len = min (length (x ∷ xs)) c.buf_size in
      let left = drop len (x ∷ xs) in
      let (u, e, ran, w') = write_round rounds base c t d x xs rest path mode bytes older w in
      let (m, q, through, enough, idle, after, logged, files) =
        finishes rounds base (advanced c (x ∷ xs)) u e left rest path mode
          (bytes ++ piece k n c (x ∷ xs)) older (omega (arith, length-drop len (x ∷ xs), w.room))
          w' in
      (
        m,
        q,
        ran ∙ through,
        omega (arith, length-drop len (x ∷ xs), w.room),
        idle,
        after,
        logged
            ∙ ap (λ b. (path, mode, b) ∷ older)
                (append_assoc bytes (piece k n c (x ∷ xs)) left
                  ∙ ap (λ b. bytes ++ b) (take-append-drop len (x ∷ xs))),
        files,
      )
