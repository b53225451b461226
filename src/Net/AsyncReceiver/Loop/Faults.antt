-- ===== src/Net/AsyncReceiver/Loop/Faults.antt =====
-- src/net_uring.cpp, `AsyncReceiver::run`: a payload that is too long, and a file that cannot be opened.
use uring_sync.Base.{
  arith, ℕ, suc, ◌+◌, ◌%◌, ◌^◌, ◌<◌, ◌≡◌, refl, ap, ◌∙◌, List, [], ◌∷◌, ◌++◌, true, false, some,
  length, lt→ltb, set-set, get_or-set_self, All-get_or,
}
use uring_sync.Base.Int.{negsuc}
use uring_sync.FileCopy.Advance.{close_if_open}
use uring_sync.Paths.{join}
use uring_sync.Protocol.Codec.{file_hdr, write_header}
use uring_sync.Net.Socket.{Socket, Delivers}
use uring_sync.Net.Framing.{recv_header-next, recv_all-next}
use uring_sync.Net.Stream.{SourceFile, Fits, message}
use uring_sync.Net.AsyncReceiver.{
  Request, RecvContext, failed, stored, stored-recv_all, advance_recv_state,
}
use uring_sync.Net.AsyncReceiver.Loop.{
  Kernel, Run, overrun, too_long, fresh, context_at, settled, process, begin, run_from,
  receive_header, meta_size,
}
use uring_sync.Net.AsyncReceiver.Loop.Rounds.{
  at, busy, machine, same_index, run_from-going, settled-ended,
}
use uring_sync.Net.AsyncReceiver.Loop.Arriving.{
  receive_header_lem, by_header, receive_header-file, entered, begin-file,
}
use uring_sync.Net.AsyncReceiver.Loop.Pieces.{Rests, Idle, recycle-Idle}

module _ (k : Socket) (d : Delivers k) (n : Kernel) (chunk_size : ℕ) (dst_path : List ℕ) where
  -- Between two files and over a connection that stands: a FILE_HDR message with a payload of more
  -- bytes than `meta_buf_` has, whatever they are, is not refused: the run ends as `overrun`, with the
  -- disk as it was.
  pub long_payload-overruns :
      (rounds : ℕ) (payload rest : List ℕ) (r : Run k n)
      → Idle k n chunk_size dst_path r
      → meta_size < length payload
      → length payload < 2 ^ 32
      → k.pending r.sock ≡ write_header file_hdr (length payload) ++ (payload ++ rest)
      → run_from k true n chunk_size dst_path (suc rounds) r ≡ overrun r.disk
  unfolding run_from begin
  long_payload-overruns rounds payload rest r idle long small p =
      let len = length payload in
      let (t, header, q, _) =
        recv_header-next k d file_hdr len (payload ++ rest) r.sock refl small p in
      let (u, taken, _, _) = recv_all-next k d len payload rest t refl q in
      let all : length (stored k true len t).0 ≡ len =
        ap (λ x. length x.0) (stored-recv_all k true len t (payload, u) taken) in
      let found : receive_header k true r.sock ≡ too_long =
        receive_header_lem k r.sock
        ∙ ap (by_header k) header
        ∙ rw (lt→ltb meta_size (length (stored k true len t).0) (omega (arith, all))) refl in
      rw (idle.hdr, found, run_from) refl

  -- The step of a file whose open failed.
  failed_open :
      (base : Run k n) (i error : ℕ) (c : RecvContext) (s : k.State) (e : n.State)
      (request : Request)
      → i < length base.contexts
      → advance_recv_state k true (negsuc error) (machine k n c s [] base.closed) ≡ (
        false,
        record (machine k n c s [] base.closed) { closed = base.closed ++ close_if_open c.fd },
      )
      → process k true n chunk_size dst_path (i, negsuc error) (busy k n base i c s e request)
        ≡ settled k true n chunk_size dst_path i (
            at k n
              (record base { closed = base.closed ++ close_if_open c.fd })
              i
              (record c { state = failed })
              s
              e
              [])
  unfolding process
  failed_open base i error c s e request h q =
      rw
        (
          same_index i,
          get_or-set_self base.contexts i c (fresh chunk_size) h,
          q,
          set-set base.contexts i c c,
          get_or-set_self base.contexts i c (fresh chunk_size) h,
          set-set base.contexts i c (record c { state = failed }),
        )
        refl

  -- A file that cannot be opened, of a sender whose files fit the protocol, between two files and over a
  -- connection that stands: the round goes on as if the file was done. It is counted, and its bytes
  -- stay on the connection, where the next round takes them for a header.
  pub failed_open-desynchronises :
      (rounds error : ℕ) (f : SourceFile) (rest : List ℕ) (r : Run k n) (e : n.State)
      → Idle k n chunk_size dst_path r
      → Fits f
      → k.pending r.sock ≡ message f ++ rest
      → ((w : n.State)
          → n.wait ((r.current, Request.openat (join dst_path f.path) (f.mode % 512)) ∷ []) w
            ≡ (some ((r.current, negsuc error) ∷ []), e))
      → ((path : List ℕ) (w : n.State) → (v : n.State) × (n.parents path w ≡ some v))
      → (q : Run k n) × (run_from k true n chunk_size dst_path (suc rounds) r
          ≡ run_from k true n chunk_size dst_path rounds q)
        × Idle k n chunk_size dst_path q
        × (k.pending q.sock ≡ f.content ++ rest)
        × (q.files_completed ≡ r.files_completed + 1)
        × (q.disk ≡ e)
  unfolding advance_recv_state
  failed_open-desynchronises rounds error f rest r e idle fits p refused made =
      let i = r.current in
      let (t, header, stream) = receive_header-file k d f rest r.sock fits p in
      let (v, parents) = made (join dst_path f.path) r.disk in
      let c = entered k n chunk_size dst_path f (context_at k true n chunk_size dst_path i r) in
      let base = record r { closed = r.closed ++ close_if_open c.fd } in
      let room = (All-get_or Rests r.contexts i (fresh chunk_size) idle.resting idle.inside).1 in
      (
        _,
        run_from-going k n chunk_size dst_path rounds r _ e (i, negsuc error)
              (begin-file k n chunk_size dst_path r f t v idle.hdr idle.quiet header parents)
              (refused v)
            ∙ ap (run_from k true n chunk_size dst_path rounds) (
                failed_open r i error c t e (Request.openat (join dst_path f.path) (f.mode % 512))
                  idle.inside refl
                ∙ settled-ended k n chunk_size dst_path base (record c { state = failed }) t e []
                    idle.inside refl),
        recycle-Idle k n chunk_size dst_path base (record c { state = failed }) t e idle.inside
            idle.same idle.resting (refl, room),
        stream,
        refl,
        refl,
      )
