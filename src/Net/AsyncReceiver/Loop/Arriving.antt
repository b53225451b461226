-- ===== src/Net/AsyncReceiver/Loop/Arriving.antt =====
-- src/net_uring.cpp, `AsyncReceiver::run`: the round that starts with a header.
use uring_sync.Base.{
  set, ap₂, ℕ, ◌+◌, ◌%◌, ◌≡◌, refl, ap, ◌∙◌, List, [], ◌∷◌, ◌++◌, Option, true, false, none, some,
  length, arith, Option-cases, inl, inr, ltb, ltb-false,
}
use uring_sync.Protocol.Codec.{MsgType, msg_header_size}
use uring_sync.Protocol.Messages.{make_all_done}
use uring_sync.Net.Socket.{Socket, Delivers, recv_header, recv_all}
use uring_sync.Net.Stream.{SourceFile, Fits, message}
use uring_sync.Net.Receiver.Storing.{file_arrives, end_arrives, header_of}
use uring_sync.Net.AsyncReceiver.{
  RecvOp, RecvContext, Request, opening, recv_exact, stored, stored-recv_all,
}
use uring_sync.Paths.{join}
use uring_sync.Net.AsyncReceiver.Loop.{
  Kernel, Run, Header, Begun, last, file, bad, by_type, receive_header, is_hdr, going, begin,
  located, context_at, meta_size,
}
use uring_sync.Net.AsyncReceiver.Loop.Rounds.{busy}

module _ (k : Socket) where
  -- The header is read as by `recv_header` of src/net.cpp.
  abbrev pub by_header : Option ((MsgType × ℕ) × k.State) → Header k.State
  by_header none = bad
  by_header (some ((type, len), s)) = by_type k true type len s

  pub receive_header_lem : (s : k.State) → receive_header k true s ≡ by_header (recv_header k s)
  unfolding receive_header recv_header recv_exact
  receive_header_lem s = elim (Option-cases (recv_all k msg_header_size s)) [
    | inl e ↦ rw e refl
    | inr ((bytes, t), e) ↦ rw e refl
  ]

module _ (k : Socket) (d : Delivers k) where
  pub receive_header-file :
      (f : SourceFile) (rest : List ℕ) (s : k.State)
      → Fits f
      → k.pending s ≡ message f ++ rest
      → (t : k.State) × (receive_header k true s ≡ file (header_of f) t)
        × (k.pending t ≡ f.content ++ rest)
  unfolding recv_exact
  receive_header-file f rest s fits p =
      let (payload, s₁, t, header, taken, parsed, after, sized) =
        file_arrives k d f rest s fits p in
      let stored_it = stored-recv_all k true (14 + length f.path) s₁ (payload, t) taken in
      let fits_in : ltb meta_size (length (stored k true (14 + length f.path) s₁).0) ≡ false =
        ltb-false meta_size (length (stored k true (14 + length f.path) s₁).0)
          (omega (arith, fits.short, ap (λ r. length r.0) stored_it, sized)) in
      (
        t,
        receive_header_lem k s ∙ ap (by_header k) header ∙ rw (fits_in, taken, parsed, fits.safe),
        after,
      )

  pub receive_header-last :
      (s : k.State)
      → k.pending s ≡ make_all_done
      → (t : k.State) × (receive_header k true s ≡ last t)
  receive_header-last s p =
      let (t, header) = end_arrives k d s p in (t, receive_header_lem k s ∙ ap (by_header k) header)

module _ (k : Socket) (n : Kernel) (chunk_size : ℕ) (dst_path : List ℕ) where
  -- The context of a file that is being opened.
  abbrev pub entered : SourceFile → RecvContext → RecvContext
  entered f c = record (located k true n chunk_size dst_path (header_of f) c) {
    state = opening;
    current_op = RecvOp.opened;
  }

  pub begin-file :
      (r : Run k n) (f : SourceFile) (t : k.State) (e : n.State)
      → is_hdr (context_at k true n chunk_size dst_path r.current r).state ≡ true
      → r.outstanding ≡ []
      → receive_header k true r.sock ≡ file (header_of f) t
      → n.parents (join dst_path f.path) r.disk ≡ some e
      → begin k true n chunk_size dst_path r
        ≡ going (
            busy k n r r.current
              (entered f (context_at k true n chunk_size dst_path r.current r))
              t
              e
              (Request.openat (join dst_path f.path) (f.mode % 512)))
  unfolding begin
  begin-file r f t e hdr quiet header parents =
      let i = r.current in
      let c = entered f (context_at k true n chunk_size dst_path i r) in
      let same : f.mode % 512 % 512 ≡ f.mode % 512 = omega arith in
      rw (hdr, header, parents)
        (ap
          (λ out.
            going
              (record r { contexts = set r.contexts i c; sock = t; disk = e; outstanding = out }))
          (ap₂ (λ o m. o ++ (i, Request.openat (join dst_path f.path) m) ∷ []) quiet same))

  pub begin-last :
      (r : Run k n) (t : k.State)
      → is_hdr (context_at k true n chunk_size dst_path r.current r).state ≡ true
      → receive_header k true r.sock ≡ last t
      → begin k true n chunk_size dst_path r ≡ Begun.last (record r { sock = t })
  unfolding begin
  begin-last r t hdr header = rw (hdr, header) refl
