-- ===== src/Net/Receiver/Storing.antt =====
-- src/net.cpp, `run_receiver`: the loop over the stream of a sender, on a disk that works.
use uring_sync.Base.{
  ℕ, zero, suc, ◌+◌, ◌-◌, ◌%◌, ◌<◌, ◌≤◌, ◌≡◌, refl, sym, ap, ◌∙◌, min, List, [], ◌∷◌, ◌++◌, true,
  false, some, ◌==◌, arith, length, take, drop, All, append_assoc, append-nil, take-append-drop,
  length-take, ap₂, take_all, length-drop,
}
use uring_sync.Base.Int.{pos}
use uring_sync.Protocol.Codec.{
  file_hdr, all_done, write_header, write_u16, write_u32, write_u64, max_path_len,
}
use uring_sync.Protocol.Messages.{make_file_hdr, make_all_done}
use uring_sync.Protocol.Layout.{make_file_hdr_layout, make_all_done_layout, sizes}
use uring_sync.Protocol.RoundTrip.{parse_file_hdr-fields}
use uring_sync.Protocol.Parsers.{FileHdrMsg, parse_file_hdr}
use uring_sync.Protocol.SafePath.{slash}
use uring_sync.Net.Socket.{Socket, Delivers, recv_all, recv_header}
use uring_sync.Net.Framing.{recv_all-next, recv_header-next}
use uring_sync.Net.Stream.{SourceFile, Fits, message, messages, stream}
use uring_sync.Net.Receiver.{
  Disk, last, file, next_message, complete, receive_data, receive_files, buf_size,
}

-- The record that a created file leaves: its path, its mode and the bytes written to it.
abbrev pub Stored : Type 0
Stored = List ℕ × ℕ × List ℕ

-- A disk that works, seen as the list of the files that were created, newest first, and the
-- descriptor of the newest: parents can be made, a file is created empty, and a write to the newest
-- file adds all its bytes.
pub record Stores (disk : Disk) (log : disk.State → List Stored) (newest : disk.State → ℕ)
    : Type 0 where
  pub parents :
      (path : List ℕ) (d : disk.State)
      → (e : disk.State) × (disk.parents path d ≡ some e) × (log e ≡ log d)
  pub creates :
      (path : List ℕ) (mode : ℕ) (d : disk.State)
      → let r = disk.create path mode d in
        (r.0 ≡ pos (newest r.1)) × (log r.1 ≡ (path, mode, []) ∷ log d)
  pub writes :
      (buf : List ℕ) (d : disk.State) (path : List ℕ) (mode : ℕ) (bytes : List ℕ)
      (older : List Stored)
      → log d ≡ (path, mode, bytes) ∷ older
      → let r = disk.write (newest d) buf d in
        (r.0 ≡ pos (length buf))
        × (log r.1 ≡ (path, mode, bytes ++ buf) ∷ older)
        × (newest r.1 ≡ newest d)

-- What the files of a sender leave below `dst_path`, after `log`.
abbrev pub stored : List ℕ → SourceFile → Stored
stored dst_path f = (dst_path ++ slash ∷ f.path, f.mode % 512, f.content)

abbrev pub log_after : List ℕ → List SourceFile → List Stored → List Stored
log_after dst_path [] log = log
log_after dst_path (f ∷ fs) log = log_after dst_path fs (stored dst_path f ∷ log)

abbrev pub header_of : SourceFile → FileHdrMsg
header_of f = record { size = length f.content; mode = f.mode % 512; path = f.path }

module _ (k : Socket) (d : Delivers k) where
  -- What a receiver finds in front of the bytes of a file.
  pub file_arrives :
      (f : SourceFile) (rest : List ℕ) (s : k.State)
      → Fits f
      → k.pending s ≡ message f ++ rest
      → (payload : List ℕ) × (s₁ : k.State) × (t : k.State) × (recv_header k s
          ≡ some ((file_hdr, 14 + length f.path), s₁))
        × (recv_all k (14 + length f.path) s₁ ≡ some (payload, t))
        × (parse_file_hdr payload (14 + length f.path) ≡ some (header_of f))
        × (k.pending t ≡ f.content ++ rest)
        × (length payload ≡ 14 + length f.path)
  file_arrives f rest s fits p =
      let n = length f.path in
      let fields =
        write_u64 (length f.content) ++ (write_u32 (f.mode % 512) ++ (write_u16 n ++ f.path)) in
      let short : min n max_path_len ≡ n = omega (arith, fits.short) in
      let laid : make_file_hdr (length f.content) (f.mode % 512) f.path
          ≡ write_header file_hdr (14 + n) ++ fields =
        rw (
          make_file_hdr_layout (length f.content) (f.mode % 512) f.path,
          short,
          take_all n f.path (omega arith),
        ) in
      let (s₁, header, p₁, _) =
        recv_header-next k d file_hdr (14 + n) (fields ++ (f.content ++ rest)) s refl
          (omega (arith, fits.short))
          (p
            ∙ append_assoc (make_file_hdr (length f.content) (f.mode % 512) f.path) f.content rest
            ∙ ap (λ b. b ++ (f.content ++ rest)) laid
            ∙ append_assoc (write_header file_hdr (14 + n)) fields (f.content ++ rest)) in
      let (s₂, payload, p₂, _) =
        recv_all-next k d (14 + n) fields (f.content ++ rest) s₁ (omega sizes) p₁ in
      (
        fields,
        s₁,
        s₂,
        header,
        payload,
        parse_file_hdr-fields (length f.content) (f.mode % 512) f.path fits.sized (omega arith)
            (omega (arith, fits.short)),
        p₂,
        omega sizes,
      )

  next_message-file :
      (f : SourceFile) (rest : List ℕ) (s : k.State)
      → Fits f
      → k.pending s ≡ message f ++ rest
      → (t : k.State) × (next_message k s ≡ file (header_of f) t)
        × (k.pending t ≡ f.content ++ rest)
  unfolding next_message
  next_message-file f rest s fits p =
      let (_, s₁, t, header, payload, parsed, after, _) = file_arrives f rest s fits p in
      (t, rw (header, payload, parsed, fits.safe), after)

  pub end_arrives :
      (s : k.State)
      → k.pending s ≡ make_all_done
      → (t : k.State) × (recv_header k s ≡ some ((all_done, 0), t))
  end_arrives s p =
      let (t, header, _, _) =
        recv_header-next k d all_done 0 [] s refl (omega arith)
          (p ∙ make_all_done_layout ∙ sym (append-nil (write_header all_done 0))) in
      (t, header)

  next_message-last :
      (s : k.State) → k.pending s ≡ make_all_done → (t : k.State) × (next_message k s ≡ last t)
  unfolding next_message
  next_message-last s p = let (t, header) = end_arrives s p in (t, rw header)

module _ (k : Socket) (d : Delivers k) (disk : Disk) (log : disk.State → List Stored)
    (newest : disk.State → ℕ) (o : Stores disk log newest) where
  receive_data-step :
      (rounds fd remaining : ℕ) (s t : k.State) (w : disk.State) (buffer : List ℕ)
      → 0 < remaining
      → recv_all k (min remaining buf_size) s ≡ some (buffer, t)
      → (disk.write fd buffer w).0 ≡ pos (min remaining buf_size)
      → receive_data k disk (suc rounds) fd remaining s w
        ≡ receive_data k disk rounds fd
            (remaining - min remaining buf_size)
            t
            (disk.write fd buffer w).1
  unfolding receive_data
  receive_data-step rounds fd remaining s t w buffer more got put =
      let busy : (remaining == 0) ≡ false = ground arith in
      let whole : (min remaining buf_size == min remaining buf_size) ≡ true = ground arith in
      rw (busy, receive_data)
        (rw (got, receive_data) (rw (put, receive_data) (rw (whole, receive_data))))

  receive_data-end :
      (rounds fd : ℕ) (s : k.State) (w : disk.State)
      → receive_data k disk rounds fd 0 s w ≡ (some s, w)
  unfolding receive_data
  receive_data-end zero fd s w = refl
  receive_data-end (suc rounds) fd s w = refl

  receive_data-stores :
      (rounds : ℕ) (content rest : List ℕ) (s : k.State) (w : disk.State) (path : List ℕ) (mode : ℕ)
      (bytes : List ℕ) (older : List Stored)
      → length content ≤ rounds
      → k.pending s ≡ content ++ rest
      → log w ≡ (path, mode, bytes) ∷ older
      → (t : k.State) × (v : disk.State) × (receive_data k disk rounds
            (newest w)
            (length content)
            s
            w
          ≡ (some t, v))
        × (k.pending t ≡ rest)
        × (log v ≡ (path, mode, bytes ++ content) ∷ older)
  receive_data-stores rounds [] rest s w path mode bytes older fits p l = (
    s,
    w,
    receive_data-end rounds (newest w) s w,
    p,
    l ∙ ap (λ b. (path, mode, b) ∷ older) (sym (append-nil bytes)),
  )
  receive_data-stores zero (c ∷ cs) rest s w path mode bytes older fits p l = absurd (omega arith)
  receive_data-stores (suc rounds) (c ∷ cs) rest s w path mode bytes older fits p l =
      let content = c ∷ cs in
      let len = min (length content) buf_size in
      let piece = take len content in
      let left = drop len content in
      let counted : length piece ≡ len = omega (arith, length-take len content) in
      let (s', got, p', _) = recv_all-next k d len piece (left ++ rest) s counted (
        p
        ∙ ap (λ b. b ++ rest) (sym (take-append-drop len content))
        ∙ append_assoc piece left rest) in
      let (put, l', same) = o.writes piece w path mode bytes older l in
      let w' = (disk.write (newest w) piece w).1 in
      let (t, v, ran, pt, lv) =
        receive_data-stores rounds left rest s' w' path mode (bytes ++ piece) older
          (omega (arith, length-drop len content)) p' l' in
      let after : receive_data k disk rounds (newest w') (length left) s' w'
          ≡ receive_data k disk rounds (newest w) (length content - len) s' w' =
        ap₂ (λ i j. receive_data k disk rounds i j s' w') same (length-drop len content) in
      (
        t,
        v,
        receive_data-step rounds (newest w) (length content) s s' w piece (omega arith) got
              (put ∙ ap pos counted)
            ∙ sym after
            ∙ ran,
        pt,
        lv
            ∙ ap (λ b. (path, mode, b) ∷ older)
                (append_assoc bytes piece left
                  ∙ ap (λ b. bytes ++ b) (take-append-drop len content)),
      )

  module _ (dst_path : List ℕ) where
    receive_files-step :
        (rounds received : ℕ) (f : SourceFile) (s s₁ s₄ : k.State) (w w₁ w₃ : disk.State) (fd : ℕ)
        → let path = dst_path ++ slash ∷ f.path in
          let r = disk.create path (f.mode % 512) w₁ in
          next_message k s ≡ file (header_of f) s₁
          → disk.parents path w ≡ some w₁
          → r.0 ≡ pos fd
          → receive_data k disk (length f.content) fd (length f.content) s₁ r.1 ≡ (some s₄, w₃)
          → receive_files k disk dst_path (suc rounds) received s w
            ≡ receive_files k disk dst_path rounds (received + 1) s₄ w₃
    unfolding receive_files
    receive_files-step rounds received f s s₁ s₄ w w₁ w₃ fd e p c r =
        rw (e, receive_files)
          (rw (p, receive_files)
            (rw (c, receive_files)
              (rw (r, receive_files)
                (ap (λ q. receive_files k disk dst_path rounds (received + 1) s₄ q.1) r))))

    receive_files-end :
        (rounds received : ℕ) (s t : k.State) (w : disk.State)
        → next_message k s ≡ last t
        → receive_files k disk dst_path (suc rounds) received s w ≡ complete received w
    unfolding receive_files
    receive_files-end rounds received s t w e = rw (e, receive_files)

    -- From the stream of a sender whose files fit the protocol, on a disk that works and a connection
    -- that stands, the loop ends with exit code 0 and the right count after one round for each file and
    -- one more, and the disk holds exactly the sender's files below the destination, each with its
    -- permission bits and its bytes, in the order in which they were sent.
    pub receive_files-stores :
        (fs : List SourceFile) (rounds received : ℕ) (s : k.State) (w : disk.State)
        → All Fits fs
        → length fs < rounds
        → k.pending s ≡ stream fs
        → (v : disk.State) × (receive_files k disk dst_path rounds received s w
            ≡ complete (received + length fs) v)
          × (log v ≡ log_after dst_path fs (log w))
    receive_files-stores fs zero received s w fits more p = absurd (omega arith)
    receive_files-stores [] (suc rounds) received s w fits more p =
        let (t, e) = next_message-last k d s p in
        let same : received ≡ received + 0 = omega arith in
        (w, receive_files-end rounds received s t w e ∙ ap (λ n. complete n w) same, refl)
    receive_files-stores (f ∷ fs) (suc rounds) received s w fits more p =
        let path = dst_path ++ slash ∷ f.path in
        let (s₁, e, p₁) =
          next_message-file k d f (stream fs) s fits.0
            (p ∙ append_assoc (message f) (messages fs) make_all_done) in
        let (w₁, made, l₁) = o.parents path w in
        let (opened, l₂) = o.creates path (f.mode % 512) w₁ in
        let w₂ = (disk.create path (f.mode % 512) w₁).1 in
        let (s₄, w₃, ran, p₄, l₃) =
          receive_data-stores (length f.content) f.content (stream fs) s₁ w₂ path (f.mode % 512) []
            (log w₁) (omega arith) p₁ l₂ in
        let (v, done, l) =
          receive_files-stores fs rounds (received + 1) s₄ w₃ fits.1 (omega arith) p₄ in
        let same : received + 1 + length fs ≡ received + suc (length fs) = omega arith in
        (
          v,
          receive_files-step rounds received f s s₁ s₄ w w₁ w₃ (newest w₂) e made opened ran
              ∙ done
              ∙ ap (λ n. complete n v) same,
          l ∙ ap (log_after dst_path fs) (l₃ ∙ ap (λ b. stored dst_path f ∷ b) l₁),
        )
