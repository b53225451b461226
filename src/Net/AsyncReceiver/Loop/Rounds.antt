-- ===== src/Net/AsyncReceiver/Loop/Rounds.antt =====
-- src/net_uring.cpp, `AsyncReceiver::run`: single rounds, with one file in progress.
use uring_sync.Base.{
  if◌then◌else◌, ℕ, suc, ◌+◌, ◌<◌, ◌≡◌, refl, ap, sym, ◌∙◌, min, List, [], ◌∷◌, ◌++◌, Bool, true,
  false, some, length, set, set-set, get_or-set_self, arith, take, drop, length-take,
  take-append-drop, append_assoc, ◌==◌, leb, leb-false, le→leb,
}
use uring_sync.Base.Int.{ℤ, pos}
use uring_sync.FileCopy.Types.{add64, sub64, word}
use uring_sync.Net.Socket.{Socket, Delivers}
use uring_sync.Net.Framing.{recv_all-next}
use uring_sync.Net.AsyncReceiver.{
  RecvOp, RecvContext, Request, Receiver, opening, writing, closing, recv_exact, advance_recv_state,
  switch_recv, submit_close, receive_more, with_data,
}
use uring_sync.Net.AsyncReceiver.Loop.{
  Kernel, Run, going, fresh, tagged, is_ended, is_hdr, process, process_all, begin, run_from,
  recycle, settled,
}

module _ (k : Socket) (n : Kernel) where
  -- `base` with context `i` replaced by `c`; in `busy` one request of that context is on its way.
  abbrev pub at : Run k n → ℕ → RecvContext → k.State → n.State → List (ℕ × Request) → Run k n
  at base i c s d out = record base {
    contexts = set base.contexts i c;
    sock = s;
    disk = d;
    outstanding = out;
  }

  abbrev pub busy : Run k n → ℕ → RecvContext → k.State → n.State → Request → Run k n
  busy base i c s d request = at base i c s d ((i, request) ∷ [])

  abbrev pub machine : RecvContext → k.State → List Request → List ℤ → Receiver k
  machine c s prepared closed = record { ctx = c; sock = s; prepared = prepared; closed = closed }

  -- The context with the next piece of `left` in its buffer, and the request that writes it.
  abbrev pub piece : RecvContext → List ℕ → List ℕ
  piece c left = take (min (length left) c.buf_size) left

  abbrev pub filled : RecvContext → List ℕ → RecvContext
  filled c left = record c {
    state = writing;
    current_op = RecvOp.write;
    buffer = piece c left;
    last_recv = min (length left) c.buf_size;
  }

  abbrev pub write_of : RecvContext → List ℕ → Request
  write_of c left = Request.write c.fd (piece c left) (min (length left) c.buf_size) c.received

  abbrev pub ending : RecvContext → RecvContext
  ending c = record c { state = closing; current_op = RecvOp.close }

  -- With all bytes received the file is closed, and else its next piece is written.
  abbrev pub onward : RecvContext → List ℕ → RecvContext
  onward c [] = ending c
  onward c (x ∷ xs) = filled c (x ∷ xs)

  abbrev pub request_of : RecvContext → List ℕ → Request
  request_of c [] = Request.close c.fd
  request_of c (x ∷ xs) = write_of c (x ∷ xs)

  abbrev pub left_after : RecvContext → List ℕ → List ℕ
  left_after c [] = []
  left_after c (x ∷ xs) = drop (min (length (x ∷ xs)) c.buf_size) (x ∷ xs)

  abbrev pub GoesOn : RecvContext → k.State → List ℤ → List ℕ → List ℕ → ℤ → RecvContext → Type 0
  GoesOn before s closed left rest result c =
      (t : k.State) × (advance_recv_state k true result (machine before s [] closed)
        ≡ (true, machine (onward c left) t (request_of c left ∷ []) closed))
      × (k.pending t ≡ left_after c left ++ rest)

pub same_index : (i : ℕ) → (i == i) ≡ true
same_index i = ground arith

module _ (k : Socket) (n : Kernel) (chunk_size : ℕ) (dst_path : List ℕ) where
  -- A round in which one completion arrives.
  pub run_from-going :
      (rounds : ℕ) (r r' : Run k n) (e : n.State) (c : ℕ × ℤ)
      → begin k true n chunk_size dst_path r ≡ going r'
      → n.wait r'.outstanding r'.disk ≡ (some (c ∷ []), e)
      → run_from k true n chunk_size dst_path (suc rounds) r
        ≡ run_from k true n chunk_size dst_path rounds
            (process k true n chunk_size dst_path c (record r' { disk = e }))
  unfolding run_from process_all
  run_from-going rounds r r' e c b w =
      rw (b, run_from)
        (rw (ap (λ x. x.0) w, run_from)
          (ap
            (λ d.
              run_from k true n chunk_size dst_path rounds
                (process k true n chunk_size dst_path c (record r' { disk = d })))
            (ap (λ x. x.1) w)))

  pub begin-busy :
      (base : Run k n) (c : RecvContext) (s : k.State) (d : n.State) (request : Request)
      → base.current < length base.contexts
      → is_hdr c.state ≡ false
      → begin k true n chunk_size dst_path (busy k n base base.current c s d request)
        ≡ going (busy k n base base.current c s d request)
  unfolding begin
  begin-busy base c s d request h p =
      rw (get_or-set_self base.contexts base.current c (fresh chunk_size) h, p) refl

  -- What a step of context `i` leaves, from a run in which it has the only request.
  pub stepped :
      (base : Run k n) (i : ℕ) (c c' : RecvContext) (s s' : k.State) (d : n.State)
      (request : Request) (prepared : List Request) (result : ℤ)
      → i < length base.contexts
      → advance_recv_state k true result (machine k n c s [] base.closed)
        ≡ (true, machine k n c' s' prepared base.closed)
      → process k true n chunk_size dst_path (i, result) (busy k n base i c s d request)
        ≡ settled k true n chunk_size dst_path i
            (at k n base i c' s' d (tagged k true n chunk_size dst_path i prepared))
  unfolding process
  stepped base i c c' s s' d request prepared result h e =
      rw
        (
          same_index i,
          get_or-set_self base.contexts i c (fresh chunk_size) h,
          e,
          set-set base.contexts i c c',
        )
        refl

  pub settled-going :
      (base : Run k n) (i : ℕ) (c : RecvContext) (s : k.State) (d : n.State)
      (out : List (ℕ × Request))
      → i < length base.contexts
      → is_ended c.state ≡ false
      → settled k true n chunk_size dst_path i (at k n base i c s d out) ≡ at k n base i c s d out
  settled-going base i c s d out h p =
      rw (get_or-set_self base.contexts i c (fresh chunk_size) h, p) refl

  pub settled-ended :
      (base : Run k n) (c : RecvContext) (s : k.State) (d : n.State) (out : List (ℕ × Request))
      → base.current < length base.contexts
      → is_ended c.state ≡ true
      → settled k true n chunk_size dst_path base.current (at k n base base.current c s d out)
        ≡ recycle k true n chunk_size dst_path (record (at k n base base.current c s d out) {
          files_completed = base.files_completed + 1;
        })
  settled-ended base c s d out h p =
      rw
        (
          get_or-set_self base.contexts base.current c (fresh chunk_size) h,
          p,
          same_index base.current,
        )
        refl

-- The steps of the file: `left` are its bytes that are not received yet, and `rest` follows them.
module _ (k : Socket) (n : Kernel) (d : Delivers k) where
  -- The next piece is received, and its write is prepared.
  more_lem :
      (c : RecvContext) (s : k.State) (closed : List ℤ) (left rest : List ℕ)
      → c.received + length left ≡ c.file_size
      → c.file_size < word
      → k.pending s ≡ left ++ rest
      → (t : k.State) × (receive_more k true (machine k n c s [] closed)
          ≡ (true, machine k n (filled k n c left) t (write_of k n c left ∷ []) closed))
        × (k.pending t ≡ drop (min (length left) c.buf_size) left ++ rest)
  unfolding receive_more recv_exact
  more_lem c s closed left rest h w p =
      let len = min (length left) c.buf_size in
      let same : sub64 c.file_size c.received ≡ length left = omega arith in
      let (t, got, after, _) =
        recv_all-next k d len (piece k n c left) (drop len left ++ rest) s
          (omega (arith, length-take len left))
          (p
            ∙ ap (λ b. b ++ rest) (sym (take-append-drop len left))
            ∙ append_assoc (piece k n c left) (drop len left) rest) in
      let m = machine k n c s [] closed in
      (
        t,
        ap (λ l. with_data k true m (min l c.buf_size) (recv_exact k true (min l c.buf_size) s))
              same
            ∙ ap (with_data k true m len) got,
        after,
      )

  pub opening_lem :
      (c : RecvContext) (s : k.State) (closed : List ℤ) (left rest : List ℕ) (fd : ℕ)
      → c.state ≡ opening
      → c.received ≡ 0
      → length left ≡ c.file_size
      → c.file_size < word
      → k.pending s ≡ left ++ rest
      → GoesOn k n c s closed left rest (pos fd) (record c { fd = pos fd })
  unfolding advance_recv_state switch_recv submit_close
  opening_lem c s closed [] rest fd e z h w p =
      let empty : (c.file_size == 0) ≡ true = ground arith in (s, rw (e, empty) refl, p)
  opening_lem c s closed (x ∷ xs) rest fd e z h w p =
      let m = machine k n c s [] closed in
      let full : (c.file_size == 0) ≡ false = ground arith in
      let (t, ran, after) =
        more_lem (record c { fd = pos fd }) s closed (x ∷ xs) rest (omega arith) w p in
      (t, ap (λ q. switch_recv k true q fd m) e ∙ rw full ran, after)

  pub writing_lem :
      (c : RecvContext) (s : k.State) (closed : List ℤ) (left rest : List ℕ) (written : ℕ)
      → c.state ≡ writing
      → c.received + c.last_recv + length left ≡ c.file_size
      → c.file_size < word
      → k.pending s ≡ left ++ rest
      → GoesOn k n c s closed left rest
          (pos written)
          (record c { received = c.received + c.last_recv })
  unfolding advance_recv_state switch_recv submit_close
  writing_lem c s closed [] rest written e h w p =
      let whole : add64 c.received c.last_recv ≡ c.received + c.last_recv = omega arith in
      let all : leb c.file_size (c.received + c.last_recv) ≡ true =
        le→leb c.file_size (c.received + c.last_recv) (omega arith) in
      (s, rw (e, whole, all) refl, p)
  writing_lem c s closed (x ∷ xs) rest written e h w p =
      let m = machine k n c s [] closed in
      let whole : add64 c.received c.last_recv ≡ c.received + c.last_recv = omega arith in
      let some_left : leb c.file_size (c.received + c.last_recv) ≡ false =
        leb-false c.file_size (c.received + c.last_recv) (omega arith) in
      let (t, ran, after) =
        more_lem (record c { received = c.received + c.last_recv }) s closed (x ∷ xs) rest
          (omega arith) w p in
      let at_offset = λ (w : ℕ). machine k n (record c { received = w }) s [] closed in
      let after_test = λ (b : Bool) (w : ℕ).
        if b then submit_close k true (at_offset w) else receive_more k true (at_offset w) in
      (
        t,
        ap (λ q. switch_recv k true q written m) e
            ∙ ap (λ w. after_test (leb c.file_size w) w) whole
            ∙ ap (λ b. after_test b (c.received + c.last_recv)) some_left
            ∙ ran,
        after,
      )
