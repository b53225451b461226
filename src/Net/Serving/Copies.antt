-- ===== src/Net/Serving/Copies.antt =====
-- src/net_uring.cpp, `run_receiver_uring`: from HELLO to the last file.
use uring_sync.Base.{
  ℕ, ◌+◌, ◌≤◌, ◌≡◌, refl, ap, sym, ◌∙◌, min, List, [], ◌∷◌, ◌++◌, false, true, Option, some, arith,
  length, take, drop, ◌==◌, append_assoc, append-nil, length-take, take-min, take-append,
  drop-append, length-append, All,
}
use uring_sync.Base.Int.{ℤ, pos}
use uring_sync.Protocol.Codec.{
  hello, nonce_size, max_secret_len, msg_header_size, protocol_version, write_header, parse_header,
  parse_header-write_header,
}
use uring_sync.Protocol.Messages.{make_hello, make_hello_ok}
use uring_sync.Protocol.Layout.{make_hello_layout, sizes, length-write_header}
use uring_sync.Protocol.RoundTrip.{parse_hello-fields}
use uring_sync.Protocol.Parsers.{parse_hello}
use uring_sync.Net.Socket.{Socket, Delivers}
use uring_sync.Net.Stream.{SourceFile, Fits, stream}
use uring_sync.Net.Handshake.{accepted, wrong_secret}
use uring_sync.Net.Handshake.Answers.{heard}
use uring_sync.Net.Receiver.Storing.{Stored}
use uring_sync.Net.AsyncReceiver.Loop.{Kernel}
use uring_sync.Net.AsyncReceiver.Loop.Pieces.{Serves}
use uring_sync.Net.AsyncReceiver.Loop.Storing.{run-stores, rounds_for, log_after}
use uring_sync.Net.Serving.{
  recv_whole, accept_hello, exit, exit_of, run_receiver_uring, received, served, default_depth,
  default_chunk, dummy_nonce,
}

-- While the connection stands, `recv` with MSG_WAITALL gives all the bytes that it was asked for, and a
-- `send` leaves what the peer has still to give.
pub record Waits (k : Socket) (wait_all : ℕ → k.State → ℤ × List ℕ × k.State) : Type 0 where
  pub whole :
      (len : ℕ) (s : k.State)
      → len ≤ length (k.pending s)
      → let r = wait_all len s in
        (r.0 ≡ pos len) × (r.1 ≡ take len (k.pending s)) × (k.pending r.2 ≡ drop len (k.pending s))
  pub sends : (buf : List ℕ) (s : k.State) → k.pending (k.send buf s).1 ≡ k.pending s

module _ (k : Socket) (wait_all : ℕ → k.State → ℤ × List ℕ × k.State) (v : Waits k wait_all) where
  recv_whole-next :
      (n : ℕ) (xs ys : List ℕ) (s : k.State)
      → length xs ≡ n
      → k.pending s ≡ xs ++ ys
      → (t : k.State) × (recv_whole k wait_all n s ≡ some (xs, t)) × (k.pending t ≡ ys)
  unfolding recv_whole
  recv_whole-next n xs ys s e p =
      let (all, bytes, left) = v.whole n s (omega (arith, ap length p, length-append xs ys)) in
      let same : (n == n) ≡ true = ground arith in
      (
        (wait_all n s).2,
        rw (all, same)
            (ap (λ b. some (b, (wait_all n s).2)) (bytes ∙ ap (take n) p ∙ take-append n xs ys e)),
        left ∙ ap (drop n) p ∙ drop-append n xs ys e,
      )

  -- A HELLO with the right secret is accepted, and exactly it is taken off the stream.
  accept_hello-accepts :
      (secret given nonce_sender rest : List ℕ) (s : k.State)
      → length nonce_sender ≡ nonce_size
      → wrong_secret secret (take max_secret_len given) ≡ false
      → k.pending s ≡ make_hello given nonce_sender ++ rest
      → (t : k.State) × (accept_hello k wait_all secret s ≡ accepted (heard given nonce_sender) t)
        × (k.pending t ≡ rest)
  unfolding accept_hello
  accept_hello-accepts secret given nonce_sender rest s e right p =
      let n = min (length given) max_secret_len in
      let key = take n given in
      let keyed : length key ≡ n = omega (arith, length-take n given) in
      let fields = (protocol_version ∷ n ∷ []) ++ (key ++ nonce_sender) in
      let (s₁, header, p₁) =
        recv_whole-next msg_header_size (write_header hello (18 + n)) (fields ++ rest) s
          (length-write_header hello (18 + n))
          (p
            ∙ ap (λ b. b ++ rest) (make_hello_layout given nonce_sender e)
            ∙ append_assoc (write_header hello (18 + n)) fields rest) in
      let (s₂, payload, p₂) =
        recv_whole-next (18 + n) fields rest s₁ (omega (sizes, keyed, e)) p₁ in
      let head : parse_header (write_header hello (18 + n)) ≡ (hello, 18 + n) =
        ap parse_header (sym (append-nil (write_header hello (18 + n))))
        ∙ parse_header-write_header hello (18 + n) [] refl (omega arith) in
      let parsed : parse_hello fields (18 + n) ≡ some (heard given nonce_sender) =
        rw keyed at (parse_hello-fields key nonce_sender e)
        ∙ ap (λ c. some (record { version = protocol_version; secret = c; nonce = nonce_sender }))
            (take-min max_secret_len given) in
      let ok = make_hello_ok dummy_nonce in
      ((k.send ok s₂).1, rw (header, head, payload, parsed, right) refl, v.sends ok s₂ ∙ p₂)

-- From a HELLO with the right secret and the stream of a sender whose files fit the protocol, with a
-- nonce of 16 bytes, over a connection that stands, on a kernel that works and where the destination
-- can be made: after one round for each byte, two more for each file and one, `run_receiver_uring`
-- ends with exit code 0, and the disk holds exactly the sender's files below the destination.
pub run_receiver_uring-copies :
    (k : Socket) (del : Delivers k) (wait_all : ℕ → k.State → ℤ × List ℕ × k.State)
    (v : Waits k wait_all) (n : Kernel) (log : n.State → List Stored) (newest : n.State → ℕ)
    (o : Serves n log newest) (directories : List ℕ → n.State → Option n.State)
    (dst_path secret given nonce_sender : List ℕ) (fs : List SourceFile) (rounds : ℕ) (s : k.State)
    (d e : n.State)
    → directories dst_path d ≡ some e
    → log e ≡ log d
    → length nonce_sender ≡ nonce_size
    → wrong_secret secret (take max_secret_len given) ≡ false
    → All Fits fs
    → k.pending s ≡ make_hello given nonce_sender ++ stream fs
    → rounds_for fs ≤ rounds
    → (w : n.State) × (run_receiver_uring k wait_all n directories dst_path secret rounds s d
        ≡ exit 0 w)
      × (log w ≡ log_after dst_path fs (log d))
unfolding run_receiver_uring
run_receiver_uring-copies k del wait_all v n log newest o directories dst_path secret given
      nonce_sender fs rounds s d e made same sized right fits p enough =
    let (t, heard_it, rest) =
      accept_hello-accepts k wait_all v secret given nonce_sender (stream fs) s sized right p in
    let (w, ran, logged) =
      run-stores k del n log newest o default_chunk dst_path fs default_depth rounds t e
        (omega arith) (omega arith) fits rest enough in
    (
      w,
      ap (served k wait_all n directories dst_path secret rounds d) heard_it
          ∙ ap (received k wait_all n directories dst_path secret rounds t d) made
          ∙ ap exit_of ran,
      logged ∙ ap (log_after dst_path fs) same,
    )
