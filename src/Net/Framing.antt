-- ===== src/Net/Framing.antt =====
-- src/net.cpp: a receiver takes the next field and the next header off the stream.
use uring_sync.Base.{
  ℕ, ◌<◌, ◌^◌, ◌≡◌, ap, sym, ◌∙◌, List, [], ◌++◌, some, arith, length, take, drop, length-append,
  take-append, drop-append, append-nil,
}
use uring_sync.Protocol.Codec.{
  MsgType, code, of_code, write_header, parse_header, parse_header-write_header, msg_header_size,
}
use uring_sync.Protocol.Layout.{length-write_header}
use uring_sync.Net.Socket.{Socket, Delivers, recv_all, recv_header, recv_all-receives}

module _ (k : Socket) (d : Delivers k) where
  -- The stream begins with `xs`, and as many bytes are asked for.
  pub recv_all-next :
      (n : ℕ) (xs ys : List ℕ) (s : k.State)
      → length xs ≡ n
      → k.pending s ≡ xs ++ ys
      → (t : k.State) × (recv_all k n s ≡ some (xs, t)) × (k.pending t ≡ ys) × (k.sent t ≡ k.sent s)
  recv_all-next n xs ys s e p =
      let (t, ran, left, same) =
        recv_all-receives k d n s (omega (arith, ap length p, length-append xs ys)) in
      (
        t,
        ran ∙ ap (λ b. some (b, t)) (ap (take n) p ∙ take-append n xs ys e),
        left ∙ ap (drop n) p ∙ drop-append n xs ys e,
        same,
      )

  -- The stream begins with a header.
  pub recv_header-next :
      (type : MsgType) (len : ℕ) (rest : List ℕ) (s : k.State)
      → of_code (code type) ≡ type
      → len < 2 ^ 32
      → k.pending s ≡ write_header type len ++ rest
      → (t : k.State) × (recv_header k s ≡ some ((type, len), t))
        × (k.pending t ≡ rest)
        × (k.sent t ≡ k.sent s)
  unfolding recv_header
  recv_header-next type len rest s known small p =
      let (t, ran, left, same) =
        recv_all-next msg_header_size (write_header type len) rest s (length-write_header type len)
          p in
      let parsed : parse_header (write_header type len) ≡ (type, len) =
        ap parse_header (sym (append-nil (write_header type len)))
        ∙ parse_header-write_header type len [] known small in
      (t, rw (ran, parsed), left, same)
