-- ===== src/Net/Handshake/Answers.antt =====
-- src/net.cpp: what the two sides of the handshake make of each other.
use uring_sync.Base.{
  ℕ, ◌+◌, ◌≡◌, refl, ap, ◌∙◌, min, List, [], ◌∷◌, ◌++◌, some, arith, length, take, length-take,
  append_assoc, take_all, take-min, Bool-cases, inl, inr, if◌then◌else◌,
}
use uring_sync.Protocol.Codec.{
  hello, hello_ok, hello_fail, nonce_size, max_secret_len, protocol_version, write_header,
}
use uring_sync.Protocol.Messages.{make_hello, make_hello_ok, make_hello_fail}
use uring_sync.Protocol.Layout.{
  make_hello_layout, make_hello_ok_layout, make_hello_fail_layout, sizes,
}
use uring_sync.Protocol.RoundTrip.{parse_hello-fields}
use uring_sync.Protocol.Parsers.{HelloMsg, parse_hello, parse_hello_ok}
use uring_sync.Net.Socket.{Socket, Delivers, send_msg, send_all-sends}
use uring_sync.Net.Framing.{recv_all-next, recv_header-next}
use uring_sync.Net.Handshake.{
  wrong_secret, accepted, refused, answer, receive_hello, by_type, greeted, denied, send_hello,
  by_answer,
}

-- What the receiver reads out of a sender's HELLO: the secret is cut to 64 bytes.
abbrev pub heard : List ℕ → List ℕ → HelloMsg
heard given nonce_sender = record {
  version = protocol_version;
  secret = take max_secret_len given;
  nonce = nonce_sender;
}

-- What the receiver answers.
abbrev pub reply : List ℕ → List ℕ → List ℕ → List ℕ
reply secret nonce_receiver given =
    if wrong_secret secret (take max_secret_len given)
    then make_hello_fail 1
    else make_hello_ok nonce_receiver

module _ (k : Socket) (d : Delivers k) (secret nonce_receiver : List ℕ) where
  answer-answers :
      (given nonce_sender : List ℕ) (s : k.State)
      → (t : k.State) × (answer k secret nonce_receiver (some (heard given nonce_sender)) s ≡ (
          if wrong_secret secret (take max_secret_len given)
          then refused (some t)
          else accepted (heard given nonce_sender) t))
        × (k.sent t ≡ k.sent s ++ reply secret nonce_receiver given)
        × (k.pending t ≡ k.pending s)
  unfolding answer send_msg
  answer-answers given nonce_sender s =
      elim (Bool-cases (wrong_secret secret (take max_secret_len given))) [
        | inl w ↦
            let (t, ran, out, same) = send_all-sends k d (make_hello_fail 1) s in
            (t, rw (w, ran), rw w out, same)
        | inr w ↦
            let (t, ran, out, same) = send_all-sends k d (make_hello_ok nonce_receiver) s in
            (t, rw (w, ran), rw w out, same)
      ]

  -- The receiver takes exactly one HELLO off the stream and answers it.
  pub receive_hello-answers :
      (given nonce_sender rest : List ℕ) (s : k.State)
      → length nonce_sender ≡ nonce_size
      → k.pending s ≡ make_hello given nonce_sender ++ rest
      → (t : k.State) × (receive_hello k secret nonce_receiver s ≡ (
          if wrong_secret secret (take max_secret_len given)
          then refused (some t)
          else accepted (heard given nonce_sender) t))
        × (k.sent t ≡ k.sent s ++ reply secret nonce_receiver given)
        × (k.pending t ≡ rest)
  unfolding receive_hello by_type
  receive_hello-answers given nonce_sender rest s e p =
      let n = min (length given) max_secret_len in
      let key = take n given in
      let keyed : length key ≡ n = omega (arith, length-take n given) in
      let fields = (protocol_version ∷ n ∷ []) ++ (key ++ nonce_sender) in
      let (s₁, header, p₁, o₁) =
        recv_header-next k d hello (18 + n) (fields ++ rest) s refl (omega arith) (
          p
          ∙ ap (λ b. b ++ rest) (make_hello_layout given nonce_sender e)
          ∙ append_assoc (write_header hello (18 + n)) fields rest) in
      let (s₂, payload, p₂, o₂) =
        recv_all-next k d (18 + n) fields rest s₁ (omega (sizes, keyed, e)) p₁ in
      let parsed : parse_hello fields (18 + n) ≡ some (heard given nonce_sender) =
        rw keyed at (parse_hello-fields key nonce_sender e)
        ∙ ap (λ c. some (record { version = protocol_version; secret = c; nonce = nonce_sender }))
            (take-min max_secret_len given) in
      let (t, ran, out, same) = answer-answers given nonce_sender s₂ in
      (
        t,
        rw (header, payload, parsed) ran,
        out ∙ ap (λ b. b ++ reply secret nonce_receiver given) (o₂ ∙ o₁),
        same ∙ p₂,
      )

module _ (k : Socket) (d : Delivers k) (secret nonce_sender : List ℕ) where
  pub send_hello-greeted :
      (nonce_receiver rest : List ℕ) (s : k.State)
      → length nonce_receiver ≡ nonce_size
      → k.pending s ≡ make_hello_ok nonce_receiver ++ rest
      → (t : k.State) × (send_hello k secret nonce_sender s ≡ greeted nonce_receiver t)
        × (k.sent t ≡ k.sent s ++ make_hello secret nonce_sender)
        × (k.pending t ≡ rest)
  unfolding send_hello send_msg by_answer parse_hello_ok
  send_hello-greeted nonce_receiver rest s e p =
      let (s₁, ran, out, same) = send_all-sends k d (make_hello secret nonce_sender) s in
      let (s₂, header, p₂, o₂) =
        recv_header-next k d hello_ok nonce_size (nonce_receiver ++ rest) s₁ refl (omega arith) (
          same
          ∙ p
          ∙ ap (λ b. b ++ rest) (make_hello_ok_layout nonce_receiver e)
          ∙ append_assoc (write_header hello_ok nonce_size) nonce_receiver rest) in
      let (s₃, payload, p₃, o₃) = recv_all-next k d nonce_size nonce_receiver rest s₂ e p₂ in
      (
        s₃,
        rw (ran, header, payload, take_all nonce_size nonce_receiver (omega arith)),
        o₃ ∙ o₂ ∙ out,
        p₃,
      )

  pub send_hello-denied :
      (rest : List ℕ) (s : k.State)
      → k.pending s ≡ make_hello_fail 1 ++ rest
      → (t : k.State) × (send_hello k secret nonce_sender s ≡ denied t)
        × (k.sent t ≡ k.sent s ++ make_hello secret nonce_sender)
  unfolding send_hello send_msg by_answer
  send_hello-denied rest s p =
      let (s₁, ran, out, same) = send_all-sends k d (make_hello secret nonce_sender) s in
      let (s₂, header, p₂, o₂) =
        recv_header-next k d hello_fail 1 (1 ∷ rest) s₁ refl (omega arith) (
          same
          ∙ p
          ∙ ap (λ b. b ++ rest) (make_hello_fail_layout 1)
          ∙ append_assoc (write_header hello_fail 1) (1 ∷ []) rest) in
      (s₂, rw (ran, header), o₂ ∙ out)
