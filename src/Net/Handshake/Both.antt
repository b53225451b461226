-- ===== src/Net/Handshake/Both.antt =====
-- src/net.cpp: a sender and a receiver that shake hands.
use uring_sync.Base.{
  ℕ, ◌≡◌, ap, sym, ◌∙◌, List, [], ◌++◌, some, length, take, append-nil, Bool-cases, inl, inr,
  if◌then◌else◌, ltb,
}
use uring_sync.Protocol.Codec.{nonce_size, max_secret_len}
use uring_sync.Protocol.Messages.{make_hello, make_hello_fail, make_hello_ok}
use uring_sync.Net.Socket.{Socket, Delivers}
use uring_sync.Net.Handshake.{
  wrong_secret, accepted, refused, receive_hello, greeted, denied, send_hello,
}
use uring_sync.Net.Handshake.Secrets.{wrong_secret-cut}
use uring_sync.Net.Handshake.Answers.{
  heard, reply, receive_hello-answers, send_hello-greeted, send_hello-denied,
}

module _ (a : Socket) (da : Delivers a) (k : Socket) (dk : Delivers k) (given nonce_sender : List ℕ)
    (secret nonce_receiver : List ℕ) where
  -- A sender with the secret `given` on the socket `a` and a receiver with the secret `secret` on the
  -- socket `k`, each with a nonce of 16 bytes, where each is given exactly what the other sends. When
  -- the receiver finds the cut secret wrong, it refuses and the sender is denied; else the receiver
  -- accepts with the sender's nonce, and the sender is greeted with the receiver's.
  pub handshake_agrees :
      (s : a.State) (r : k.State)
      → length nonce_sender ≡ nonce_size
      → length nonce_receiver ≡ nonce_size
      → k.pending r ≡ make_hello given nonce_sender
      → a.pending s ≡ reply secret nonce_receiver given
      → let wrong = wrong_secret secret (take max_secret_len given) in
        (t : a.State) × (u : k.State) × (send_hello a given nonce_sender s
          ≡ (if wrong then denied t else greeted nonce_receiver t))
        × (receive_hello k secret nonce_receiver r
            ≡ (if wrong then refused (some u) else accepted (heard given nonce_sender) u))
        × (a.sent t ≡ a.sent s ++ make_hello given nonce_sender)
        × (k.sent u ≡ k.sent r ++ reply secret nonce_receiver given)
  handshake_agrees s r es er pr ps =
      let (u, answered, out, _) =
        receive_hello-answers k dk secret nonce_receiver given nonce_sender [] r es
          (pr ∙ sym (append-nil (make_hello given nonce_sender))) in
      elim (Bool-cases (wrong_secret secret (take max_secret_len given))) [
        | inl w ↦
            let (t, ran, sent) =
              send_hello-denied a da given nonce_sender [] s
                (ps ∙ (rw w) ∙ sym (append-nil (make_hello_fail 1))) in
            (t, u, rw w ran, answered, sent, out)
        | inr w ↦
            let (t, ran, sent, _) =
              send_hello-greeted a da given nonce_sender nonce_receiver [] s er
                (ps ∙ (rw w) ∙ sym (append-nil (make_hello_ok nonce_receiver))) in
            (t, u, rw w ran, answered, sent, out)
      ]

  -- With the same secret on both sides, of any content: they agree when it has at most 64 bytes, and
  -- the sender is denied when it is longer, as if it had a wrong one.
  pub same_secret_agrees :
      (s : a.State) (r : k.State)
      → length nonce_sender ≡ nonce_size
      → length nonce_receiver ≡ nonce_size
      → secret ≡ given
      → k.pending r ≡ make_hello given nonce_sender
      → a.pending s ≡ reply secret nonce_receiver given
      → let long = ltb max_secret_len (length given) in
        (t : a.State) × (u : k.State) × (send_hello a given nonce_sender s
          ≡ (if long then denied t else greeted nonce_receiver t))
        × (receive_hello k secret nonce_receiver r
            ≡ (if long then refused (some u) else accepted (heard given nonce_sender) u))
  same_secret_agrees s r es er same pr ps =
      let (t, u, sender, receiver, _, _) = handshake_agrees s r es er pr ps in
      let cut : wrong_secret secret (take max_secret_len given)
          ≡ ltb max_secret_len (length given) =
        ap (λ c. wrong_secret c (take max_secret_len given)) same ∙ wrong_secret-cut given in
      (t, u, rw cut at sender, rw cut at receiver)
