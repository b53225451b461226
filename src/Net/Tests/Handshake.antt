-- ===== src/Net/Tests/Handshake.antt =====
-- src/net.cpp: the handshake over two wires.
use uring_sync.Base.{ℕ, ◌≡◌, refl, List, [], ◌∷◌, true, some, take, if◌then◌else◌, ltb}
use uring_sync.Protocol.Codec.{max_secret_len}
use uring_sync.Protocol.Messages.{make_hello}
use uring_sync.Net.Handshake.{
  wrong_secret, accepted, refused, receive_hello, greeted, denied, send_hello,
}
use uring_sync.Net.Handshake.Answers.{heard, reply}
use uring_sync.Net.Handshake.Both.{handshake_agrees, same_secret_agrees}
use uring_sync.Net.Tests.{Wire, wire, wire-Delivers, quiet}

abbrev nonce : List ℕ
nonce = 1 ∷ 2 ∷ 3 ∷ 4 ∷ 5 ∷ 6 ∷ 7 ∷ 8 ∷ 9 ∷ 10 ∷ 11 ∷ 12 ∷ 13 ∷ 14 ∷ 15 ∷ 16 ∷ []

abbrev other_nonce : List ℕ
other_nonce = 0 ∷ 2 ∷ 3 ∷ 4 ∷ 5 ∷ 6 ∷ 7 ∷ 8 ∷ 9 ∷ 10 ∷ 11 ∷ 12 ∷ 13 ∷ 14 ∷ 15 ∷ 16 ∷ []

abbrev given : List ℕ
given = 97 ∷ 98 ∷ []

abbrev secret : List ℕ
secret = 97 ∷ 99 ∷ []

abbrev sender : Wire
sender = record quiet { inp = reply secret other_nonce given }

abbrev receiver : Wire
receiver = record quiet { inp = make_hello given nonce }

handshake_agrees_example :
    let wrong = wrong_secret secret (take max_secret_len given) in
    (t : Wire) × (u : Wire) × (send_hello wire given nonce sender
      ≡ (if wrong then denied t else greeted other_nonce t))
    × (receive_hello wire secret other_nonce receiver
        ≡ (if wrong then refused (some u) else accepted (heard given nonce) u))
    × (t.out ≡ make_hello given nonce)
    × (u.out ≡ reply secret other_nonce given)
handshake_agrees_example =
    handshake_agrees wire wire-Delivers wire wire-Delivers given nonce secret other_nonce sender
      receiver refl refl refl refl

wrong_secret_runs : wrong_secret secret (take max_secret_len given) ≡ true
unfolding wrong_secret
wrong_secret_runs = refl

abbrev friend : Wire
friend = record quiet { inp = reply given other_nonce given }

same_secret_agrees_example :
    let long = ltb max_secret_len 2 in
    (t : Wire) × (u : Wire) × (send_hello wire given nonce friend
      ≡ (if long then denied t else greeted other_nonce t))
    × (receive_hello wire given other_nonce receiver
        ≡ (if long then refused (some u) else accepted (heard given nonce) u))
same_secret_agrees_example =
    same_secret_agrees wire wire-Delivers wire wire-Delivers given nonce given other_nonce friend
      receiver refl refl refl refl refl
