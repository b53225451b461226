-- ===== src/Net/Handshake.antt =====
-- src/net.cpp: the handshake. `run_receiver` from the accepted connection to the answer to HELLO, and
-- `run_sender` from the connection to the answer.
pub mod Secrets
pub mod Answers
pub mod Both
use uring_sync.Base.{
  ℕ, List, [], ◌∷◌, Bool, true, false, Option, none, some, ◌&&◌, not, ◌==◌, if◌then◌else◌, ltb,
  replicate,
}
use uring_sync.Protocol.Codec.{MsgType, hello, hello_ok, nonce_size}
use uring_sync.Protocol.Messages.{make_hello, make_hello_ok, make_hello_fail}
use uring_sync.Protocol.Parsers.{HelloMsg, HelloOkMsg, parse_hello, parse_hello_ok}
use uring_sync.Net.Socket.{Socket, recv_header, recv_all, send_msg}

abbrev pub is_empty : List ℕ → Bool
is_empty [] = true
is_empty (b ∷ bs) = false

-- `==` of `std::string`.
abbrev pub same_text : List ℕ → List ℕ → Bool
same_text [] [] = true
same_text [] (c ∷ cs) = false
same_text (b ∷ bs) [] = false
same_text (b ∷ bs) (c ∷ cs) = b == c && same_text bs cs

-- `if (!secret.empty() && hello.secret != secret)`, for the secret of the receiver.
unfoldable pub wrong_secret : List ℕ → List ℕ → Bool
wrong_secret secret given = not (is_empty secret) && not (same_text given secret)

-- How the exchange ends: with an accepted HELLO, with HELLO_FAIL, or on a broken connection or a
-- malformed message. All but the first close the connection and make the exit code 1.
pub data Auth {ℓ} (S : Type ℓ) : Type ℓ where
  accepted : HelloMsg → S → Auth S
  refused : Option S → Auth S
  broken : Auth S

module _ (k : Socket) (secret nonce_receiver : List ℕ) where
  abbrev answered : HelloMsg → Option k.State → Auth k.State
  answered msg none = broken
  answered msg (some s) = accepted msg s

  -- The nonce of the receiver comes from the random generator, and is an argument.
  answer : Option HelloMsg → k.State → Auth k.State
  unfolding wrong_secret send_msg
  answer none s = broken
  answer (some msg) s =
      if wrong_secret secret msg.secret
      then refused (send_msg k (make_hello_fail 1) s)
      else answered msg (send_msg k (make_hello_ok nonce_receiver) s)

  abbrev with_payload : ℕ → Option (List ℕ × k.State) → Auth k.State
  unfolding answer
  with_payload len none = broken
  with_payload len (some (payload, s)) = answer (parse_hello payload len) s

  by_type : MsgType → ℕ → k.State → Auth k.State
  unfolding answer recv_all
  by_type hello len s = with_payload len (recv_all k len s)
  by_type _ len s = broken

  abbrev with_header : Option ((MsgType × ℕ) × k.State) → Auth k.State
  unfolding by_type
  with_header none = broken
  with_header (some ((type, len), s)) = by_type type len s

  unfoldable pub receive_hello : k.State → Auth k.State
  unfolding by_type recv_header
  receive_hello s = with_header (recv_header k s)

-- How the exchange ends for the sender: with the receiver's nonce, with another message than HELLO_OK,
-- or on a broken connection or a malformed message. All but the first close the socket and make the
-- exit code 1.
pub data Greeting {ℓ} (S : Type ℓ) : Type ℓ where
  greeted : List ℕ → S → Greeting S
  denied : S → Greeting S
  broken : Greeting S

module _ (k : Socket) where
  abbrev parsed_ok : Option HelloOkMsg → k.State → Greeting k.State
  parsed_ok none s = broken
  parsed_ok (some msg) s = greeted msg.nonce s

  abbrev with_ok_payload : ℕ → Option (List ℕ × k.State) → Greeting k.State
  with_ok_payload len none = broken
  with_ok_payload len (some (payload, s)) = parsed_ok (parse_hello_ok payload len) s

  -- An old receiver sends no nonce, and its nonce is taken for zeros.
  by_answer : MsgType → ℕ → k.State → Greeting k.State
  unfolding recv_all
  by_answer hello_ok len s =
      if ltb len nonce_size
      then greeted (replicate nonce_size 0) s
      else with_ok_payload len (recv_all k len s)
  by_answer _ len s = denied s

  abbrev with_answer : Option ((MsgType × ℕ) × k.State) → Greeting k.State
  unfolding by_answer
  with_answer none = broken
  with_answer (some ((type, len), s)) = by_answer type len s

  abbrev hello_sent : Option k.State → Greeting k.State
  unfolding by_answer recv_header
  hello_sent none = broken
  hello_sent (some s) = with_answer (recv_header k s)

  -- The nonce of the sender comes from the random generator, and is an argument.
  unfoldable pub send_hello : List ℕ → List ℕ → k.State → Greeting k.State
  unfolding by_answer recv_header send_msg
  send_hello secret nonce_sender s = hello_sent (send_msg k (make_hello secret nonce_sender) s)
