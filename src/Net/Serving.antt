-- ===== src/Net/Serving.antt =====
-- src/net_uring.cpp, `run_receiver_uring` from the accepted connection on, and `run_sender_uring` from
-- the connection to the answer to HELLO.
pub mod Copies
use uring_sync.Base.{
  ℕ, List, [], ◌∷◌, Bool, true, false, Option, none, some, ◌==◌, if◌then◌else◌, replicate, ◌*◌,
}
use uring_sync.Base.Int.{ℤ, pos, negsuc}
use uring_sync.Protocol.Codec.{MsgType, hello, hello_ok, nonce_size, msg_header_size, parse_header}
use uring_sync.Protocol.Messages.{make_hello, make_hello_ok, make_hello_fail}
use uring_sync.Protocol.Parsers.{HelloMsg, parse_hello}
use uring_sync.Net.Socket.{Socket}
use uring_sync.Net.Handshake.{Auth, accepted, refused, broken, wrong_secret}
use uring_sync.Net.AsyncReceiver.Loop.{
  Kernel, Ended, complete, refused, thrown, overrun, unfinished, run_from, started,
}

-- `NetConfig`, by its defaults, which nothing changes.
abbrev pub default_depth : ℕ
default_depth = 64

abbrev pub default_chunk : ℕ
default_chunk = 128 * 1024

abbrev pub dummy_nonce : List ℕ
dummy_nonce = replicate nonce_size 0

-- `wait_all` is `recv` with MSG_WAITALL: like `recv` of the socket, it gives its result, the bytes
-- that it stored, and the state after it.
module _ (k : Socket) (wait_all : ℕ → k.State → ℤ × List ℕ × k.State) where
  -- The test that the result is the length that was asked for.
  abbrev whole : ℤ → ℕ → List ℕ → k.State → Option (List ℕ × k.State)
  whole (negsuc e) len bytes s = none
  whole (pos n) len bytes s = if n == len then some (bytes, s) else none

  unfoldable pub recv_whole : ℕ → k.State → Option (List ℕ × k.State)
  recv_whole len s = let (n, bytes, t) = wait_all len s in whole n len bytes t

  -- The receiver's side. What `send` gives is not looked at.
  module _ (secret : List ℕ) where
    abbrev pub replied : Option HelloMsg → k.State → Auth k.State
    replied none s = broken
    replied (some msg) s =
        if wrong_secret secret msg.secret
        then Auth.refused (some (k.send (make_hello_fail 1) s).1)
        else accepted msg (k.send (make_hello_ok dummy_nonce) s).1

    abbrev pub with_hello : ℕ → Option (List ℕ × k.State) → Auth k.State
    with_hello len none = broken
    with_hello len (some (payload, s)) = replied (parse_hello payload len) s

    abbrev pub by_type : MsgType → ℕ → k.State → Auth k.State
    by_type hello len s = with_hello len (recv_whole len s)
    by_type _ len s = broken

    abbrev parsed : MsgType × ℕ → k.State → Auth k.State
    parsed (type, len) s = by_type type len s

    abbrev pub with_header : Option (List ℕ × k.State) → Auth k.State
    with_header none = broken
    with_header (some (bytes, s)) = parsed (parse_header bytes) s

    unfoldable pub accept_hello : k.State → Auth k.State
    unfolding recv_whole
    accept_hello s = with_header (recv_whole msg_header_size s)

  -- The sender's side: `none` for a failed send, a broken connection or another answer than HELLO_OK,
  -- each with exit code 1. The payload of HELLO_OK is not read.
  abbrev authenticated : MsgType → k.State → Option k.State
  authenticated hello_ok s = some s
  authenticated _ s = none

  abbrev answered : Option (List ℕ × k.State) → Option k.State
  answered none = none
  answered (some (bytes, s)) = authenticated (parse_header bytes).0 s

  abbrev offered : ℤ × k.State → Option k.State
  unfolding recv_whole
  offered (negsuc e, s) = none
  offered (pos n, s) = answered (recv_whole msg_header_size s)

  unfoldable pub offer_hello : List ℕ → k.State → Option k.State
  unfolding recv_whole
  offer_hello secret s = offered (k.send (make_hello secret dummy_nonce) s)

-- How the program ends, with the file system: with an exit code, by an exception that nothing
-- catches, by a call of `recv` that runs over the end of a buffer, or not within the rounds.
pub data Exit {ℓ} (D : Type ℓ) : Type ℓ where
  exit : ℕ → D → Exit D
  terminated overran running : D → Exit D

abbrev pub exit_of {ℓ} : {D : Type ℓ} → Ended D → Exit D
exit_of (complete n d) = exit 0 d
exit_of (Ended.refused d) = exit 1 d
exit_of (thrown d) = exit 1 d
exit_of (overrun d) = overran d
exit_of (unfinished d) = running d

-- `directories` is `fs::create_directories`, `none` where it throws.
module _ (k : Socket) (wait_all : ℕ → k.State → ℤ × List ℕ × k.State) (n : Kernel)
    (directories : List ℕ → n.State → Option n.State) (dst_path secret : List ℕ) (rounds : ℕ) where
  -- The ring of 4 * 64 entries has room for the one request that is on its way.
  abbrev pub received : k.State → n.State → Option n.State → Exit n.State
  received s d none = terminated d
  received s d (some e) = exit_of (
      run_from k true n default_chunk dst_path rounds
        (started k true n default_chunk dst_path default_depth s e))

  abbrev pub served : n.State → Auth k.State → Exit n.State
  served d broken = exit 1 d
  served d (Auth.refused s) = exit 1 d
  served d (accepted msg s) = received s d (directories dst_path d)

  unfoldable pub run_receiver_uring : k.State → n.State → Exit n.State
  unfolding accept_hello
  run_receiver_uring s d = served d (accept_hello k wait_all secret s)
