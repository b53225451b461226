-- ===== src/Protocol/Parsers.antt =====
-- include/protocol.hpp, "Message Parsers". A parser that returns false is `none`; the caller then
-- reads nothing of what went out by reference.
use uring_sync.Base.{ℕ, ◌+◌, List, Option, none, some, get_or, take, drop, ltb, if◌then◌else◌}
use uring_sync.Protocol.Codec.{nonce_size, read_u16, read_u32, read_u64}

pub record HelloMsg : Type 0 where
  pub version : ℕ
  pub secret : List ℕ
  pub nonce : List ℕ

pub record HelloOkMsg : Type 0 where
  pub nonce : List ℕ

pub record FileHdrMsg : Type 0 where
  pub size : ℕ
  pub mode : ℕ
  pub path : List ℕ

unfoldable pub parse_hello : List ℕ → ℕ → Option HelloMsg
parse_hello payload len =
    if ltb len 2
    then none
    else let secret_len = get_or payload 1 0 in
      if ltb len (2 + secret_len + nonce_size)
      then none
      else some (record {
        version = get_or payload 0 0;
        secret = take secret_len (drop 2 payload);
        nonce = take nonce_size (drop (2 + secret_len) payload);
      })

unfoldable pub parse_hello_ok : List ℕ → ℕ → Option HelloOkMsg
parse_hello_ok payload len =
    if ltb len nonce_size then none else some (record { nonce = take nonce_size payload })

unfoldable pub parse_file_hdr : List ℕ → ℕ → Option FileHdrMsg
parse_file_hdr payload len =
    if ltb len 14
    then none
    else let path_len = read_u16 (drop 12 payload) in
      if ltb len (14 + path_len)
      then none
      else some (record {
        size = read_u64 payload;
        mode = read_u32 (drop 8 payload);
        path = take path_len (drop 14 payload);
      })
