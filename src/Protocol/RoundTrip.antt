-- ===== src/Protocol/RoundTrip.antt =====
-- include/protocol.hpp: what a builder writes, the parser reads back.
use uring_sync.Base.{
  ℕ, ◌+◌, ◌^◌, ◌<◌, ◌≡◌, refl, List, [], ◌∷◌, ◌++◌, min, length, take, drop, some, arith,
  drop-append, take_all, take-append, take-min, ltb-false,
}
use uring_sync.Protocol.Codec.{
  hello, file_hdr, max_secret_len, max_path_len, nonce_size, protocol_version, msg_header_size,
  write_u16, write_u32, write_u64, write_header, parse_header, parse_header-write_header,
  read_u16-write_u16, read_u32-write_u32, read_u64-write_u64,
}
use uring_sync.Protocol.Messages.{make_hello, make_file_hdr}
use uring_sync.Protocol.Layout.{
  make_file_hdr_layout, make_hello_layout, length-write_header, length-write_u16, length-write_u32,
  length-write_u64, joined, first,
}
use uring_sync.Protocol.Parsers.{parse_file_hdr, parse_hello}

module _ (size mode : ℕ) (rest : List ℕ) where
  mode_at : drop 8 (write_u64 size ++ (write_u32 mode ++ rest)) ≡ write_u32 mode ++ rest
  unfolding write_u64
  mode_at = refl

  len_at : drop 12 (write_u64 size ++ (write_u32 mode ++ rest)) ≡ rest
  unfolding write_u64 write_u32
  len_at = refl

  path_at :
      (path_len : ℕ)
      → drop 14 (write_u64 size ++ (write_u32 mode ++ (write_u16 path_len ++ rest))) ≡ rest
  unfolding write_u64 write_u32 write_u16
  path_at path_len = refl

-- The payload of FILE_HDR, as its fields.
pub parse_file_hdr-fields :
    (size mode : ℕ) (path : List ℕ)
    → size < 2 ^ 64
    → mode < 2 ^ 32
    → length path < 2 ^ 16
    → parse_file_hdr
        (write_u64 size ++ (write_u32 mode ++ (write_u16 (length path) ++ path)))
        (14 + length path)
      ≡ some (record { size = size; mode = mode; path = path })
unfolding parse_file_hdr
parse_file_hdr-fields size mode path hs hm hp =
    let tail = write_u16 (length path) ++ path in
    rw (
      ltb-false (14 + length path) 14 (omega arith),
      path_at size mode path (length path),
      len_at size mode tail,
      mode_at size mode tail,
      read_u16-write_u16 (length path) path hp,
      read_u32-write_u32 mode tail hm,
      read_u64-write_u64 size (write_u32 mode ++ tail) hs,
      ltb-false (14 + length path) (14 + length path) (omega arith),
      take_all (length path) path (omega arith),
    )

-- The payload of HELLO, as its fields.
pub parse_hello-fields :
    (secret nonce : List ℕ)
    → length nonce ≡ nonce_size
    → parse_hello
        ((protocol_version ∷ length secret ∷ []) ++ (secret ++ nonce))
        (18 + length secret)
      ≡ some (record { version = protocol_version; secret = secret; nonce = nonce })
unfolding parse_hello
parse_hello-fields secret nonce e = rw (
  ltb-false (18 + length secret) 2 (omega arith),
  ltb-false (18 + length secret) (2 + length secret + nonce_size) (omega arith),
  take-append (length secret) secret nonce refl,
  nonce_at,
  take_all nonce_size nonce (omega arith),
)
  where
    nonce_at :
        drop (2 + length secret) (protocol_version ∷ length secret ∷ (secret ++ nonce)) ≡ nonce
    nonce_at =
        drop-append (2 + length secret) (protocol_version ∷ length secret ∷ secret) nonce
          (omega arith)

-- FILE_HDR, for a size of 64 bits and a mode of 32: the receiver reads five bytes, then as many bytes as the header announces, and gets
-- back the size, the mode and the path cut to 4096 bytes. Nothing of the message is left.
pub file_hdr_round_trip :
    (size mode : ℕ) (path : List ℕ)
    → size < 2 ^ 64
    → mode < 2 ^ 32
    → let msg = make_file_hdr size mode path in
      let payload_len = 14 + min (length path) max_path_len in
      (parse_header msg ≡ (file_hdr, payload_len))
      × (length msg ≡ msg_header_size + payload_len)
      × (parse_file_hdr (drop msg_header_size msg) payload_len
          ≡ some (record { size = size; mode = mode; path = take max_path_len path }))
file_hdr_round_trip size mode path hs hm =
    let n = min (length path) max_path_len in
    let name = take n path in
    let named : length name ≡ n = omega (arith, first n path) in
    let fields = write_u64 size ++ (write_u32 mode ++ (write_u16 n ++ name)) in
    rw (make_file_hdr_layout size mode path) (
      parse_header-write_header file_hdr (14 + n) fields refl (omega arith),
      omega (
        arith,
        joined (write_header file_hdr (14 + n)) fields,
        joined (write_u64 size) (write_u32 mode ++ (write_u16 n ++ name)),
        joined (write_u32 mode) (write_u16 n ++ name),
        joined (write_u16 n) name,
        length-write_header,
        length-write_u16,
        length-write_u32,
        length-write_u64,
      ),
      rw
          (
            drop-append 5 (write_header file_hdr (14 + n)) fields (length-write_header _ _),
            ← take-min max_path_len path,
          )
          (rw named at (parse_file_hdr-fields size mode name hs hm (omega (arith, first n path)))),
    )

-- HELLO: the receiver reads five bytes, then as many bytes as the header announces, and gets back
-- the version, the secret cut to 64 bytes and the nonce, for a nonce of 16 bytes. Nothing of the
-- message is left.
pub hello_round_trip :
    (secret nonce : List ℕ)
    → length nonce ≡ nonce_size
    → let msg = make_hello secret nonce in
      let payload_len = 18 + min (length secret) max_secret_len in
      (parse_header msg ≡ (hello, payload_len))
      × (length msg ≡ msg_header_size + payload_len)
      × (parse_hello (drop msg_header_size msg) payload_len
          ≡ some (record {
            version = protocol_version;
            secret = take max_secret_len secret;
            nonce = nonce;
          }))
hello_round_trip secret nonce e =
    let n = min (length secret) max_secret_len in
    let key = take n secret in
    let keyed : length key ≡ n = omega (arith, first n secret) in
    let fields = (protocol_version ∷ n ∷ []) ++ (key ++ nonce) in
    rw (make_hello_layout secret nonce e) (
      parse_header-write_header hello (18 + n) fields refl (omega arith),
      omega (
        arith,
        joined (write_header hello (18 + n)) fields,
        joined key nonce,
        length-write_header,
      ),
      rw
          (
            drop-append 5 (write_header hello (18 + n)) fields (length-write_header _ _),
            ← take-min max_secret_len secret,
          )
          (rw keyed at (parse_hello-fields key nonce e)),
    )
