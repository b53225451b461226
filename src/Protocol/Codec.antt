-- ===== src/Protocol/Codec.antt =====
-- include/protocol.hpp, "Message Encoding": little-endian integers and the message header.
-- A buffer is a list of bytes; a byte is a number below 256.
use uring_sync.Base.{
  ℕ, zero, suc, ◌+◌, ◌*◌, ◌/◌, ◌%◌, ◌^◌, ◌<◌, ◌≡◌, List, [], ◌∷◌, ◌++◌, if◌then◌else◌, ◌==◌, get_or,
  drop, arith,
}
use uring_sync.Base.Bits.{bit_or, bit_or-shifted}

-- `MsgType` has a fixed underlying type, so a received byte with no enumerator is a value too.
pub data MsgType : Type 0 where
  hello hello_ok hello_fail file_hdr file_data file_end all_done error : MsgType
  other : ℕ → MsgType

abbrev pub code : MsgType → ℕ
code hello = 0x01
code hello_ok = 0x02
code hello_fail = 0x03
code file_hdr = 0x10
code file_data = 0x11
code file_end = 0x12
code all_done = 0x20
code error = 0xff
code (other b) = b

-- `static_cast<MsgType>(byte)`
abbrev pub of_code : ℕ → MsgType
of_code b =
    if b == 0x01
    then hello
    else if b == 0x02
    then hello_ok
    else if b == 0x03
    then hello_fail
    else if b == 0x10
    then file_hdr
    else if b == 0x11
    then file_data
    else if b == 0x12
    then file_end
    else if b == 0x20
    then all_done
    else if b == 0xff
    then error
    else other b

abbrev pub msg_header_size : ℕ
msg_header_size = 5

abbrev pub protocol_version : ℕ
protocol_version = 2

abbrev pub nonce_size : ℕ
nonce_size = 16

abbrev pub max_secret_len : ℕ
max_secret_len = 64

abbrev pub max_path_len : ℕ
max_path_len = 4096

abbrev pub max_error_msg_len : ℕ
max_error_msg_len = 256

-- The byte `(val >> (8 * i)) & 0xFF`. Bits that the parameter's type would drop are not written.
abbrev byte_at : ℕ → ℕ → ℕ
byte_at val i = val / 2 ^ (8 * i) % 256

unfoldable pub write_u16 : ℕ → List ℕ
write_u16 val = byte_at val 0 ∷ byte_at val 1 ∷ []

unfoldable pub write_u32 : ℕ → List ℕ
write_u32 val = byte_at val 0 ∷ byte_at val 1 ∷ byte_at val 2 ∷ byte_at val 3 ∷ []

-- `for (int i = 0; i < 8; i++)`, from index `i` with `n` rounds left.
write_bytes : ℕ → ℕ → ℕ → List ℕ
write_bytes zero i val = []
write_bytes (suc n) i val = byte_at val i ∷ write_bytes n (suc i) val

unfoldable pub write_u64 : ℕ → List ℕ
unfolding write_bytes
write_u64 val = write_bytes 8 0 val

unfoldable pub read_u16 : List ℕ → ℕ
read_u16 buf = bit_or (get_or buf 0 0) (get_or buf 1 0 * 2 ^ 8)

unfoldable pub read_u32 : List ℕ → ℕ
read_u32 buf =
    bit_or (bit_or (bit_or (get_or buf 0 0) (get_or buf 1 0 * 2 ^ 8)) (get_or buf 2 0 * 2 ^ 16))
      (get_or buf 3 0 * 2 ^ 24)

-- `val |= ((uint64_t)buf[i]) << (i * 8)`, from index `i` with `n` rounds left.
read_bytes : ℕ → ℕ → List ℕ → ℕ → ℕ
read_bytes zero i buf val = val
read_bytes (suc n) i buf val = read_bytes n (suc i) buf (bit_or val (get_or buf i 0 * 2 ^ (i * 8)))

unfoldable pub read_u64 : List ℕ → ℕ
unfolding read_bytes
read_u64 buf = read_bytes 8 0 buf 0

unfoldable pub write_header : MsgType → ℕ → List ℕ
unfolding write_u32
write_header type payload_len = code type ∷ write_u32 payload_len

-- The parser always returns true, so its result is the pair that goes out by reference.
unfoldable pub parse_header : List ℕ → MsgType × ℕ
unfolding read_u32
parse_header buf = (of_code (get_or buf 0 0), read_u32 (drop 1 buf))

-- Two bytes read back, whatever follows them.
pub read_u16-write_u16 :
    (val : ℕ) (rest : List ℕ) → val < 2 ^ 16 → read_u16 (write_u16 val ++ rest) ≡ val
unfolding read_u16 write_u16
read_u16-write_u16 val rest h =
    omega (arith, bit_or-shifted 8 (byte_at val 0) (byte_at val 1) (omega arith))

-- Four bytes, ORed at their shifts, are the number of base 256 with these digits.
or_four :
    (a b c d : ℕ)
    → a < 256
    → b < 256
    → c < 256
    → bit_or (bit_or (bit_or a (b * 2 ^ 8)) (c * 2 ^ 16)) (d * 2 ^ 24)
      ≡ a + b * 2 ^ 8 + c * 2 ^ 16 + d * 2 ^ 24
or_four a b c d ha hb hc = rw (
  bit_or-shifted 8 a b (omega arith),
  bit_or-shifted 16 (a + b * 2 ^ 8) c (omega arith),
  bit_or-shifted 24 (a + b * 2 ^ 8 + c * 2 ^ 16) d (omega arith),
)

pub read_u32-write_u32 :
    (val : ℕ) (rest : List ℕ) → val < 2 ^ 32 → read_u32 (write_u32 val ++ rest) ≡ val
unfolding read_u32 write_u32
read_u32-write_u32 val rest h = omega (
  arith,
  or_four (byte_at val 0) (byte_at val 1) (byte_at val 2) (byte_at val 3) (omega arith)
      (omega arith) (omega arith),
)

-- `or_four`, going on with a number `low` of 32 bits.
or_four_more :
    (low a b c d : ℕ)
    → low < 2 ^ 32
    → a < 256
    → b < 256
    → c < 256
    → bit_or (bit_or (bit_or (bit_or low (a * 2 ^ 32)) (b * 2 ^ 40)) (c * 2 ^ 48)) (d * 2 ^ 56)
      ≡ low + a * 2 ^ 32 + b * 2 ^ 40 + c * 2 ^ 48 + d * 2 ^ 56
or_four_more low a b c d hl ha hb hc = rw (
  bit_or-shifted 32 low a (omega arith),
  bit_or-shifted 40 (low + a * 2 ^ 32) b (omega arith),
  bit_or-shifted 48 (low + a * 2 ^ 32 + b * 2 ^ 40) c (omega arith),
  bit_or-shifted 56 (low + a * 2 ^ 32 + b * 2 ^ 40 + c * 2 ^ 48) d (omega arith),
)

pub read_u64-write_u64 :
    (val : ℕ) (rest : List ℕ) → val < 2 ^ 64 → read_u64 (write_u64 val ++ rest) ≡ val
unfolding read_u64 write_u64
read_u64-write_u64 val rest h =
    rw
      (
        bit_or-shifted 0 0 (byte_at val 0) (omega arith),
        or_four (0 + byte_at val 0 * 2 ^ 0) (byte_at val 1) (byte_at val 2) (byte_at val 3)
            (omega arith) (omega arith) (omega arith),
        or_four_more
            (0
              + byte_at val 0 * 2 ^ 0
              + byte_at val 1 * 2 ^ 8
              + byte_at val 2 * 2 ^ 16
              + byte_at val 3 * 2 ^ 24)
            (byte_at val 4) (byte_at val 5) (byte_at val 6) (byte_at val 7) (omega arith)
            (omega arith) (omega arith) (omega arith),
      )
      (omega arith)

pub parse_header-write_header :
    (type : MsgType) (len : ℕ) (rest : List ℕ)
    → of_code (code type) ≡ type
    → len < 2 ^ 32
    → parse_header (write_header type len ++ rest) ≡ (type, len)
unfolding parse_header write_header
parse_header-write_header type len rest h l = ground (arith, read_u32-write_u32 len rest)
