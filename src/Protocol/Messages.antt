-- ===== src/Protocol/Messages.antt =====
-- include/protocol.hpp, "Message Builders". `std::vector<uint8_t> msg(n)` is zero-filled, and
-- every field is written at its offset.
use uring_sync.Base.{ℕ, zero, suc, ◌+◌, ◌%◌, List, [], ◌∷◌, min, length, take, replicate}
use uring_sync.Protocol.Codec.{
  hello, hello_ok, hello_fail, file_hdr, file_data, file_end, all_done, error, msg_header_size,
  protocol_version, nonce_size, max_secret_len, max_path_len, max_error_msg_len, write_u16,
  write_u32, write_u64, write_header,
}

-- Bytes laid over the start of a buffer. Past the end nothing is written, where C++ is undefined;
-- the layout theorems show that it does not happen.
abbrev pub overlay : List ℕ → List ℕ → List ℕ
overlay [] buf = buf
overlay (b ∷ bs) [] = []
overlay (b ∷ bs) (x ∷ buf) = b ∷ overlay bs buf

-- `memcpy(buf + off, bs, n)`, `buf[off] = b` and the writers called with `buf + off`.
unfoldable pub write_at : ℕ → List ℕ → List ℕ → List ℕ
write_at zero bs buf = overlay bs buf
write_at (suc off) bs [] = []
write_at (suc off) bs (x ∷ buf) = x ∷ write_at off bs buf

unfoldable pub make_hello : List ℕ → List ℕ → List ℕ
make_hello secret nonce =
    let secret_len = min (length secret) max_secret_len in
    let payload_len = 2 + secret_len + nonce_size in
    let msg0 = replicate (msg_header_size + payload_len) 0 in
    let msg1 = write_at 0 (write_header hello payload_len) msg0 in
    let msg2 = write_at 5 (protocol_version ∷ []) msg1 in
    let msg3 = write_at 6 ((secret_len % 256) ∷ []) msg2 in
    let msg4 = write_at 7 (take secret_len secret) msg3 in
    write_at (7 + secret_len) (take nonce_size nonce) msg4

unfoldable pub make_hello_ok : List ℕ → List ℕ
make_hello_ok nonce =
    let msg0 = replicate (msg_header_size + nonce_size) 0 in
    let msg1 = write_at 0 (write_header hello_ok nonce_size) msg0 in
    write_at msg_header_size (take nonce_size nonce) msg1

unfoldable pub make_hello_fail : ℕ → List ℕ
make_hello_fail reason =
    let msg0 = replicate (msg_header_size + 1) 0 in
    let msg1 = write_at 0 (write_header hello_fail 1) msg0 in write_at 5 (reason ∷ []) msg1

unfoldable pub make_file_hdr : ℕ → ℕ → List ℕ → List ℕ
make_file_hdr size mode path =
    let path_len = min (length path) max_path_len in
    let payload_len = 8 + 4 + 2 + path_len in
    let msg0 = replicate (msg_header_size + payload_len) 0 in
    let msg1 = write_at 0 (write_header file_hdr payload_len) msg0 in
    let msg2 = write_at 5 (write_u64 size) msg1 in
    let msg3 = write_at 13 (write_u32 mode) msg2 in
    let msg4 = write_at 17 (write_u16 path_len) msg3 in write_at 19 (take path_len path) msg4

unfoldable pub make_file_data_header : ℕ → List ℕ
make_file_data_header data_len =
    write_at 0 (write_header file_data data_len) (replicate msg_header_size 0)

unfoldable pub make_file_end : List ℕ
make_file_end = write_at 0 (write_header file_end 0) (replicate msg_header_size 0)

unfoldable pub make_all_done : List ℕ
make_all_done = write_at 0 (write_header all_done 0) (replicate msg_header_size 0)

unfoldable pub make_error : ℕ → List ℕ → List ℕ
make_error code message =
    let msg_len = min (length message) max_error_msg_len in
    let payload_len = 1 + 2 + msg_len in
    let msg0 = replicate (msg_header_size + payload_len) 0 in
    let msg1 = write_at 0 (write_header error payload_len) msg0 in
    let msg2 = write_at 5 (code ∷ []) msg1 in
    let msg3 = write_at 6 (write_u16 msg_len) msg2 in write_at 8 (take msg_len message) msg3
