-- ===== src/Protocol/Layout.antt =====
-- include/protocol.hpp: where the builders put each field.
use native.Mathlib.Nat.{zero-add, suc-add}
use uring_sync.Base.{
  ℕ, zero, suc, ◌+◌, ◌%◌, ◌<◌, ◌≤◌, ◌≡◌, refl, ap, sym, ◌∙◌, List, [], ◌∷◌, ◌++◌, min, length, take,
  replicate, arith, length-append, length-take, append_assoc, append-nil, take_all,
}
use uring_sync.Protocol.Codec.{
  MsgType, hello, hello_ok, hello_fail, file_hdr, file_data, file_end, all_done, error,
  msg_header_size, protocol_version, nonce_size, max_secret_len, max_path_len, max_error_msg_len,
  write_u16, write_u32, write_u64, write_header,
}
use uring_sync.Protocol.Messages.{
  overlay, write_at, make_hello, make_hello_ok, make_hello_fail, make_file_hdr,
  make_file_data_header, make_file_end, make_all_done, make_error,
}

overlay_fits :
    (bs : List ℕ) (n : ℕ) → overlay bs (replicate (length bs + n) 0) ≡ bs ++ replicate n 0
overlay_fits [] n = rw zero-add
overlay_fits (b ∷ bs) n = rw suc-add (ap (◌∷◌ b) (overlay_fits bs n))

-- A write just behind what is written so far, into the part that is still zero.
write_at_next :
    (off : ℕ) (pre bs : List ℕ) (m n : ℕ)
    → length pre ≡ off
    → m ≡ length bs + n
    → write_at off bs (pre ++ replicate m 0) ≡ (pre ++ bs) ++ replicate n 0
unfolding write_at
write_at_next zero [] bs m n h e = rw e (overlay_fits bs n)
write_at_next zero (x ∷ pre) bs m n h e = absurd (omega arith)
write_at_next (suc off) [] bs m n h e = absurd (omega arith)
write_at_next (suc off) (x ∷ pre) bs m n h e =
    ap (◌∷◌ x) (write_at_next off pre bs m n (omega arith) e)

-- The last write fills the buffer.
write_at_last :
    (off : ℕ) (pre bs : List ℕ) (m : ℕ)
    → length pre ≡ off
    → m ≡ length bs
    → write_at off bs (pre ++ replicate m 0) ≡ pre ++ bs
write_at_last off pre bs m h e =
    write_at_next off pre bs m 0 h (omega arith) ∙ append-nil (pre ++ bs)

pub length-write_header : (type : MsgType) (len : ℕ) → length (write_header type len) ≡ 5
unfolding write_header write_u32
length-write_header type len = refl

header_first :
    (type : MsgType) (len m n : ℕ)
    → m ≡ 5 + n
    → write_at 0 (write_header type len) (replicate m 0) ≡ write_header type len ++ replicate n 0
header_first type len m n e =
    write_at_next 0 [] (write_header type len) m n refl
      (omega (arith, length-write_header type len))

pub length-write_u16 : (val : ℕ) → length (write_u16 val) ≡ 2
unfolding write_u16
length-write_u16 val = refl

pub length-write_u32 : (val : ℕ) → length (write_u32 val) ≡ 4
unfolding write_u32
length-write_u32 val = refl

pub length-write_u64 : (val : ℕ) → length (write_u64 val) ≡ 8
unfolding write_u64
length-write_u64 val = refl

-- At bytes, for the rule set.
pub joined : (xs ys : List ℕ) → length (xs ++ ys) ≡ length xs + length ys
joined xs ys = length-append xs ys

pub first : (n : ℕ) (xs : List ℕ) → length (take n xs) ≡ min n (length xs)
first n xs = length-take n xs

pub ruleset sizes = (
  arith, joined, first, length-write_header, length-write_u16, length-write_u32, length-write_u64,
)

-- The bytes of each message: the fields lie side by side in the order of the comment above the
-- builder, and no write falls outside the buffer.

pub make_file_hdr_layout :
    (size mode : ℕ) (path : List ℕ)
    → let n = min (length path) max_path_len in
      make_file_hdr size mode path
      ≡ write_header file_hdr (14 + n)
        ++ (write_u64 size ++ (write_u32 mode ++ (write_u16 n ++ take n path)))
unfolding make_file_hdr
make_file_hdr_layout size mode path =
    let n = min (length path) max_path_len in
    let h = write_header file_hdr (14 + n) in
    rw
      (
        header_first file_hdr (14 + n) (msg_header_size + (14 + n)) (14 + n) (omega arith),
        write_at_next 5 h (write_u64 size) (14 + n) (6 + n) (omega sizes) (omega sizes),
        write_at_next 13 (h ++ write_u64 size) (write_u32 mode) (6 + n) (2 + n) (omega sizes)
            (omega sizes),
        write_at_next 17 ((h ++ write_u64 size) ++ write_u32 mode) (write_u16 n) (2 + n) n
            (omega sizes) (omega sizes),
        write_at_last 19 (((h ++ write_u64 size) ++ write_u32 mode) ++ write_u16 n) (take n path) n
            (omega sizes) (omega sizes),
      )
      (simp append_assoc)

pub make_hello_layout :
    (secret nonce : List ℕ)
    → length nonce ≡ nonce_size
    → let n = min (length secret) max_secret_len in
      make_hello secret nonce
      ≡ write_header hello (18 + n) ++ ((protocol_version ∷ n ∷ []) ++ (take n secret ++ nonce))
unfolding make_hello
make_hello_layout secret nonce e =
    let n = min (length secret) max_secret_len in
    let h = write_header hello (18 + n) in
    let small : n % 256 ≡ n = omega arith in
    rw
      (
        payload_size n,
        header_first hello (18 + n) (msg_header_size + (18 + n)) (18 + n) (omega arith),
        write_at_next 5 h (protocol_version ∷ []) (18 + n) (17 + n) (omega sizes) (omega sizes),
        write_at_next 6 (h ++ protocol_version ∷ []) ((n % 256) ∷ []) (17 + n) (16 + n)
            (omega sizes) (omega sizes),
        write_at_next 7 ((h ++ protocol_version ∷ []) ++ (n % 256) ∷ []) (take n secret) (16 + n) 16
            (omega sizes) (omega sizes),
        write_at_last (7 + n) (((h ++ protocol_version ∷ []) ++ (n % 256) ∷ []) ++ take n secret)
            (take nonce_size nonce) 16 (omega sizes) (omega sizes),
        small,
        take_all nonce_size nonce (omega arith),
      )
      (simp append_assoc)
  where
    payload_size : (n : ℕ) → 2 + n + nonce_size ≡ 18 + n
    payload_size n = omega arith

pub make_hello_ok_layout :
    (nonce : List ℕ)
    → length nonce ≡ nonce_size
    → make_hello_ok nonce ≡ write_header hello_ok nonce_size ++ nonce
unfolding make_hello_ok
make_hello_ok_layout nonce e = rw (
  header_first hello_ok nonce_size (msg_header_size + nonce_size) 16 (omega arith),
  write_at_last 5 (write_header hello_ok nonce_size) (take nonce_size nonce) 16 (omega sizes)
      (omega sizes),
  take_all nonce_size nonce (omega arith),
)

pub make_hello_fail_layout :
    (reason : ℕ) → make_hello_fail reason ≡ write_header hello_fail 1 ++ reason ∷ []
unfolding make_hello_fail
make_hello_fail_layout reason = rw (
  header_first hello_fail 1 (msg_header_size + 1) 1 (omega arith),
  write_at_last 5 (write_header hello_fail 1) (reason ∷ []) 1 (omega sizes) (omega sizes),
)

pub make_error_layout :
    (code : ℕ) (message : List ℕ)
    → let n = min (length message) max_error_msg_len in
      make_error code message
      ≡ write_header error (3 + n) ++ ((code ∷ []) ++ (write_u16 n ++ take n message))
unfolding make_error
make_error_layout code message =
    let n = min (length message) max_error_msg_len in
    let h = write_header error (3 + n) in
    rw
      (
        header_first error (3 + n) (msg_header_size + (3 + n)) (3 + n) (omega arith),
        write_at_next 5 h (code ∷ []) (3 + n) (2 + n) (omega sizes) (omega sizes),
        write_at_next 6 (h ++ code ∷ []) (write_u16 n) (2 + n) n (omega sizes) (omega sizes),
        write_at_last 8 ((h ++ code ∷ []) ++ write_u16 n) (take n message) n (omega sizes)
            (omega sizes),
      )
      (simp append_assoc)

pub make_all_done_layout : make_all_done ≡ write_header all_done 0
unfolding make_all_done
make_all_done_layout = rw (header_first all_done 0 5 0 (omega arith)) (append-nil _)

pub make_file_data_header_layout :
    (data_len : ℕ) → make_file_data_header data_len ≡ write_header file_data data_len
unfolding make_file_data_header
make_file_data_header_layout data_len =
    rw (header_first file_data data_len 5 0 (omega arith)) (append-nil _)

pub make_file_end_layout : make_file_end ≡ write_header file_end 0
unfolding make_file_end
make_file_end_layout = rw (header_first file_end 0 5 0 (omega arith)) (append-nil _)
