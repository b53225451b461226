-- ===== src/Net/Sender.antt =====
-- src/net.cpp, `splice_to_socket` and `send_file`: one file goes to the peer.
pub mod Sending
pub mod Run
pub mod Collect
use uring_sync.Base.{
  ℕ, zero, suc, ◌+◌, ◌-◌, ◌*◌, ◌%◌, min, List, [], ◌∷◌, ◌++◌, Bool, true, false, Option, none, some,
  ◌==◌, ◌&&◌, take, if◌then◌else◌,
}
use uring_sync.Base.Int.{ℤ, pos, negsuc}
use uring_sync.Protocol.Messages.{make_file_hdr}
use uring_sync.Protocol.SafePath.{slash}
use uring_sync.FileCopy.Types.{Statx}
use uring_sync.Net.Socket.{Socket, send_all, send_msg}

-- The sender's system calls beside those of the socket; all share one state. They are not part of
-- the program: what they do is an argument. `read` gives its result and the buffer; `splice_in` has
-- the file, its offset, the pipe's descriptor and the length, `splice_out` the pipe's descriptor and
-- the length; `rest` is what the open file has still to give, `opened` are its bytes and its
-- mode.
pub record Host : Type 1 where
  pub sock : Socket
  pub open_file : List ℕ → sock.State → ℤ × sock.State
  pub fstat : ℕ → sock.State → ℤ × Statx × sock.State
  pub read : ℕ → ℕ → sock.State → ℤ × List ℕ × sock.State
  pub splice_in : ℕ → ℕ → ℤ → ℕ → sock.State → ℤ × sock.State
  pub splice_out : ℤ → ℕ → sock.State → ℤ × sock.State
  pub close : ℕ → sock.State → sock.State
  pub rest : sock.State → List ℕ
  pub opened : sock.State → List ℕ × ℕ

-- `sent` for the result true and `failed` for false, before which the descriptor is closed;
-- `unfinished` where the rounds ran out.
pub data Sent {ℓ} (S : Type ℓ) : Type ℓ where
  sent : S → Sent S
  failed unfinished : Sent S

abbrev is_readable : ℤ → Bool
is_readable (pos n) = true
is_readable (negsuc n) = false

module _ (h : Host) where
  -- `while (remaining > 0)`; a round that answers EAGAIN, which is 11, moves nothing.
  splice_to_socket : ℕ → ℤ → ℕ → h.sock.State → Sent h.sock.State
  splice_to_socket zero pipe_read_fd remaining s = if remaining == 0 then sent s else unfinished
  splice_to_socket (suc rounds) pipe_read_fd remaining s = elim (remaining == 0) [
    | true ↦ sent s
    | false ↦
        let (n, s') = h.splice_out pipe_read_fd remaining s in
        elim n [
          | pos zero ↦ failed
          | pos (suc m) ↦ splice_to_socket rounds pipe_read_fd (remaining - suc m) s'
          | negsuc e ↦ elim (e == 10) [
            | true ↦ splice_to_socket rounds pipe_read_fd remaining s'
            | false ↦ failed
          ]
        ]
  ]

  -- The loop of `send_file` that reads. Each round fails or takes a byte, so `remaining` rounds are
  -- enough. The buffer is a list, and its front of `n` bytes is sent.
  read_and_send : ℕ → ℕ → ℕ → ℕ → h.sock.State → Sent h.sock.State
  read_and_send zero buf_size fd remaining s =
      if remaining == 0 then sent (h.close fd s) else unfinished
  read_and_send (suc rounds) buf_size fd remaining s = elim (remaining == 0) [
    | true ↦ sent (h.close fd s)
    | false ↦
        let (n, buffer, s₁) = h.read fd (min remaining buf_size) s in
        elim n [
          | pos zero ↦ failed
          | pos (suc m) ↦ elim (send_all h.sock (take (suc m) buffer) s₁) [
            | none ↦ failed
            | some s₂ ↦ read_and_send rounds buf_size fd (remaining - suc m) s₂
          ]
          | negsuc e ↦ failed
        ]
  ]

  module _ (retries : ℕ) (pipe_read_fd pipe_write_fd : ℤ) where
    -- The same loop through the pipe; `retries` bounds the rounds of each `splice_to_socket`.
    splice_and_send : ℕ → ℕ → ℕ → ℕ → ℕ → h.sock.State → Sent h.sock.State
    unfolding splice_to_socket
    splice_and_send zero buf_size fd offset remaining s =
        if remaining == 0 then sent (h.close fd s) else unfinished
    splice_and_send (suc rounds) buf_size fd offset remaining s = elim (remaining == 0) [
      | true ↦ sent (h.close fd s)
      | false ↦
          let (n, s₁) = h.splice_in fd offset pipe_write_fd (min remaining buf_size) s in
          elim n [
            | pos zero ↦ failed
            | pos (suc m) ↦ elim (splice_to_socket retries pipe_read_fd (suc m) s₁) [
              | sent s₂ ↦ splice_and_send rounds buf_size fd (offset + suc m) (remaining - suc m) s₂
              | failed ↦ failed
              | unfinished ↦ unfinished
            ]
            | negsuc e ↦ failed
          ]
    ]

    -- `g_use_splice` and the size of the buffer are arguments.
    unfoldable pub send_file : Bool → ℕ → List ℕ → List ℕ → h.sock.State → Sent h.sock.State
    unfolding read_and_send splice_and_send
    send_file use_splice buf_size base_path rel_path s =
        let (r, s₁) = h.open_file (base_path ++ slash ∷ rel_path) s in
        elim r [
          | negsuc e ↦ failed
          | pos fd ↦
              let (z, st, s₂) = h.fstat fd s₁ in
              elim z [
                | negsuc e ↦ failed
                | pos _ ↦
                    elim (send_msg h.sock (make_file_hdr st.size (st.mode % 512) rel_path) s₂) [
                      | none ↦ failed
                      | some s₃ ↦
                          if use_splice && is_readable pipe_read_fd
                          then splice_and_send st.size buf_size fd 0 st.size s₃
                          else read_and_send st.size buf_size fd st.size s₃
                    ]
              ]
        ]
