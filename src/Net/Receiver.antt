-- ===== src/Net/Receiver.antt =====
-- src/net.cpp, `run_receiver`: the loop that receives files.
pub mod Confined
pub mod Storing
use uring_sync.Base.{
  ℕ, zero, suc, ◌+◌, ◌-◌, ◌*◌, min, List, [], ◌∷◌, ◌++◌, Bool, true, false, Option, none, some,
  ◌==◌, ltb, if◌then◌else◌,
}
use uring_sync.Base.Int.{ℤ, pos, negsuc}
use uring_sync.Protocol.Codec.{MsgType, file_hdr, all_done}
use uring_sync.Protocol.Parsers.{FileHdrMsg, parse_file_hdr}
use uring_sync.Protocol.SafePath.{is_safe_path, slash}
use uring_sync.Net.Socket.{Socket, recv_header, recv_all}

-- The receiver's file system. It is not part of the program: what its calls do is an argument.
-- `parents` is `fs::create_directories` of the parent path, `none` where it throws; `create` is `open`
-- with O_WRONLY | O_CREAT | O_TRUNC, and `write` has the descriptor and the bytes.
pub record Disk : Type 1 where
  pub State : Type 0
  pub parents : List ℕ → State → Option State
  pub create : List ℕ → ℕ → State → ℤ × State
  pub write : ℕ → List ℕ → State → ℤ × State

abbrev pub buf_size : ℕ
buf_size = 128 * 1024

-- What the next message is: a file, the end, or anything else, on which the loop stops with an error.
pub data Next {ℓ} (S : Type ℓ) : Type ℓ where
  last : S → Next S
  file : FileHdrMsg → S → Next S
  bad : Next S

module _ (k : Socket) where
  abbrev checked : Option FileHdrMsg → k.State → Next k.State
  checked none s = bad
  checked (some hdr) s = if is_safe_path hdr.path then file hdr s else bad

  abbrev with_payload : ℕ → Option (List ℕ × k.State) → Next k.State
  with_payload len none = bad
  with_payload len (some (payload, s)) = checked (parse_file_hdr payload len) s

  abbrev by_type : MsgType → ℕ → k.State → Next k.State
  by_type all_done len s = last s
  by_type file_hdr len s = with_payload len (recv_all k len s)
  by_type _ len s = bad

  abbrev with_header : Option ((MsgType × ℕ) × k.State) → Next k.State
  with_header none = bad
  with_header (some ((type, len), s)) = by_type type len s

  unfoldable pub next_message : k.State → Next k.State
  next_message s = with_header (recv_header k s)

-- How receiving ends: `complete` for exit code 0, `failed` for 1, `thrown` where an exception leaves
-- `run_receiver`, each with the file system; and `unfinished` where the rounds ran out.
pub data Received {ℓ} (D : Type ℓ) : Type ℓ where
  complete : ℕ → D → Received D
  failed thrown unfinished : D → Received D

module _ (k : Socket) (disk : Disk) where
  -- `while (remaining > 0)`; each round takes at least one byte, so `remaining` rounds are enough.
  -- A file system without a socket means that the connection or the write failed.
  receive_data : ℕ → ℕ → ℕ → k.State → disk.State → Option k.State × disk.State
  receive_data zero fd remaining s d = (some s, d)
  receive_data (suc rounds) fd remaining s d = elim (remaining == 0) [
    | true ↦ (some s, d)
    | false ↦
        let to_recv = min remaining buf_size in
        elim (recv_all k to_recv s) [
          | none ↦ (none, d)
          | some (buffer, s') ↦
              let (written, d') = disk.write fd buffer d in
              elim written [
                | pos n ↦ elim (n == to_recv) [
                  | true ↦ receive_data rounds fd (remaining - to_recv) s' d'
                  | false ↦ (none, d')
                ]
                | negsuc e ↦ (none, d')
              ]
        ]
  ]

  module _ (dst_path : List ℕ) where
    abbrev pub file_path : FileHdrMsg → List ℕ
    file_path hdr = dst_path ++ slash ∷ hdr.path

    -- `while (!error)`, with `received` files so far.
    pub receive_files : ℕ → ℕ → k.State → disk.State → Received disk.State
    unfolding receive_data
    receive_files zero received s d = unfinished d
    receive_files (suc rounds) received s d = elim (next_message k s) [
      | bad ↦ failed d
      | last s' ↦ complete received d
      | file hdr s₁ ↦ elim (disk.parents (file_path hdr) d) [
        | none ↦ thrown d
        | some d₁ ↦
            let (fd, d₂) = disk.create (file_path hdr) hdr.mode d₁ in
            elim fd [
              | negsuc e ↦ failed d₂
              | pos n ↦
                  let (s₃, d₃) = receive_data hdr.size n hdr.size s₁ d₂ in
                  elim s₃ [ none ↦ failed d₃ | some s₄ ↦ receive_files rounds (received + 1) s₄ d₃ ]
            ]
      ]
    ]
