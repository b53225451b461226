-- ===== src/Net/Stream.antt =====
-- src/net.cpp: what a whole transfer puts on the wire after the handshake, written independently of
-- the code that sends and receives it.
use uring_sync.Base.{ℕ, ◌%◌, ◌≤◌, ◌<◌, ◌^◌, ◌≡◌, List, [], ◌∷◌, ◌++◌, true, length}
use uring_sync.Protocol.Codec.{max_path_len}
use uring_sync.Protocol.Messages.{make_file_hdr, make_all_done}
use uring_sync.Protocol.SafePath.{is_safe_path}

-- A file of the sender: its path below the base, its `st_mode` and its bytes.
pub record SourceFile : Type 0 where
  pub path : List ℕ
  pub mode : ℕ
  pub content : List ℕ

abbrev pub message : SourceFile → List ℕ
message f = make_file_hdr (length f.content) (f.mode % 512) f.path ++ f.content

abbrev pub messages : List SourceFile → List ℕ
messages [] = []
messages (f ∷ fs) = message f ++ messages fs

abbrev pub stream : List SourceFile → List ℕ
stream fs = messages fs ++ make_all_done

-- The files that fit the protocol: a path that the receiver accepts and that is not cut, and a size
-- of 64 bits.
pub record Fits (f : SourceFile) : Type 0 where
  pub safe : is_safe_path f.path ≡ true
  pub short : length f.path ≤ max_path_len
  pub sized : length f.content < 2 ^ 64
