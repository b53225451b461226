-- ===== src/Net/Tests/Transfer.antt =====
-- src/net.cpp: the transfer of two files over the wire, and what its parts state.
use uring_sync.Base.{
  ℕ, ◌%◌, ◌≡◌, refl, ap, sym, ◌∙◌, List, [], ◌∷◌, ◌++◌, false, true, some, arith, length, All,
}
use uring_sync.Base.Int.{pos, negsuc}
use uring_sync.Net.Stream.{SourceFile, Fits, stream}
use uring_sync.Net.Sender.{Sent, sent, failed, unfinished}
use uring_sync.Net.Sender.Run.{ServesAll, paths, send_files, send_files-sends}
use uring_sync.Net.Receiver.{Disk, complete, receive_files}
use uring_sync.Net.Receiver.Storing.{Stored, Stores}
use uring_sync.Net.Transfer.{transfer_copies}
use uring_sync.Protocol.SafePath.{is_safe_path}
use uring_sync.Net.Tests.{Wire, wire, wire-Delivers, quiet, bytes, host, host-Works}

-- The state is the log of the created files.
abbrev pub add_to : List ℕ → List Stored → List Stored
add_to buf [] = []
add_to buf ((path, mode, bytes) ∷ older) = (path, mode, bytes ++ buf) ∷ older

abbrev disk : Disk
disk = record {
  State = List Stored;
  parents = λ path d. some d;
  create = λ path mode d. (pos 3, (path, mode, []) ∷ d);
  write = λ fd buf d. (pos (length buf), add_to buf d);
}

disk-Stores : Stores disk (λ d. d) (λ d. 3)
disk-Stores = record {
  parents = λ path d. (d, refl, refl);
  creates = λ path mode d. (refl, refl);
  writes = λ buf d path mode bytes older e. (refl, ap (add_to buf) e, refl);
}

abbrev pub files : List SourceFile
files =
    record { path = 97 ∷ []; mode = 0o100644; content = bytes }
    ∷ record { path = 98 ∷ []; mode = 0o100644; content = 7 ∷ [] }
    ∷ []

safe_names : (is_safe_path (97 ∷ []) ≡ true) × (is_safe_path (98 ∷ []) ≡ true)
unfolding is_safe_path
safe_names = (refl, refl)

pub files-Fits : All Fits files
files-Fits = (
  record { safe = safe_names.0; short = omega arith; sized = omega arith },
  (record { safe = safe_names.1; short = omega arith; sized = omega arith }, tt),
)

served : ServesAll host (115 ∷ []) files
served = ((λ s. (3, refl, refl, refl, refl)), ((λ s. (3, refl, refl, refl, refl)), tt))

abbrev pub incoming : Wire
incoming = record quiet { inp = stream files }

files_sent :
    (t : Wire) × (send_files host 0
        (negsuc 0)
        (negsuc 0)
        false
        (115 ∷ [])
        ((97 ∷ []) ∷ (98 ∷ []) ∷ [])
        quiet
      ≡ sent t)
    × (t.out ≡ stream files)
files_sent = send_files-sends host host-Works 0 (negsuc 0) (negsuc 0) (115 ∷ []) files quiet served

abbrev state_of : Sent Wire → Wire
state_of (sent t) = t
state_of failed = quiet
state_of unfinished = quiet

delivered :
    (t : Wire)
    → send_files host 0 (negsuc 0) (negsuc 0) false (115 ∷ []) (paths files) quiet ≡ sent t
    → t.out ≡ stream files
delivered t e = let (u, ran, out) = files_sent in ap (λ x. x.out) (ap state_of (sym e ∙ ran)) ∙ out

transfer_copies_example :
    (t : Wire) × (send_files host 0 (negsuc 0) (negsuc 0) false (115 ∷ []) (paths files) quiet
      ≡ sent t)
    × (e : List Stored) × (receive_files wire disk (100 ∷ []) 3 0 incoming [] ≡ complete 2 e)
    × (e
        ≡ (100 ∷ 47 ∷ 98 ∷ [], 0o100644 % 512, 7 ∷ [])
          ∷ (100 ∷ 47 ∷ 97 ∷ [], 0o100644 % 512, bytes)
          ∷ [])
transfer_copies_example =
    transfer_copies host host-Works 0 (negsuc 0) (negsuc 0) (115 ∷ []) files quiet wire
      wire-Delivers disk (λ d. d) (λ d. 3) disk-Stores (100 ∷ []) incoming [] served files-Fits
      delivered
