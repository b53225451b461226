-- ===== src/Net/Tests/AsyncLoop.antt =====
-- src/net_uring.cpp, `AsyncReceiver::run`: two files over the wire.
use uring_sync.Base.{
  replicate, ℕ, ◌%◌, ◌≤◌, ◌≡◌, refl, ap, sym, List, [], ◌∷◌, ◌++◌, true, false, min, take, drop,
  some, Option, arith, length, All, inl,
}
use mathlib.Core.Option.{some-injective}
use uring_sync.Base.Int.{ℤ, pos, negsuc}
use uring_sync.Paths.{join}
use uring_sync.Protocol.Codec.{file_hdr, write_header}
use uring_sync.Net.Stream.{SourceFile, stream, message}
use uring_sync.Net.Receiver.Storing.{Stored}
use uring_sync.Net.AsyncReceiver.{Request}
use uring_sync.Net.AsyncReceiver.Loop.{Kernel, Run, overrun, run_from, started}
use uring_sync.Net.AsyncReceiver.Loop.Pieces.{Serves, Idle, started-Idle}
use uring_sync.Net.AsyncReceiver.Loop.Requests.{Modest, Asked, Below, left}
use uring_sync.Net.AsyncReceiver.Loop.Confined.{run-Below}
use uring_sync.Net.AsyncReceiver.Loop.Faults.{long_payload-overruns, failed_open-desynchronises}
use uring_sync.Protocol.Messages.{make_hello}
use uring_sync.Net.Handshake.{wrong_secret}
use uring_sync.Net.Serving.{dummy_nonce, exit, run_receiver_uring}
use uring_sync.Net.Serving.Copies.{Waits, run_receiver_uring-copies}
use uring_sync.Net.Tests.{Wire, wire, wire-Delivers, quiet, bytes}
use uring_sync.Net.Tests.Transfer.{add_to, files, files-Fits, incoming}

-- A kernel with the log of the created files as its state, which answers the first request.
abbrev answer : List (ℕ × Request) → List Stored → Option (List (ℕ × ℤ)) × List Stored
answer [] d = (some [], d)
answer ((i, Request.openat path mode) ∷ rest) d = (some ((i, pos 3) ∷ []), (path, mode, []) ∷ d)
answer ((i, Request.write fd buf len offset) ∷ rest) d =
    (some ((i, pos (length buf)) ∷ []), add_to buf d)
answer ((i, Request.close fd) ∷ rest) d = (some ((i, pos 0) ∷ []), d)

abbrev kernel : Kernel
kernel = record { State = List Stored; parents = λ path d. some d; wait = answer }

kernel-Serves : Serves kernel (λ d. d) (λ d. 3)
kernel-Serves = record {
  parents = λ path d. (d, refl, refl);
  opens = λ i path mode d. ((path, mode, []) ∷ d, refl, refl);
  writes = λ i buf d path mode bytes older e. (add_to buf d, refl, ap (add_to buf) e, refl);
  closes = λ i fd d. (d, refl, refl);
}

abbrev start : List ℕ → Run wire kernel
start inp = started wire true kernel 2 (100 ∷ []) 4 (record quiet { inp = inp }) []

start-Idle : (inp : List ℕ) → Idle wire kernel 2 (100 ∷ []) (start inp)
start-Idle inp =
    started-Idle wire kernel 2 (100 ∷ []) 4 (record quiet { inp = inp }) [] (omega arith)
      (omega arith)

abbrev names : List Stored → List (List ℕ)
names [] = []
names ((path, mode, content) ∷ d) = path ∷ names d

names-add_to : (buf : List ℕ) (d : List Stored) → names (add_to buf d) ≡ names d
names-add_to buf [] = refl
names-add_to buf ((path, mode, content) ∷ d) = refl

kernel-Modest : Modest kernel names
kernel-Modest = record {
  parents = λ path d e q. ap names (sym (some-injective d e q));
  waits = waits;
}
  where
    waits :
        (requests : List (ℕ × Request)) (d : List Stored)
        → (added : List (List ℕ)) × (names (answer requests d).1 ≡ added ++ names d)
          × All (λ path. Asked path requests) added
    waits [] d = ([], refl, tt)
    waits ((i, Request.openat path mode) ∷ rest) d = (path ∷ [], refl, (inl refl, tt))
    waits ((i, Request.write fd buf len offset) ∷ rest) d = ([], names-add_to buf d, tt)
    waits ((i, Request.close fd) ∷ rest) d = ([], refl, tt)

run-Below_example : All (Below (100 ∷ [])) (
    names (
      left (
        run_from wire true kernel 2
          (100 ∷ [])
          9
          (started wire true kernel 2 (100 ∷ []) 4 incoming []))))
run-Below_example = run-Below wire kernel names kernel-Modest true 2 (100 ∷ []) 4 9 incoming [] tt

abbrev long_payload : List ℕ
long_payload = replicate 5000 7

long_payload-overruns_example :
    run_from wire true kernel 2
      (100 ∷ [])
      1
      (start (write_header file_hdr 5000 ++ (long_payload ++ bytes)))
    ≡ overrun []
unfolding started
long_payload-overruns_example =
    long_payload-overruns wire wire-Delivers kernel 2 (100 ∷ []) 0 long_payload bytes
      (start (write_header file_hdr 5000 ++ (long_payload ++ bytes))) (start-Idle _) (omega arith)
      (omega arith) refl

-- A kernel that opens nothing.
abbrev refuse : List (ℕ × Request) → List Stored → Option (List (ℕ × ℤ)) × List Stored
refuse [] d = (some [], [])
refuse ((i, request) ∷ rest) d = (some ((i, negsuc 12) ∷ []), [])

abbrev refusing : Kernel
refusing = record { State = List Stored; parents = λ path d. some d; wait = refuse }

abbrev first : SourceFile
first = record { path = 97 ∷ []; mode = 0o100644; content = bytes }

abbrev second : SourceFile
second = record { path = 98 ∷ []; mode = 0o100644; content = 7 ∷ [] }

abbrev two : Wire
two = record quiet { inp = message first ++ stream (second ∷ []) }

failed_open-desynchronises_example :
    (q : Run wire refusing) × (run_from wire true refusing 2
        (100 ∷ [])
        1
        (started wire true refusing 2 (100 ∷ []) 4 two [])
      ≡ run_from wire true refusing 2 (100 ∷ []) 0 q)
    × Idle wire refusing 2 (100 ∷ []) q
    × (q.sock.inp ≡ bytes ++ stream (second ∷ []))
    × (q.files_completed ≡ 1)
    × (q.disk ≡ [])
unfolding started
failed_open-desynchronises_example =
    failed_open-desynchronises wire wire-Delivers refusing 2 (100 ∷ []) 0 12 first
      (stream (second ∷ [])) (started wire true refusing 2 (100 ∷ []) 4 two []) []
      (started-Idle wire refusing 2 (100 ∷ []) 4 two [] (omega arith) (omega arith)) files-Fits.0
      refl (λ w. refl) (λ path w. (w, refl))

-- All that is there, if that is enough.
abbrev wait_all : ℕ → Wire → ℤ × List ℕ × Wire
wait_all len s = (pos (min len (length s.inp)), take len s.inp, record s { inp = drop len s.inp })

all_there : (len n : ℕ) → len ≤ n → min len n ≡ len
all_there len n h = omega arith

wire-Waits : Waits wire wait_all
wire-Waits = record {
  whole = λ len s fits. (ap pos (all_there len (length s.inp) fits), refl, refl);
  sends = λ buf s. refl;
}

-- The secret of both sides is "k".
abbrev greeting : List ℕ
greeting = make_hello (b'k' ∷ []) dummy_nonce

secret_right : wrong_secret (b'k' ∷ []) (b'k' ∷ []) ≡ false
unfolding wrong_secret
secret_right = refl

run_receiver_uring-copies_example :
    (w : List Stored) × (run_receiver_uring wire wait_all kernel
        (λ path d. some d)
        (100 ∷ [])
        (b'k' ∷ [])
        9
        (record quiet { inp = greeting ++ stream files })
        []
      ≡ exit 0 w)
    × (w
        ≡ (join (100 ∷ []) (98 ∷ []), 0o100644 % 512, 7 ∷ [])
          ∷ (join (100 ∷ []) (97 ∷ []), 0o100644 % 512, bytes)
          ∷ [])
run_receiver_uring-copies_example =
    run_receiver_uring-copies wire wire-Delivers wait_all wire-Waits kernel (λ d. d) (λ d. 3)
      kernel-Serves (λ path d. some d) (100 ∷ []) (b'k' ∷ []) (b'k' ∷ []) dummy_nonce files 9
      (record quiet { inp = greeting ++ stream files }) [] [] refl refl refl secret_right files-Fits
      refl (omega arith)
