-- ===== src/Net/Tests.antt =====
-- src/net.cpp and src/net_uring.cpp: their properties over a wire that moves at most two bytes at a time.
mod Async
mod Collect
mod AsyncLoop
mod Handshake
mod Transfer
use uring_sync.Base.{
  if◌then◌else◌, ◌⊎◌, ℕ, zero, suc, ◌-◌, ◌%◌, ◌≡◌, min, refl, ap, List, [], ◌∷◌, ◌++◌, false, true,
  some, inr, arith, length, take, drop, All,
}
use uring_sync.Base.Int.{pos, negsuc}
use uring_sync.Protocol.Messages.{make_file_hdr, make_all_done}
use uring_sync.Net.Socket.{Socket, Delivers, send_all, recv_all, send_all-sends, recv_all-receives}
use uring_sync.Net.Sender.{Host, sent, send_file}
use uring_sync.Net.Sender.Sending.{Works, send_file-sends}
use uring_sync.Net.Handshake.{same_text}
use uring_sync.Net.Receiver.{Disk, receive_files}
use uring_sync.Net.Receiver.Confined.{Modest, Below, left, receive_files-Below}

-- `out` went to the peer, `inp` comes from it, `text` is what the open file has still to give,
-- `opened` are its bytes and its mode.
record Wire : Type 0 where
  out : List ℕ
  inp : List ℕ
  text : List ℕ
  opened : List ℕ × ℕ

abbrev piece : ℕ → List ℕ → ℕ
piece len xs = min len (min 2 (length xs))

abbrev wire : Socket
wire = record {
  State = Wire;
  send = λ buf s.
      (pos (min 2 (length buf)), record s { out = s.out ++ take (min 2 (length buf)) buf });
  recv = λ len s. (
    pos (piece len s.inp),
    take (piece len s.inp) s.inp,
    record s { inp = drop (piece len s.inp) s.inp },
  );
  sent = λ s. s.out;
  pending = λ s. s.inp;
}

wire-Delivers : Delivers wire
wire-Delivers = record {
  sends = λ buf s more.
      let whole : suc (min 2 (length buf) - 1) ≡ min 2 (length buf) = omega arith in
      (min 2 (length buf) - 1, rw whole refl, omega arith, rw whole refl, refl);
  receives = λ len s more fits.
      let whole : suc (piece len s.inp - 1) ≡ piece len s.inp = omega arith in
      (piece len s.inp - 1, rw whole refl, omega arith, rw whole refl, rw whole refl, refl);
}

abbrev bytes : List ℕ
bytes = 10 ∷ 20 ∷ 30 ∷ []

abbrev quiet : Wire
quiet = record { out = []; inp = bytes; text = []; opened = ([], 0) }

send_all-sends_example :
    (t : Wire) × (send_all wire bytes quiet ≡ some t) × (t.out ≡ bytes) × (t.inp ≡ bytes)
send_all-sends_example = send_all-sends wire wire-Delivers bytes quiet

recv_all-receives_example :
    (t : Wire) × (recv_all wire 2 quiet ≡ some (10 ∷ 20 ∷ [], t)) × (t.inp ≡ 30 ∷ []) × (t.out ≡ [])
recv_all-receives_example = recv_all-receives wire wire-Delivers 2 quiet (omega arith)

-- Of two files: s/b has one byte, and any other path the three above.
abbrev content_at : List ℕ → List ℕ
content_at path = if same_text path (115 ∷ 47 ∷ 98 ∷ []) then 7 ∷ [] else bytes

abbrev host : Host
host = record {
  sock = wire;
  open_file =
      λ path s. (pos 3, record s { text = content_at path; opened = (content_at path, 0o100644) });
  fstat = λ fd s. (pos 0, record { size = length s.opened.0; mode = s.opened.1 }, s);
  read = λ fd len s. (
    pos (piece len s.text),
    take (piece len s.text) s.text,
    record s { text = drop (piece len s.text) s.text },
  );
  splice_in = λ fd off pipe len s. (negsuc 21, s);
  splice_out = λ pipe len s. (negsuc 21, s);
  close = λ fd s. s;
  rest = λ s. s.text;
  opened = λ s. s.opened;
}

twice : (n : ℕ) (xs : List ℕ) → take n (take n xs) ≡ take n xs
twice zero xs = refl
twice (suc n) [] = refl
twice (suc n) (x ∷ xs) = ap (λ t. x ∷ t) (twice n xs)

host-Works : Works host
host-Works = record {
  delivers = wire-Delivers;
  stats = λ fd s. (0, refl, refl, refl, refl);
  reads = λ fd len s more fits.
      let n = piece len s.text in
      let whole : suc (n - 1) ≡ n = omega arith in
      (n - 1, rw whole refl, omega arith, rw whole (twice n s.text), rw whole refl, refl);
  keeps = λ buf s. refl;
  closes = λ fd s. refl;
}

-- The state is the list of the created paths.
abbrev disk : Disk
disk = record {
  State = List (List ℕ);
  parents = λ path d. some d;
  create = λ path mode d. (pos 3, path ∷ d);
  write = λ fd buf d. (pos (length buf), d);
}

disk-Modest : Modest disk (λ d. d)
disk-Modest = record {
  creates = λ path mode d. inr refl;
  parents = λ path d e h. cc;
  writes = λ fd buf d. refl;
}

-- One file named a with one byte.
abbrev stream : Wire
stream = record {
  out = [];
  inp = make_file_hdr 1 0o644 (97 ∷ []) ++ 7 ∷ make_all_done;
  text = [];
  opened = ([], 0);
}

receive_files-Below_example :
    All (Below (100 ∷ [])) (left (receive_files wire disk (100 ∷ []) 3 0 stream []))
receive_files-Below_example =
    receive_files-Below wire disk (λ d. d) disk-Modest (100 ∷ []) 3 0 stream [] tt
