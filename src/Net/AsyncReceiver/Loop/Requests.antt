-- ===== src/Net/AsyncReceiver/Loop/Requests.antt =====
-- src/net_uring.cpp, `AsyncReceiver::run`: the requests that a round prepares, and the files that they name.
use uring_sync.FileCopy.Types.{sub64}
use uring_sync.Base.{
  length, min, ℕ, ◌≡◌, sym, subst, List, [], ◌∷◌, ◌++◌, Bool, true, false, Option, none, some, ◌==◌,
  All, Bool-cases, inl, inr, ◌⊎◌, if◌then◌else◌, ltb, leb,
}
use uring_sync.Base.Int.{ℤ, pos, negsuc}
use uring_sync.Base.Maps.{erase}
use uring_sync.FileCopy.Types.{add64}
use uring_sync.Paths.{join}
use uring_sync.Protocol.Codec.{MsgType, file_hdr, msg_header_size, parse_header}
use uring_sync.Protocol.Parsers.{FileHdrMsg, parse_file_hdr}
use uring_sync.Protocol.SafePath.{is_safe_path, stays_inside}
use uring_sync.Net.Socket.{Socket}
use uring_sync.Net.AsyncReceiver.{
  RecvState, Request, Receiver, is_done, done, opening, writing, closing, with_data, recv_exact,
  stored, submit_close, receive_more, switch_recv, advance_recv_state,
}
use uring_sync.Net.AsyncReceiver.Loop.{
  Kernel, Ended, complete, refused, thrown, overrun, unfinished, Header, last, file, bad, too_long,
  checked, with_payload, by_type, with_header, receive_header, meta_size,
}

-- The kernel creates no more than it is asked for: a wait adds at most files whose opens are on their
-- way, and making directories adds none.
abbrev pub Asked : List ℕ → List (ℕ × Request) → Type 0
Asked path [] = ⊥
Asked path ((i, Request.openat p mode) ∷ rest) = (path ≡ p) ⊎ Asked path rest
Asked path ((i, Request.write fd bytes len offset) ∷ rest) = Asked path rest
Asked path ((i, Request.close fd) ∷ rest) = Asked path rest

pub record Modest (n : Kernel) (names : n.State → List (List ℕ)) : Type 0 where
  pub parents : (path : List ℕ) (d e : n.State) → n.parents path d ≡ some e → names e ≡ names d
  pub waits :
      (requests : List (ℕ × Request)) (d : n.State)
      → (added : List (List ℕ)) × (names (n.wait requests d).1 ≡ added ++ names d)
        × All (λ path. Asked path requests) added

-- A path below the destination: it is joined from the destination and a relative path that never
-- leaves the directory where it starts.
abbrev pub Below : List ℕ → List ℕ → Type 0
Below dst_path path = (rel : List ℕ) × (path ≡ join dst_path rel) × (stays_inside rel ≡ true)

-- The file system at the end of a run.
abbrev pub left {ℓ} : {D : Type ℓ} → Ended D → D
left (complete n d) = d
left (refused d) = d
left (thrown d) = d
left (overrun d) = d
left (unfinished d) = d

-- The header that the loop goes on with was checked.
abbrev pub Checked {ℓ} : {S : Type ℓ} → Header S → Type 0
Checked (last s) = Unit
Checked (file hdr s) = is_safe_path hdr.path ≡ true
Checked bad = Unit
Checked too_long = Unit

module _ (k : Socket) (room : Bool) where
  checked_lem : (o : Option FileHdrMsg) (s : k.State) → Checked (checked k room o s)
  checked_lem none s = tt
  checked_lem (some hdr) s = elim (Bool-cases (is_safe_path hdr.path)) [
    | inl e ↦ rw e e
    | inr e ↦ rw e tt
  ]

  with_payload_lem : (len : ℕ) (o : Option (List ℕ × k.State)) → Checked (with_payload k room len o)
  with_payload_lem len none = tt
  with_payload_lem len (some (payload, s)) = checked_lem (parse_file_hdr payload len) s

  by_type_lem : (type : MsgType) (len : ℕ) (s : k.State) → Checked (by_type k room type len s)
  by_type_lem file_hdr len s = elim (Bool-cases (ltb meta_size (length (stored k room len s).0))) [
    | inl e ↦ rw e tt
    | inr e ↦ rw e (with_payload_lem len (recv_exact k room len s))
  ]
  by_type_lem _ len s = tt

  with_header_lem : (o : Option (List ℕ × k.State)) → Checked (with_header k room o)
  with_header_lem none = tt
  with_header_lem (some (bytes, s)) = by_type_lem (parse_header bytes).0 (parse_header bytes).1 s

  pub receive_header-Checked : (s : k.State) → Checked (receive_header k room s)
  unfolding receive_header
  receive_header-Checked s = with_header_lem (recv_exact k room msg_header_size s)

-- The opens among the requests are for paths below the destination.
abbrev pub OpensBelow : List ℕ → ℕ × Request → Type 0
OpensBelow dst_path (i, Request.openat path mode) = Below dst_path path
OpensBelow dst_path (i, Request.write fd bytes len offset) = Unit
OpensBelow dst_path (i, Request.close fd) = Unit

asked-Below :
    (dst_path path : List ℕ) (requests : List (ℕ × Request))
    → All (OpensBelow dst_path) requests
    → Asked path requests
    → Below dst_path path
asked-Below dst_path path [] a h = absurd h
asked-Below dst_path path ((i, Request.openat p mode) ∷ rest) a (inl e) =
    subst (Below dst_path) (sym e) a.0
asked-Below dst_path path ((i, Request.openat p mode) ∷ rest) a (inr h) =
    asked-Below dst_path path rest a.1 h
asked-Below dst_path path ((i, Request.write fd bytes len offset) ∷ rest) a h =
    asked-Below dst_path path rest a.1 h
asked-Below dst_path path ((i, Request.close fd) ∷ rest) a h = asked-Below dst_path path rest a.1 h

pub all_asked :
    (dst_path : List ℕ) (requests : List (ℕ × Request)) (added : List (List ℕ))
    → All (OpensBelow dst_path) requests
    → All (λ path. Asked path requests) added
    → All (Below dst_path) added
all_asked dst_path requests [] a h = tt
all_asked dst_path requests (path ∷ paths) a h =
    (asked-Below dst_path path requests a h.0, all_asked dst_path requests paths a h.1)

pub All-erase :
    (P : ℕ × Request → Type 0) (i : ℕ) (es : List (ℕ × Request)) → All P es → All P (erase i es)
All-erase P i [] a = tt
All-erase P i ((j, q) ∷ es) a = elim (Bool-cases (j == i)) [
  | inl e ↦ rw e a.1
  | inr e ↦ rw e (a.0, All-erase P i es a.1)
]

-- A step of a file opens none.
abbrev pub NoOpens : List Request → Type 0
NoOpens [] = Unit
NoOpens (Request.openat path mode ∷ rest) = ⊥
NoOpens (Request.write fd bytes len offset ∷ rest) = NoOpens rest
NoOpens (Request.close fd ∷ rest) = NoOpens rest

module _ (k : Socket) where
  with_data-NoOpens :
      (room : Bool) (m : Receiver k) (len : ℕ) (o : Option (List ℕ × k.State))
      → m.prepared ≡ []
      → NoOpens (with_data k room m len o).1.prepared
  with_data-NoOpens room m len none e = rw e tt
  with_data-NoOpens true m len (some (bytes, s)) e = rw e tt
  with_data-NoOpens false m len (some (bytes, s)) e = rw e tt

  submit_close-NoOpens :
      (room : Bool) (m : Receiver k) → m.prepared ≡ [] → NoOpens (submit_close k room m).1.prepared
  unfolding submit_close
  submit_close-NoOpens true m e = rw e tt
  submit_close-NoOpens false m e = rw e tt

  branch-NoOpens :
      (room b : Bool) (m : Receiver k)
      → m.prepared ≡ []
      → NoOpens (if b then submit_close k room m else receive_more k room m).1.prepared
  unfolding receive_more
  branch-NoOpens room true m e = submit_close-NoOpens room m e
  branch-NoOpens room false m e =
      with_data-NoOpens room m (min (sub64 m.ctx.file_size m.ctx.received) m.ctx.buf_size) _ e

  switch-NoOpens :
      (room : Bool) (state : RecvState) (result : ℕ) (m : Receiver k)
      → m.prepared ≡ []
      → NoOpens (switch_recv k room state result m).1.prepared
  unfolding switch_recv
  switch-NoOpens room opening result m e =
      branch-NoOpens room (m.ctx.file_size == 0)
        (record m { ctx = record m.ctx { fd = pos result } }) e
  switch-NoOpens room writing result m e =
      let written = add64 m.ctx.received m.ctx.last_recv in
      branch-NoOpens room (leb m.ctx.file_size written)
        (record m { ctx = record m.ctx { received = written } }) e
  switch-NoOpens room closing result m e = rw e tt
  switch-NoOpens room _ result m e = rw e tt

  pub advance-NoOpens :
      (room : Bool) (result : ℤ) (m : Receiver k)
      → m.prepared ≡ []
      → NoOpens (advance_recv_state k room result m).1.prepared
  unfolding advance_recv_state
  advance-NoOpens room (pos r) m e = switch-NoOpens room m.ctx.state r m e
  advance-NoOpens room (negsuc r) m e = elim (Bool-cases (is_done m.ctx.state)) [
    | inl d ↦ rw d (switch-NoOpens room done 0 m e)
    | inr d ↦ rw d (rw e tt)
  ]
