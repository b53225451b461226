-- ===== src/Net/AsyncReceiver/Loop/Confined.antt =====
-- src/net_uring.cpp, `AsyncReceiver::run`: what a peer can make the receiver create.
use uring_sync.Base.{
  ℕ, zero, suc, ◌≡◌, refl, sym, subst, List, [], ◌∷◌, Bool, true, false, ◌==◌, All, All-append,
  Bool-cases, Option-cases, inl, inr, ◌⊎◌,
}
use uring_sync.Base.Int.{ℤ}
use uring_sync.Base.Maps.{erase}
use uring_sync.Paths.{join}
use uring_sync.Protocol.SafePath.Inside.{is_safe_path-stays_inside}
use uring_sync.Net.Socket.{Socket}
use uring_sync.Net.AsyncReceiver.{Request}
use uring_sync.Net.AsyncReceiver.Loop.{
  Kernel, Run, Ended, Header, last, file, bad, too_long, Begun, going, stopped, receive_header,
  context_at, tagged, on_header, begin, on_context, fail_context, settled, process, process_all,
  process_late, counted, drain, run_from, started, is_hdr, any_pending, is_ended,
}
use uring_sync.Net.AsyncReceiver.Loop.Requests.{
  Modest, Below, left, Checked, receive_header-Checked, OpensBelow, all_asked, All-erase, NoOpens,
  advance-NoOpens,
}

Begun-cases :
    {R E : Type 0} (b : Begun R E)
    → ((e : E) × (b ≡ stopped e)) ⊎ (((r : R) × (b ≡ Begun.last r)) ⊎ ((r : R) × (b ≡ going r)))
Begun-cases (stopped e) = inl (e, refl)
Begun-cases (Begun.last r) = inr (inl (r, refl))
Begun-cases (going r) = inr (inr (r, refl))

module _ (k : Socket) (n : Kernel) (names : n.State → List (List ℕ)) (m : Modest n names)
    (room : Bool) (chunk_size : ℕ) (dst_path : List ℕ) where
  -- All that was created, and all that will be, is below the destination.
  abbrev Safe : Run k n → Type 0
  Safe r = All (Below dst_path) (names r.disk) × All (OpensBelow dst_path) r.outstanding

  abbrev SafeBegun : Begun (Run k n) (Ended n.State) → Type 0
  SafeBegun (going r) = Safe r
  SafeBegun (Begun.last r) = Safe r
  SafeBegun (stopped e) = All (Below dst_path) (names (left e))

  tagged-Below :
      (i : ℕ) (requests : List Request)
      → NoOpens requests
      → All (OpensBelow dst_path) (tagged k room n chunk_size dst_path i requests)
  tagged-Below i [] h = tt
  tagged-Below i (Request.openat path mode ∷ rest) h = absurd h
  tagged-Below i (Request.write fd bytes len offset ∷ rest) h = (tt, tagged-Below i rest h)
  tagged-Below i (Request.close fd ∷ rest) h = (tt, tagged-Below i rest h)

  on_header-Safe :
      (r : Run k n) (h : Header k.State)
      → Checked h
      → Safe r
      → SafeBegun (on_header k room n chunk_size dst_path r.current r h)
  on_header-Safe r bad c s = s.0
  on_header-Safe r too_long c s = s.0
  on_header-Safe r (last t) c s = s
  on_header-Safe r (file hdr t) c s =
      elim (Option-cases (n.parents (join dst_path hdr.path) r.disk)) [
        | inl e ↦ rw e s.0
        | inr (d, e) ↦
            let kept : All (Below dst_path) (names d) =
              subst (All (Below dst_path)) (sym (m.parents (join dst_path hdr.path) r.disk d e))
                s.0 in
            elim (Bool-cases room) [
              | inl f ↦
                  rw (e, f)
                    (
                      kept,
                      All-append (OpensBelow dst_path) r.outstanding _ s.1
                          ((hdr.path, refl, is_safe_path-stays_inside hdr.path c), tt),
                    )
              | inr f ↦ rw (e, f) kept
            ]
      ]

  begin-Safe : (r : Run k n) → Safe r → SafeBegun (begin k room n chunk_size dst_path r)
  unfolding begin
  begin-Safe r s =
      elim (Bool-cases (is_hdr (context_at k room n chunk_size dst_path r.current r).state)) [
        | inl e ↦ rw e (
            on_header-Safe r (receive_header k room r.sock) (receive_header-Checked k room r.sock)
              s)
        | inr e ↦ rw e s
      ]

  on_context-Safe :
      (i : ℕ) (result : ℤ) (r : Run k n)
      → Safe r
      → Safe
          (on_context k room n chunk_size dst_path i result
            (record r { outstanding = erase i r.outstanding })).1
  on_context-Safe i result r s = (
    s.0,
    All-append (OpensBelow dst_path) (erase i r.outstanding) _
        (All-erase (OpensBelow dst_path) i r.outstanding s.1)
        (tagged-Below i _ (advance-NoOpens k room result _ refl)),
  )

  fail_context-Safe :
      (i : ℕ) (ok : Bool) (r : Run k n)
      → Safe r
      → Safe (fail_context k room n chunk_size dst_path i (ok, r))
  fail_context-Safe i true r s = s
  fail_context-Safe i false r s = s

  settled-Safe : (i : ℕ) (r : Run k n) → Safe r → Safe (settled k room n chunk_size dst_path i r)
  settled-Safe i r s =
      elim (Bool-cases (is_ended (context_at k room n chunk_size dst_path i r).state)) [
        | inl e ↦ elim (Bool-cases (i == r.current)) [ inl f ↦ rw (e, f) s | inr f ↦ rw (e, f) s ]
        | inr e ↦ rw e s
      ]

  process_all-Safe :
      (cs : List (ℕ × ℤ)) (r : Run k n)
      → Safe r
      → Safe (process_all k room n chunk_size dst_path cs r)
  unfolding process_all process
  process_all-Safe [] r s = s
  process_all-Safe ((i, result) ∷ cs) r s =
      process_all-Safe cs _
        (settled-Safe i _ (fail_context-Safe i _ _ (on_context-Safe i result r s)))

  counted-Safe : (i : ℕ) (r : Run k n) → Safe r → Safe (counted k room n chunk_size dst_path i r)
  counted-Safe i r s =
      elim (Bool-cases (is_ended (context_at k room n chunk_size dst_path i r).state)) [
        | inl e ↦ rw e s
        | inr e ↦ rw e s
      ]

  process_late-Safe :
      (cs : List (ℕ × ℤ)) (r : Run k n)
      → Safe r
      → Safe (process_late k room n chunk_size dst_path cs r)
  unfolding process_late
  process_late-Safe [] r s = s
  process_late-Safe ((i, result) ∷ cs) r s =
      process_late-Safe cs _ (counted-Safe i _ (on_context-Safe i result r s))

  -- The files after a wait.
  waited : (r : Run k n) → Safe r → All (Below dst_path) (names (n.wait r.outstanding r.disk).1)
  waited r s =
      let (added, e, asked) = m.waits r.outstanding r.disk in
      subst (All (Below dst_path)) (sym e) (
        All-append (Below dst_path) added (names r.disk)
          (all_asked dst_path r.outstanding added s.1 asked) s.0)

  drain-Safe :
      (rounds : ℕ) (r : Run k n)
      → Safe r
      → All (Below dst_path) (names (left (drain k room n chunk_size dst_path rounds r)))
  unfolding drain
  drain-Safe zero r s = s.0
  drain-Safe (suc rounds) r s = elim (Bool-cases (any_pending r.contexts)) [
    | inr e ↦ rw (e, drain) s.0
    | inl e ↦
        let w = n.wait r.outstanding r.disk in
        elim (Option-cases w.0) [
          | inl f ↦ rw (e, drain) (rw (f, drain) (waited r s))
          | inr (cs, f) ↦
              rw (e, drain)
                (rw (f, drain)
                  (drain-Safe rounds _
                    (process_late-Safe cs (record r { disk = w.1 }) (waited r s, s.1))))
        ]
  ]

  run_from-Safe :
      (rounds : ℕ) (r : Run k n)
      → Safe r
      → All (Below dst_path) (names (left (run_from k room n chunk_size dst_path rounds r)))
  unfolding run_from
  run_from-Safe zero r s = s.0
  run_from-Safe (suc rounds) r s =
      let safe = begin-Safe r s in
      elim (Begun-cases (begin k room n chunk_size dst_path r)) [
        | inl (e, q) ↦ rw (q, run_from) (rw q at safe)
        | inr (inl (r', q)) ↦ rw (q, run_from) (drain-Safe (suc rounds) r' (rw q at safe))
        | inr (inr (r', q)) ↦
            let s' : Safe r' = rw q at safe in
            let w = n.wait r'.outstanding r'.disk in
            elim (Option-cases w.0) [
              | inl f ↦ rw (q, run_from) (rw (f, run_from) (waited r' s'))
              | inr (cs, f) ↦
                  rw (q, run_from)
                    (rw (f, run_from)
                      (run_from-Safe rounds _
                        (process_all-Safe cs (record r' { disk = w.1 }) (waited r' s', s'.1))))
            ]
      ]

  -- Whatever a peer sends, however its bytes arrive, whatever the kernel answers and whether or not
  -- the ring has room, on a `Modest` kernel: a receiver whose destination holds only files below it
  -- still holds only files below it when the run ends. That is shown up to the point, if it comes, at
  -- which a payload has run over the end of `meta_buf_`: there the run is cut off as `overrun`, and
  -- nothing is said of what the program does after it.
  pub run-Below :
      (queue_depth rounds : ℕ) (s : k.State) (d : n.State)
      → All (Below dst_path) (names d)
      → All (Below dst_path) (
          names (
            left (
              run_from k room n chunk_size dst_path rounds
                (started k room n chunk_size dst_path queue_depth s d))))
  unfolding started
  run-Below queue_depth rounds s d a =
      run_from-Safe rounds (started k room n chunk_size dst_path queue_depth s d) (a, tt)
