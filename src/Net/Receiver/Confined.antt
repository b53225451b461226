-- ===== src/Net/Receiver/Confined.antt =====
-- src/net.cpp, `run_receiver`: what a peer can make the receiver create.
use uring_sync.Base.{
  ℕ, zero, suc, ◌+◌, ◌-◌, ◌≡◌, refl, sym, ◌∙◌, subst, min, List, ◌∷◌, ◌++◌, true, Option, none,
  some, ◌==◌, All, Bool-cases, Option-cases, inl, inr, ◌⊎◌,
}
use uring_sync.Base.Int.{ℤ-cases}
use uring_sync.Protocol.Codec.{MsgType, file_hdr}
use uring_sync.Protocol.Parsers.{FileHdrMsg, parse_file_hdr}
use uring_sync.Protocol.SafePath.{is_safe_path, slash, stays_inside}
use uring_sync.Protocol.SafePath.Inside.{is_safe_path-stays_inside}
use uring_sync.Net.Socket.{Socket, recv_header, recv_all}
use uring_sync.Net.Receiver.{
  Disk, Next, last, file, bad, next_message, checked, with_payload, by_type, with_header, Received,
  complete, failed, thrown, unfinished, receive_data, receive_files, file_path, buf_size,
}

-- The calls create no more than they are asked for: `create` adds at most the file of its path, and
-- neither the directories nor a write add one.
pub record Modest (disk : Disk) (names : disk.State → List (List ℕ)) : Type 0 where
  pub creates :
      (path : List ℕ) (mode : ℕ) (d : disk.State)
      → let e = (disk.create path mode d).1 in (names e ≡ names d) ⊎ (names e ≡ path ∷ names d)
  pub parents :
      (path : List ℕ) (d e : disk.State) → disk.parents path d ≡ some e → names e ≡ names d
  pub writes : (fd : ℕ) (buf : List ℕ) (d : disk.State) → names (disk.write fd buf d).1 ≡ names d

-- A path below the destination: it is the destination, a slash and a relative path that never
-- leaves the directory where it starts.
abbrev pub Below : List ℕ → List ℕ → Type 0
Below dst_path path = (rel : List ℕ) × (path ≡ dst_path ++ slash ∷ rel) × (stays_inside rel ≡ true)

-- The file system at the end of a run.
abbrev pub left {ℓ} : {D : Type ℓ} → Received D → D
left (complete n d) = d
left (failed d) = d
left (thrown d) = d
left (unfinished d) = d

Next-cases :
    {S : Type 0} (x : Next S)
    → (x ≡ bad) ⊎ (((s : S) × (x ≡ last s)) ⊎ ((hdr : FileHdrMsg) × (s : S) × (x ≡ file hdr s)))
Next-cases bad = inl refl
Next-cases (last s) = inr (inl (s, refl))
Next-cases (file hdr s) = inr (inr (hdr, s, refl))

-- The header that the loop goes on with was checked.
abbrev Checked {ℓ} : {S : Type ℓ} → Next S → Type 0
Checked (last s) = Unit
Checked (file hdr s) = is_safe_path hdr.path ≡ true
Checked bad = Unit

module _ (k : Socket) where
  checked_lem : (o : Option FileHdrMsg) (s : k.State) → Checked (checked k o s)
  checked_lem none s = tt
  checked_lem (some hdr) s = elim (Bool-cases (is_safe_path hdr.path)) [
    | inl e ↦ rw e e
    | inr e ↦ rw e tt
  ]

  with_payload_lem : (len : ℕ) (o : Option (List ℕ × k.State)) → Checked (with_payload k len o)
  with_payload_lem len none = tt
  with_payload_lem len (some (payload, s)) = checked_lem (parse_file_hdr payload len) s

  by_type_lem : (type : MsgType) (len : ℕ) (s : k.State) → Checked (by_type k type len s)
  by_type_lem file_hdr len s = with_payload_lem len (recv_all k len s)
  by_type_lem _ len s = tt

  with_header_lem : (o : Option ((MsgType × ℕ) × k.State)) → Checked (with_header k o)
  with_header_lem none = tt
  with_header_lem (some ((type, len), s)) = by_type_lem type len s

  next_message-Checked : (s : k.State) → Checked (next_message k s)
  unfolding next_message
  next_message-Checked s = with_header_lem (recv_header k s)

module _ (k : Socket) (disk : Disk) (names : disk.State → List (List ℕ))
    (m : Modest disk names) where
  receive_data-names :
      (rounds fd remaining : ℕ) (s : k.State) (d : disk.State)
      → names (receive_data k disk rounds fd remaining s d).1 ≡ names d
  unfolding receive_data
  receive_data-names zero fd remaining s d = refl
  receive_data-names (suc rounds) fd remaining s d = elim (Bool-cases (remaining == 0)) [
    | inl e ↦ rw (e, receive_data)
    | inr e ↦ elim (Option-cases (recv_all k (min remaining buf_size) s)) [
      | inl r ↦ rw (e, receive_data) (rw (r, receive_data))
      | inr ((buffer, s'), r) ↦
          let w = disk.write fd buffer d in
          elim (ℤ-cases w.0) [
            | inr (n, q) ↦
                rw (e, receive_data)
                  (rw (r, receive_data) (rw (q, receive_data) (m.writes fd buffer d)))
            | inl (n, q) ↦ elim (Bool-cases (n == min remaining buf_size)) [
              | inl f ↦
                  rw (e, receive_data)
                    (rw (r, receive_data)
                      (rw (q, receive_data)
                        (rw (f, receive_data)
                          (receive_data-names rounds fd (remaining - min remaining buf_size) s' w.1
                            ∙ m.writes fd buffer d))))
              | inr f ↦
                  rw (e, receive_data)
                    (rw (r, receive_data)
                      (rw (q, receive_data) (rw (f, receive_data) (m.writes fd buffer d))))
            ]
          ]
    ]
  ]

  -- Whatever a peer sends, and however its bytes arrive: on a `Modest` file system a receiver whose destination holds only
  -- files below it still holds only files below it, however the run ends.
  pub receive_files-Below :
      (dst_path : List ℕ) (rounds received : ℕ) (s : k.State) (d : disk.State)
      → All (Below dst_path) (names d)
      → All (Below dst_path) (names (left (receive_files k disk dst_path rounds received s d)))
  unfolding receive_files
  receive_files-Below dst_path zero received s d a = a
  receive_files-Below dst_path (suc rounds) received s d a =
      let safe = next_message-Checked k s in
      elim (Next-cases (next_message k s)) [
        | inl e ↦ rw (e, receive_files) a
        | inr (inl (s', e)) ↦ rw (e, receive_files) a
        | inr (inr (hdr, s₁, e)) ↦
            let path = file_path k disk dst_path hdr in
            let inside : Below dst_path path =
              (hdr.path, refl, is_safe_path-stays_inside hdr.path (rw e at safe)) in
            elim (Option-cases (disk.parents path d)) [
              | inl p ↦ rw (e, receive_files) (rw (p, receive_files) a)
              | inr (d₁, p) ↦
                  let c = disk.create path hdr.mode d₁ in
                  let a₁ : All (Below dst_path) (names d₁) =
                    subst (All (Below dst_path)) (sym (m.parents path d d₁ p)) a in
                  let a₂ : All (Below dst_path) (names c.1) = elim (m.creates path hdr.mode d₁) [
                    | inl same ↦ subst (All (Below dst_path)) (sym same) a₁
                    | inr more ↦ subst (All (Below dst_path)) (sym more) (inside, a₁)
                  ] in
                  elim (ℤ-cases c.0) [
                    | inr (n, q) ↦
                        rw (e, receive_files) (rw (p, receive_files) (rw (q, receive_files) a₂))
                    | inl (n, q) ↦
                        let r = receive_data k disk hdr.size n hdr.size s₁ c.1 in
                        let a₃ : All (Below dst_path) (names r.1) =
                          subst (All (Below dst_path))
                            (sym (receive_data-names hdr.size n hdr.size s₁ c.1)) a₂ in
                        elim (Option-cases r.0) [
                          | inl f ↦
                              rw (e, receive_files)
                                (rw (p, receive_files)
                                  (rw (q, receive_files) (rw (f, receive_files) a₃)))
                          | inr (s₄, f) ↦
                              rw (e, receive_files)
                                (rw (p, receive_files)
                                  (rw (q, receive_files)
                                    (rw (f, receive_files)
                                      (receive_files-Below dst_path rounds (received + 1) s₄ r.1
                                        a₃))))
                        ]
                  ]
            ]
      ]
