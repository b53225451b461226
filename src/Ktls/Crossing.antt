-- ===== src/Ktls/Crossing.antt =====
-- include/ktls.hpp: the two ends use each other's keys.
use uring_sync.Base.{
  ℕ, ◌+◌, ◌≡◌, refl, ap, ap₂, sym, ◌∙◌, List, [], ◌∷◌, ◌++◌, true, some, take, drop, length, arith,
  inl, inr, false≢true, Option-cases, take-append-drop, take-add, drop-drop, take_all, append_assoc,
  length-drop,
}
use mathlib.Core.Option.{none-ne-some, some-injective}
use uring_sync.Base.Int.{pos, ℤ-cases}
use uring_sync.Ktls.{
  CryptoInfo, KtlsKeys, Hkdf, cut, derive_keys, SockOpt, tcp_ulp, tls_tx, tls_rx, TlsSocket,
  set_each, enable_sender, enable_receiver, info,
}

-- The bytes of one direction, and of both.
abbrev pub fields : CryptoInfo → List ℕ
fields c = c.key ++ (c.iv ++ c.rec_seq)

abbrev pub all_fields : KtlsKeys → List ℕ
all_fields keys = fields keys.tx ++ fields keys.rx

-- Three pieces that lie side by side.
three_pieces :
    (a b c : ℕ) (xs : List ℕ)
    → take a xs ++ (take b (drop a xs) ++ take c (drop (a + b) xs)) ≡ take (a + b + c) xs
three_pieces a b c xs =
    sym (append_assoc (take a xs) (take b (drop a xs)) (take c (drop (a + b) xs)))
    ∙ ap (λ x. x ++ take c (drop (a + b) xs)) (take-add a b xs)
    ∙ take-add (a + b) c xs

-- The six fields are the key material, cut without a gap or an overlap.
cut-all_fields : (material : List ℕ) → length material ≡ 56 → all_fields (cut material) ≡ material
cut-all_fields material e =
    let back = drop 28 material in
    let second : fields (cut material).rx ≡ take 28 back =
      ap (λ x. take 16 back ++ x)
        (ap₂ (λ x y. take 4 x ++ take 8 y) (sym (drop-drop 16 28 material))
          (sym (drop-drop 20 28 material)))
      ∙ three_pieces 16 4 8 back in
    ap₂ (λ x y. x ++ y) (three_pieces 16 4 8 material) second
    ∙ ap (λ x. take 28 material ++ x) (take_all 28 back (omega (arith, length-drop 28 material)))
    ∙ take-append-drop 28 material

-- What a call that succeeds does to a socket.
pub record Installs (k : TlsSocket) : Type 0 where
  pub ulp :
      (s : k.State) (n : ℕ)
      → let r = k.setsockopt tcp_ulp s in r.0 ≡ pos n → (k.tx r.1 ≡ k.tx s) × (k.rx r.1 ≡ k.rx s)
  pub sets_tx :
      (c : CryptoInfo) (s : k.State) (n : ℕ)
      → let r = k.setsockopt (tls_tx c) s in r.0 ≡ pos n → (k.tx r.1 ≡ some c) × (k.rx r.1 ≡ k.rx s)
  pub sets_rx :
      (c : CryptoInfo) (s : k.State) (n : ℕ)
      → let r = k.setsockopt (tls_rx c) s in r.0 ≡ pos n → (k.rx r.1 ≡ some c) × (k.tx r.1 ≡ k.tx s)

module _ (k : TlsSocket) (o : Installs k) where
  -- The head of a list that succeeds as a whole succeeds, and so does the tail.
  set_each-cons :
      (opt : SockOpt) (opts : List SockOpt) (s : k.State)
      → (set_each k (opt ∷ opts) s).0 ≡ true
      → (n : ℕ) × ((k.setsockopt opt s).0 ≡ pos n)
        × (set_each k (opt ∷ opts) s ≡ set_each k opts (k.setsockopt opt s).1)
  unfolding set_each
  set_each-cons opt opts s h = elim (ℤ-cases (k.setsockopt opt s).0) [
    | inl (n, e) ↦ (n, e, rw (e, set_each))
    | inr (n, e) ↦ absurd (false≢true (rw (e, set_each) at h))
  ]

  set_each-installs :
      (t r : CryptoInfo) (s : k.State)
      → (set_each k (tcp_ulp ∷ tls_tx t ∷ tls_rx r ∷ []) s).0 ≡ true
      → let u = (set_each k (tcp_ulp ∷ tls_tx t ∷ tls_rx r ∷ []) s).1 in
        (k.tx u ≡ some t) × (k.rx u ≡ some r)
  set_each-installs t r s h =
      let (n₁, e₁, q₁) = set_each-cons tcp_ulp (tls_tx t ∷ tls_rx r ∷ []) s h in
      let s₁ = (k.setsockopt tcp_ulp s).1 in
      let h₁ = sym (ap (λ x. x.0) q₁) ∙ h in
      let (n₂, e₂, q₂) = set_each-cons (tls_tx t) (tls_rx r ∷ []) s₁ h₁ in
      let s₂ = (k.setsockopt (tls_tx t) s₁).1 in
      let h₂ = sym (ap (λ x. x.0) q₂) ∙ h₁ in
      let (n₃, e₃, q₃) = set_each-cons (tls_rx r) [] s₂ h₂ in
      let last : (set_each k (tcp_ulp ∷ tls_tx t ∷ tls_rx r ∷ []) s).1
          ≡ (k.setsockopt (tls_rx r) s₂).1 =
        ap (λ x. x.1) (q₁ ∙ q₂ ∙ q₃) ∙ (unfold set_each in refl) in
      let (given_rx, kept_tx) = o.sets_rx r s₂ n₃ e₃ in
      let (given_tx, _) = o.sets_tx t s₁ n₂ e₂ in
      (ap k.tx last ∙ kept_tx ∙ given_tx, ap k.rx last ∙ given_rx)

module _ (a : TlsSocket) (oa : Installs a) (b : TlsSocket) (ob : Installs b) where
  -- A sender and a receiver that derive keys from the same secret and the same two nonces, and whose
  -- calls all succeed: each sends with what the other receives with; and with an HKDF that gives as
  -- many bytes as it is asked for, the fields of the two directions, side by side, are exactly the key
  -- material, so that they share no byte of it.
  pub directions_cross :
      (hkdf : Hkdf) (secret nonce_sender nonce_receiver : List ℕ) (keys : KtlsKeys) (s : a.State)
      (r : b.State)
      → ((secret salt info : List ℕ) (len : ℕ) (material : List ℕ)
          → hkdf secret salt info len ≡ some material
          → length material ≡ len)
      → derive_keys hkdf secret nonce_sender nonce_receiver ≡ some keys
      → (enable_sender a keys s).0 ≡ true
      → (enable_receiver b keys r).0 ≡ true
      → let t = (enable_sender a keys s).1 in
        let u = (enable_receiver b keys r).1 in
        (a.tx t ≡ b.rx u)
        × (b.tx u ≡ a.rx t)
        × (a.tx t ≡ some keys.tx)
        × (b.tx u ≡ some keys.rx)
        × (hkdf secret (nonce_sender ++ nonce_receiver) info 56 ≡ some (all_fields keys))
  unfolding derive_keys enable_sender enable_receiver
  directions_cross hkdf secret ns nr keys s r sized made hs hr =
      let (ta, ra) = set_each-installs a oa keys.tx keys.rx s hs in
      let (tb, rb) = set_each-installs b ob keys.rx keys.tx r hr in
      elim (Option-cases (hkdf secret (ns ++ nr) info 56)) [
        | inl e ↦ absurd (none-ne-some keys (rw e at made))
        | inr (material, e) ↦
            let same : cut material ≡ keys = some-injective (cut material) keys (rw e at made) in
            (
              ta ∙ sym rb,
              tb ∙ sym ra,
              ta,
              tb,
              e
                  ∙ ap some (
                      sym (cut-all_fields material (sized secret (ns ++ nr) info 56 material e))
                      ∙ ap all_fields same),
            )
      ]
