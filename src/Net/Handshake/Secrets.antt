-- ===== src/Net/Handshake/Secrets.antt =====
-- src/net.cpp: which secrets the receiver takes.
use uring_sync.Base.{
  ℕ, zero, suc, ◌≡◌, ◌≢◌, refl, ap, ap₂, ◌∙◌, List, [], ◌∷◌, Bool, true, false, not, arith, length,
  take, ◌↔◌, ltb,
}
use uring_sync.Protocol.Codec.{max_secret_len}
use uring_sync.Net.Handshake.{same_text, wrong_secret}

same_text_refl : (xs : List ℕ) → same_text xs xs ≡ true
same_text_refl [] = refl
same_text_refl (x ∷ xs) = ground (arith, same_text_refl xs)

pub same_text_sound : (xs ys : List ℕ) → same_text xs ys ≡ true → xs ≡ ys
same_text_sound [] [] h = refl
same_text_sound [] (y ∷ ys) h = cc
same_text_sound (x ∷ xs) [] h = cc
same_text_sound (x ∷ xs) (y ∷ ys) h =
    let first : x ≡ y = ground arith in
    let rest : same_text xs ys ≡ true = ground arith in
    ap₂ (λ a b. a ∷ b) first (same_text_sound xs ys rest)

-- A receiver without a secret takes every sender, and any other only a sender with its own secret.
pub wrong_secret_iff :
    (secret given : List ℕ) → (wrong_secret secret given ≡ false) ↔ ((secret ≢ []) → given ≡ secret)
unfolding wrong_secret
wrong_secret_iff [] given = ((λ h some_secret. absurd (some_secret refl)), (λ h. refl))
wrong_secret_iff (c ∷ secret) given = (
  (λ h some_secret. same_text_sound given (c ∷ secret) (ground arith)),
  (λ h. let same = h (λ e. cc) in rw (same, same_text_refl (c ∷ secret))),
)

cut_differs : (n : ℕ) (xs : List ℕ) → same_text (take n xs) xs ≡ not (ltb n (length xs))
cut_differs zero [] = refl
cut_differs zero (x ∷ xs) = ground arith
cut_differs (suc n) [] = ground arith
cut_differs (suc n) (x ∷ xs) = ground (arith, cut_differs n xs)

twice_not : (b : Bool) → not (not b) ≡ b
twice_not true = refl
twice_not false = refl

wrong_secret-take :
    (n : ℕ) (secret : List ℕ) → wrong_secret secret (take n secret) ≡ ltb n (length secret)
unfolding wrong_secret
wrong_secret-take n [] = ground arith
wrong_secret-take n (c ∷ secret) =
    ap not (cut_differs n (c ∷ secret)) ∙ twice_not (ltb n (length (c ∷ secret)))

-- The receiver compares its whole secret with the one of HELLO, which is cut: the same secret on both
-- sides is wrong when it is longer than 64 bytes, and only then.
pub wrong_secret-cut :
    (secret : List ℕ)
    → wrong_secret secret (take max_secret_len secret) ≡ ltb max_secret_len (length secret)
wrong_secret-cut secret = wrong_secret-take max_secret_len secret
