-- ===== src/FileCopy/Handles.antt =====
-- The open descriptors of a copy, local or synchronous: what each one stands for.
use mathlib.Core.Option.{none-ne-some}
use uring_sync.Base.Maps.{lookup, erase}
use uring_sync.Base.{
  ℕ, suc, ◌+◌, ap, ◌≡◌, refl, sym, ◌∙◌, List, [], ◌∷◌, false, none, some, ◌==◌, arith, Bool-cases,
  inl, inr,
}

-- What a descriptor stands for: the source, or the copy.
pub data Handle : Type 0 where
  source copy : Handle

-- Two descriptors on top of others: both are found, and closing both leaves the others.
pub lookup-first : (n : ℕ) (h : Handle) (hs : List (ℕ × Handle)) → lookup n ((n, h) ∷ hs) ≡ some h
lookup-first n h hs = ground arith

pub apart :
    (i j : ℕ) (h : Handle) (hs : List (ℕ × Handle))
    → lookup j ((i, h) ∷ hs) ≡ none
    → (j == i) ≡ false
apart i j h hs e = elim (Bool-cases (i == j)) [
  | inl same ↦ absurd (none-ne-some h (sym e ∙ (rw same refl)))
  | inr other ↦ ground arith
]

pub lookup-second :
    (i j : ℕ) (h g : Handle) (hs : List (ℕ × Handle))
    → (j == i) ≡ false
    → lookup i ((j, g) ∷ (i, h) ∷ hs) ≡ some h
lookup-second i j h g hs e = rw e (lookup-first i h hs)

pub erase-both :
    (i j : ℕ) (h g : Handle) (hs : List (ℕ × Handle))
    → (j == i) ≡ false
    → erase j (erase i ((j, g) ∷ (i, h) ∷ hs)) ≡ hs
erase-both i j h g hs e = ground arith

-- A descriptor that is not open: a number above all that are.
abbrev pub unused : List (ℕ × Handle) → ℕ
unused [] = 3
unused ((n, h) ∷ hs) = suc (n + unused hs)

unused-above : (hs : List (ℕ × Handle)) (more : ℕ) → lookup (more + unused hs) hs ≡ none
unused-above [] more = refl
unused-above ((n, h) ∷ hs) more =
    let other : (n == more + suc (n + unused hs)) ≡ false = ground arith in
    let moved : more + suc (n + unused hs) ≡ suc (more + n) + unused hs = omega arith in
    rw other (ap (λ m. lookup m hs) moved ∙ unused-above hs (suc (more + n)))

pub unused-free : (hs : List (ℕ × Handle)) → lookup (unused hs) hs ≡ none
unused-free hs =
    let same : unused hs ≡ 0 + unused hs = omega arith in
    ap (λ m. lookup m hs) same ∙ unused-above hs 0
