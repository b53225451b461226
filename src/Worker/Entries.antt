-- ===== src/Worker/Entries.antt =====
-- Entries of a map and the slots that they name, up to their order.
use mathlib.Core.List.{Permᴰ}
use mathlib.Core.List.Permᴰ
use mathlib.Core.Option.{some-injective}
use uring_sync.Base.{
  ℕ, suc, ◌≤◌, ◌≡◌, refl, ap, ap₂, sym, ◌∙◌, List, [], ◌∷◌, ◌++◌, append-nil, Bool, some, length,
  arith, All, ◌==◌, Bool-cases, ==_iff, inl, inr, if◌then◌else◌, subst,
}
use uring_sync.Base.Int.{ℤ, pos, negsuc, ℤ-cases}
use uring_sync.Pools.Owners.{Owned, Fresh, Distinct, Taken}
use uring_sync.Base.Maps.{lookup, put, erase, pointers}

module _ {ℓ} {A : Type ℓ} where
  pub All-Permᴰ : (P : A → Type 0) {xs ys : List A} → Permᴰ xs ys → All P xs → All P ys
  All-Permᴰ P Permᴰ.nil h = tt
  All-Permᴰ P (Permᴰ.cons e d) h = (subst P e h.0, All-Permᴰ P d h.1)
  All-Permᴰ P (Permᴰ.swap e f) h = (subst P f h.1.0, (subst P e h.0, h.1.1))
  All-Permᴰ P (Permᴰ.trans d e) h = All-Permᴰ P e (All-Permᴰ P d h)

  pub length-Permᴰ : {xs ys : List A} → Permᴰ xs ys → length xs ≡ length ys
  length-Permᴰ Permᴰ.nil = refl
  length-Permᴰ (Permᴰ.cons e d) = ap suc (length-Permᴰ d)
  length-Permᴰ (Permᴰ.swap e f) = refl
  length-Permᴰ (Permᴰ.trans d e) = length-Permᴰ d ∙ length-Permᴰ e

Distinct-Permᴰ : {xs ys : List ℕ} → Permᴰ xs ys → Distinct xs → Distinct ys
Distinct-Permᴰ Permᴰ.nil h = tt
Distinct-Permᴰ (Permᴰ.cons {l₂ = ys} e d) h =
    (subst (λ k. Fresh k ys) e (All-Permᴰ _ d h.0), Distinct-Permᴰ d h.1)
Distinct-Permᴰ (Permᴰ.swap {l = zs} e f) h = (
  ((λ p. h.0.0 (f ∙ sym p ∙ sym e)), subst (λ k. Fresh k zs) f h.1.0),
  (subst (λ k. Fresh k zs) e h.0.1, h.1.1),
)
Distinct-Permᴰ (Permᴰ.trans d e) h = Distinct-Permᴰ e (Distinct-Permᴰ d h)

-- Who holds what does not depend on the order.
pub Owned-Permᴰ :
    (count : ℕ) (available : List Bool) {xs ys : List ℕ}
    → Permᴰ xs ys
    → Owned count available xs
    → Owned count available ys
Owned-Permᴰ count available d o = record {
  sized = o.sized;
  taken = All-Permᴰ (Taken available) d o.taken;
  distinct = Distinct-Permᴰ d o.distinct;
  counted = omega (arith, length-Permᴰ d, o.counted);
}

module _ {A : Type 0} where
  pub snoc-Permᴰ : (xs : List A) (x : A) → Permᴰ (xs ++ x ∷ []) (x ∷ xs)
  snoc-Permᴰ xs x = subst (λ t. Permᴰ (xs ++ x ∷ []) (x ∷ t)) (append-nil xs) (Permᴰ.middle x xs [])

  pub lookup-Permᴰ :
      (p : ℕ) (es : List (ℕ × A)) (a : A) → lookup p es ≡ some a → Permᴰ es ((p, a) ∷ erase p es)
  lookup-Permᴰ p [] a h = cc
  lookup-Permᴰ p ((q, b) ∷ es) a h = elim (Bool-cases (q == p)) [
    | inl e ↦
        let same : b ≡ a =
          some-injective b a (subst (λ t. (if t then some b else lookup p es) ≡ some a) e h) in
        rw e (Permᴰ.cons (ap₂ (λ x y. (x, y)) ((==_iff q p).0 e) same) (Permᴰ.refl es))
    | inr e ↦
        let later : lookup p es ≡ some a =
          subst (λ t. (if t then some b else lookup p es) ≡ some a) e h in
        rw e (Permᴰ.trans (Permᴰ.cons refl (lookup-Permᴰ p es a later)) (Permᴰ.swap refl refl))
  ]

  pub put-Permᴰ :
      (p : ℕ) (es : List (ℕ × A)) (a b : A)
      → lookup p es ≡ some a
      → Permᴰ (put p b es) ((p, b) ∷ erase p es)
  put-Permᴰ p [] a b h = cc
  put-Permᴰ p ((q, c) ∷ es) a b h = elim (Bool-cases (q == p)) [
    | inl e ↦ rw e (Permᴰ.refl _)
    | inr e ↦
        let later : lookup p es ≡ some a =
          subst (λ t. (if t then some c else lookup p es) ≡ some a) e h in
        rw e (Permᴰ.trans (Permᴰ.cons refl (put-Permᴰ p es a b later)) (Permᴰ.swap refl refl))
  ]

  pub pointers-Permᴰ : {es fs : List (ℕ × A)} → Permᴰ es fs → Permᴰ (pointers es) (pointers fs)
  pointers-Permᴰ Permᴰ.nil = Permᴰ.nil
  pointers-Permᴰ (Permᴰ.cons e d) = Permᴰ.cons (ap (λ x. x.0) e) (pointers-Permᴰ d)
  pointers-Permᴰ (Permᴰ.swap e f) = Permᴰ.swap (ap (λ x. x.0) e) (ap (λ x. x.0) f)
  pointers-Permᴰ (Permᴰ.trans d e) = Permᴰ.trans (pointers-Permᴰ d) (pointers-Permᴰ e)

-- The slot that an index names, if any.
abbrev pub slot_of : ℤ → List ℕ → List ℕ
slot_of (pos i) rest = i ∷ rest
slot_of (negsuc n) rest = rest

slot_of-cong : (z : ℤ) {xs ys : List ℕ} → Permᴰ xs ys → Permᴰ (slot_of z xs) (slot_of z ys)
slot_of-cong (pos i) d = Permᴰ.cons refl d
slot_of-cong (negsuc n) d = d

slot_of-swap : (y z : ℤ) (xs : List ℕ) → Permᴰ (slot_of y (slot_of z xs)) (slot_of z (slot_of y xs))
slot_of-swap (pos i) (pos j) xs = Permᴰ.swap refl refl
slot_of-swap (pos i) (negsuc n) xs = Permᴰ.refl _
slot_of-swap (negsuc n) z xs = Permᴰ.refl _

module _ {C : Type 0} (index : C → ℤ) where
  abbrev pub slots : List (ℕ × C) → List ℕ
  slots [] = []
  slots (e ∷ es) = slot_of (index e.1) (slots es)

  pub slots-Permᴰ : {es fs : List (ℕ × C)} → Permᴰ es fs → Permᴰ (slots es) (slots fs)
  slots-Permᴰ Permᴰ.nil = Permᴰ.nil
  slots-Permᴰ (Permᴰ.cons {b = b} e d) = rw e (slot_of-cong (index b.1) (slots-Permᴰ d))
  slots-Permᴰ (Permᴰ.swap {a' = a'} {b' = b'} {l = l} e f) =
      rw (e, f) (slot_of-swap (index b'.1) (index a'.1) (slots l))
  slots-Permᴰ (Permᴰ.trans d e) = Permᴰ.trans (slots-Permᴰ d) (slots-Permᴰ e)

  pub length-slots : (es : List (ℕ × C)) → length (slots es) ≤ length es
  length-slots [] = omega arith
  length-slots ((p, c) ∷ es) = elim (ℤ-cases (index c)) [
    | inl (i, e) ↦ rw e (omega (arith, length-slots es))
    | inr (n, e) ↦ rw e (omega (arith, length-slots es))
  ]

  -- Where every entry has a slot, there are as many slots as entries.
  abbrev pub Slotted : (ℕ × C) → Type 0
  Slotted e = (i : ℕ) × (index e.1 ≡ pos i)

  pub length-slots_all : (es : List (ℕ × C)) → All Slotted es → length (slots es) ≡ length es
  length-slots_all [] h = refl
  length-slots_all (e ∷ es) h = rw (h.0.1) (ap suc (length-slots_all es h.1))
