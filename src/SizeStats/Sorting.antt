-- ===== src/SizeStats/Sorting.antt =====
-- `std::sort` on numbers: the ascending arrangement, by insertion.
use uring_sync.Base.{
  ◌+◌, ℕ, zero, suc, ◌<◌, ◌≤◌, ◌≡◌, refl, List, [], ◌∷◌, leb, length, get_or, arith, All,
  if◌then◌else◌, Bool-cases, inl, inr, leb→le,
}

abbrev insert : ℕ → List ℕ → List ℕ
insert x [] = x ∷ []
insert x (y ∷ ys) = let rest = insert x ys in if leb x y then x ∷ y ∷ ys else y ∷ rest

unfoldable pub sort : List ℕ → List ℕ
sort [] = []
sort (x ∷ xs) = insert x (sort xs)

abbrev pub IsSorted : List ℕ → Type 0
IsSorted [] = Unit
IsSorted (x ∷ xs) = All (λ y. x ≤ y) xs × IsSorted xs

All-insert : (P : ℕ → Type 0) (x : ℕ) (xs : List ℕ) → P x → All P xs → All P (insert x xs)
All-insert P x [] h a = (h, tt)
All-insert P x (y ∷ ys) h a = elim (Bool-cases (leb x y)) [
  | inl e ↦ rw e (h, a)
  | inr e ↦ rw e (a.0, All-insert P x ys h a.1)
]

All-le : (x y : ℕ) (xs : List ℕ) → x ≤ y → All (λ z. y ≤ z) xs → All (λ z. x ≤ z) xs
All-le x y [] h a = tt
All-le x y (z ∷ zs) h a = (omega arith, All-le x y zs h a.1)

insert-IsSorted : (x : ℕ) (xs : List ℕ) → IsSorted xs → IsSorted (insert x xs)
insert-IsSorted x [] s = (tt, tt)
insert-IsSorted x (y ∷ ys) s = elim (Bool-cases (leb x y)) [
  | inl e ↦ rw e ((leb→le x y e, All-le x y ys (leb→le x y e) s.0), s)
  | inr e ↦ rw e (All-insert (λ z. y ≤ z) x ys (ground arith) s.0, insert-IsSorted x ys s.1)
]

pub sort-IsSorted : (xs : List ℕ) → IsSorted (sort xs)
unfolding sort
sort-IsSorted [] = tt
sort-IsSorted (x ∷ xs) = insert-IsSorted x (sort xs) (sort-IsSorted xs)

pub All-sort : (P : ℕ → Type 0) (xs : List ℕ) → All P xs → All P (sort xs)
unfolding sort
All-sort P [] a = tt
All-sort P (x ∷ xs) a = All-insert P x (sort xs) a.0 (All-sort P xs a.1)

length-insert : (x : ℕ) (xs : List ℕ) → length (insert x xs) ≡ suc (length xs)
length-insert x [] = refl
length-insert x (y ∷ ys) = ground (arith, length-insert x ys)

pub length-sort : (xs : List ℕ) → length (sort xs) ≡ length xs
unfolding sort
length-sort [] = refl
length-sort (x ∷ xs) = omega (arith, length-insert x (sort xs), length-sort xs)

pub All-get_or :
    (P : ℕ → Type 0) (xs : List ℕ) (i d : ℕ) → All P xs → i < length xs → P (get_or xs i d)
All-get_or P [] i d a h = absurd (omega arith)
All-get_or P (x ∷ xs) zero d a h = a.0
All-get_or P (x ∷ xs) (suc i) d a h = All-get_or P xs i d a.1 (omega arith)

-- In a sorted list a later item is not smaller.
pub IsSorted-get_or :
    (xs : List ℕ) (i j d : ℕ) → IsSorted xs → i ≤ j → j < length xs → get_or xs i d ≤ get_or xs j d
IsSorted-get_or [] i j d s h k = absurd (omega arith)
IsSorted-get_or (x ∷ xs) zero zero d s h k = omega arith
IsSorted-get_or (x ∷ xs) zero (suc j) d s h k = All-get_or (λ y. x ≤ y) xs j d s.0 (omega arith)
IsSorted-get_or (x ∷ xs) (suc i) zero d s h k = absurd (omega arith)
IsSorted-get_or (x ∷ xs) (suc i) (suc j) d s h k =
    IsSorted-get_or xs i j d s.1 (omega arith) (omega arith)

-- How many items are at most `t`.
abbrev pub at_most : ℕ → List ℕ → ℕ
at_most t [] = 0
at_most t (x ∷ xs) = (if leb x t then 1 else 0) + at_most t xs

at_most-insert : (t x : ℕ) (xs : List ℕ) → at_most t (insert x xs) ≡ at_most t (x ∷ xs)
at_most-insert t x [] = refl
at_most-insert t x (y ∷ ys) = elim (Bool-cases (leb x y)) [
  | inl e ↦ rw e refl
  | inr e ↦ rw e (omega (arith, at_most-insert t x ys))
]

pub at_most-sort : (t : ℕ) (xs : List ℕ) → at_most t (sort xs) ≡ at_most t xs
unfolding sort
at_most-sort t [] = refl
at_most-sort t (x ∷ xs) = omega (arith, at_most-insert t x (sort xs), at_most-sort t xs)
