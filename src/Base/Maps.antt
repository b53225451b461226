-- ===== src/Base/Maps.antt =====
-- Maps as lists of entries with a number, such as a pointer, as the key.
use uring_sync.Base.{ℕ, List, [], ◌∷◌, Option, none, some, ◌==◌, if◌then◌else◌}

-- The first entry of a key counts.
module _ {ℓ} {A : Type ℓ} where
  abbrev pub lookup : ℕ → List (ℕ × A) → Option A
  lookup p [] = none
  lookup p ((q, a) ∷ es) = if q == p then some a else lookup p es

  abbrev pub put : ℕ → A → List (ℕ × A) → List (ℕ × A)
  put p b [] = []
  put p b ((q, a) ∷ es) = if q == p then (p, b) ∷ es else (q, a) ∷ put p b es

  abbrev pub erase : ℕ → List (ℕ × A) → List (ℕ × A)
  erase p [] = []
  erase p ((q, a) ∷ es) = if q == p then es else (q, a) ∷ erase p es

  -- The keys.
  abbrev pub pointers : List (ℕ × A) → List ℕ
  pointers [] = []
  pointers (e ∷ es) = e.0 ∷ pointers es
