-- ===== src/Protocol/SafePath.antt =====
-- include/protocol.hpp, "Path Validation (Security)". A path is the list of its bytes.
pub mod Inside
use uring_sync.Base.{
  ℕ, zero, suc, ◌+◌, ◌<◌, ◌≤◌, ◌≡◌, ◌≢◌, refl, List, [], ◌∷◌, ◌++◌, Bool, true, false, ◌&&◌, ◌||◌,
  not, Option, none, some, if◌then◌else◌, ◌==◌, arith, All, Bool-cases, inl, inr, ap, sym, length,
}

abbrev pub slash : ℕ
slash = b'/'

abbrev pub dot : ℕ
dot = b'.'

starts_with : List ℕ → List ℕ → Bool
starts_with [] text = true
starts_with (p ∷ pat) [] = false
starts_with (p ∷ pat) (c ∷ text) = p == c && starts_with pat text

-- `text.find(pat) != npos`, for a pattern that is not empty.
unfoldable pub contains : List ℕ → List ℕ → Bool
unfolding starts_with
contains pat [] = false
contains pat (c ∷ text) = starts_with pat (c ∷ text) || contains pat text

abbrev pub first_is : ℕ → List ℕ → Bool
first_is c [] = false
first_is c (x ∷ xs) = x == c

abbrev is_empty : List ℕ → Bool
is_empty [] = true
is_empty (x ∷ xs) = false

unfoldable pub is_safe_path : List ℕ → Bool
unfolding contains
is_safe_path path =
    if is_empty path
    then false
    else if first_is slash path
    then false
    else if contains (dot ∷ dot ∷ []) path
    then false
    else if contains (0 ∷ []) path
    then false
    else true

-- The kernel's reading of a relative path: the names between slashes, walked from a directory.
-- `cur` holds the name read so far, in order.
split_from : List ℕ → List ℕ → List (List ℕ)
split_from cur [] = cur ∷ []
split_from cur (c ∷ text) = elim (c == slash) [
  | true ↦ cur ∷ split_from [] text
  | false ↦ split_from (cur ++ c ∷ []) text
]

pub segments : List ℕ → List (List ℕ)
unfolding split_from
segments path = split_from [] path

-- One name takes the walk up, down, or leaves it: the depth under the destination directory, or
-- `none` above it.
abbrev pub enter : List ℕ → ℕ → Option ℕ
enter [] depth = some depth
enter (a ∷ []) depth = if a == dot then some depth else some (suc depth)
enter (a ∷ b ∷ []) zero = if a == dot && b == dot then none else some 1
enter (a ∷ b ∷ []) (suc d) = if a == dot && b == dot then some d else some (suc (suc d))
enter (a ∷ b ∷ c ∷ r) depth = some (suc depth)

-- The walk, starting at a depth; `none` when some step leaves the destination directory.
pub walk : List (List ℕ) → ℕ → Option ℕ
walk [] depth = some depth
walk (s ∷ r) depth = elim (enter s depth) [ none ↦ none | some d ↦ walk r d ]

abbrev pub is_some : Option ℕ → Bool
is_some none = false
is_some (some d) = true

-- An absolute path is walked from the root of the file system, out of the destination.
pub stays_inside : List ℕ → Bool
unfolding segments walk
stays_inside path = if first_is slash path then false else is_some (walk (segments path) 0)
