-- ===== src/Paths.antt =====
-- `std::filesystem::path` as src/main.cpp and src/net_uring.cpp use it. A path is the list of its bytes.
use uring_sync.Base.{
  ℕ, List, [], ◌∷◌, ◌++◌, Bool, true, false, ◌&&◌, ◌||◌, ◌==◌, ◌≡◌, refl, both_false, if◌then◌else◌,
}
use uring_sync.Protocol.SafePath.{slash, first_is}

abbrev pub last_is : ℕ → List ℕ → Bool
last_is c [] = false
last_is c (x ∷ []) = x == c
last_is c (x ∷ y ∷ rest) = last_is c (y ∷ rest)

abbrev pub is_empty : List ℕ → Bool
is_empty [] = true
is_empty (c ∷ path) = false

-- `(fs::path(base) / rel).string()`: an absolute path replaces the base, and a separator is put in
-- where there is none.
unfoldable pub join : List ℕ → List ℕ → List ℕ
join base rel =
    if first_is slash rel
    then rel
    else if is_empty base || last_is slash base
    then base ++ rel
    else base ++ slash ∷ rel

abbrev pub has : ℕ → List ℕ → Bool
has c [] = false
has c (x ∷ rest) = x == c || has c rest

-- `fs::path(path).filename()`: what is behind the last separator.
unfoldable pub filename : List ℕ → List ℕ
filename [] = []
filename (c ∷ path) =
    let behind = filename path in
    if has slash path then behind else if c == slash then path else c ∷ path

-- What is before the last separator, and that without the separators at its end.
abbrev before : List ℕ → List ℕ
before [] = []
before (c ∷ path) = let rest = before path in if has slash path then c ∷ rest else []

abbrev stripped : List ℕ → List ℕ
stripped [] = []
stripped (c ∷ path) =
    let rest = stripped path in if c == slash && is_empty rest then [] else c ∷ rest

-- `fs::path(path).parent_path()`: the root is its own parent.
unfoldable pub parent_path : List ℕ → List ℕ
parent_path path =
    let parent = stripped (before path) in
    if first_is slash path && is_empty parent then slash ∷ [] else parent

pub filename-name : (path : List ℕ) → has slash path ≡ false → filename path ≡ path
unfolding filename
filename-name [] h = refl
filename-name (c ∷ path) h =
    let (first, others) = both_false (c == slash) (has slash path) h in rw (others, first) refl

pub parent_path-name : (path : List ℕ) → has slash path ≡ false → parent_path path ≡ []
unfolding parent_path
parent_path-name [] h = refl
parent_path-name (c ∷ path) h =
    let (first, others) = both_false (c == slash) (has slash path) h in rw (others, first) refl
