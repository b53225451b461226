-- ===== src/Protocol/SafePath/Inside.antt =====
-- include/protocol.hpp, `is_safe_path`: what it accepts stays below the destination directory.
use uring_sync.Base.{
  ℕ, zero, suc, ◌≡◌, refl, List, [], ◌∷◌, ◌++◌, ◌≢◌, true, false, ◌==◌, arith, Bool-cases,
  Option-cases, false≢true, inl, inr, append_assoc, append-nil, ap, ◌∙◌, length, ◌<◌,
}
use uring_sync.Protocol.SafePath.{
  slash, dot, starts_with, contains, is_safe_path, split_from, segments, enter, walk, stays_inside,
  is_some, first_is,
}

starts_with-append :
    (pat xs ys : List ℕ) → starts_with pat xs ≡ true → starts_with pat (xs ++ ys) ≡ true
unfolding starts_with
starts_with-append [] xs ys h = refl
starts_with-append (p ∷ pat) [] ys h = cc
starts_with-append (p ∷ pat) (c ∷ xs) ys h = ground (arith, starts_with-append pat xs ys)

-- What is not in a text is not in its front, nor in its end.
contains-front : (pat xs ys : List ℕ) → contains pat (xs ++ ys) ≡ false → contains pat xs ≡ false
unfolding contains
contains-front pat [] ys h = refl
contains-front pat (c ∷ xs) ys h =
    ground (arith, contains-front pat xs ys, starts_with-append pat (c ∷ xs) ys)

contains-end : (pat xs ys : List ℕ) → contains pat (xs ++ ys) ≡ false → contains pat ys ≡ false
unfolding contains
contains-end pat [] ys h = h
contains-end pat (c ∷ xs) ys h = ground (arith, contains-end pat xs ys)

abbrev two_dots : List ℕ
two_dots = dot ∷ dot ∷ []

-- A name without two dots is not the parent directory.
enter_up : (s : List ℕ) (d : ℕ) → contains two_dots s ≡ false → is_some (enter s d) ≡ true
unfolding contains
enter_up [] d h = refl
enter_up (a ∷ []) d h = ground arith
enter_up (a ∷ b ∷ []) zero h = ground arith
enter_up (a ∷ b ∷ []) (suc d) h = ground arith
enter_up (a ∷ b ∷ c ∷ r) d h = refl

walk-cons :
    (s : List ℕ) (r : List (List ℕ)) (d : ℕ)
    → is_some (enter s d) ≡ true
    → ((e : ℕ) → is_some (walk r e) ≡ true)
    → is_some (walk (s ∷ r) d) ≡ true
unfolding walk
walk-cons s r d h on = elim (Option-cases (enter s d)) [
  | inl e ↦ absurd (false≢true (rw e at h))
  | inr (x, e) ↦ rw (e, walk) (on x)
]

-- The names that remain are walked without leaving the directory, from any depth.
walk-split_from :
    (cur text : List ℕ) (d : ℕ)
    → contains two_dots (cur ++ text) ≡ false
    → is_some (walk (split_from cur text) d) ≡ true
unfolding split_from
walk-split_from cur [] d h =
    walk-cons cur [] d (enter_up cur d (contains-front two_dots cur [] h))
      (λ e. unfold walk in refl)
walk-split_from cur (c ∷ text) d h =
    let after = contains-end two_dots (cur ++ c ∷ []) text (rw append_assoc h) in
    let name = enter_up cur d (contains-front two_dots cur (c ∷ text) h) in
    elim (Bool-cases (c == slash)) [
      | inl s ↦
          rw (s, split_from)
            (walk-cons cur (split_from [] text) d name (λ e. walk-split_from [] text e after))
      | inr s ↦ rw (s, split_from) (walk-split_from (cur ++ c ∷ []) text d (rw append_assoc h))
    ]

-- A path that `is_safe_path` accepts is not absolute, and none of its steps leaves the
-- destination directory.
pub is_safe_path-stays_inside :
    (path : List ℕ) → is_safe_path path ≡ true → stays_inside path ≡ true
unfolding is_safe_path stays_inside segments
is_safe_path-stays_inside path h = ground (arith, walk-split_from [] path 0)

starts_with_self : (pat rest : List ℕ) → starts_with pat (pat ++ rest) ≡ true
unfolding starts_with
starts_with_self [] rest = refl
starts_with_self (p ∷ pat) rest = ground (arith, starts_with_self pat rest)

contains_middle :
    (before pat rest : List ℕ) → pat ≢ [] → contains pat (before ++ (pat ++ rest)) ≡ true
unfolding contains
contains_middle [] [] rest h = absurd (h refl)
contains_middle [] (p ∷ pat) rest h = ground (arith, starts_with_self (p ∷ pat) rest)
contains_middle (b ∷ before) pat rest h = ground (arith, contains_middle before pat rest h)

-- `is_safe_path` refuses every path with two dots in a row, wherever they stand, and every path
-- with a zero byte.
pub is_safe_path_refuses :
    (before rest : List ℕ)
    → (is_safe_path (before ++ (two_dots ++ rest)) ≡ false)
      × (is_safe_path (before ++ ((0 ∷ []) ++ rest)) ≡ false)
unfolding is_safe_path
is_safe_path_refuses before rest = (
  ground (arith, contains_middle before two_dots rest (λ e. cc)),
  ground (arith, contains_middle before (0 ∷ []) rest (λ e. cc)),
)

-- A text with no slash is one name.
split_from-no_slash :
    (cur text : List ℕ)
    → contains (slash ∷ []) text ≡ false
    → split_from cur text ≡ (cur ++ text) ∷ []
unfolding split_from contains starts_with
split_from-no_slash cur [] h = rw append-nil
split_from-no_slash cur (c ∷ text) h = elim (Bool-cases (c == slash)) [
  | inl s ↦ absurd (ground arith)
  | inr s ↦
      rw (s, split_from)
        (split_from-no_slash (cur ++ c ∷ []) text (ground arith)
          ∙ ap (λ t. t ∷ []) (append_assoc cur (c ∷ []) text))
]

enter_long : (s : List ℕ) (d : ℕ) → 2 < length s → is_some (enter s d) ≡ true
enter_long [] d h = absurd (omega arith)
enter_long (a ∷ []) d h = absurd (omega arith)
enter_long (a ∷ b ∷ []) d h = absurd (omega arith)
enter_long (a ∷ b ∷ c ∷ r) d h = refl

-- A plain file name of three bytes or more that has two dots in a row, such as `a..b`, names a
-- file directly in the destination directory, and `is_safe_path` refuses it.
pub dotted_name_refused :
    (before rest : List ℕ)
    → let name = before ++ (two_dots ++ rest) in
      contains (slash ∷ []) name ≡ false
      → 2 < length name
      → (stays_inside name ≡ true) × (is_safe_path name ≡ false)
unfolding stays_inside segments
dotted_name_refused before rest h long =
    let name = before ++ (two_dots ++ rest) in
    (
      rw (not_absolute name h, split_from-no_slash [] name h)
          (walk-cons name [] 0 (enter_long name 0 long) (λ e. unfold walk in refl)),
      (is_safe_path_refuses before rest).0,
    )
  where
    not_absolute : (t : List ℕ) → contains (slash ∷ []) t ≡ false → first_is slash t ≡ false
    not_absolute [] k = refl
    not_absolute (c ∷ t) k = unfold contains starts_with in ground arith
