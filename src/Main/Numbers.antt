-- ===== src/Main/Numbers.antt =====
-- src/main.cpp: the numbers on the command line, `atoi` and `std::to_string`.
use uring_sync.Base.{
  ℕ, zero, suc, ◌+◌, ◌-◌, ◌*◌, ◌/◌, ◌%◌, ◌^◌, ◌<◌, ◌≤◌, ◌≡◌, refl, ap, ◌∙◌, min, List, [], ◌∷◌,
  ◌++◌, Bool, true, false, ◌&&◌, ◌||◌, ◌==◌, ltb, leb, if◌then◌else◌, arith, All, All-append,
  length, length-append, Bool-cases, inl, inr, ltb→lt, lt→ltb,
}
use uring_sync.Base.Int.{ℤ, pos, negsuc}

abbrev is_digit : ℕ → Bool
is_digit c = leb b'0' c && leb c b'9'

abbrev is_space : ℕ → Bool
is_space c = c == b' ' || (leb 9 c && leb c 13)

-- The digits in front, read on from `acc`.
pub digits_value : ℕ → List ℕ → ℕ
digits_value acc [] = acc
digits_value acc (c ∷ text) = elim (is_digit c) [
  | true ↦ digits_value (acc * 10 + (c - b'0')) text
  | false ↦ acc
]

-- A number of 64 bits as `int`.
abbrev pub to_int : ℕ → ℤ
to_int v = let w = v % 2 ^ 32 in if ltb w (2 ^ 31) then pos w else negsuc (2 ^ 32 - 1 - w)

abbrev positive : ℕ → ℤ
positive v = to_int (min v (2 ^ 63 - 1))

abbrev negative : ℕ → ℤ
negative v = to_int (2 ^ 64 - min v (2 ^ 63))

after_sign : List ℕ → ℤ
unfolding digits_value
after_sign [] = pos 0
after_sign (c ∷ text) =
    if c == b'-'
    then negative (digits_value 0 text)
    else if c == b'+'
    then positive (digits_value 0 text)
    else positive (digits_value 0 (c ∷ text))

skip_spaces : List ℕ → List ℕ
skip_spaces [] = []
skip_spaces (c ∷ text) = elim (is_space c) [ true ↦ skip_spaces text | false ↦ c ∷ text ]

-- `atoi` of the GNU C library: `strtol`, which stops at the ends of a `long`, cut to an `int`.
unfoldable pub atoi : List ℕ → ℤ
unfolding after_sign skip_spaces
atoi text = after_sign (skip_spaces text)

-- `std::to_string` of a number below 10 ^ fuel.
decimal_from : ℕ → ℕ → List ℕ
decimal_from zero n = []
decimal_from (suc fuel) n =
    let more = decimal_from fuel (n / 10) ++ (b'0' + n % 10) ∷ [] in
    if ltb n 10 then (b'0' + n) ∷ [] else more

unfoldable pub to_string : ℕ → List ℕ
unfolding decimal_from
to_string n = decimal_from (suc n) n

abbrev pub IsDigit : ℕ → Type 0
IsDigit c = (b'0' ≤ c) × (c ≤ b'9')

digit_lem : (c : ℕ) → IsDigit c → is_digit c ≡ true
digit_lem c h = ground arith

decimal_from-digits : (fuel n : ℕ) → All IsDigit (decimal_from fuel n)
unfolding decimal_from
decimal_from-digits zero n = tt
decimal_from-digits (suc fuel) n = elim (Bool-cases (ltb n 10)) [
  | inl e ↦ let small = ltb→lt n 10 e in rw e ((omega arith, omega arith), tt)
  | inr e ↦ rw e (
      All-append IsDigit (decimal_from fuel (n / 10)) _ (decimal_from-digits fuel (n / 10))
        ((omega arith, omega arith), tt))
]

digits_value-append :
    (acc d : ℕ) (xs : List ℕ)
    → All IsDigit xs
    → IsDigit d
    → digits_value acc (xs ++ d ∷ []) ≡ digits_value acc xs * 10 + (d - b'0')
unfolding digits_value
digits_value-append acc d [] a h = rw (digit_lem d h, digits_value) refl
digits_value-append acc d (x ∷ xs) a h =
    rw (digit_lem x a.0, digits_value) (digits_value-append (acc * 10 + (x - b'0')) d xs a.1 h)

-- Reading back what was printed.
digits_value-decimal : (fuel n : ℕ) → n < fuel → digits_value 0 (decimal_from fuel n) ≡ n
unfolding decimal_from digits_value
digits_value-decimal zero n h = absurd (omega arith)
digits_value-decimal (suc fuel) n h = elim (Bool-cases (ltb n 10)) [
  | inl e ↦
      let small = ltb→lt n 10 e in
      let digit : is_digit (b'0' + n) ≡ true = digit_lem (b'0' + n) (omega arith, omega arith) in
      rw (e, digits_value) (rw digit (omega arith))
  | inr e ↦
      let large : 10 ≤ n = ground arith in
      let rest = decimal_from fuel (n / 10) in
      rw e (
        omega (
          arith,
          digits_value-append 0 (b'0' + n % 10) rest (decimal_from-digits fuel (n / 10))
              (omega arith, omega arith),
          digits_value-decimal fuel (n / 10) (omega arith),
        ))
]

atoi-digits :
    (c : ℕ) (text : List ℕ)
    → All IsDigit (c ∷ text)
    → atoi (c ∷ text) ≡ positive (digits_value 0 (c ∷ text))
unfolding atoi after_sign skip_spaces
atoi-digits c text a =
    let solid : is_space c ≡ false = ground arith in
    let plain : (c == b'-') ≡ false = ground arith in
    let signless : (c == b'+') ≡ false = ground arith in
    rw (solid, after_sign) (rw (plain, signless))

atoi-nonempty :
    (text : List ℕ)
    → All IsDigit text
    → 0 < length text
    → atoi text ≡ positive (digits_value 0 text)
atoi-nonempty [] a h = absurd (omega arith)
atoi-nonempty (c ∷ text) a h = atoi-digits c text a

pub to_string-digits : (n : ℕ) → All IsDigit (to_string n)
unfolding to_string
to_string-digits n = decimal_from-digits (suc n) n

to_string-nonempty : (n : ℕ) → 0 < length (to_string n)
unfolding to_string decimal_from
to_string-nonempty n = elim (Bool-cases (ltb n 10)) [
  | inl e ↦ rw e (omega arith)
  | inr e ↦ rw e (omega (arith, length-append (decimal_from n (n / 10)) ((b'0' + n % 10) ∷ [])))
]

-- What is printed is read back.
pub atoi-to_string : (n : ℕ) → n < 2 ^ 31 → atoi (to_string n) ≡ pos n
atoi-to_string n h =
    let small : min n (2 ^ 63 - 1) % 2 ^ 32 ≡ n = omega arith in
    let below : ltb n (2 ^ 31) ≡ true = lt→ltb n (2 ^ 31) h in
    atoi-nonempty (to_string n) (to_string-digits n) (to_string-nonempty n)
    ∙ ap positive (digits_value-to_string n)
    ∙ rw (small, below) refl
  where
    digits_value-to_string : (n : ℕ) → digits_value 0 (to_string n) ≡ n
    digits_value-to_string n = unfold to_string in digits_value-decimal (suc n) n (omega arith)

-- An `int` has 31 bits and a sign.
to_int-bounds : (v n : ℕ) → to_int v ≡ pos n → n < 2 ^ 31
to_int-bounds v n h = ground arith

after_sign-bounds : (text : List ℕ) (n : ℕ) → after_sign text ≡ pos n → n < 2 ^ 31
unfolding after_sign
after_sign-bounds [] n h = ground arith
after_sign-bounds (c ∷ text) n h = elim (Bool-cases (c == b'-')) [
  | inl e ↦ to_int-bounds _ n (rw e at h)
  | inr e ↦ elim (Bool-cases (c == b'+')) [
    | inl f ↦ to_int-bounds _ n (rw (e, f) at h)
    | inr f ↦ to_int-bounds _ n (rw (e, f) at h)
  ]
]

pub atoi-bounds : (text : List ℕ) (n : ℕ) → atoi text ≡ pos n → n < 2 ^ 31
unfolding atoi
atoi-bounds text n h = after_sign-bounds (skip_spaces text) n h
