-- ===== src/Prelude/Text.antt =====
-- Texts as lists of code points: white space and numerals, as Python reads and writes them.
use Prim.Native.Nat.{ℕ, zero, suc, ◌+◌, ◌-◌, ◌*◌, ◌/◌, ◌%◌, ◌<◌}
use mathlib.Core.Path.{◌≡◌, refl}
use mathlib.Core.Logic.{inl, inr}
use mathlib.Core.Bool.{Bool, true, false, not, ◌&&◌, ◌||◌}
use mathlib.Core.List.{List, [], ◌∷◌, ◌++◌}
use mathlib.Core.List.{append_assoc}
use native.Mathlib.Omega.{arith}
use smenka_back.Prelude.Tests.{ltb, leb, ◌==◌, if◌then◌else◌, Bool-cases}
use smenka_back.Prelude.Lists.{All, All-append, All-mono, select}

abbrev between : ℕ → ℕ → ℕ → Bool
between low high c = leb low c && leb c high

-- The white space of `str.strip`.
abbrev pub is_space : ℕ → Bool
is_space c =
    between 9 13 c
    || between 28 32 c
    || c == 133
    || c == 160
    || c == 5760
    || between 8192 8202 c
    || between 8232 8233 c
    || c == 8239
    || c == 8287
    || c == 12288

unfoldable pub trim_start : List ℕ → List ℕ
trim_start [] = []
trim_start (c ∷ text) = let rest = trim_start text in if is_space c then rest else c ∷ text

abbrev pub is_empty : List ℕ → Bool
is_empty [] = true
is_empty (c ∷ text) = false

unfoldable pub trim_end : List ℕ → List ℕ
trim_end [] = []
trim_end (c ∷ text) =
    let rest = trim_end text in if is_space c && is_empty rest then [] else c ∷ rest

-- `value.strip().replace("_", "")`, with which `Decimal(value)` begins.
unfoldable pub plain_text : List ℕ → List ℕ
plain_text text = select (λ c. not (c == 95)) (trim_end (trim_start text))

abbrev pub is_digit : ℕ → Bool
is_digit c = leb 48 c && leb c 57

-- The numeral of a number, on fuel: `n + 1` is enough.
unfoldable pub digits_from : ℕ → ℕ → List ℕ
digits_from zero n = []
digits_from (suc fuel) n =
    let rest = digits_from fuel (n / 10) in
    if ltb n 10 then (48 + n) ∷ [] else rest ++ (48 + n % 10) ∷ []

-- `str(n)`.
unfoldable pub digits : ℕ → List ℕ
digits n = digits_from (suc n) n

-- The number, the count of its digits and the text after them: the digits go on from `n`.
unfoldable pub read_digits : ℕ → ℕ → List ℕ → ℕ × ℕ × List ℕ
read_digits n k [] = (n, k, [])
read_digits n k (c ∷ text) =
    let rest = read_digits (n * 10 + (c - 48)) (k + 1) text in
    if is_digit c then rest else (n, k, c ∷ text)

-- A digit, a point or a minus.
abbrev pub is_plain : ℕ → Bool
is_plain c = is_digit c || c == 45 || c == 46

abbrev pub Plain : List ℕ → Type 0
Plain text = All (λ c. is_plain c ≡ true) text

trim_start-Plain : (text : List ℕ) → Plain text → trim_start text ≡ text
unfolding trim_start
trim_start-Plain [] h = refl
trim_start-Plain (c ∷ text) h =
    let solid : is_space c ≡ false = let k = h.0 in ground arith in rw solid refl

trim_end-Plain : (text : List ℕ) → Plain text → trim_end text ≡ text
unfolding trim_end
trim_end-Plain [] h = refl
trim_end-Plain (c ∷ text) h =
    let solid : is_space c ≡ false = let k = h.0 in ground arith in
    rw (solid, trim_end-Plain text h.1) refl

select-Plain : (text : List ℕ) → Plain text → select (λ c. not (c == 95)) text ≡ text
select-Plain [] h = refl
select-Plain (c ∷ text) h =
    let solid : (c == 95) ≡ false = let k = h.0 in ground arith in
    rw (solid, select-Plain text h.1) refl

-- A text of digits, points and minus signs is read as it stands.
pub plain_text-Plain : (text : List ℕ) → Plain text → plain_text text ≡ text
unfolding plain_text
plain_text-Plain text h = rw (trim_start-Plain text h, trim_end-Plain text h) (select-Plain text h)

-- All digits.
abbrev pub Numeral : List ℕ → Type 0
Numeral text = All (λ c. is_digit c ≡ true) text

digits_from-Numeral : (fuel n : ℕ) → Numeral (digits_from fuel n)
unfolding digits_from
digits_from-Numeral zero n = tt
digits_from-Numeral (suc fuel) n = elim (Bool-cases (ltb n 10)) [
  | inl small ↦ rw small (ground arith, tt)
  | inr large ↦ rw large (
      All-append (λ c. is_digit c ≡ true) (digits_from fuel (n / 10)) ((48 + n % 10) ∷ [])
        (digits_from-Numeral fuel (n / 10)) (ground arith, tt))
]

pub digits-Numeral : (n : ℕ) → Numeral (digits n)
unfolding digits
digits-Numeral n = digits_from-Numeral (suc n) n

pub Numeral-Plain : (text : List ℕ) → Numeral text → Plain text
Numeral-Plain text h = All-mono _ (λ c. is_plain c ≡ true) (λ c k. ground arith) text h

-- The count of the digits that were read plays no part in the number.
read_on :
    (fuel n k : ℕ) (rest : List ℕ)
    → n < fuel
    → (j : ℕ) × (read_digits 0 k (digits_from fuel n ++ rest) ≡ read_digits n (j + 1) rest)
unfolding digits_from read_digits
read_on zero n k rest h = absurd (omega arith)
read_on (suc fuel) n k rest h = elim (Bool-cases (ltb n 10)) [
  | inl small ↦
      let is_one : is_digit (48 + n) ≡ true = ground arith in
      let value : 0 * 10 + (48 + n - 48) ≡ n = omega arith in (k, rw (small, is_one, value) refl)
  | inr large ↦
      let (j, e) = read_on fuel (n / 10) k ((48 + n % 10) ∷ rest) (ground arith) in
      let is_one : is_digit (48 + n % 10) ≡ true = ground arith in
      let value : n / 10 * 10 + (48 + n % 10 - 48) ≡ n = omega arith in
      (
        j + 1,
        rw (large, append_assoc (digits_from fuel (n / 10)) ((48 + n % 10) ∷ []) rest, e)
            (rw (is_one, value) refl),
      )
]

-- The numeral of a number is read as the number.
pub read_digits-digits :
    (n : ℕ) (rest : List ℕ)
    → (j : ℕ) × (read_digits 0 0 (digits n ++ rest) ≡ read_digits n (j + 1) rest)
unfolding digits
read_digits-digits n rest = read_on (suc n) n 0 rest (omega arith)
