-- ===== src/Billing/Provider/Reading.antt =====
-- How amounts of the provider are written and read (src/app/services/yookassa_client.py).
use smenka_back.Prelude.{
  ℕ, suc, ◌+◌, ◌-◌, ◌*◌, ◌/◌, ◌%◌, ◌≡◌, refl, ap, Bool, true, false, some, List, [], ◌∷◌, ◌++◌, ℤ,
  pos, negsuc, arith, ◌==◌, All-append, is_digit, Plain, plain_text-Plain, digits, digits-Numeral,
  Numeral-Plain, Numeral, read_digits, read_digits-digits,
}
use smenka_back.Billing.Provider.{
  take_sign, take_fraction, take_exponent, parse_decimal, amount_value_to_minor, hundredths_text,
  minor_to_amount_value,
}

hundredths-Plain : (n : ℕ) → Plain (hundredths_text n)
unfolding hundredths_text
hundredths-Plain n =
    All-append _ (digits (n / 100)) _ (Numeral-Plain (digits (n / 100)) (digits-Numeral (n / 100)))
      (refl, (ground arith, (ground arith, tt)))

-- The number in the text of an amount, with or without a minus in front.
hundredths-read :
    (n : ℕ)
    → (j : ℕ) × (read_digits 0 0 (hundredths_text n)
        ≡ (n / 100, j + 1, 46 ∷ (48 + n % 100 / 10) ∷ (48 + n % 10) ∷ []))
unfolding hundredths_text read_digits
hundredths-read n =
    let x = read_digits-digits (n / 100) (46 ∷ (48 + n % 100 / 10) ∷ (48 + n % 10) ∷ []) in
    (x.0, x.1)

hundredths-fraction :
    (n : ℕ) → take_fraction (n / 100) (46 ∷ (48 + n % 100 / 10) ∷ (48 + n % 10) ∷ []) ≡ (n, 2, [])
unfolding take_fraction read_digits
hundredths-fraction n =
    let tens : is_digit (48 + n % 100 / 10) ≡ true = ground arith in
    let ones : is_digit (48 + n % 10) ≡ true = ground arith in
    let value : (n / 100 * 10 + (48 + n % 100 / 10 - 48)) * 10 + (48 + n % 10 - 48) ≡ n =
      omega arith in
    rw (tens, ones, value) refl

unsigned :
    (text rest : List ℕ) → Numeral text → take_sign (text ++ 46 ∷ rest) ≡ (false, text ++ 46 ∷ rest)
unfolding take_sign
unsigned [] rest h = refl
unsigned (c ∷ text) rest h =
    let k = h.0 in
    let no_minus : (c == 45) ≡ false = ground arith in
    let no_plus : (c == 43) ≡ false = ground arith in rw (no_minus, no_plus) refl

hundredths-unsigned : (n : ℕ) → take_sign (hundredths_text n) ≡ (false, hundredths_text n)
unfolding hundredths_text
hundredths-unsigned n = unsigned (digits (n / 100)) _ (digits-Numeral (n / 100))

minus-signed : (text : List ℕ) → take_sign (45 ∷ text) ≡ (true, text)
unfolding take_sign
minus-signed text = refl

-- The text of a number of hundredths after its sign.
parsed :
    (value : List ℕ) (is_negative : Bool) (n : ℕ)
    → Plain value
    → take_sign value ≡ (is_negative, hundredths_text n)
    → parse_decimal value
      ≡ some (record { is_negative = is_negative; coefficient = n; raised = 0; lowered = 2 })
unfolding parse_decimal take_exponent
parsed value is_negative n plain signed =
    let x = hundredths-read n in
    let many : (x.0 + 1 + 2 == 0) ≡ false = ground arith in
    rw (plain_text-Plain value plain, signed, x.1, hundredths-fraction n) (rw many refl)

-- The text that an amount in kopecks is sent as (a minus for a negative one, the rubles, a point and
-- two digits) is read back as the same amount.
pub amount_value_to_minor-minor_to_amount_value :
    (amount : ℤ) → amount_value_to_minor (minor_to_amount_value amount) ≡ some amount
unfolding amount_value_to_minor minor_to_amount_value
amount_value_to_minor-minor_to_amount_value (pos n) =
    rw (parsed (hundredths_text n) false n (hundredths-Plain n) (hundredths-unsigned n))
      (ap (λ k. some (pos k)) (omega arith))
amount_value_to_minor-minor_to_amount_value (negsuc n) =
    rw
      (parsed (45 ∷ hundredths_text (suc n)) true (suc n) (refl, hundredths-Plain (suc n))
        (minus-signed (hundredths_text (suc n))))
      (ground arith)
