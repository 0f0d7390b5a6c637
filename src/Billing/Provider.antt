-- ===== src/Billing/Provider.antt =====
-- What the payment provider answers (src/app/services/yookassa_client.py), and how
-- src/app/services/billing.py reads it. The HTTP call is outside: an answer is an argument.
pub mod Reading
use smenka_back.Prelude.{
  ℕ, suc, ◌+◌, ◌*◌, ◌/◌, ◌%◌, ◌^◌, ◌||◌, List, [], ◌∷◌, ◌++◌, plain_text, digits, read_digits, Bool,
  true, false, ◌&&◌, Option, none, some, String, ℤ, pos, negsuc, sub_ℕ, eqb_ℤ, ◌==◌, if◌then◌else◌,
}
use smenka_back.Billing.Answers.{AmountValue, Stamp, ProviderData}
use smenka_back.Billing.Tables.{Payment}
use smenka_back.Billing.Subscriptions.{given_or}

-- `Decimal(value)`: the coefficient with its sign, times 10 ^ raised / 10 ^ lowered.
pub record Decimal : Type 0 where
  pub is_negative : Bool
  pub coefficient : ℕ
  pub raised : ℕ
  pub lowered : ℕ

-- A minus or a plus in front of a text.
unfoldable pub take_sign : List ℕ → Bool × List ℕ
take_sign [] = (false, [])
take_sign (c ∷ text) =
    if c == 45 then (true, text) else if c == 43 then (false, text) else (false, c ∷ text)

-- The digits after a point, with their count.
unfoldable pub take_fraction : ℕ → List ℕ → ℕ × ℕ × List ℕ
take_fraction n [] = (n, 0, [])
take_fraction n (c ∷ text) = if c == 46 then read_digits n 0 text else (n, 0, c ∷ text)

abbrev pub whole_exponent : Bool → ℕ × ℕ × List ℕ → Option (Bool × ℕ)
whole_exponent is_negative (n, suc k, []) = some (is_negative, n)
whole_exponent is_negative _ = none

-- The end of the text, or an `e` or `E` with a whole number.
unfoldable pub take_exponent : List ℕ → Option (Bool × ℕ)
take_exponent [] = some (false, 0)
take_exponent (c ∷ text) =
    let signed = take_sign text in
    if c == 101 || c == 69 then whole_exponent signed.0 (read_digits 0 0 signed.1) else none

abbrev pub with_exponent : Bool → ℕ → ℕ → Option (Bool × ℕ) → Option Decimal
with_exponent is_negative n scale none = none
with_exponent is_negative n scale (some (true, e)) =
    some (record { is_negative = is_negative; coefficient = n; raised = 0; lowered = scale + e })
with_exponent is_negative n scale (some (false, e)) =
    some (record { is_negative = is_negative; coefficient = n; raised = e; lowered = scale })

-- `none` for a text that is no finite number: the conversion to an integer or already `Decimal` raises
-- an exception that the caller catches. The digits are those of ASCII.
unfoldable pub parse_decimal : List ℕ → Option Decimal
parse_decimal value =
    let signed = take_sign (plain_text value) in
    let integer = read_digits 0 0 signed.1 in
    let fraction = take_fraction integer.0 integer.2 in
    if integer.1 + fraction.1 == 0
    then none
    else with_exponent signed.0 fraction.0 fraction.1 (take_exponent fraction.2)

abbrev pub signed_by : Bool → ℕ → ℤ
signed_by true n = sub_ℕ 0 n
signed_by false n = pos n

-- `int((value * 100).to_integral_value(rounding=ROUND_DOWN))`: towards zero.
abbrev pub minor_of : Decimal → ℤ
minor_of d = signed_by d.is_negative (d.coefficient * 100 * 10 ^ d.raised / 10 ^ d.lowered)

abbrev pub minor_if : Option Decimal → Option ℤ
minor_if none = none
minor_if (some d) = some (minor_of d)

-- `none` for the exception that the caller catches.
unfoldable pub amount_value_to_minor : AmountValue → Option ℤ
amount_value_to_minor value = minor_if (parse_decimal value)

-- The text of n / 100 with two decimals: the quotient is exact, so that `quantize` rounds nothing.
unfoldable pub hundredths_text : ℕ → AmountValue
hundredths_text n = digits (n / 100) ++ 46 ∷ (48 + n % 100 / 10) ∷ (48 + n % 10) ∷ []

unfoldable pub minor_to_amount_value : ℤ → AmountValue
minor_to_amount_value (pos n) = hundredths_text n
minor_to_amount_value (negsuc n) = 45 ∷ hundredths_text (suc n)

abbrev read_amount : Option AmountValue → Option ℤ
read_amount none = none
read_amount (some value) = amount_value_to_minor value

unfoldable pub amount_from_provider : ProviderData → Option ℤ
unfolding amount_value_to_minor
amount_from_provider answer = read_amount answer.amount

abbrev pub is_id : Option ℕ → ℕ → Bool
is_id none k = false
is_id (some j) k = j == k

abbrev pub is_amount : Option ℤ → ℤ → Bool
is_amount none a = false
is_amount (some b) a = eqb_ℤ b a

unfoldable pub verify_provider_data : Payment → ProviderData → Bool
verify_provider_data payment answer =
    if is_id answer.payment_id payment.id
    then (if is_id answer.organization_id payment.organization_id
        then is_amount (amount_from_provider answer) payment.amount_minor
        else false)
    else false

abbrev pub stamp_or : Option Stamp → ℕ → ℕ
stamp_or none now = now
stamp_or (some Stamp.unreadable) now = now
stamp_or (some (Stamp.at t)) now = t

unfoldable pub parse_paid_at : ProviderData → ℕ → ℕ
parse_paid_at answer now = stamp_or (given_or answer.captured_at answer.created_at) now
