-- ===== src/Tests/Rates.antt =====
-- The history of rates at concrete inputs.
use smenka_back.Prelude.{◌*◌, ◌≡◌, refl, none, [], ◌∷◌, ok, arith}
use smenka_back.Calendar.{day, calendar}
use smenka_back.Access.{get_organization, ensure_admin_or_owner}
use smenka_back.Billing.Entitlements.{entitlements}
use smenka_back.Payroll.{RateType, MemberRate, rate_for_moment}
use smenka_back.Payroll.History.{
  Tables, NewRate, get_member, ensure_no_rate_at, new_rate, insert_rate, create_rate,
  load_rates_asc, get_current_rates, entry_of,
}
use smenka_back.Payroll.History.Unique.{Unique}
use smenka_back.Payroll.History.Edits.{creates, start, next, Reach-Unique}
use smenka_back.Payroll.History.Current.{get_current_rates-rate_for_moment}
use smenka_back.Tests.Fixtures.{db}

abbrev raise_of_pay : NewRate
raise_of_pay = record {
  rate_amount_minor = 30000;
  rate_type = RateType.hourly;
  currency = "RUB";
  effective_from = 2 * day;
  note = none;
}

abbrev first : MemberRate
first = new_rate 1 5 (record raise_of_pay { rate_amount_minor = 20000; effective_from = day })

abbrev before : Tables
before = record { billing = db; rates = first ∷ [] }

abbrev after : Tables
after = insert_rate (new_rate 2 5 raise_of_pay) before

create_runs :
    create_rate before 1 5 10 raise_of_pay (5 * day) 2 ≡ ok (after, new_rate 2 5 raise_of_pay)
unfolding calendar entitlements get_organization ensure_admin_or_owner get_member ensure_no_rate_at
    create_rate
create_runs = refl

before-Unique : Unique before.rates
before-Unique = record { unique_ids = λ k. ground arith; unique_dates = λ m d. ground arith }

Reach-Unique_example : Unique after.rates
Reach-Unique_example =
    Reach-Unique
      (next start (
        creates 1 5 10 raise_of_pay (5 * day) 2 after (new_rate 2 5 raise_of_pay) refl create_runs))
      before-Unique

get_current_rates-rate_for_moment_example :
    entry_of (get_current_rates after.rates (5 ∷ []) (3 * day)) 5
    ≡ rate_for_moment (load_rates_asc after.rates 5) (3 * day)
get_current_rates-rate_for_moment_example =
    get_current_rates-rate_for_moment after.rates (5 ∷ []) 5 (3 * day) Reach-Unique_example refl
