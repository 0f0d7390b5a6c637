-- ===== src/Prelude/Results.antt =====
-- The exceptions of the services and the results of fallible calls. Each service raises its own
-- exception class with a `code`; the model has one constructor for each code. `crash` is an
-- exception that no handler expects (a server error 500). A request whose service raises is rolled
-- back, so an error carries no state.
use mathlib.Core.Path.{◌≡◌, refl, subst}
use mathlib.Core.Bool.{Bool, true, false, not}
use mathlib.Core.List.{List, [], ◌∷◌}
use smenka_back.Prelude.Tests.{if◌then◌else◌}
use mathlib.Core.Option.{Option, none, some}

pub data Error : Type 0 where
  forbidden org_not_found member_not_found validation_error crash : Error
  subscription_not_found plan_not_found subscription_inactive : Error
  plan_feature_unavailable plan_limit_reached : Error
  billing_disabled payment_not_found payment_amount_limit payment_provider_error : Error
  upgrade_not_applicable provider_client_error : Error
  shift_not_found shift_already_active shift_not_active shift_not_paused : Error
  shift_already_finished max_pauses_reached invalid_date_range : Error
  overtime_not_applicable overtime_period_expired overtime_already_requested : Error
  overtime_request_not_found overtime_already_reviewed : Error
  rate_effective_from_taken rate_not_found : Error
  schedule_not_found schedule_invalid_time schedule_not_available : Error
  schedule_window_closed schedule_required : Error
  work_location_not_found shift_overlap : Error
  test_template_invalid test_template_not_found test_template_deleted : Error
  test_template_not_deleted test_already_passed test_attempts_exhausted : Error
  test_assignment_not_found test_attempt_not_found test_attempt_already_submitted : Error

pub data Result {ℓ} (Value : Type ℓ) : Type ℓ where
  ok : Value → Result Value
  err : Error → Result Value

infixl 5 ◌>>◌ ◌>>=◌
-- An exception ends the chain. Not shut, so that a call that has returned steps on in any goal.
abbrev pub ◌>>=◌ {κ ℓ} :
    {Value : Type κ} {Answer : Type ℓ} → Result Value → (Value → Result Answer) → Result Answer
err raised >>= continue = err raised
ok value >>= continue = continue value

abbrev pub ◌>>◌ {κ} : {Answer : Type κ} → Result (Unit {0}) → Result Answer → Result Answer
checked >> rest = checked >>= (λ _. rest)

abbrev pub raise_if : Bool → Error → Result (Unit {0})
raise_if true e = err e
raise_if false e = ok tt

abbrev pub or_raise {ℓ} : {A : Type ℓ} → Option A → Error → Result A
or_raise none e = err e
or_raise (some a) e = ok a

-- SQLAlchemy's `scalar_one_or_none`: more than one row is an exception.
abbrev pub one_or_none {ℓ} : {A : Type ℓ} → List A → Result (Option A)
one_or_none [] = ok none
one_or_none (x ∷ []) = ok (some x)
one_or_none (x ∷ y ∷ xs) = err crash

-- A chain that returns has a first call that returned.
pub >>=-eq-ok {κ ℓ} :
    {Value : Type κ} {Answer : Type ℓ} (first : Result Value) (continue : Value → Result Answer)
    {answer : Answer}
    → (first >>= continue) ≡ ok answer
    → (value : Value) × (first ≡ ok value) × (continue value ≡ ok answer)
>>=-eq-ok (err raised) continue returned = cc
>>=-eq-ok (ok value) continue returned = (value, refl, returned)

-- What a call ensures where it returns.
pub data Ensures {ℓ κ} {A : Type ℓ} (P : A → Type κ) : Result A → Type (ℓ ⊔ κ) where
  returns : (a : A) → P a → Ensures P (ok a)
  raises : (e : Error) → Ensures P (err e)

pub >>=-Ensures {ℓ κ μ} :
    {A : Type ℓ} {B : Type κ} {P : B → Type μ} (m : Result A) (f : A → Result B)
    → ((a : A) → m ≡ ok a → Ensures P (f a))
    → Ensures P (m >>= f)
>>=-Ensures (ok a) f h = h a refl
>>=-Ensures (err e) f h = raises e

pub ok-injective {ℓ} : {A : Type ℓ} (a b : A) → ok a ≡ ok b → a ≡ b
ok-injective a b h = cc

pub ensured {ℓ κ} :
    {A : Type ℓ} {P : A → Type κ} {r : Result A} (a : A) → Ensures P r → r ≡ ok a → P a
ensured {P} a (returns b p) h = subst P (ok-injective b a h) p
ensured a (raises e) h = cc

pub Ensures-mono {ℓ κ μ} :
    {A : Type ℓ} {P : A → Type κ} {Q : A → Type μ} {r : Result A}
    → Ensures P r
    → ((a : A) → P a → Q a)
    → Ensures Q r
Ensures-mono (returns a p) h = returns a (h a p)
Ensures-mono (raises e) h = raises e

pub if-Ensures {ℓ κ} :
    {A : Type ℓ} {P : A → Type κ} (b : Bool) (r s : Result A)
    → (b ≡ true → Ensures P r)
    → (b ≡ false → Ensures P s)
    → Ensures P (if b then r else s)
if-Ensures true r s h k = h refl
if-Ensures false r s h k = k refl

pub raise_if-Ensures {κ} :
    {P : Unit {0} → Type κ} (b : Bool) (e : Error) → (b ≡ false → P tt) → Ensures P (raise_if b e)
raise_if-Ensures true e h = raises e
raise_if-Ensures false e h = returns tt (h refl)

pub allowed : (b : Bool) (e : Error) → raise_if (not b) e ≡ ok tt → b ≡ true
allowed true e h = refl
allowed false e h = cc

pub not_raised : (b : Bool) (e : Error) → raise_if b e ≡ ok tt → b ≡ false
not_raised true e h = cc
not_raised false e h = refl

pub or_raise-some {ℓ} :
    {A : Type ℓ} (o : Option A) (a : A) (e : Error) → or_raise o e ≡ ok a → o ≡ some a
or_raise-some none a e h = cc
or_raise-some (some b) a e h = cc
