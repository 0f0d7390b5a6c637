-- ===== src/Billing/Payments/Fitting.antt =====
-- The tests of src/app/services/billing.py on a payment and an answer of the provider.
use smenka_back.Prelude.{
  ℕ, ◌≡◌, refl, ap, true, false, Option, none, some, ℤ, pos, negsuc, eqb_ℤ, arith, ◌==◌,
}
use smenka_back.Billing.Answers.{ProviderData}
use smenka_back.Billing.Tables.{Payment, PaymentStatus}
use smenka_back.Billing.Provider.{is_id, is_amount, amount_from_provider, verify_provider_data}
use smenka_back.Billing.Payments.{is_pending, is_refunded}
use smenka_back.Billing.Payments.Calls.{Fits}

eqb_ℤ-same : (a b : ℤ) → eqb_ℤ a b ≡ true → a ≡ b
eqb_ℤ-same (pos m) (pos n) h = let same : m ≡ n = ground arith in ap pos same
eqb_ℤ-same (pos m) (negsuc n) h = absurd (ground arith)
eqb_ℤ-same (negsuc m) (pos n) h = absurd (ground arith)
eqb_ℤ-same (negsuc m) (negsuc n) h = let same : m ≡ n = ground arith in ap negsuc same

eqb_ℤ_refl : (a : ℤ) → eqb_ℤ a a ≡ true
eqb_ℤ_refl (pos m) = ground arith
eqb_ℤ_refl (negsuc m) = ground arith

is_id-some : (o : Option ℕ) (k : ℕ) → is_id o k ≡ true → o ≡ some k
is_id-some none k h = cc
is_id-some (some j) k h = let same : j ≡ k = ground arith in ap some same

is_amount-some : (o : Option ℤ) (a : ℤ) → is_amount o a ≡ true → o ≡ some a
is_amount-some none a h = cc
is_amount-some (some b) a h = ap some (eqb_ℤ-same b a h)

pub verify_provider_data-Fits :
    (p : Payment) (answer : ProviderData) → verify_provider_data p answer ≡ true → Fits p answer
unfolding verify_provider_data
verify_provider_data-Fits p answer h = (
  is_id-some answer.payment_id p.id (ground arith),
  is_id-some answer.organization_id p.organization_id (ground arith),
  is_amount-some (amount_from_provider answer) p.amount_minor (ground arith),
)

pub Fits-verify_provider_data :
    (p : Payment) (answer : ProviderData) → Fits p answer → verify_provider_data p answer ≡ true
unfolding verify_provider_data amount_from_provider
Fits-verify_provider_data p answer f =
    let same_id : (p.id == p.id) ≡ true = ground arith in
    let same_org : (p.organization_id == p.organization_id) ≡ true = ground arith in
    rw (f.0, same_id, f.1, same_org, f.2) (eqb_ℤ_refl p.amount_minor)

pub is_pending-pending : (s : PaymentStatus) → is_pending s ≡ true → s ≡ PaymentStatus.pending
is_pending-pending PaymentStatus.pending h = refl
is_pending-pending PaymentStatus.succeeded h = cc
is_pending-pending PaymentStatus.canceled h = cc
is_pending-pending PaymentStatus.refunded h = cc

pub is_pending-over : (s : PaymentStatus) → is_pending s ≡ false → ¬ s ≡ PaymentStatus.pending
is_pending-over PaymentStatus.pending h e = cc
is_pending-over PaymentStatus.succeeded h e = cc
is_pending-over PaymentStatus.canceled h e = cc
is_pending-over PaymentStatus.refunded h e = cc

pub is_refunded-refunded : (s : PaymentStatus) → is_refunded s ≡ true → s ≡ PaymentStatus.refunded
is_refunded-refunded PaymentStatus.pending h = cc
is_refunded-refunded PaymentStatus.succeeded h = cc
is_refunded-refunded PaymentStatus.canceled h = cc
is_refunded-refunded PaymentStatus.refunded h = refl

pub is_refunded-not : (s : PaymentStatus) → is_refunded s ≡ false → ¬ s ≡ PaymentStatus.refunded
is_refunded-not PaymentStatus.pending h e = cc
is_refunded-not PaymentStatus.succeeded h e = cc
is_refunded-not PaymentStatus.canceled h e = cc
is_refunded-not PaymentStatus.refunded h e = cc
