-- ===== src/Billing/Answers.antt =====
-- What the payment provider answers (src/app/services/yookassa_client.py), as src/app/services/billing.py
-- reads it. A text of an amount is its list of code points. Of a JSON object there are the keys that
-- the services read; the whole of it is stored in a payment's `provider_payload`.
use smenka_back.Prelude.{ℕ, Option, List, String}

abbrev pub AmountValue : Type 0
AmountValue = List ℕ

-- The text of a timestamp.
pub data Stamp : Type 0 where
  unreadable : Stamp
  at : ℕ → Stamp

pub data ProviderStatus : Type 0 where
  succeeded canceled other : ProviderStatus

-- A payment or a refund as the provider describes it. The ids are those of `metadata`.
pub record ProviderData : Type 0 where
  pub payment_id : Option ℕ
  pub organization_id : Option ℕ
  pub amount : Option AmountValue
  pub status : ProviderStatus
  pub captured_at : Option Stamp
  pub created_at : Option Stamp
  pub cancellation_reason : Option String

-- The answer to the creation of a payment, which describes the payment too.
pub record ProviderCreated : Type 0 where
  pub id : Option ℕ
  pub confirmation_url : Option String
  pub described : ProviderData
