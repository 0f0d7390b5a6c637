-- ===== src/Billing.antt =====
-- Plans, subscriptions and online payments: src/app/services/{entitlements, billing_calc,
-- subscription, billing}.py, src/app/tasks/subscriptions.py and their tables.
pub mod Answers
pub mod Tables
pub mod Entitlements
pub mod Calc
pub mod Subscriptions
pub mod Provider
pub mod Payments
pub mod Checkout
pub mod Notices
pub mod History
