-- ===== src/Tests.antt =====
-- The theorems at concrete inputs.
pub mod Fixtures
pub mod Calendar
pub mod Billing
pub mod Payments
pub mod Shifts
pub mod Payroll
pub mod Rates
pub mod Schedules
pub mod Manual
pub mod EmployeeTest
