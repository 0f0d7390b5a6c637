-- ===== src/Lib.antt =====
-- A verification library for smenka_back, the server of a time tracking service: organizations pay for
-- a subscription, their members work in shifts, and a report says what is owed to whom.
--
-- Parts and how they interact. A request calls one function of src/app/services with a database
-- session, which the router commits, or rolls back if the function raises. The services read each
-- other's tables: the guards of `entitlements` are called by every service, `billing` applies a payment
-- to the subscription that `subscription` edits by hand, `payroll` reads the shifts of `shift` and the
-- approved requests of `overtime`. Celery tasks (src/app/tasks) change the same rows in the background.
--
-- Files and code.
--   Prelude              shared names: tests on numbers, lists as tables, integers, results with errors
--   Calendar             src/app/services/entitlements.py add_months; Python's date and datetime
--   Access               src/app/services/common.py, get_organization of src/app/services/organization.py
--   Billing/Tables       src/app/models/{plan, billing_period, subscription, payment}.py
--   Billing/Entitlements src/app/services/entitlements.py
--   Billing/Calc         src/app/services/billing_calc.py
--   Billing/Subscriptions  patch_subscription and extend_subscription of src/app/services/subscription.py
--   Billing/Answers      what the provider answers to src/app/services/yookassa_client.py, as far as
--                        billing.py reads it
--   Billing/Provider     the amounts of src/app/services/yookassa_client.py and the readers of the
--                        answers in billing.py
--   Billing/Payments     apply, cancel, reconcile and refund of src/app/services/billing.py; Webhook: the
--                        webhook and the poll; Calls: what one of their calls may change;
--                        Fitting: the tests on a payment and an answer
--   Billing/Checkout     the quotes of src/app/services/billing.py; Request: create_checkout; Prices:
--                        the catalog's prices, which the quotes are compared with in Quoted
--   Billing/Notices      src/app/tasks/subscriptions.py
--   Billing/History      any sequence of the steps above
--   Shifts               src/app/models/shift.py and pause, resume, finish of src/app/services/shift.py;
--                        Clock: worked and late seconds; Start: start_shift; Schedule: the automatic
--                        ends of src/app/services/shift.py and src/app/tasks/shifts.py
--   Schedules            src/app/models/work_schedule.py, the windows of src/app/services/work_schedule.py;
--                        Tables: its operations on schedules and rules; Choice: the schedule of a shift
--   Manual               src/app/services/manual_shift.py: its rows and reads; Intervals: the checks of
--                        intervals and pauses; Edits: create, update, delete and restore
--   EmployeeTest         src/app/models/employee_test.py; Templates, Attempts and Submission: the
--                        templates, the assignments with start_attempt, and submit_attempt of
--                        src/app/services/employee_test.py
--   Overtime             src/app/services/overtime.py, src/app/models/shift_overtime_request.py
--   Payroll              _rate_for_moment, _shift_amount_minor and _calc_earnings of
--                        src/app/services/payroll.py; Breakdown: _bucket_start and _build_breakdown;
--                        Adjustments: _adjustment_fields and _merge_category_amounts; History: the
--                        operations on rates and get_current_rates
--   Tests                the theorems at concrete inputs
-- A definition has the name of the function or class, without a leading underscore. A file beneath a
-- component has its proofs and is named for what they prove.
--
-- State. A table is a list of rows, a function takes the tables and returns them changed; a
-- function that raises returns the error alone, since its request is rolled back. `Step` and
-- `Reach` (Billing/History, Manual/Life, Manual/Disjoint, Overtime/Final, Payroll/History/Edits,
-- Schedules/Valid, EmployeeTest/Life) are one successful step and any sequence of them. The
-- model is sequential: that a step is not interleaved with another one is an assumption. Of the
-- modelled steps only apply_payment, apply_refund and start_attempt lock the row that they change
-- (start_attempt after it has looked for an open attempt). The current time, new ids, what the
-- provider answers, the answer of the choice of location and schedule at the start of a shift
-- (Schedules/Choice gives it for the schedule), those of the checklists at its end, and the
-- conversion between UTC and a time zone are arguments.
--
-- Numbers. A datetime is the number of microseconds since 0001-01-01 in UTC, a UUID is a number,
-- money is in kopecks, an integer where it can be negative. Seconds and quotients that the source
-- computes in floats or 28 digit decimals are exact; the percentage of an employee test follows the
-- floats where the exact quotient is a half. The overflow of a datetime past the year 9999
-- is an error in `add_months` and is not modelled elsewhere. The amounts that are exchanged with the
-- provider are texts, lists of code points, written and read as Python's Decimal does for the digits
-- of ASCII and for amounts within its 28 digits; `provider_payload` has the keys of an answer that
-- billing.py reads. Every loop runs over a list, without fuel, but
-- for the doublings that a float's exponent counts.
--
-- Not modelled: logging, the audit log outside manual shift entry, titles and texts of
-- notifications, columns that no modelled function reads, the location and photo at the start of a
-- shift, the sets of effective schedules by role and location, checklists, penalties, the knowledge
-- base, the operations on adjustments, queries that only list rows, authentication, files, and the
-- HTTP layer.
pub mod Prelude
pub mod Calendar
pub mod Access
pub mod Billing
pub mod Shifts
pub mod Schedules
pub mod Manual
pub mod EmployeeTest
pub mod Overtime
pub mod Payroll
pub mod Tests
