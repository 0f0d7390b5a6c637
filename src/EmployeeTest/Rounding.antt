-- ===== src/EmployeeTest/Rounding.antt =====
-- The percentage of a score: `round` in `submit_attempt` of src/app/services/employee_test.py.
use smenka_back.Prelude.{
  ℕ, ◌+◌, ◌*◌, ◌/◌, ◌%◌, ◌^◌, zero, suc, ◌≤◌, ◌<◌, ◌≡◌, arith, ltb, leb, Bool-cases, inl, inr, ap,
  sym, ◌∙◌, subst,
}
use smenka_back.EmployeeTest.Submission.{percent_of, float_percent, doublings}
use Prim.Native.Nat.pow
use native.Mathlib.Omega.{div_any}
use native.Mathlib.Nat.{mod-lt, mul_comm, mul_assoc, mul-le-mul_left}

-- The nearest whole number to a quotient.
pub record IsNearest (n d k : ℕ) : Type 0 where
  pub not_below : 2 * n ≤ 2 * (d * k) + d
  pub not_above : 2 * (d * k) ≤ 2 * n + d

module _ (n d q r : ℕ) (whole : d * q + r ≡ n) where
  down-IsNearest : 2 * r ≤ d → IsNearest n d q
  down-IsNearest h = record { not_below = omega arith; not_above = omega arith }

  up-IsNearest : d ≤ 2 * r → r < d → IsNearest n d (q + 1)
  up-IsNearest h k =
      let next : d * (q + 1) ≡ d * q + d = omega arith in
      record { not_below = omega (arith, next); not_above = omega (arith, next) }

pub percent_of-IsNearest :
    (score max_score : ℕ)
    → 1 ≤ max_score
    → IsNearest (score * 100) max_score (percent_of score max_score)
unfolding percent_of
percent_of-IsNearest score max_score h =
    let q = score * 100 / max_score in
    let r = score * 100 % max_score in
    let whole = div_any (score * 100) max_score in
    let small : r < max_score = mod-lt (score * 100) h in
    let up = up-IsNearest (score * 100) max_score q r whole in
    let down = down-IsNearest (score * 100) max_score q r whole in
    elim (Bool-cases (ltb (2 * r) max_score)) [
      | inl below ↦ rw below (down (ground arith))
      | inr above ↦ rw above (elim (Bool-cases (ltb max_score (2 * r))) [
        | inl over ↦ rw over (up (ground arith) small)
        | inr half ↦ rw half (elim (Bool-cases (leb (float_percent score max_score) q)) [
          | inl even ↦ rw even (down (ground arith))
          | inr odd ↦ rw odd (up (ground arith) small)
        ])
      ])
    ]

-- The percentage of a score that is at most the maximum, and that of the maximum.
pub percent_le : (n d k : ℕ) → 1 ≤ d → n ≤ d → IsNearest (n * 100) d k → k ≤ 100
percent_le n d k h le x = elim (Bool-cases (leb k 100)) [
  | inl small ↦ ground arith
  | inr large ↦
      let more : d * 101 ≤ d * k = mul-le-mul_left d (ground arith) in
      absurd (omega (arith, more, x.not_above))
]

pub percent_full : (d k : ℕ) → 1 ≤ d → IsNearest (d * 100) d k → 100 ≤ k
percent_full d k h x = elim (Bool-cases (leb 100 k)) [
  | inl large ↦ ground arith
  | inr small ↦
      let less : d * k ≤ d * 99 = mul-le-mul_left d (ground arith) in
      absurd (omega (arith, less, x.not_below))
]

enough_doublings : (fuel n d : ℕ) → 1 ≤ n → d ≤ n + fuel → d ≤ n * 2 ^ doublings fuel n d
unfolding doublings
enough_doublings zero n d some_n h = omega arith
enough_doublings (suc fuel) n d some_n h = elim (Bool-cases (leb d n)) [
  | inl reached ↦ rw reached (ground arith)
  | inr below ↦
      let later = enough_doublings fuel (2 * n) d (omega arith) (ground arith) in
      let k = doublings fuel (2 * n) d in
      let turned : 2 * n * 2 ^ k ≡ n * 2 ^ suc k =
        ap (λ x. x * 2 ^ k) (mul_comm 2 n)
        ∙ mul_assoc n 2 (2 ^ k)
        ∙ ap (λ x. n * x) (mul_comm 2 (2 ^ k) ∙ sym (pow.suc 2 k)) in
      rw below (subst (λ x. d ≤ x) turned later)
]

-- The maximum is fuel enough: the doubled score reaches it.
pub doublings-reach :
    (score max_score : ℕ) → 1 ≤ score → max_score ≤ score * 2 ^ doublings max_score score max_score
doublings-reach score max_score h = enough_doublings max_score score max_score h (omega arith)
