-- ===== src/Prelude/Counts.antt =====
-- How the number of rows that pass a test moves when rows are changed, written, removed or inserted.
use Prim.Native.Nat.{ℕ, ◌+◌, ◌≤◌}
use mathlib.Core.Path.{◌≡◌, refl, sym, ap, ◌∙◌}
use mathlib.Core.Logic.{inl, inr}
use mathlib.Core.Bool.{Bool, true, false, not, ◌&&◌}
use mathlib.Core.Option.{some}
use mathlib.Core.List.{List, [], ◌∷◌, ◌++◌, map}
use native.Mathlib.Omega.{arith}
use smenka_back.Prelude.Tests.{◌==◌, if◌then◌else◌, Bool-cases}
use smenka_back.Prelude.Lists.{find, update, select, count, count-append}

pub leq_trans : {a b c : ℕ} → a ≤ b → b ≤ c → a ≤ c
leq_trans h k = omega (arith, h, k)

module _ {ℓ} {A : Type ℓ} where
  pub some-injective : (x a : A) → some x ≡ some a → x ≡ a
  some-injective x a e = cc

  pub count-map_le :
      (q : A → Bool) (f : A → A) (xs : List A)
      → ((s : A) → q (f s) ≡ true → q s ≡ true)
      → count q (map f xs) ≤ count q xs
  count-map_le q f [] h = omega arith
  count-map_le q f (s ∷ xs) h = ground (arith, h s, count-map_le q f xs h)

  pub count_mono :
      (p q : A → Bool) (xs : List A) → ((s : A) → p s ≡ true → q s ≡ true) → count p xs ≤ count q xs
  count_mono p q [] h = omega arith
  count_mono p q (s ∷ xs) h = ground (arith, h s, count_mono p q xs h)

  pub select-count : (q : A → Bool) (xs : List A) → select q xs ≡ [] → count q xs ≡ 0
  select-count q [] e = refl
  select-count q (x ∷ xs) e = elim (Bool-cases (q x)) [
    | inl hit ↦ let more : x ∷ select q xs ≡ [] = rw hit at e in cc
    | inr miss ↦
        let rest : select q xs ≡ [] = rw miss at e in ground (arith, select-count q xs rest)
  ]

  pub count-select_le : (q f : A → Bool) (xs : List A) → count q (select f xs) ≤ count q xs
  count-select_le q f [] = omega arith
  count-select_le q f (x ∷ xs) = ground (arith, count-select_le q f xs)

  pub count-select_all :
      (q f : A → Bool) (xs : List A)
      → ((s : A) → q s ≡ true → f s ≡ true)
      → count q (select f xs) ≡ count q xs
  count-select_all q f [] h = refl
  count-select_all q f (x ∷ xs) h = ground (arith, h x, count-select_all q f xs h)

  pub count-select_none :
      (q f : A → Bool) (xs : List A)
      → ((s : A) → q s ≡ true → f s ≡ false)
      → count q (select f xs) ≡ 0
  count-select_none q f [] h = refl
  count-select_none q f (x ∷ xs) h = ground (arith, h x, count-select_none q f xs h)

  pub insert-one :
      (q : A → Bool) (s : A) (xs : List A)
      → count q xs ≤ 1
      → (q s ≡ true → count q xs ≡ 0)
      → count q (xs ++ s ∷ []) ≤ 1
  insert-one q s xs one absent = ground (arith, count-append q xs (s ∷ []))

module _ {ℓ} {A : Type ℓ} (key : A → ℕ) where
  pub update_absent :
      (q : A → Bool) (a : A) (xs : List A)
      → count (λ r. key r == key a) xs ≡ 0
      → count q (update (λ r. key r == key a) (λ _. a) xs) ≡ count q xs
  update_absent q a [] h = refl
  update_absent q a (x ∷ xs) h = ground (arith, update_absent q a xs)

  pub found-count :
      (f : A → Bool) (s : A) (xs : List A) → find f xs ≡ some s → 1 ≤ count (λ r. key r == key s) xs
  found-count f s [] e = cc
  found-count f s (x ∷ xs) e = elim (Bool-cases (f x)) [
    | inl hit ↦
        let found : some x ≡ some s = rw hit at e in
        let same : key x ≡ key s = ap key (some-injective x s found) in ground arith
    | inr miss ↦
        let later : find f xs ≡ some s = rw miss at e in ground (arith, found-count f s xs later)
  ]

  -- A write of a found row whose key is unique adds no row to a count.
  pub count-update_le :
      (q f : A → Bool) (s a : A) (xs : List A)
      → find f xs ≡ some s
      → key a ≡ key s
      → (q a ≡ true → q s ≡ true)
      → count (λ r. key r == key a) xs ≤ 1
      → count q (update (λ r. key r == key a) (λ _. a) xs) ≤ count q xs
  count-update_le q f s a [] e same h one = cc
  count-update_le q f s a (x ∷ xs) e same h one = elim (Bool-cases (f x)) [
    | inl hit ↦
        let found : some x ≡ some s = rw hit at e in
        let row : x ≡ s = some-injective x s found in
        let own : key x ≡ key a = ap key row ∙ sym same in
        let keep : q a ≡ true → q x ≡ true = λ t. ap q row ∙ h t in
        ground (arith, update_absent q a xs)
    | inr miss ↦
        let later : find f xs ≡ some s = rw miss at e in
        let there : 1 ≤ count (λ r. key r == key a) xs = rw same (found-count f s xs later) in
        ground (arith, count-update_le q f s a xs later same h)
  ]

  -- A write of a found row whose key is unique takes one row out of a count and puts one in.
  pub count-update :
      (q f : A → Bool) (s a : A) (xs : List A)
      → find f xs ≡ some s
      → key a ≡ key s
      → count (λ r. key r == key a) xs ≤ 1
      → count q (update (λ r. key r == key a) (λ _. a) xs) + (if q s then 1 else 0)
        ≡ count q xs + (if q a then 1 else 0)
  count-update q f s a [] e same one = cc
  count-update q f s a (x ∷ xs) e same one = elim (Bool-cases (f x)) [
    | inl hit ↦
        let found : some x ≡ some s = rw hit at e in
        let row : x ≡ s = some-injective x s found in
        let own : key x ≡ key a = ap key row ∙ sym same in
        let as_s : q x ≡ q s = ap q row in ground (arith, update_absent q a xs)
    | inr miss ↦
        let later : find f xs ≡ some s = rw miss at e in
        let there : 1 ≤ count (λ r. key r == key a) xs = rw same (found-count f s xs later) in
        ground (arith, count-update q f s a xs later same)
  ]

  -- A write leaves the other rows, and one row for each that had the key.
  pub count-update_split :
      (q : A → Bool) (a : A) (xs : List A)
      → count q (update (λ r. key r == key a) (λ _. a) xs)
        ≤ count (λ r. q r && not (key r == key a)) xs
          + (if q a then count (λ r. key r == key a) xs else 0)
  count-update_split q a [] = ground arith
  count-update_split q a (x ∷ xs) = ground (arith, count-update_split q a xs)

  -- A write changes no key.
  pub update-keys :
      (k : ℕ) (a : A) (xs : List A)
      → count (λ r. key r == k) (update (λ r. key r == key a) (λ _. a) xs)
        ≡ count (λ r. key r == k) xs
  update-keys k a [] = refl
  update-keys k a (x ∷ xs) = ground (arith, update-keys k a xs)
