-- ===== src/Prelude/Rows.antt =====
-- Tables as lists of rows with a key: reading a row after a write.
use Prim.Native.Nat.{ℕ, ◌≤◌}
use mathlib.Core.Path.{◌≡◌, refl, subst}
use mathlib.Core.Logic.{◌≢◌, inl, inr}
use mathlib.Core.Bool.{Bool, true, false}
use mathlib.Core.List.{List, [], ◌∷◌, ◌++◌}
use mathlib.Core.Option.{some}
use native.Mathlib.Omega.{arith}
use smenka_back.Prelude.Tests.{◌==◌, if◌then◌else◌, Bool-cases}
use smenka_back.Prelude.Lists.{find, update, All, select, count}

module _ {ℓ} {A : Type ℓ} (key : A → ℕ) where
  -- A written row is read back under its key, if a row with that key was there.
  pub find-update_self :
      (a b : A) (xs : List A)
      → find (λ r. key r == key a) xs ≡ some b
      → find (λ r. key r == key a) (update (λ r. key r == key a) (λ _. a) xs) ≡ some a
  find-update_self a b [] h = cc
  find-update_self a b (x ∷ xs) h = ground (arith, find-update_self a b xs)

  -- Rows under other keys are not touched.
  pub find-update_ne :
      (a : A) (k : ℕ) (xs : List A)
      → k ≢ key a
      → find (λ r. key r == k) (update (λ r. key r == key a) (λ _. a) xs)
        ≡ find (λ r. key r == k) xs
  find-update_ne a k [] h = refl
  find-update_ne a k (x ∷ xs) h = ground (arith, find-update_ne a k xs h)

  -- A row that is found has the key that was asked for.
  pub find-key : (k : ℕ) (b : A) (xs : List A) → find (λ r. key r == k) xs ≡ some b → key b ≡ k
  find-key k b [] h = cc
  find-key k b (x ∷ xs) h = ground (arith, find-key k b xs)

module _ {ℓ κ} {A : Type ℓ} (P : A → Type κ) where
  -- What holds of every row holds of a row that is found.
  pub All-find : (p : A → Bool) (b : A) (xs : List A) → All P xs → find p xs ≡ some b → P b
  All-find p b [] h e = cc
  All-find p b (x ∷ xs) h e = elim (Bool-cases (p x)) [
    | inl hit ↦
        let here : some x ≡ some b = rw hit at e in let same : x ≡ b = cc here in subst P same h.0
    | inr miss ↦ let later : find p xs ≡ some b = rw miss at e in All-find p b xs h.1 later
  ]

  one-update : (b : Bool) (a x : A) → P x → P a → P (if b then a else x)
  one-update true a x hx ha = ha
  one-update false a x hx ha = hx

  -- It is kept by a write of a row that has it too.
  pub All-update :
      (p : A → Bool) (a : A) (xs : List A) → All P xs → P a → All P (update p (λ _. a) xs)
  All-update p a [] h ha = tt
  All-update p a (x ∷ xs) h ha = (one-update (p x) a x h.0 ha, All-update p a xs h.1 ha)

-- A row of a table.
pub data In {ℓ} {A : Type ℓ} (a : A) : List A → Type ℓ where
  here : (rows : List A) → In a (a ∷ rows)
  there : (b : A) {rows : List A} → In a rows → In a (b ∷ rows)

module _ {ℓ} {A : Type ℓ} where
  pub find-In : (p : A → Bool) (a : A) (rows : List A) → find p rows ≡ some a → In a rows
  find-In p a [] e = cc
  find-In p a (b ∷ rows) e = elim (Bool-cases (p b)) [
    | inl hit ↦
        let found : some b ≡ some a = rw hit at e in
        let same : b ≡ a = cc found in subst (λ x. In x (b ∷ rows)) same (here rows)
    | inr miss ↦ let later : find p rows ≡ some a = rw miss at e in there b (find-In p a rows later)
  ]

  -- A row that is found passes the test.
  pub find-passes : (q : A → Bool) (a : A) (rows : List A) → find q rows ≡ some a → q a ≡ true
  find-passes q a [] e = cc
  find-passes q a (b ∷ rows) e = elim (Bool-cases (q b)) [
    | inl hit ↦
        let found : some b ≡ some a = rw hit at e in
        let same : b ≡ a = cc found in subst (λ x. q x ≡ true) same hit
    | inr miss ↦ let later : find q rows ≡ some a = rw miss at e in find-passes q a rows later
  ]

  pub All-In {κ} : (P : A → Type κ) {a : A} {rows : List A} → All P rows → In a rows → P a
  All-In P h (here rows) = h.0
  All-In P h (there b i) = All-In P h.1 i

module _ {ℓ} {A : Type ℓ} where
  pub In-append : {a : A} {xs : List A} (ys : List A) → In a xs → In a (xs ++ ys)
  In-append ys (here rows) = here (rows ++ ys)
  In-append ys (there b i) = there b (In-append ys i)

  pub In-select : (f : A → Bool) {a : A} {xs : List A} → In a xs → f a ≡ true → In a (select f xs)
  In-select f {a} (here rows) h = rw h (here (select f rows))
  In-select f {a} (there b i) h = elim (Bool-cases (f b)) [
    | inl hit ↦ rw hit (there b (In-select f i h))
    | inr miss ↦ rw miss (In-select f i h)
  ]

  -- A write of other rows.
  pub In-update :
      (f : A → Bool) (c : A) {a : A} {xs : List A}
      → In a xs
      → f a ≡ false
      → In a (update f (λ _. c) xs)
  In-update f c (here rows) h = rw h (here (update f (λ _. c) rows))
  In-update f c (there b i) h = there (if f b then c else b) (In-update f c i h)

  kept_In :
      (f : A → Bool) {a x : A} {xs ys : List A}
      → f x ≡ true
      → (In a ys → In a xs × (f a ≡ true))
      → In a (x ∷ ys)
      → In a (x ∷ xs) × (f a ≡ true)
  kept_In f {xs} hit rest (here ys) = (here xs, hit)
  kept_In f {x} hit rest (there b i) = (there x (rest i).0, (rest i).1)

  pub select-In : (f : A → Bool) {a : A} (xs : List A) → In a (select f xs) → In a xs × (f a ≡ true)
  select-In f [] i = elim i [ ]
  select-In f (x ∷ xs) i = elim (Bool-cases (f x)) [
    | inl hit ↦ let j : In _ (x ∷ select f xs) = rw hit at i in kept_In f hit (select-In f xs) j
    | inr miss ↦
        let j : In _ (select f xs) = rw miss at i in let k = select-In f xs j in (there x k.0, k.1)
  ]

module _ {ℓ} {A : Type ℓ} (key : A → ℕ) where
  pub In-count : {a : A} {xs : List A} → In a xs → 1 ≤ count (λ r. key r == key a) xs
  In-count {a} (here rows) = ground arith
  In-count {a} (there b i) = ground (arith, In-count i)

  -- A unique key tells rows apart.
  pub same_row :
      {a b : A} {xs : List A}
      → In a xs
      → In b xs
      → key a ≡ key b
      → count (λ r. key r == key a) xs ≤ 1
      → a ≡ b
  same_row (here rows) (here rest) e one = refl
  same_row (here rows) (there b j) e one = ground (arith, In-count j)
  same_row (there b i) (here rows) e one = ground (arith, In-count i)
  same_row (there b i) (there c j) e one = same_row i j e (ground arith)
