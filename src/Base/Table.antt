-- ===== src/Base/Table.antt =====
-- A database table as a list of rows: `UPDATE … WHERE …`, and how it changes the number of the rows
-- that satisfy a test.
use Prim.Native.Nat.{ℕ, ◌+◌, ◌≤◌}
use mathlib.Core.Path.{◌≡◌, refl}
use mathlib.Core.Bool.{Bool, true, false, ◌&&◌}
use mathlib.Core.List.{List, [], ◌∷◌, ◌++◌}
use mathlib.Core.Option.{Option, none, some}
use native.Mathlib.Omega.{arith}
use mathlib.Core.Logic.{inl, inr}
use ai_knowledge_hub.Base.Tests.{Bool-cases, if◌then◌else◌}
use ai_knowledge_hub.Base.Lists.{count, find_first, any, all}

module _ {ℓ} {A : Type ℓ} where
  -- `UPDATE rows SET … WHERE test`; the rows that match are `count test rows`.
  abbrev pub update : (A → Bool) → (A → A) → List A → List A
  update test change [] = []
  update test change (x ∷ xs) = (if test x then change x else x) ∷ update test change xs

  -- The rows that satisfy `p` after an update are those before, less those changed, and those that
  -- the change makes satisfy it.
  pub count-update :
      (p test : A → Bool) (change : A → A) (xs : List A)
      → count p (update test change xs) + count (λ x. test x && p x) xs
        ≡ count p xs + count (λ x. test x && p (change x)) xs
  count-update p test change [] = refl
  count-update p test change (x ∷ xs) = ground (arith, count-update p test change xs)

  pub count-zero : (p : A → Bool) (xs : List A) → ((x : A) → p x ≡ false) → count p xs ≡ 0
  count-zero p [] h = refl
  count-zero p (x ∷ xs) h = ground (arith, h x, count-zero p xs h)

  pub count-le :
      (p q : A → Bool) (xs : List A) → ((x : A) → p x ≡ true → q x ≡ true) → count p xs ≤ count q xs
  count-le p q [] h = omega arith
  count-le p q (x ∷ xs) h = ground (arith, h x, count-le p q xs h)

  pub count-congr : (p q : A → Bool) (xs : List A) → ((x : A) → p x ≡ q x) → count p xs ≡ count q xs
  count-congr p q [] h = refl
  count-congr p q (x ∷ xs) h = ground (arith, h x, count-congr p q xs h)

  -- An update that changes no answer of a test changes no count of it.
  pub count-update_same :
      (p test : A → Bool) (change : A → A) (xs : List A)
      → ((x : A) → test x ≡ true → p (change x) ≡ p x)
      → count p (update test change xs) ≡ count p xs
  count-update_same p test change [] h = refl
  count-update_same p test change (x ∷ xs) h =
      ground (arith, h x, count-update_same p test change xs h)

  pub update-none :
      (test : A → Bool) (change : A → A) (xs : List A)
      → count test xs ≡ 0
      → update test change xs ≡ xs
  update-none test change [] h = refl
  update-none test change (x ∷ xs) h = ground (arith, update-none test change xs)

  -- A row that is found satisfies the test, and is counted.
  pub find-test :
      (p : A → Bool) (xs : List A) (x : A)
      → find_first p xs ≡ some x
      → (p x ≡ true) × (1 ≤ count p xs)
  find-test p [] x h = absurd (cc)
  find-test p (y ∷ xs) x h = ground (arith, find-test p xs x)

  pub find-count :
      (p q : A → Bool) (xs : List A) (x : A)
      → find_first p xs ≡ some x
      → q x ≡ true
      → 1 ≤ count (λ y. p y && q y) xs
  find-count p q [] x h k = absurd (cc)
  find-count p q (y ∷ xs) x h k = ground (arith, find-count p q xs x)

  -- A row that is counted is found.
  pub find-of_count :
      (p : A → Bool) (xs : List A) → 1 ≤ count p xs → (x : A) × (find_first p xs ≡ some x)
  find-of_count p [] h = absurd (omega arith)
  find-of_count p (x ∷ xs) h = elim (Bool-cases (p x)) [
    | inl e ↦ (x, rw e)
    | inr e ↦ let (y, q) = find-of_count p xs (ground arith) in (y, rw e q)
  ]

  pub any-update :
      (p test : A → Bool) (change : A → A) (xs : List A)
      → ((x : A) → test x ≡ true → p x ≡ true → p (change x) ≡ true)
      → any p xs ≡ true
      → any p (update test change xs) ≡ true
  any-update p test change [] h k = cc
  any-update p test change (x ∷ xs) h k = ground (arith, h x, any-update p test change xs h)

  -- A row that is changed is there afterwards.
  pub any-updated :
      (p test : A → Bool) (change : A → A) (xs : List A)
      → ((x : A) → test x ≡ true → p (change x) ≡ true)
      → 1 ≤ count test xs
      → any p (update test change xs) ≡ true
  any-updated p test change [] h k = absurd (omega arith)
  any-updated p test change (x ∷ xs) h k = ground (arith, h x, any-updated p test change xs h)

  pub any-append : (p : A → Bool) (xs ys : List A) → any p xs ≡ true → any p (xs ++ ys) ≡ true
  any-append p [] ys h = absurd (cc)
  any-append p (x ∷ xs) ys h = ground (arith, any-append p xs ys)

  pub all-update :
      (p q test : A → Bool) (change : A → A) (xs : List A)
      → ((x : A) → p x ≡ true → q x ≡ true)
      → ((x : A) → test x ≡ true → q (change x) ≡ true)
      → all p xs ≡ true
      → all q (update test change xs) ≡ true
  all-update p q test change [] h k r = refl
  all-update p q test change (x ∷ xs) h k r =
      ground (arith, h x, k x, all-update p q test change xs h k)

  pub all-implied :
      (p q : A → Bool) (xs : List A)
      → ((x : A) → p x ≡ true → q x ≡ true)
      → all p xs ≡ true
      → all q xs ≡ true
  all-implied p q [] h r = refl
  all-implied p q (x ∷ xs) h r = ground (arith, h x, all-implied p q xs h)

  pub all-append :
      (p : A → Bool) (xs ys : List A) → all p xs ≡ true → all p ys ≡ true → all p (xs ++ ys) ≡ true
  all-append p [] ys h k = k
  all-append p (x ∷ xs) ys h k = ground (arith, all-append p xs ys)

  -- A number of a row that is found, and 0 for none.
  abbrev pub number : (A → ℕ) → Option A → ℕ
  number f none = 0
  number f (some x) = f x

  pub number_mono : (f g : A → ℕ) (o : Option A) → ((x : A) → f x ≤ g x) → number f o ≤ number g o
  number_mono f g none h = omega arith
  number_mono f g (some x) h = h x

  pub number-update :
      (p test : A → Bool) (change : A → A) (f g : A → ℕ) (xs : List A)
      → ((x : A) → p (change x) ≡ p x)
      → ((x : A) → f x ≤ g x)
      → ((x : A) → test x ≡ true → f x ≤ g (change x))
      → number f (find_first p xs) ≤ number g (find_first p (update test change xs))
  number-update p test change f g [] h k l = omega arith
  number-update p test change f g (x ∷ xs) h k l =
      ground (arith, h x, k x, l x, number-update p test change f g xs h k l)

  pub number-append :
      (p : A → Bool) (f : A → ℕ) (xs ys : List A)
      → number f (find_first p xs) ≤ number f (find_first p (xs ++ ys))
  number-append p f [] ys = omega arith
  number-append p f (x ∷ xs) ys = ground (arith, number-append p f xs ys)

  -- What holds of a row that is found, and of every row.
  pub find-any :
      (p q : A → Bool) (xs : List A) (x : A)
      → find_first p xs ≡ some x
      → q x ≡ true
      → any q xs ≡ true
  find-any p q [] x h k = absurd (cc)
  find-any p q (y ∷ xs) x h k = ground (arith, find-any p q xs x)

  pub find-all :
      (p q : A → Bool) (xs : List A) (x : A)
      → find_first p xs ≡ some x
      → all q xs ≡ true
      → q x ≡ true
  find-all p q [] x h k = absurd (cc)
  find-all p q (y ∷ xs) x h k = ground (arith, find-all p q xs x)
