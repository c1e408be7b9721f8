-- ===== src/Base/Results.antt =====
-- Code that may raise: a value or an error, with `do` blocks.
use mathlib.Core.Path.{◌≡◌, refl, sym, subst}
use mathlib.Core.Logic.{◌⊎◌, inl, inr}
use mathlib.Core.Bool.{Bool, true, false}
use mathlib.Core.Option.{Option, none, some}

pub data Result {ℓ} (E : Type 0) (A : Type ℓ) : Type ℓ where
  err : E → Result E A
  ok : A → Result E A

infixl 5 ◌>>=◌ ◌>>◌
abbrev pub ◌>>=◌ {ℓ κ} :
    {E : Type 0} {A : Type ℓ} {B : Type κ} → Result E A → (A → Result E B) → Result E B
err error >>= next = err error
ok value >>= next = next value

abbrev pub ◌>>◌ {ℓ} : {E : Type 0} {B : Type ℓ} → Result E (Unit {0}) → Result E B → Result E B
check >> rest = check >>= λ u. rest

-- `if b: raise e`
abbrev pub raise_if : {E : Type 0} → Bool → E → Result E (Unit {0})
raise_if true e = err e
raise_if false e = ok tt

-- `if o is None: raise e`
abbrev pub or_raise {ℓ} : {E : Type 0} {A : Type ℓ} → Option A → E → Result E A
or_raise none e = err e
or_raise (some a) e = ok a

module _ {ℓ κ} {E : Type 0} {A : Type ℓ} {B : Type κ} where
  -- A `do` block that returns ran each of its parts to a value.
  pub >>=-eq-ok :
      (first : Result E A) (then : A → Result E B) {final : B}
      → (first >>= then) ≡ ok final
      → (value : A) × (first ≡ ok value) × (then value ≡ ok final)
  >>=-eq-ok (err error) then returned = cc
  >>=-eq-ok (ok value) then returned = (value, refl, returned)

pub or_raise-eq-ok {ℓ} :
    {E : Type 0} {A : Type ℓ} (o : Option A) (e : E) {a : A} → or_raise o e ≡ ok a → o ≡ some a
or_raise-eq-ok none e h = cc
or_raise-eq-ok (some a) e h = cc

pub raise_if-eq-ok :
    {E : Type 0} (b : Bool) (e : E) {u : Unit {0}} → raise_if b e ≡ ok u → b ≡ false
raise_if-eq-ok true e h = cc
raise_if-eq-ok false e h = refl

pub Result-cases {ℓ} :
    {E : Type 0} {A : Type ℓ} (r : Result E A) → ((a : A) × (r ≡ ok a)) ⊎ ((e : E) × (r ≡ err e))
Result-cases (ok a) = inl (a, refl)
Result-cases (err e) = inr (e, refl)

-- A property of a `do` block that begins with a check.
pub raise_if-elim {ℓ κ} :
    {E : Type 0} {B : Type ℓ} (P : Result E B → Type κ) (b : Bool) (e : E) (rest : Result E B)
    → (b ≡ true → P (err e))
    → (b ≡ false → P rest)
    → P (raise_if b e >> rest)
raise_if-elim P true e rest failing passing = failing refl
raise_if-elim P false e rest failing passing = passing refl

pub ok-injective {ℓ} :
    {E : Type 0} {A : Type ℓ} (a b : A) {r : Result E A} → r ≡ ok a → r ≡ ok b → a ≡ b
ok-injective a b h k = cc

-- Two runs that return, and differ only in a first part that gives the same value, return the same.
pub >>=-same {ℓ κ} :
    {E : Type 0} {A : Type ℓ} {B : Type κ} (first second : Result E A) (then : A → Result E B)
    {a b : B}
    → ((x y : A) → first ≡ ok x → second ≡ ok y → x ≡ y)
    → (first >>= then) ≡ ok a
    → (second >>= then) ≡ ok b
    → a ≡ b
>>=-same (err e) second then same h k = cc
>>=-same (ok x) (err e) then same h k = cc
>>=-same (ok x) (ok y) then {a} {b} same h k =
    ok-injective a b h (subst (λ z. then z ≡ ok b) (sym (same x y refl refl)) k)
