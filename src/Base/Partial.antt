-- ===== src/Base/Partial.antt =====
-- What a C call may do besides returning: stop at an `assert`, or run into an operation that C
-- leaves undefined (a shift by the width or more, a read or write outside an array).
use mathlib.Core.Path.{◌≡◌, refl}
use mathlib.Core.Bool.{Bool, true, false}

pub data Outcome {ℓ} (A : Type ℓ) : Type ℓ where
  done : A → Outcome A
  assert_failed : Outcome A
  undefined : Outcome A

infixl 5 ◌>>=◌ ◌>>◌
abbrev pub ◌>>=◌ {ℓ κ} : {A : Type ℓ} {B : Type κ} → Outcome A → (A → Outcome B) → Outcome B
done a >>= f = f a
assert_failed >>= f = assert_failed
undefined >>= f = undefined

abbrev pub ◌>>◌ {ℓ} : {B : Type ℓ} → Outcome (Unit {0}) → Outcome B → Outcome B
m >> k = m >>= λ _. k

-- `assert (test)`.
abbrev pub assert : Bool → Outcome (Unit {0})
assert true = done tt
assert false = assert_failed

-- Goes on only if the operation that follows is defined.
abbrev pub defined_if : Bool → Outcome (Unit {0})
defined_if true = done tt
defined_if false = undefined

-- The call returns, and what it returns satisfies the predicate.
abbrev pub Returns {ℓ} : {A : Type ℓ} → (A → Type 0) → Outcome A → Type 0
Returns P (done a) = P a
Returns P assert_failed = ⊥
Returns P undefined = ⊥

module _ {ℓ} {A : Type ℓ} where
  pub Returns-bind {κ} :
      {B : Type κ} (P : A → Type 0) (Q : B → Type 0) (m : Outcome A) (f : A → Outcome B)
      → Returns P m
      → ((a : A) → P a → Returns Q (f a))
      → Returns Q (m >>= f)
  Returns-bind P Q (done a) f h k = k a h
  Returns-bind P Q assert_failed f h k = absurd h
  Returns-bind P Q undefined f h k = absurd h

  pub Returns-value : (P : A → Type 0) (m : Outcome A) → Returns P m → (a : A) × (m ≡ done a) × P a
  Returns-value P (done a) h = (a, refl, h)
  Returns-value P assert_failed h = absurd h
  Returns-value P undefined h = absurd h

  pub Returns-mono :
      (P Q : A → Type 0) (m : Outcome A) → Returns P m → ((a : A) → P a → Q a) → Returns Q m
  Returns-mono P Q (done a) h k = k a h
  Returns-mono P Q assert_failed h k = h
  Returns-mono P Q undefined h k = h

  pub Returns-both :
      (P Q : A → Type 0) (m : Outcome A) → Returns P m → Returns Q m → Returns (λ a. P a × Q a) m
  Returns-both P Q (done a) h k = (h, k)
  Returns-both P Q assert_failed h k = h
  Returns-both P Q undefined h k = h
