-- ===== src/Base/Lists.antt =====
-- Lists measured and indexed by native numbers, under the library's names.
use Prim.Native.Nat.{ℕ, zero, suc, ◌+◌, ◌<◌, ◌≤◌}
use mathlib.Core.Path.{◌≡◌, refl, ap}
use mathlib.Core.List.{List, [], ◌∷◌, ◌++◌, map}
use mathlib.Core.Option.{Option, none, some}
use native.Mathlib.Omega.{arith}

module _ {ℓ} {A : Type ℓ} where
  abbrev pub length : List A → ℕ
  length [] = 0
  length (x ∷ xs) = suc (length xs)

  abbrev pub get_elem? : List A → ℕ → Option A
  get_elem? [] i = none
  get_elem? (x ∷ xs) zero = some x
  get_elem? (x ∷ xs) (suc i) = get_elem? xs i

  -- A write out of bounds changes nothing.
  abbrev pub set : List A → ℕ → A → List A
  set [] i v = []
  set (x ∷ xs) zero v = v ∷ xs
  set (x ∷ xs) (suc i) v = x ∷ set xs i v

  abbrev pub take : ℕ → List A → List A
  take zero xs = []
  take (suc n) [] = []
  take (suc n) (x ∷ xs) = x ∷ take n xs

  abbrev pub drop : ℕ → List A → List A
  drop zero xs = xs
  drop (suc n) [] = []
  drop (suc n) (x ∷ xs) = drop n xs

  abbrev pub replicate : ℕ → A → List A
  replicate zero a = []
  replicate (suc n) a = a ∷ replicate n a

module _ {ℓ} {A : Type ℓ} where
  pub length-append : (xs ys : List A) → length (xs ++ ys) ≡ length xs + length ys
  length-append [] ys = omega arith
  length-append (x ∷ xs) ys = omega (arith, length-append xs ys)

  pub length-map {κ} : {B : Type κ} (f : A → B) (xs : List A) → length (map f xs) ≡ length xs
  length-map f [] = refl
  length-map f (x ∷ xs) = ap suc (length-map f xs)

  pub length-set : (xs : List A) (i : ℕ) (v : A) → length (set xs i v) ≡ length xs
  length-set [] i v = refl
  length-set (x ∷ xs) zero v = refl
  length-set (x ∷ xs) (suc i) v = ap suc (length-set xs i v)

  pub get_elem?-lt : (xs : List A) (i : ℕ) → i < length xs → (x : A) × (get_elem? xs i ≡ some x)
  get_elem?-lt [] i h = absurd (omega arith)
  get_elem?-lt (x ∷ xs) zero h = (x, refl)
  get_elem?-lt (x ∷ xs) (suc i) h = get_elem?-lt xs i (omega arith)

  pub take_length-append : (xs ys : List A) → take (length xs) (xs ++ ys) ≡ xs
  take_length-append [] ys = refl
  take_length-append (x ∷ xs) ys = ap (◌∷◌ x) (take_length-append xs ys)

  pub drop_length-append : (xs ys : List A) → drop (length xs) (xs ++ ys) ≡ ys
  drop_length-append [] ys = refl
  drop_length-append (x ∷ xs) ys = drop_length-append xs ys

-- Each element of a list has the property P.
pub data Every {A : Type 0} (P : A → Type 0) : List A → Type 0 where
  none_left : Every P []
  and_rest : {x : A} {xs : List A} → P x → Every P xs → Every P (x ∷ xs)

pub Every-append :
    {A : Type 0} (P : A → Type 0) (xs : List A) (x : A)
    → Every P xs
    → P x
    → Every P (xs ++ (x ∷ []))
Every-append P [] x h p = and_rest p none_left
Every-append P (y ∷ ys) x (and_rest q h) p = and_rest q (Every-append P ys x h p)

pub Every-map :
    {A : Type 0} (P Q : A → Type 0) (xs : List A) → Every P xs → ((x : A) → P x → Q x) → Every Q xs
Every-map P Q [] h k = none_left
Every-map P Q (x ∷ xs) (and_rest p h) k = and_rest (k x p) (Every-map P Q xs h k)

pub take-all : {A : Type 0} (xs : List A) (n : ℕ) → length xs ≤ n → take n xs ≡ xs
take-all [] zero h = refl
take-all [] (suc n) h = refl
take-all (x ∷ xs) zero h = absurd (omega arith)
take-all (x ∷ xs) (suc n) h = ap (λ l. x ∷ l) (take-all xs n (omega arith))
