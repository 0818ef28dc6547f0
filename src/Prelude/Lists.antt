-- ===== src/Prelude/Lists.antt =====
-- Lists measured by native numbers, and predicates over their entries.
use Prim.Native.Nat.{ℕ, zero, suc, ◌+◌}
use mathlib.Core.Path.{◌≡◌, refl, ap}
use mathlib.Core.Bool.{Bool, true, false, ◌||◌}
use mathlib.Core.List.{List, [], ◌∷◌, ◌++◌, map}
use mathlib.Core.Option.{Option, none, some}
use native.Mathlib.Omega.{arith}
use tensorrt_rs.Prelude.Tests.{if◌then◌else◌}

module _ {ℓ} {A : Type ℓ} where
  abbrev pub length : List A → ℕ
  length [] = 0
  length (x ∷ xs) = suc (length xs)

  abbrev pub get_elem? : List A → ℕ → Option A
  get_elem? [] i = none
  get_elem? (x ∷ xs) zero = some x
  get_elem? (x ∷ xs) (suc i) = get_elem? xs i

  abbrev pub take : ℕ → List A → List A
  take zero xs = []
  take (suc n) [] = []
  take (suc n) (x ∷ xs) = x ∷ take n xs

  abbrev pub drop : ℕ → List A → List A
  drop zero xs = xs
  drop (suc n) [] = []
  drop (suc n) (x ∷ xs) = drop n xs

  abbrev pub replicate : ℕ → A → List A
  replicate zero a = []
  replicate (suc n) a = a ∷ replicate n a

  -- `iter().any(p)`
  abbrev pub any : (A → Bool) → List A → Bool
  any p [] = false
  any p (x ∷ xs) = p x || any p xs

  -- `iter().find(p)`
  abbrev pub find : (A → Bool) → List A → Option A
  find p [] = none
  find p (x ∷ xs) = if p x then some x else find p xs

  -- `iter().filter(p)`
  abbrev pub select : (A → Bool) → List A → List A
  select p [] = []
  select p (x ∷ xs) = if p x then x ∷ select p xs else select p xs

  abbrev pub is_empty : List A → Bool
  is_empty [] = true
  is_empty (x ∷ xs) = false

  abbrev pub All {κ} : (A → Type κ) → List A → Type κ
  All P [] = Unit
  All P (x ∷ xs) = P x × All P xs

  pub length-append : (xs ys : List A) → length (xs ++ ys) ≡ length xs + length ys
  length-append [] ys = omega arith
  length-append (x ∷ xs) ys = omega (arith, length-append xs ys)

  pub length-replicate : (n : ℕ) (a : A) → length (replicate n a) ≡ n
  length-replicate zero a = refl
  length-replicate (suc n) a = ap suc (length-replicate n a)

  pub take-append : (xs ys : List A) → take (length xs) (xs ++ ys) ≡ xs
  take-append [] ys = refl
  take-append (x ∷ xs) ys = ap (◌∷◌ x) (take-append xs ys)

module _ {ℓ κ} {A : Type ℓ} {B : Type κ} where
  pub length-map : (f : A → B) (xs : List A) → length (map f xs) ≡ length xs
  length-map f [] = refl
  length-map f (x ∷ xs) = ap suc (length-map f xs)

  -- Two lists in step: as long as one another, and `P` holds at each position.
  abbrev pub AllPairs : (A → B → Type 0) → List A → List B → Type 0
  AllPairs P [] [] = Unit
  AllPairs P [] (y ∷ ys) = ⊥
  AllPairs P (x ∷ xs) [] = ⊥
  AllPairs P (x ∷ xs) (y ∷ ys) = P x y × AllPairs P xs ys

  pub AllPairs-length :
      (P : A → B → Type 0) (xs : List A) (ys : List B) → AllPairs P xs ys → length xs ≡ length ys
  AllPairs-length P [] [] h = refl
  AllPairs-length P [] (y ∷ ys) h = absurd h
  AllPairs-length P (x ∷ xs) [] h = absurd h
  AllPairs-length P (x ∷ xs) (y ∷ ys) h = ap suc (AllPairs-length P xs ys h.1)
