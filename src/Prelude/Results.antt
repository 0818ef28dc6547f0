-- ===== src/Prelude/Results.antt =====
-- `Result<T, E>`, its `?`, and `collect` over an iterator of results.
use mathlib.Core.Path.{◌≡◌, refl, subst}
use mathlib.Core.Logic.{◌⊎◌, ◌↔◌, inl, inr}
use mathlib.Core.Bool.{Bool, true, false, not}
use mathlib.Core.List.{List, [], ◌∷◌}
use mathlib.Core.Option.{Option, none, some}
use tensorrt_rs.Prelude.Lists.{All, AllPairs}

pub data Result (E A : Type 0) : Type 0 where
  ok : A → Result E A
  err : E → Result E A

infixl 5 ◌>>=◌ ◌>>◌
abbrev pub ◌>>=◌ : {E A B : Type 0} → Result E A → (A → Result E B) → Result E B
err failure >>= next = err failure
ok value >>= next = next value

abbrev pub ◌>>◌ : {E B : Type 0} → Result E (Unit {0}) → Result E B → Result E B
first >> second = first >>= λ _. second

-- A chain that succeeds has a first part that does.
pub >>=-eq-ok :
    {E A B : Type 0} (first : Result E A) (next : A → Result E B) {result : B}
    → (first >>= next) ≡ ok result
    → (value : A) × (first ≡ ok value) × (next value ≡ ok result)
>>=-eq-ok (err failure) next h = cc
>>=-eq-ok (ok value) next h = (value, refl, h)

pub >>-eq-ok :
    {E B : Type 0} (first : Result E (Unit {0})) (second : Result E B) {result : B}
    → (first >> second) ≡ ok result
    → (first ≡ ok tt) × (second ≡ ok result)
>>-eq-ok (err failure) second h = cc
>>-eq-ok (ok value) second h = (refl, h)

pub ok_injected : {E A : Type 0} {a b : A} → ◌≡◌ {A = Result E A} (ok a) (ok b) → a ≡ b
ok_injected h = cc

module _ {E A B : Type 0} where
  -- `iter().map(f).collect::<Result<Vec<_>>>()`: the first error ends the walk.
  unfoldable pub try_map : (A → Result E B) → List A → Result E (List B)
  try_map f [] = ok []
  try_map f (x ∷ xs) = f x >>= λ y. try_map f xs >>= λ ys. ok (y ∷ ys)

  -- A successful walk has mapped every entry, in order.
  pub try_map-AllPairs :
      (f : A → Result E B) (xs : List A) (ys : List B)
      → try_map f xs ≡ ok ys
      → AllPairs (λ x y. f x ≡ ok y) xs ys
  unfolding try_map
  try_map-AllPairs f [] [] h = tt
  try_map-AllPairs f [] (y ∷ ys) h = cc
  try_map-AllPairs f (x ∷ xs) ys h =
      let (y, e, h') = >>=-eq-ok (f x) (λ y. try_map f xs >>= λ ys. ok (y ∷ ys)) h in
      let (zs, e', h'') = >>=-eq-ok (try_map f xs) (λ zs. ok (y ∷ zs)) h' in
      subst (λ v. AllPairs (λ x y. f x ≡ ok y) (x ∷ xs) v) (ok_injected h'')
        (e, try_map-AllPairs f xs zs e')

module _ {E A : Type 0} where
  -- `option.ok_or(e)`
  abbrev pub ok_or : Option A → E → Result E A
  ok_or none e = err e
  ok_or (some a) e = ok a

  abbrev pub IsOk : Result E A → Type 0
  IsOk (ok a) = Unit
  IsOk (err e) = ⊥

  pub Result-cases : (r : Result E A) → ((a : A) × (r ≡ ok a)) ⊎ ((e : E) × (r ≡ err e))
  Result-cases (ok a) = inl (a, refl)
  Result-cases (err e) = inr (e, refl)

-- `if test { return Err(e) }`
abbrev pub reject : {E : Type 0} → Bool → E → Result E (Unit {0})
reject true e = err e
reject false e = ok tt

-- `for x in xs { f(x)?; }`
unfoldable pub for_each : {E A : Type 0} → (A → Result E (Unit {0})) → List A → Result E (Unit {0})
for_each f [] = ok tt
for_each f (x ∷ xs) = f x >> for_each f xs

pub >>-ok :
    {E B : Type 0} (first : Result E (Unit {0})) (second : Result E B) {result : B}
    → first ≡ ok tt
    → second ≡ ok result
    → (first >> second) ≡ ok result
>>-ok (ok tt) second h k = k
>>-ok (err failure) second h k = cc

pub reject-not_iff : {E : Type 0} (b : Bool) (e : E) → (reject (not b) e ≡ ok tt) ↔ (b ≡ true)
reject-not_iff true e = (λ _. refl, λ _. refl)
reject-not_iff false e = (λ h. cc, λ h. cc)

-- The loop ends well when each round does.
pub for_each_iff :
    {E A : Type 0} (f : A → Result E (Unit {0})) (xs : List A)
    → (for_each f xs ≡ ok tt) ↔ All (λ x. f x ≡ ok tt) xs
unfolding for_each
for_each_iff f [] = (λ _. tt, λ _. refl)
for_each_iff f (x ∷ xs) = (
  λ h. let (a, b) = >>-eq-ok (f x) (for_each f xs) h in (a, (for_each_iff f xs).0 b),
  λ h. >>-ok (f x) (for_each f xs) h.0 ((for_each_iff f xs).1 h.1),
)
