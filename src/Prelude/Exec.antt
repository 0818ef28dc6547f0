-- ===== src/Prelude/Exec.antt =====
-- Calls that change a state and may return early with `?`. What was written before an error stays
-- written, so the state comes back beside the error too.
use mathlib.Core.Path.{◌≡◌}
use mathlib.Core.Bool.{Bool, true, false}
use native.Mathlib.Omega.{arith}
use mathlib.Core.List.{List, [], ◌∷◌}
use tensorrt_rs.Prelude.Results.{Result, ok, err}

abbrev pub Exec : Type 0 → Type 0 → Type 0 → Type 0
Exec S E A = S → Result E A × S

infixl 5 ◌>>=◌ ◌>>◌
abbrev pub continue : {S E A B : Type 0} → Result E A → (A → Exec S E B) → Exec S E B
continue (ok a) f s = f a s
continue (err e) f s = (err e, s)

abbrev pub ◌>>=◌ : {S E A B : Type 0} → Exec S E A → (A → Exec S E B) → Exec S E B
◌>>=◌ m f s = let (r, s') = m s in continue r f s'

abbrev pub ◌>>◌ : {S E B : Type 0} → Exec S E (Unit {0}) → Exec S E B → Exec S E B
m >> k = m >>= λ _. k

module _ {S E A : Type 0} where
  abbrev pub pure : A → Exec S E A
  pure a s = (ok a, s)

  abbrev pub fail : E → Exec S E A
  fail e s = (err e, s)

  -- A call that reads no state.
  abbrev pub lift : Result E A → Exec S E A
  lift r s = (r, s)

  abbrev pub gets : (S → A) → Exec S E A
  gets f s = (ok (f s), s)

abbrev pub modify : {S E : Type 0} → (S → S) → Exec S E (Unit {0})
modify f s = (ok tt, f s)

-- `if test { return Err(e) }`
abbrev pub reject : {S E : Type 0} → Bool → E → Exec S E (Unit {0})
reject true e s = (err e, s)
reject false e s = (ok tt, s)

module _ {S E A B : Type 0} where
  -- `iter().map(f).collect::<Result<Vec<_>>>()`
  unfoldable pub try_map : (A → Exec S E B) → List A → Exec S E (List B)
  try_map f [] = pure []
  try_map f (x ∷ xs) = f x >>= λ y. try_map f xs >>= λ ys. pure (y ∷ ys)

-- `for x in xs { f(x)?; }`
unfoldable pub for_each :
    {S E A : Type 0} → (A → Exec S E (Unit {0})) → List A → Exec S E (Unit {0})
for_each f [] = pure tt
for_each f (x ∷ xs) = f x >> for_each f xs

-- A sequence that succeeds has made both of its calls, the second where the first left off.
pub >>-ok :
    {S E B : Type 0} (m : Exec S E (Unit {0})) (k : Exec S E B) (s : S) {b : B}
    → ((m >> k) s).0 ≡ ok b
    → ((m s).0 ≡ ok tt) × ((m >> k) s ≡ k (m s).1) × ((k (m s).1).0 ≡ ok b)
>>-ok m k s h = ground arith

pub >>-err :
    {S E B : Type 0} (m : Exec S E (Unit {0})) (k : Exec S E B) (s : S) {e : E}
    → (m s).0 ≡ err e
    → (m >> k) s ≡ (err e, (m s).1)
>>-err m k s h = ground arith
