-- ===== src/Prelude/Tests.antt =====
-- Boolean tests, the conditional, derived equality (`PartialEq`) and the signed integers.
use Prim.Native.Nat.{ℕ, compare, Ordering}
use Prim.Native.String.{String}
use mathlib.Core.Path.{◌≡◌, refl}
use mathlib.Core.Logic.{◌↔◌, ◌⊎◌, inl, inr}
use mathlib.Core.Bool.{Bool, true, false, false≢true}
use mathlib.Core.Option.{Option, none, some}
use native.Mathlib.Decide.{ℕ_discrete}
use text.Mathlib.Text.{◌==◌ as str_eq}
use text.Mathlib.TextEquality.{eq_iff}

abbrev pub ltb : ℕ → ℕ → Bool
ltb a b = elim (compare a b) [ Ordering.lt ↦ true | _ ↦ false ]

abbrev pub leb : ℕ → ℕ → Bool
leb a b = elim (compare a b) [ Ordering.gt ↦ false | _ ↦ true ]

infix 1 if◌then◌else◌
abbrev pub if◌then◌else◌ {ℓ} : {A : Type ℓ} → Bool → A → A → A
if true then x else y = x
if false then x else y = y

pub Bool-cases : (b : Bool) → (b ≡ true) ⊎ (b ≡ false)
Bool-cases true = inl refl
Bool-cases false = inr refl

pub Option-cases {ℓ} : {A : Type ℓ} (o : Option A) → (o ≡ none) ⊎ ((a : A) × (o ≡ some a))
Option-cases none = inl refl
Option-cases (some a) = inr (a, refl)

-- A type whose values are compared by `==`.
pub record Eq {ℓ} (A : Type ℓ) : Type ℓ where
  pub dec : Discrete A

abbrev pub decided {ℓ} : {P : Type ℓ} → Dec P → Bool
decided (yes p) = true
decided (no n) = false

infix 50 ◌==◌
abbrev pub ◌==◌ {ℓ} : {A : Type ℓ} ⦃e : Eq A⦄ → A → A → Bool
◌==◌ ⦃e⦄ a b = decided (e.dec a b)

by_test {ℓ} : {P : Type ℓ} (b : Bool) → ((b ≡ true) ↔ P) → Dec P
by_test true h = yes (h.0 refl)
by_test false h = no (λ p. false≢true (h.1 p))

unfoldable pub String-discrete : Discrete String
unfolding by_test
String-discrete s t = by_test (str_eq s t) (eq_iff s t)

instance abbrev pub nat_eq : Eq ℕ
nat_eq = record { dec = ℕ_discrete }

instance abbrev pub string_eq : Eq String
string_eq = record { dec = String-discrete }

decided_iff {ℓ} : {P : Type ℓ} (d : Dec P) → (decided d ≡ true) ↔ P
decided_iff (yes p) = (λ _. p, λ _. refl)
decided_iff (no n) = (λ h. absurd (cc), λ p. absurd (n p))

module _ {ℓ} {A : Type ℓ} ⦃e : Eq A⦄ where
  pub ==_iff : (a b : A) → ((a == b) ≡ true) ↔ (a ≡ b)
  ==_iff a b = decided_iff (e.dec a b)

  pub ==_refl : (a : A) → (a == a) ≡ true
  ==_refl a = (==_iff a a).1 refl

-- `negsuc n` is -(n + 1).
pub data ℤ : Type 0 where
  pos : ℕ → ℤ
  negsuc : ℕ → ℤ

unfoldable pub ℤ-discrete : Discrete ℤ
unfolding ℕ_discrete
ℤ-discrete = hlevel ℕ_discrete

instance abbrev pub int_eq : Eq ℤ
int_eq = record { dec = ℤ-discrete }

-- `dim < 0`
abbrev pub is_negative : ℤ → Bool
is_negative (pos n) = false
is_negative (negsuc n) = true

-- `dim as usize`, at a value that is not negative.
abbrev pub magnitude : ℤ → ℕ
magnitude (pos n) = n
magnitude (negsuc n) = 0
