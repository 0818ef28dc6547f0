-- ===== src/Prelude/Vectors.antt =====
-- `Vec::pop`, `Vec::push` and `Vec::swap_remove`.
use Prim.Native.Nat.{ℕ, zero, suc}
use mathlib.Core.Path.{◌≡◌, refl, ap, subst}
use mathlib.Core.List.{List, [], ◌∷◌, ◌++◌}
use mathlib.Core.Option.{Option, none, some, some-injective}
use native.Mathlib.Omega.{arith}
use mathlib.Core.List.{Perm, perm_append_singleton}
use mathlib.Core.List.Perm
use tensorrt_rs.Prelude.Tests.{Option-cases}
use mathlib.Core.Logic.{inl, inr}
use tensorrt_rs.Prelude.Lists.{length, get_elem?, take, drop, All}

module _ {ℓ} {A : Type ℓ} where
  -- The last entry of `x ∷ xs`, and what stands before it.
  unfoldable pub split_last : A → List A → List A × A
  split_last x [] = ([], x)
  split_last x (y ∷ ys) = let (before, last) = split_last y ys in (x ∷ before, last)

  unfoldable pub pop : List A → Option (List A × A)
  unfolding split_last
  pop [] = none
  pop (x ∷ xs) = some (split_last x xs)

  unfoldable pub push : List A → A → List A
  push xs x = xs ++ x ∷ []

  -- What is left when the entry at the front is taken out: the last entry stands in its place.
  unfoldable pub refill : List A → List A
  unfolding split_last
  refill [] = []
  refill (y ∷ ys) = let (before, last) = split_last y ys in last ∷ before

  -- `swap_remove(i)`: the entry at `i`, and the vector with its last entry moved there. `none` is
  -- the panic out of bounds.
  unfoldable pub swap_remove : List A → ℕ → Option (List A × A)
  unfolding refill
  swap_remove [] i = none
  swap_remove (x ∷ xs) zero = some (refill xs, x)
  swap_remove (x ∷ xs) (suc i) = elim (swap_remove xs i) [
    | none ↦ none
    | some (rest, y) ↦ some (x ∷ rest, y)
  ]

  pub split_last_lem :
      (x : A) (xs : List A) → (split_last x xs).0 ++ (split_last x xs).1 ∷ [] ≡ x ∷ xs
  unfolding split_last
  split_last_lem x [] = refl
  split_last_lem x (y ∷ ys) = cc (split_last_lem y ys)

module _ {ℓ} {A : Type ℓ} where
  split_last-perm :
      (x : A) (xs : List A) → Perm ((split_last x xs).1 ∷ (split_last x xs).0) (x ∷ xs)
  split_last-perm x xs =
      subst (Perm ((split_last x xs).1 ∷ (split_last x xs).0)) (split_last_lem x xs)
        (Perm.symm (perm_append_singleton (split_last x xs).1 (split_last x xs).0))

  refill-perm : (xs : List A) → Perm (refill xs) xs
  unfolding refill
  refill-perm [] = Perm.refl []
  refill-perm (y ∷ ys) = split_last-perm y ys

  length-split_last : (x : A) (xs : List A) → length (split_last x xs).0 ≡ length xs
  unfolding split_last
  length-split_last x [] = refl
  length-split_last x (y ∷ ys) = ap suc (length-split_last y ys)

  length-refill : (xs : List A) → length (refill xs) ≡ length xs
  unfolding refill
  length-refill [] = refl
  length-refill (y ∷ ys) = ap suc (length-split_last y ys)

  -- `swap_remove` takes out the entry at the index, leaves those before it alone, and keeps the rest
  -- up to order.
  pub swap_remove_lem :
      (xs : List A) (i : ℕ) {x : A}
      → get_elem? xs i ≡ some x
      → (rest : List A) × (swap_remove xs i ≡ some (rest, x))
        × (suc (length rest) ≡ length xs)
        × (take i rest ≡ take i xs)
        × Perm (x ∷ drop i rest) (drop i xs)
        × Perm (x ∷ rest) xs
  unfolding swap_remove
  swap_remove_lem [] i h = absurd (cc)
  swap_remove_lem (y ∷ ys) zero {x = x} h =
      let e : y ≡ x = ground arith in
      let same = subst (λ z. Perm (z ∷ refill ys) (y ∷ ys)) e (Perm.cons y (refill-perm ys)) in
      (refill ys, ap (λ z. some (refill ys, z)) e, ap suc (length-refill ys), refl, same, same)
  swap_remove_lem (y ∷ ys) (suc i) {x = x} h =
      let (rest, e, l, before, behind, p) = swap_remove_lem ys i h in
      (
        y ∷ rest,
        rw e,
        ap suc l,
        ap (λ zs. y ∷ zs) before,
        behind,
        Perm.trans (Perm.swap y x rest) (Perm.cons y p),
      )

  module _ (P : A → Type 0) where
    split_last-All :
        (x : A) (xs : List A) → P x → All P xs → All P (split_last x xs).0 × P (split_last x xs).1
    unfolding split_last
    split_last-All x [] p h = (tt, p)
    split_last-All x (y ∷ ys) p h =
        let (before, last) = split_last-All y ys h.0 h.1 in ((p, before), last)

    refill-All : (xs : List A) → All P xs → All P (refill xs)
    unfolding refill
    refill-All [] h = tt
    refill-All (y ∷ ys) h = let (before, last) = split_last-All y ys h.0 h.1 in (last, before)

    pub swap_remove-All :
        (xs : List A) (i : ℕ) {rest : List A} {x : A}
        → swap_remove xs i ≡ some (rest, x)
        → All P xs
        → All P rest × P x
    unfolding swap_remove
    swap_remove-All [] i e h = absurd (cc)
    swap_remove-All (y ∷ ys) zero e h =
        subst (λ (q : List A × A). All P q.0 × P q.1) (some-injective _ _ e)
          (refill-All ys h.1, h.0)
    swap_remove-All (y ∷ ys) (suc i) e h = elim (Option-cases (swap_remove ys i)) [
      | inl n ↦ absurd (ground arith)
      | inr ((rest, x), r) ↦
          let (kept, taken) = swap_remove-All ys i r h.1 in
          subst (λ (q : List A × A). All P q.0 × P q.1)
            (some-injective (y ∷ rest, x) _ (ground arith)) ((h.0, kept), taken)
    ]

    pub pop-All :
        (xs : List A) {rest : List A} {x : A}
        → pop xs ≡ some (rest, x)
        → All P xs
        → All P rest × P x
    unfolding pop
    pop-All [] e h = absurd (cc)
    pop-All (y ∷ ys) e h =
        subst (λ (q : List A × A). All P q.0 × P q.1) (some-injective _ _ e)
          (split_last-All y ys h.0 h.1)

    pub push-All : (xs : List A) {x : A} → All P xs → P x → All P (push xs x)
    unfolding push
    push-All [] h p = (p, tt)
    push-All (y ∷ ys) h p = (h.0, push-All ys h.1 p)
