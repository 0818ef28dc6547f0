-- ===== src/Prelude/Maps.antt =====
-- `HashMap` as an association list. `insert` puts a new key at the end, and replaces the value of
-- one that is there.
use Prim.Native.Nat.{◌+◌, ◌≤◌, ◌<◌}
use mathlib.Core.Path.{◌≡◌, refl}
use mathlib.Core.List.{List, [], ◌∷◌}
use mathlib.Core.Option.{Option, none, some}
use native.Mathlib.Omega.{arith}
use tensorrt_rs.Prelude.Tests.{Eq, ◌==◌, if◌then◌else◌}
use tensorrt_rs.Prelude.Lists.{length}

module _ {K V : Type 0} ⦃same : Eq K⦄ where
  unfoldable pub lookup : K → List (K × V) → Option V
  lookup key [] = none
  lookup key ((first, value) ∷ rest) = if first == key then some value else lookup key rest

  unfoldable pub insert : K → V → List (K × V) → List (K × V)
  insert key new [] = (key, new) ∷ []
  insert key new ((first, value) ∷ rest) =
      if first == key then (first, new) ∷ rest else (first, value) ∷ insert key new rest

  unfoldable pub erase : K → List (K × V) → List (K × V)
  erase key [] = []
  erase key ((first, value) ∷ rest) =
      if first == key then erase key rest else (first, value) ∷ erase key rest

  pub lookup-insert :
      (key asked : K) (new : V) (entries : List (K × V))
      → lookup asked (insert key new entries)
        ≡ (if key == asked then some new else lookup asked entries)
  unfolding lookup insert
  lookup-insert key asked new [] = refl
  lookup-insert key asked new ((first, value) ∷ rest) =
      ground (arith, lookup-insert key asked new rest)

  pub lookup-erase :
      (key asked : K) (entries : List (K × V))
      → lookup asked (erase key entries) ≡ (if key == asked then none else lookup asked entries)
  unfolding lookup erase
  lookup-erase key asked [] = ground arith
  lookup-erase key asked ((first, value) ∷ rest) = ground (arith, lookup-erase key asked rest)

  pub length-erase-le : (k : K) (m : List (K × V)) → length (erase k m) ≤ length m
  unfolding erase
  length-erase-le k [] = omega arith
  length-erase-le k ((i, w) ∷ m) = ground (arith, length-erase-le k m)

  pub length-insert-le : (k : K) (v : V) (m : List (K × V)) → length (insert k v m) ≤ length m + 1
  unfolding insert
  length-insert-le k v [] = omega arith
  length-insert-le k v ((i, w) ∷ m) = ground (arith, length-insert-le k v m)

  -- A key that is there is replaced.
  pub length-insert_old :
      (k : K) (v w : V) (m : List (K × V)) → lookup k m ≡ some w → length (insert k v m) ≡ length m
  unfolding insert lookup
  length-insert_old k v w [] h = ground arith
  length-insert_old k v w ((i, u) ∷ m) h = ground (arith, length-insert_old k v w m)

  pub length-erase-lt :
      (k : K) (w : V) (m : List (K × V)) → lookup k m ≡ some w → length (erase k m) < length m
  unfolding erase lookup
  length-erase-lt k w [] h = ground arith
  length-erase-lt k w ((i, u) ∷ m) h = ground (arith, length-erase-lt k w m, length-erase-le k m)
