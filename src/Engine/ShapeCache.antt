-- ===== src/Engine/ShapeCache.antt =====
-- The shapes that a context remembers, against those that are in effect in TensorRT.
use tensorrt_rs.Prelude.{
  ◌≡◌, ◌≢◌, refl, ◌↔◌, ap, ◌∙◌, String, true, List, [], ◌∷◌, Option, none, some, ok, ◌==◌,
  string_eq, inl, inr, if◌then◌else◌, arith, Result-cases,
}
use tensorrt_rs.Errors.{Status, okay, from_status}
use tensorrt_rs.Tensor.{Dims, dims_eq}
use tensorrt_rs.Tensor.Ffi.{to_ffi}
use tensorrt_rs.Engine.Native.{Driver}
use tensorrt_rs.Engine.Context.{ExecutionContext, tensor_name, pairs_match, set_input_shape}
use tensorrt_rs.Engine.Laws.{ShapeLaws}

pub pairs_match_iff : (xs ys : List (String × Dims)) → (pairs_match xs ys ≡ true) ↔ (xs ≡ ys)
unfolding pairs_match
pairs_match_iff [] [] = (λ _. refl, λ _. refl)
pairs_match_iff [] (y ∷ ys) = (λ h. absurd (cc), λ h. absurd (cc))
pairs_match_iff (x ∷ xs) [] = (λ h. absurd (cc), λ h. absurd (cc))
pairs_match_iff ((n, s) ∷ xs) ((n', s') ∷ ys) =
    (λ h. ground (arith, pairs_match_iff xs ys), λ h. ground (arith, pairs_match_iff xs ys))

-- The shape that a list of settings leaves a tensor with: the last one counts.
abbrev pub final_shape : String → List (String × Dims) → Option Dims
final_shape n [] = none
final_shape n ((m, s) ∷ r) = elim (final_shape n r) [
  | some t ↦ some t
  | none ↦ if m == n then some s else none
]

pub tensor_name-ok : (n : String) {m : String} → tensor_name n ≡ ok m → m ≡ n
unfolding tensor_name
tensor_name-ok n h = ground arith

pub from_status-ok : (s : Status) → from_status s ≡ ok tt → s ≡ okay
unfolding from_status
from_status-ok s h = ground arith

module _ {Raw Gpu : Type 0} (d : Driver Raw Gpu) (laws : ShapeLaws d) where
  open laws use {input_shape, set_same, set_other}

  -- The settings of `pairs` are in effect.
  abbrev pub InEffect : List (String × Dims) → Raw → Type 0
  InEffect pairs r =
      (n : String) (s : Dims) → final_shape n pairs ≡ some s → input_shape r n ≡ some (to_ffi s)

  -- What a context remembers is in effect.
  abbrev pub IsCoherent : ExecutionContext Raw → Type 0
  IsCoherent c = (pairs : List (String × Dims)) → c.input_shapes ≡ some pairs → InEffect pairs c.raw

  -- A setting that succeeds is in effect, and touches no other tensor.
  pub set_input_shape-ok :
      (n : String) (s : Dims) (c : ExecutionContext Raw)
      → (set_input_shape d n s c).0 ≡ ok tt
      → input_shape (set_input_shape d n s c).1.raw n ≡ some (to_ffi s)
  unfolding set_input_shape
  set_input_shape-ok n s c h = elim (Result-cases (tensor_name n)) [
    | inl (m, e) ↦
        let e' : tensor_name n ≡ ok n = e ∙ ap ok (tensor_name-ok n e) in
        rw (e', set_input_shape)
          (set_same c.raw n (to_ffi s) (from_status-ok _ (rw (e', set_input_shape) at h)))
    | inr (bad, e) ↦ absurd (ground arith)
  ]

  pub set_input_shape_other :
      (n m : String) (s : Dims) (c : ExecutionContext Raw)
      → n ≢ m
      → input_shape (set_input_shape d n s c).1.raw m ≡ input_shape c.raw m
  unfolding set_input_shape
  set_input_shape_other n m s c ne = elim (Result-cases (tensor_name n)) [
    | inl (k, e) ↦
        let e' : tensor_name n ≡ ok n = e ∙ ap ok (tensor_name-ok n e) in
        rw (e', set_input_shape) (set_other c.raw n m (to_ffi s) ne)
    | inr (bad, e) ↦ ground arith
  ]
