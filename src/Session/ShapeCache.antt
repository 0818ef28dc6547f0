-- ===== src/Session/ShapeCache.antt =====
-- The cache of input shapes on a context (`set_input_shapes_if_needed`).
use tensorrt_rs.Prelude.{
  ◌≡◌, ◌≢◌, refl, ap, sym, subst, ◌∙◌, String, true, List, [], ◌∷◌, none, some, ok, map, Bool-cases,
  inl, inr, string_eq, arith, Option-cases,
}
use mathlib.Core.Option.{some-injective}
use tensorrt_rs.Prelude.Exec.{Exec, modify, for_each, >>-ok}
use tensorrt_rs.Errors.{Error}
use tensorrt_rs.Tensor.{Dims, TensorShape}
use tensorrt_rs.Tensor.Ffi.{to_ffi}
use tensorrt_rs.Engine.{
  Driver, ExecutionContext, set_input_shape, shape_pair, input_shapes_match, remember_input_shapes,
}
use tensorrt_rs.Engine.Laws.{ShapeLaws}
use tensorrt_rs.Engine.ShapeCache.{
  final_shape, InEffect, IsCoherent, set_input_shape-ok, set_input_shape_other, pairs_match_iff,
}
use tensorrt_rs.Session.State.{IoTensors}
use tensorrt_rs.Session.Shapes.{set_checked_shape, set_input_shapes, set_input_shapes_if_needed}

module _ {Raw Gpu : Type 0} (d : Driver Raw Gpu) (io : IoTensors) where
  -- A setting that succeeds has passed its checks.
  set_checked_shape-ok :
      (t : TensorShape) (c : ExecutionContext Raw)
      → (set_checked_shape d io t c).0 ≡ ok tt
      → set_checked_shape d io t c ≡ set_input_shape d t.name t.shape c
  unfolding set_checked_shape
  set_checked_shape-ok t c h = ground arith

module _ {Raw Gpu : Type 0} (d : Driver Raw Gpu) (laws : ShapeLaws d) (io : IoTensors) where
  open laws use {input_shape}

  pub checked_same :
      (t : TensorShape) (c : ExecutionContext Raw)
      → (set_checked_shape d io t c).0 ≡ ok tt
      → input_shape (set_checked_shape d io t c).1.raw t.name ≡ some (to_ffi t.shape)
  checked_same t c h =
      let e = set_checked_shape-ok d io t c h in
      rw e (set_input_shape-ok d laws t.name t.shape c (rw e at h))

  checked_other :
      (t : TensorShape) (n : String) (c : ExecutionContext Raw)
      → (set_checked_shape d io t c).0 ≡ ok tt
      → t.name ≢ n
      → input_shape (set_checked_shape d io t c).1.raw n ≡ input_shape c.raw n
  checked_other t n c h ne =
      let e = set_checked_shape-ok d io t c h in
      rw e (set_input_shape_other d laws t.name n t.shape c ne)

  abbrev loop : List TensorShape → Exec (ExecutionContext Raw) Error (Unit {0})
  loop = for_each (set_checked_shape d io)

  loop_other :
      (ts : List TensorShape) (n : String) (c : ExecutionContext Raw)
      → (loop ts c).0 ≡ ok tt
      → final_shape n (map shape_pair ts) ≡ none
      → input_shape (loop ts c).1.raw n ≡ input_shape c.raw n
  unfolding for_each shape_pair
  loop_other [] n c h e = refl
  loop_other (t ∷ ts) n c h e =
      let (done, same, rest) = >>-ok (set_checked_shape d io t) (loop ts) c h in
      let none_left : final_shape n (map shape_pair ts) ≡ none = ground arith in
      let apart : t.name ≢ n = ground arith in
      ap (λ r. input_shape r.1.raw n) same
      ∙ loop_other ts n (set_checked_shape d io t c).1 rest none_left
      ∙ checked_other t n c done apart

  loop-InEffect :
      (ts : List TensorShape) (c : ExecutionContext Raw)
      → (loop ts c).0 ≡ ok tt
      → InEffect d laws (map shape_pair ts) (loop ts c).1.raw
  unfolding for_each shape_pair
  loop-InEffect [] c h n s e = absurd (cc)
  loop-InEffect (t ∷ ts) c h n s e =
      let (done, same, rest) = >>-ok (set_checked_shape d io t) (loop ts) c h in
      ap (λ r. input_shape r.1.raw n) same
      ∙ elim (Option-cases (final_shape n (map shape_pair ts))) [
        | inl last ↦
            let named : t.name ≡ n = ground arith in
            let shaped : t.shape ≡ s = ground arith in
            loop_other ts n (set_checked_shape d io t c).1 rest last
            ∙ ap (input_shape (set_checked_shape d io t c).1.raw) (sym named)
            ∙ checked_same t c done
            ∙ ap (λ s'. some (to_ffi s')) shaped
        | inr (s', later) ↦ loop-InEffect ts (set_checked_shape d io t c).1 rest n s (ground arith)
      ]

  -- Setting shapes that succeeds leaves the requested ones in effect, and remembers just these.
  set_input_shapes-ok :
      (ts : List TensorShape) (c : ExecutionContext Raw)
      → (set_input_shapes d io ts c).0 ≡ ok tt
      → InEffect d laws (map shape_pair ts) (set_input_shapes d io ts c).1.raw
        × ((set_input_shapes d io ts c).1.input_shapes ≡ some (map shape_pair ts))
  unfolding set_input_shapes remember_input_shapes
  set_input_shapes-ok ts c h =
      let (done, same, _) = >>-ok (loop ts) (modify (remember_input_shapes ts)) c h in
      subst
        (λ r.
          InEffect d laws (map shape_pair ts) r.1.raw
          × (r.1.input_shapes ≡ some (map shape_pair ts)))
        (sym same) (loop-InEffect ts c done, refl)

  remembered :
      (c : ExecutionContext Raw) (pairs : List (String × Dims))
      → InEffect d laws pairs c.raw
      → c.input_shapes ≡ some pairs
      → IsCoherent d laws c
  remembered c pairs e h pairs' h' =
      subst (λ p. InEffect d laws p c.raw) (some-injective pairs pairs' (sym h ∙ h')) e

  -- A list of shapes that matches is the one that is remembered.
  match_remembered :
      (ts : List TensorShape) (c : ExecutionContext Raw)
      → input_shapes_match c ts ≡ true
      → c.input_shapes ≡ some (map shape_pair ts)
  unfolding input_shapes_match
  match_remembered ts c h = elim (Option-cases c.input_shapes) [
    | inl e ↦ absurd (ground arith)
    | inr (pairs, e) ↦ e ∙ ap some ((pairs_match_iff pairs (map shape_pair ts)).0 (ground arith))
  ]

  -- On a context whose remembered shapes are in effect, a call that succeeds leaves the
  -- requested shapes in effect, whether it sets them or finds them remembered, and again all
  -- that the context remembers.
  pub set_input_shapes_if_needed-InEffect :
      (ts : List TensorShape) (c : ExecutionContext Raw)
      → IsCoherent d laws c
      → (set_input_shapes_if_needed d io ts c).0 ≡ ok tt
      → InEffect d laws (map shape_pair ts) (set_input_shapes_if_needed d io ts c).1.raw
        × IsCoherent d laws (set_input_shapes_if_needed d io ts c).1
  unfolding set_input_shapes_if_needed
  set_input_shapes_if_needed-InEffect ts c coherent h =
      elim (Bool-cases (input_shapes_match c ts)) [
        | inl hit ↦ rw hit (coherent (map shape_pair ts) (match_remembered ts c hit), coherent)
        | inr miss ↦
            let (e, r) = set_input_shapes-ok ts c (rw miss at h) in
            rw miss (e, remembered (set_input_shapes d io ts c).1 (map shape_pair ts) e r)
      ]
