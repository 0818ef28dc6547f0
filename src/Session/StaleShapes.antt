-- ===== src/Session/StaleShapes.antt =====
-- What a call that fails half-way leaves behind in the cache of input shapes.
use tensorrt_rs.Prelude.{◌≡◌, refl, ap, ◌∙◌, String, [], ◌∷◌, some, ok, err, arith}
use tensorrt_rs.Prelude.Exec.{for_each}
use tensorrt_rs.Errors.{Error}
use tensorrt_rs.Tensor.{Dims, TensorShape}
use tensorrt_rs.Tensor.Ffi.{to_ffi}
use tensorrt_rs.Engine.{
  Driver, ExecutionContext, set_input_shape, shape_pair, input_shapes_match, pairs_match,
}
use tensorrt_rs.Engine.Laws.{ShapeLaws}
use tensorrt_rs.Engine.ShapeCache.{pairs_match_iff}
use tensorrt_rs.Session.State.{IoTensors}
use tensorrt_rs.Session.Lookup.{tensor_info}
use tensorrt_rs.Session.Validate.{validate_tensor_shape}
use tensorrt_rs.Session.Shapes.{set_checked_shape, set_input_shapes, set_input_shapes_if_needed}
use tensorrt_rs.Session.ShapeCache.{checked_same}

module _ {Raw Gpu : Type 0} (d : Driver Raw Gpu) (io : IoTensors) where
  -- Setting a shape does not touch what the context remembers.
  set_checked_shape-input_shapes :
      (t : TensorShape) (c : ExecutionContext Raw)
      → (set_checked_shape d io t c).1.input_shapes ≡ c.input_shapes
  unfolding set_checked_shape set_input_shape
  set_checked_shape-input_shapes t c = ground arith

  -- A tensor that the engine does not have is refused before TensorRT is called.
  set_checked_shape_unknown :
      (t : TensorShape) {e : Error} (c : ExecutionContext Raw)
      → tensor_info io t.name ≡ err e
      → set_checked_shape d io t c ≡ (err e, c)
  unfolding set_checked_shape validate_tensor_shape
  set_checked_shape_unknown t c h = ground arith

  -- What two requests leave, of which the second is unknown.
  half_way :
      (t u : TensorShape) {e : Error} (old : String × Dims) (c : ExecutionContext Raw)
      → c.input_shapes ≡ some (old ∷ [])
      → (set_checked_shape d io t c).0 ≡ ok tt
      → tensor_info io u.name ≡ err e
      → set_input_shapes_if_needed d io (t ∷ u ∷ []) c ≡ (err e, (set_checked_shape d io t c).1)
  unfolding set_input_shapes_if_needed set_input_shapes input_shapes_match pairs_match for_each
  half_way t u old c cached set unknown =
      ground (arith, set_checked_shape_unknown u (set_checked_shape d io t c).1)

  pub cached_hit :
      (t : TensorShape) (c : ExecutionContext Raw)
      → c.input_shapes ≡ some (shape_pair t ∷ [])
      → set_input_shapes_if_needed d io (t ∷ []) c ≡ (ok tt, c)
  unfolding set_input_shapes_if_needed input_shapes_match
  cached_hit t c h =
      ground (arith, (pairs_match_iff (shape_pair t ∷ []) (shape_pair t ∷ [])).1 refl)

module _ {Raw Gpu : Type 0} (d : Driver Raw Gpu) (laws : ShapeLaws d) (io : IoTensors) where
  open laws use {input_shape}

  -- The cache goes stale when a call fails half-way. Take a context that remembers `known`; let a
  -- call set another shape `t` of the same tensor and then meet a tensor that the engine does not
  -- have. That call fails, and from there on a request for `known` succeeds at once and changes
  -- nothing, while the shape in effect in TensorRT is that of `t`.
  pub stale_after_error :
      (known t u : TensorShape) {e : Error} (c : ExecutionContext Raw)
      → c.input_shapes ≡ some (shape_pair known ∷ [])
      → known.name ≡ t.name
      → (set_checked_shape d io t c).0 ≡ ok tt
      → tensor_info io u.name ≡ err e
      → let (r, c') = set_input_shapes_if_needed d io (t ∷ u ∷ []) c in
        (r ≡ err e)
        × (set_input_shapes_if_needed d io (known ∷ []) c' ≡ (ok tt, c'))
        × (input_shape c'.raw known.name ≡ some (to_ffi t.shape))
  stale_after_error known t u c cached named set unknown =
      let half = half_way d io t u (shape_pair known) c cached set unknown in
      rw half (
        refl,
        cached_hit d io known (set_checked_shape d io t c).1
            (set_checked_shape-input_shapes d io t c ∙ cached),
        ap (input_shape (set_checked_shape d io t c).1.raw) named ∙ checked_same d laws io t c set,
      )
