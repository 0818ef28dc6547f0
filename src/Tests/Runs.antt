-- ===== src/Tests/Runs.antt =====
-- Sessions: the theorems at concrete runs.
use mathlib.Core.Option.{some-injective}
use tensorrt_rs.Prelude.{
  ◌≡◌, refl, sym, subst, ◌↔◌, ◌⊎◌, map, List, [], ◌∷◌, some, pos, negsuc, ok, err, arith, All,
  string_eq, ℕ_discrete, String-discrete, ℤ-discrete,
}
use tensorrt_rs.Prelude.Maps.{lookup, insert}
use tensorrt_rs.DataType.{DataType-discrete, bytes_per_element}
use tensorrt_rs.Errors.{invalid_shape, not_engine_tensor}
use tensorrt_rs.Tensor.{
  TensorInfo, TensorShape, TensorIoMode-discrete, element_count, count_from, count_step,
}
use tensorrt_rs.Tensor.Ffi.{to_ffi}
use tensorrt_rs.Engine.Laws.{ShapeLaws}
use tensorrt_rs.Engine.{ExecutionContext, shape_pair}
use tensorrt_rs.Engine.ShapeCache.{InEffect, IsCoherent, final_shape}
use tensorrt_rs.Session.{
  tensor_info, index_tensors, validate_tensor_shape, validate_device_inputs,
  set_input_shapes_if_needed, set_checked_shape, cuda_graph_key_eq, reclaim_finished_contexts,
  pooled_execution_context, Session, cached_device_output_plan, DeviceOutputPlan,
}
use tensorrt_rs.Session.Index.{tensor_info-index_tensors, tensor_info_complete}
use tensorrt_rs.Session.ShapeCheck.{Accepts, validate_tensor_shape_iff}
use tensorrt_rs.Session.DeviceCheck.{IsBindable, validate_device_inputs-IsBindable}
use tensorrt_rs.Session.PooledContext.{AllCoherent, Pools, pooled_execution_context-IsClean}
use tensorrt_rs.Session.PlanCache.{IsChecked, cached_device_output_plan-IsBindable}
use tensorrt_rs.Session.ShapeCache.{set_input_shapes_if_needed-InEffect}
use tensorrt_rs.Session.StaleShapes.{stale_after_error}
use tensorrt_rs.Session.Reclaim.{Reclaims, reclaim_finished_contexts_lem}
use tensorrt_rs.Tests.Device.{
  Settings, try_device, try_shape_laws, try_address_laws, row, row_input, engine_tensors, try_io,
  busy_session, rows, two_rows, new_context,
}

tensor_info-index_tensors_example :
    ((t : TensorInfo) × (tensor_info (index_tensors engine_tensors) "z" ≡ ok t) × (t.name ≡ "z"))
    ⊎ (tensor_info (index_tensors engine_tensors) "z" ≡ err (invalid_shape "z" not_engine_tensor))
tensor_info-index_tensors_example = tensor_info-index_tensors engine_tensors "z"

tensor_info_complete_example :
    (u : TensorInfo) × (tensor_info (index_tensors engine_tensors) "y" ≡ ok u) × (u.name ≡ "y")
tensor_info_complete_example = tensor_info_complete engine_tensors 1 refl

x_found : tensor_info try_io "x" ≡ ok row_input
unfolding tensor_info lookup insert String-discrete
x_found = refl

z_unknown : tensor_info try_io "z" ≡ err (invalid_shape "z" not_engine_tensor)
unfolding tensor_info lookup insert String-discrete
z_unknown = refl

validate_tensor_shape_iff_example :
    (validate_tensor_shape try_io "x" (row (pos 2)) ≡ ok tt)
    ↔ Accepts (row (negsuc 0)) (row (pos 2))
validate_tensor_shape_iff_example = validate_tensor_shape_iff try_io "x" (row (pos 2)) x_found

two_rows_valid : validate_device_inputs try_io (two_rows ∷ []) ≡ ok tt
unfolding validate_device_inputs String-discrete ℕ_discrete ℤ-discrete TensorIoMode-discrete
    DataType-discrete element_count count_from count_step bytes_per_element
two_rows_valid = refl

validate_device_inputs-IsBindable_example : All (IsBindable try_io) (two_rows ∷ [])
validate_device_inputs-IsBindable_example =
    validate_device_inputs-IsBindable try_io (two_rows ∷ []) two_rows_valid

new_context-IsCoherent : IsCoherent try_device try_shape_laws new_context
new_context-IsCoherent pairs h = cc

rows_set : (set_input_shapes_if_needed try_device try_io (rows 2 ∷ []) new_context).0 ≡ ok tt
unfolding set_input_shapes_if_needed String-discrete ℕ_discrete ℤ-discrete TensorIoMode-discrete
    try_device
rows_set = refl

set_input_shapes_if_needed-InEffect_example :
    let (_, c) = set_input_shapes_if_needed try_device try_io (rows 2 ∷ []) new_context in
    InEffect try_device try_shape_laws (map shape_pair (rows 2 ∷ [])) c.raw
    × IsCoherent try_device try_shape_laws c
set_input_shapes_if_needed-InEffect_example =
    set_input_shapes_if_needed-InEffect try_device try_shape_laws try_io (rows 2 ∷ []) new_context
      new_context-IsCoherent rows_set

-- A context that remembers two rows.
abbrev two_rows_context : ExecutionContext Settings
two_rows_context = record {
  raw = (("x", to_ffi (row (pos 2))) ∷ [], ("x", 64) ∷ []);
  input_shapes = some (shape_pair (rows 2) ∷ []);
}

two_rows_context-IsCoherent : IsCoherent try_device try_shape_laws two_rows_context
unfolding try_shape_laws lookup shape_pair
two_rows_context-IsCoherent pairs h n shape e =
    let known : ("x", row (pos 2)) ∷ [] ≡ pairs = some-injective _ _ h in
    let last : final_shape n (("x", row (pos 2)) ∷ []) ≡ some shape =
      subst (λ p. final_shape n p ≡ some shape) (sym known) e in
    ground arith

-- A session that has it in its pool.
abbrev pooled_session : Session Settings (Unit {0})
pooled_session = record busy_session { context_pool = two_rows_context ∷ [] }

pooled_session-AllCoherent : AllCoherent try_device try_address_laws try_shape_laws pooled_session
pooled_session-AllCoherent = (
  (two_rows_context-IsCoherent, tt),
  (new_context-IsCoherent, (new_context-IsCoherent, (new_context-IsCoherent, tt))),
)

pooled_execution_context-IsClean_example :
    Pools try_device try_address_laws try_shape_laws try_io
      (pooled_execution_context try_device pooled_session)
pooled_execution_context-IsClean_example =
    pooled_execution_context-IsClean try_device try_address_laws try_shape_laws pooled_session
      pooled_session-AllCoherent

abbrev unknown_shape : TensorShape
unknown_shape = record { name = "z"; shape = row (pos 1) }

five_set : (set_checked_shape try_device try_io (rows 5) two_rows_context).0 ≡ ok tt
unfolding set_checked_shape String-discrete ℕ_discrete ℤ-discrete TensorIoMode-discrete try_device
five_set = refl

stale_after_error_example :
    let (r, c) =
      set_input_shapes_if_needed try_device try_io (rows 5 ∷ unknown_shape ∷ []) two_rows_context in
    (r ≡ err (invalid_shape "z" not_engine_tensor))
    × (set_input_shapes_if_needed try_device try_io (rows 2 ∷ []) c ≡ (ok tt, c))
    × (ShapeLaws.input_shape try_shape_laws c.raw "x" ≡ some (to_ffi (row (pos 5))))
stale_after_error_example =
    stale_after_error try_device try_shape_laws try_io (rows 2) (rows 5) unknown_shape
      two_rows_context refl refl five_set z_unknown

nothing_cached : IsChecked try_io []
unfolding lookup
nothing_cached key plan h = cc

cached_device_output_plan-IsBindable_example :
    let (r, (_, s)) =
      cached_device_output_plan try_device (two_rows ∷ []) [] (new_context, busy_session) in
    IsChecked s.io s.run_plan_cache
    × ((plan : List DeviceOutputPlan) → r ≡ ok plan → All (IsBindable try_io) (two_rows ∷ []))
cached_device_output_plan-IsBindable_example =
    cached_device_output_plan-IsBindable try_device (two_rows ∷ []) [] new_context busy_session
      nothing_cached

reclaim_finished_contexts_lem_example :
    Reclaims try_device busy_session (reclaim_finished_contexts try_device busy_session)
reclaim_finished_contexts_lem_example = reclaim_finished_contexts_lem try_device busy_session
