-- ===== src/Session/PlanCache.antt =====
-- The cache of output plans (`cached_device_output_plan`): a plan that is found spares the checks of
-- the inputs, so what its key says of them is of interest.
use mathlib.Core.List.{zip}
use tensorrt_rs.Prelude.{
  ℕ, ◌*◌, ◌≡◌, refl, sym, ap, ◌∙◌, subst, String, List, [], ◌∷◌, map, none, some, Option,
  Option-cases, Result, ok, err, ◌>>=◌, >>=-eq-ok, ok_injected, Result-cases, inl, inr, All, arith,
  ◌==◌, ==_iff, Bool-cases, try_map, try_map-AllPairs, if◌then◌else◌,
}
use tensorrt_rs.Prelude
use tensorrt_rs.Prelude.Maps.{lookup, insert, lookup-insert}
use tensorrt_rs.Tensor.{DeviceInputTensor}
use tensorrt_rs.Engine.{Driver, ExecutionContext}
use tensorrt_rs.Session.State.{
  Session, DeviceOutputPlan, RunPlanKey, run_plan_key_eq, RunPlanInputKey, input_key, IoTensors,
}
use tensorrt_rs.Session.Lookup.{tensor_index, tensor_info}
use tensorrt_rs.Session.Validate.{validate_device_inputs}
use tensorrt_rs.Session.Shapes.{set_device_input_shapes_if_needed}
use tensorrt_rs.Session.DeviceCheck.{IsBindable, validate_device_inputs-IsBindable}
use tensorrt_rs.Session.ShapeCheck.{Accepts}
use tensorrt_rs.DataType.{bytes_per_element}
use tensorrt_rs.Tensor.SizeLaws.{product}
use tensorrt_rs.Session.Plan.{device_run_plan_key, inferred_plan, cached_device_output_plan}

module _ (io : IoTensors) where
  -- The part of a run's key that a device input gives.
  abbrev pub Keyed : RunPlanInputKey → DeviceInputTensor → Type 0
  Keyed k t = (tensor_index io t.name ≡ ok k.tensor_index) × (k ≡ input_key (k.tensor_index, t))

  abbrev pub AllKeyed : List RunPlanInputKey → List DeviceInputTensor → Type 0
  AllKeyed [] [] = Unit
  AllKeyed (k ∷ ks) (t ∷ ts) = Keyed k t × AllKeyed ks ts
  AllKeyed _ _ = ⊥

  -- Inputs of one key are bindable together: the key fixes the engine tensor, the type, the shape
  -- and the size.
  same_key :
      (k : RunPlanInputKey) (t u : DeviceInputTensor)
      → Keyed k t
      → Keyed k u
      → IsBindable io t
      → IsBindable io u
  unfolding input_key tensor_info
  same_key k t u (it, kt) (iu, ku) b =
      let type : t.data_type ≡ u.data_type = cc in
      let shape : t.shape ≡ u.shape = cc in
      let bytes : t.bytes ≡ u.bytes = cc in
      let same : tensor_index io t.name ≡ tensor_index io u.name = it ∙ sym iu in
      let info : tensor_info io u.name ≡ ok b.info = rw (← same) b.found in
      record {
        info = b.info;
        found = info;
        accepted = subst (λ s. Accepts b.info.shape s) shape b.accepted;
        is_input = b.is_input;
        same_type = b.same_type ∙ type;
        size = b.size;
        sized = ap bytes_per_element (sym type) ∙ b.sized;
        whole = sym bytes ∙ b.whole ∙ ap (λ s. product s.values * b.size) shape;
      }

  same_keys :
      (ks : List RunPlanInputKey) (ts us : List DeviceInputTensor)
      → AllKeyed ks ts
      → AllKeyed ks us
      → All (IsBindable io) ts
      → All (IsBindable io) us
  same_keys [] [] [] a b h = tt
  same_keys [] [] (u ∷ us) a b h = absurd b
  same_keys [] (t ∷ ts) us a b h = absurd a
  same_keys (k ∷ ks) [] us a b h = absurd a
  same_keys (k ∷ ks) (t ∷ ts) [] a b h = absurd b
  same_keys (k ∷ ks) (t ∷ ts) (u ∷ us) (a, at_rest) (b, bs) (h, hs) =
      (same_key k t u a b h, same_keys ks ts us at_rest bs hs)

  zip-AllKeyed :
      (ts : List DeviceInputTensor) (indices : List ℕ)
      → Prelude.try_map (λ (t : DeviceInputTensor). tensor_index io t.name) ts ≡ ok indices
      → AllKeyed (map input_key (zip indices ts)) ts
  unfolding Prelude.try_map input_key zip
  zip-AllKeyed [] [] h = tt
  zip-AllKeyed [] (i ∷ is) h = cc
  zip-AllKeyed (t ∷ ts) indices h =
      let (i, here, h') = >>=-eq-ok (tensor_index io t.name) _ h in
      let (is, rest, made) =
        >>=-eq-ok (Prelude.try_map (λ (t : DeviceInputTensor). tensor_index io t.name) ts)
          (λ is. ok (i ∷ is)) h' in
      subst (λ v. AllKeyed (map input_key (zip v (t ∷ ts))) (t ∷ ts)) (ok_injected made)
        ((here, refl), zip-AllKeyed ts is rest)

  device_run_plan_key-AllKeyed :
      (ts : List DeviceInputTensor) (names : List String) {key : RunPlanKey}
      → device_run_plan_key io ts names ≡ ok key
      → AllKeyed key.inputs ts
  unfolding device_run_plan_key
  device_run_plan_key-AllKeyed ts names h =
      let (indices, inputs, h') =
        >>=-eq-ok (Prelude.try_map (λ (t : DeviceInputTensor). tensor_index io t.name) ts) _ h in
      let (outputs, _, made) = >>=-eq-ok (Prelude.try_map (tensor_index io) names) _ h' in
      subst (λ (k : RunPlanKey). AllKeyed k.inputs ts) (ok_injected made)
        (zip-AllKeyed ts indices inputs)

  -- Each key of the cache is that of a run whose inputs passed the checks.
  abbrev pub IsChecked : List (RunPlanKey × List DeviceOutputPlan) → Type 0
  IsChecked cache =
      (key : RunPlanKey) (plan : List DeviceOutputPlan)
      → lookup key cache ≡ some plan
      → (ts : List DeviceInputTensor) × AllKeyed key.inputs ts × All (IsBindable io) ts

  insert-IsChecked :
      (key : RunPlanKey) (plan : List DeviceOutputPlan)
      (cache : List (RunPlanKey × List DeviceOutputPlan)) (ts : List DeviceInputTensor)
      → AllKeyed key.inputs ts
      → All (IsBindable io) ts
      → IsChecked cache
      → IsChecked (insert key plan cache)
  insert-IsChecked key plan cache ts keyed bindable h k p e = elim (Bool-cases (key == k)) [
    | inl same ↦ (
      ts,
      subst (λ (j : RunPlanKey). AllKeyed j.inputs ts) ((==_iff key k).0 same) keyed,
      bindable,
    )
    | inr other ↦ h k p (ground (arith, lookup-insert key k plan cache))
  ]

module _ {Raw Gpu : Type 0} (d : Driver Raw Gpu) (inputs : List DeviceInputTensor)
    (names : List String) (c : ExecutionContext Raw) (s : Session Raw Gpu) where
  -- Where every key of the cache is that of a run whose inputs passed the checks, the output
  -- plan of a run, cached or inferred, is only given for inputs that may all be bound, although
  -- a plan that is found is returned with no check; and the same is true of every key
  -- afterwards, whether or not the call succeeds.
  pub cached_device_output_plan-IsBindable :
      IsChecked s.io s.run_plan_cache
      → let (r, (_, s')) = cached_device_output_plan d inputs names (c, s) in
        IsChecked s'.io s'.run_plan_cache
        × ((plan : List DeviceOutputPlan) → r ≡ ok plan → All (IsBindable s.io) inputs)
  unfolding cached_device_output_plan
  cached_device_output_plan-IsBindable h =
      elim (Result-cases (device_run_plan_key s.io inputs names)) [
        | inr (e, failed) ↦ rw (failed, cached_device_output_plan) (h, λ p q. absurd (cc))
        | inl (key, made) ↦
            let keyed = device_run_plan_key-AllKeyed s.io inputs names made in
            elim (Option-cases (lookup key s.run_plan_cache)) [
              | inr (plan, found) ↦
                  let (ts, keyed', bindable) = h key plan found in
                  rw (made, found, cached_device_output_plan)
                    (h, λ p q. same_keys s.io key.inputs ts inputs keyed' keyed bindable)
              | inl missing ↦ elim (Result-cases (validate_device_inputs s.io inputs)) [
                | inr (e, bad) ↦
                    rw (made, missing, bad, cached_device_output_plan) (h, λ p q. absurd (cc))
                | inl (_, valid) ↦
                    let bindable = validate_device_inputs-IsBindable s.io inputs valid in
                    elim (Result-cases (set_device_input_shapes_if_needed d inputs c).0) [
                      | inr (e, bad) ↦
                          rw (made, missing, valid, bad, cached_device_output_plan)
                            (h, λ p q. bindable)
                      | inl (_, set) ↦
                          elim (Result-cases (
                            inferred_plan d s.io (set_device_input_shapes_if_needed d inputs c).1
                              key.outputs)) [
                                | inr (e, bad) ↦
                                    rw (made, missing, valid, set, bad, cached_device_output_plan)
                                      (h, λ p q. bindable)
                                | inl (plan, inferred) ↦
                                    rw
                                      (
                                        made, missing, valid, set, inferred,
                                        cached_device_output_plan,
                                      )
                                      (
                                        insert-IsChecked s.io key plan s.run_plan_cache inputs keyed
                                            bindable h,
                                        λ p q. bindable,
                                      )
                              ]
                    ]
              ]
            ]
      ]
