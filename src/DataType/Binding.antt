-- ===== src/DataType/Binding.antt =====
-- The binding names of data types (`from_binding_dtype`, `as_binding_dtype`).
use mathlib.Core.Option.{some-injective}
use tensorrt_rs.Prelude.{
  ◌≡◌, refl, subst, String, some, ◌↔◌, ==_iff, string_eq, String-discrete, arith,
}
use tensorrt_rs.DataType.Defs.{
  DataType, float, half, int32, fp8, bf16, int64, from_binding_dtype, as_binding_dtype,
}

print_parse :
    (s : String) (t : DataType) → from_binding_dtype s ≡ some t → as_binding_dtype t ≡ some s
unfolding from_binding_dtype as_binding_dtype
print_parse s t h = ground (
  arith,
  ==_iff s "bfloat16",
  ==_iff s "float16",
  ==_iff s "float32",
  ==_iff s "int64",
  ==_iff s "int32",
  ==_iff s "fp8",
)

module _ (s : String) where
  named :
      (t : DataType) {n : String}
      → from_binding_dtype n ≡ some t
      → some n ≡ some s
      → from_binding_dtype s ≡ some t
  named t {n} here h = subst (λ n. from_binding_dtype n ≡ some t) (some-injective n s h) here

  parse_print : (t : DataType) → as_binding_dtype t ≡ some s → from_binding_dtype s ≡ some t
  unfolding from_binding_dtype as_binding_dtype String-discrete
  parse_print bf16 h = named bf16 refl h
  parse_print half h = named half refl h
  parse_print float h = named float refl h
  parse_print int64 h = named int64 refl h
  parse_print int32 h = named int32 refl h
  parse_print fp8 h = named fp8 refl h
  parse_print _ h = cc

-- The two tables are inverse to one another: a name is read as a data type exactly when that data
-- type prints it.
pub parse_iff_print :
    (s : String) (t : DataType) → (from_binding_dtype s ≡ some t) ↔ (as_binding_dtype t ≡ some s)
parse_iff_print s t = (print_parse s t, parse_print s t)
