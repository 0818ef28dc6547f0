-- ===== src/Llm/DataTypes.antt =====
-- tensorrt_llm/src: the data types of the executor and of Candle (executor.rs, output.rs).
use tensorrt_rs.Prelude.{ℕ, ℤ, pos, Result, ok, err, ◌≡◌, arith, ◌↔◌, ◌==◌, int_eq, if◌then◌else◌}
use tensorrt_rs.DataType.{DataType, float, half, int8, int32, bool, uint8, fp8, int64}
use tensorrt_rs.Llm.Errors.{
  Error, invalid_argument, unknown_dtype_id, dtype_not_supported, tensor_dtype_not_supported,
}

-- `candle_core::DType`, of which the source names six.
pub data DType : Type 0 where
  u8 i32 i64 bf16 f16 f32 other : DType

unfoldable pub data_type_for_dtype : DType → Result Error DataType
data_type_for_dtype u8 = ok uint8
data_type_for_dtype i32 = ok int32
data_type_for_dtype i64 = ok int64
data_type_for_dtype DType.bf16 = ok DataType.bf16
data_type_for_dtype f16 = ok half
data_type_for_dtype f32 = ok float
data_type_for_dtype other = err (invalid_argument tensor_dtype_not_supported)

unfoldable pub dtype_for_data_type : DataType → Result Error DType
dtype_for_data_type DataType.bf16 = ok DType.bf16
dtype_for_data_type half = ok f16
dtype_for_data_type float = ok f32
dtype_for_data_type t = err (invalid_argument (dtype_not_supported t))

unfoldable pub data_type_to_executor_i32 : DataType → Result Error ℤ
data_type_to_executor_i32 bool = ok (pos 0)
data_type_to_executor_i32 uint8 = ok (pos 1)
data_type_to_executor_i32 int8 = ok (pos 2)
data_type_to_executor_i32 int32 = ok (pos 3)
data_type_to_executor_i32 int64 = ok (pos 4)
data_type_to_executor_i32 DataType.bf16 = ok (pos 5)
data_type_to_executor_i32 fp8 = ok (pos 6)
data_type_to_executor_i32 half = ok (pos 7)
data_type_to_executor_i32 float = ok (pos 8)
data_type_to_executor_i32 t = err (invalid_argument (dtype_not_supported t))

unfoldable pub data_type_from_executor_i32 : ℤ → Result Error DataType
data_type_from_executor_i32 v =
    if v == pos 0
    then ok bool
    else if v == pos 1
    then ok uint8
    else if v == pos 2
    then ok int8
    else if v == pos 3
    then ok int32
    else if v == pos 4
    then ok int64
    else if v == pos 5
    then ok DataType.bf16
    else if v == pos 6
    then ok fp8
    else if v == pos 7
    then ok half
    else if v == pos 8
    then ok float
    else err (invalid_argument (unknown_dtype_id v))

unfoldable pub data_type_size : DataType → Result Error ℕ
data_type_size uint8 = ok 1
data_type_size int32 = ok 4
data_type_size float = ok 4
data_type_size int64 = ok 8
data_type_size DataType.bf16 = ok 2
data_type_size half = ok 2
data_type_size t = err (invalid_argument (dtype_not_supported t))

id_read :
    (t : DataType) (v : ℤ)
    → data_type_to_executor_i32 t ≡ ok v
    → data_type_from_executor_i32 v ≡ ok t
unfolding data_type_to_executor_i32 data_type_from_executor_i32
id_read t v h = ground arith

id_written :
    (t : DataType) (v : ℤ)
    → data_type_from_executor_i32 v ≡ ok t
    → data_type_to_executor_i32 t ≡ ok v
unfolding data_type_to_executor_i32 data_type_from_executor_i32
id_written t v h = ground arith

-- The ids of data types that are written to the executor and those that are read from it are the
-- same: a type has an id exactly when the id has the type.
pub executor_id_iff :
    (t : DataType) (v : ℤ)
    → (data_type_to_executor_i32 t ≡ ok v) ↔ (data_type_from_executor_i32 v ≡ ok t)
executor_id_iff t v = (id_read t v, id_written t v)
