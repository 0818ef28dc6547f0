-- ===== src/DataType/Defs.antt =====
-- tensorrt/src/data_type.rs: the tensor data types and their tables.
use tensorrt_rs.Prelude.{
  ℕ, zero, suc, ◌+◌, ◌*◌, ◌/◌, ◌%◌, String, Option, none, some, ℤ, pos, negsuc, Eq, ◌==◌, int_eq,
  string_eq, nat_eq, if◌then◌else◌, ℤ-discrete,
}

pub data DataType : Type 0 where
  float half int8 int32 bool uint8 fp8 bf16 int64 int4 fp4 e8m0 : DataType
  unknown : ℤ → DataType

unfoldable pub DataType-discrete : Discrete DataType
unfolding ℤ-discrete
DataType-discrete = hlevel ℤ-discrete

instance abbrev pub data_type_eq : Eq DataType
data_type_eq = record { dec = DataType-discrete }

-- The constructor that stands for a code from 0 to 11.
code_table : ℕ → ℤ → DataType
code_table zero v = float
code_table (suc zero) v = half
code_table (suc (suc zero)) v = int8
code_table (suc (suc (suc zero))) v = int32
code_table (suc (suc (suc (suc zero)))) v = bool
code_table (suc (suc (suc (suc (suc zero))))) v = uint8
code_table (suc (suc (suc (suc (suc (suc zero)))))) v = fp8
code_table (suc (suc (suc (suc (suc (suc (suc zero))))))) v = bf16
code_table (suc (suc (suc (suc (suc (suc (suc (suc zero)))))))) v = int64
code_table (suc (suc (suc (suc (suc (suc (suc (suc (suc zero))))))))) v = int4
code_table (suc (suc (suc (suc (suc (suc (suc (suc (suc (suc zero)))))))))) v = fp4
code_table (suc (suc (suc (suc (suc (suc (suc (suc (suc (suc (suc zero))))))))))) v = e8m0
code_table (suc (suc (suc (suc (suc (suc (suc (suc (suc (suc (suc (suc n)))))))))))) v = unknown v

unfoldable pub from_raw : ℤ → DataType
unfolding code_table
from_raw (pos n) = code_table n (pos n)
from_raw (negsuc n) = unknown (negsuc n)

unfoldable pub from_binding_dtype : String → Option DataType
unfolding DataType-discrete
from_binding_dtype dtype =
    if dtype == "bfloat16"
    then some bf16
    else if dtype == "float16"
    then some half
    else if dtype == "float32"
    then some float
    else if dtype == "int64"
    then some int64
    else if dtype == "int32"
    then some int32
    else if dtype == "fp8"
    then some fp8
    else none

unfoldable pub as_binding_dtype : DataType → Option String
as_binding_dtype bf16 = some "bfloat16"
as_binding_dtype half = some "float16"
as_binding_dtype float = some "float32"
as_binding_dtype int64 = some "int64"
as_binding_dtype int32 = some "int32"
as_binding_dtype fp8 = some "fp8"
as_binding_dtype _ = none

unfoldable pub bytes_per_element : DataType → Option ℕ
bytes_per_element float = some 4
bytes_per_element int32 = some 4
bytes_per_element half = some 2
bytes_per_element bf16 = some 2
bytes_per_element int8 = some 1
bytes_per_element bool = some 1
bytes_per_element uint8 = some 1
bytes_per_element fp8 = some 1
bytes_per_element int64 = some 8
bytes_per_element int4 = none
bytes_per_element fp4 = none
bytes_per_element e8m0 = none
bytes_per_element (unknown v) = none

abbrev pub u32_mod : ℕ
u32_mod = 4294967296

-- `bits >> 16` is a division by 65536, and `& 1` a remainder by 2.
unfoldable pub f32_to_bf16_bits : ℕ → ℕ
f32_to_bf16_bits bits =
    let rounding_bias = 0x7fff + bits / 65536 % 2 in (bits + rounding_bias) % u32_mod / 65536

unfoldable pub bf16_bits_to_f32 : ℕ → ℕ
bf16_bits_to_f32 value = value * 65536
