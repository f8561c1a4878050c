-- ===== src/Binary/ByteArrays.antt =====
-- The result types of `ByteArrayValue::binary` (src/pyjion/absvalue.cpp). The switch is on the
-- operator first.
use pyjion.Kind.{AbstractValueKind, avk_integer, avk_bytearray, avk_big_integer}
use pyjion.Opcode.{BinaryOp, binary_multiply, binary_add, binary_subscr, inplace_add}
use pyjion.Value.{AbstractValue, any_value, integer_value, byte_array_value}

unfoldable pub byte_array_multiply : AbstractValueKind → AbstractValue
byte_array_multiply avk_integer = byte_array_value
byte_array_multiply avk_big_integer = byte_array_value
byte_array_multiply _ = any_value

unfoldable pub byte_array_add : AbstractValueKind → AbstractValue
byte_array_add avk_bytearray = byte_array_value
byte_array_add _ = any_value

unfoldable pub byte_array_binary : AbstractValueKind → BinaryOp → AbstractValue
unfolding byte_array_multiply byte_array_add
byte_array_binary k binary_subscr = integer_value
byte_array_binary k binary_multiply = byte_array_multiply k
byte_array_binary k binary_add = byte_array_add k
byte_array_binary k inplace_add = byte_array_add k
byte_array_binary k _ = any_value
