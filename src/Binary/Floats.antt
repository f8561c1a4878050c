-- ===== src/Binary/Floats.antt =====
-- The result types of `FloatValue::binary` (src/pyjion/absvalue.cpp): a
-- function for each kind of the right operand that the source tests for, with the cases of its
-- switch, and the function that picks one.
use pyjion.Kind.{AbstractValueKind, avk_integer, avk_float, avk_bool, avk_complex, avk_big_integer}
use pyjion.Opcode.{
  BinaryOp, binary_power, binary_multiply, binary_modulo, binary_add, binary_subtract,
  binary_floor_divide, binary_true_divide, inplace_power, inplace_multiply, inplace_modulo,
  inplace_add, inplace_subtract, inplace_floor_divide, inplace_true_divide,
}
use pyjion.Value.{AbstractValue, any_value, complex_value, float_value}

unfoldable pub float_bool : BinaryOp → AbstractValue
float_bool binary_add = float_value
float_bool binary_floor_divide = float_value
float_bool binary_modulo = float_value
float_bool binary_multiply = float_value
float_bool binary_power = float_value
float_bool binary_subtract = float_value
float_bool binary_true_divide = float_value
float_bool inplace_add = float_value
float_bool inplace_floor_divide = float_value
float_bool inplace_modulo = float_value
float_bool inplace_multiply = float_value
float_bool inplace_power = float_value
float_bool inplace_subtract = float_value
float_bool inplace_true_divide = float_value
float_bool _ = any_value

unfoldable pub float_complex : BinaryOp → AbstractValue
float_complex binary_add = complex_value
float_complex binary_multiply = complex_value
float_complex binary_power = complex_value
float_complex binary_subtract = complex_value
float_complex binary_true_divide = complex_value
float_complex inplace_add = complex_value
float_complex inplace_multiply = complex_value
float_complex inplace_power = complex_value
float_complex inplace_subtract = complex_value
float_complex inplace_true_divide = complex_value
float_complex _ = any_value

unfoldable pub float_float : BinaryOp → AbstractValue
float_float binary_add = float_value
float_float binary_floor_divide = float_value
float_float binary_modulo = float_value
float_float binary_multiply = float_value
float_float binary_power = float_value
float_float binary_subtract = float_value
float_float binary_true_divide = float_value
float_float inplace_add = float_value
float_float inplace_floor_divide = float_value
float_float inplace_modulo = float_value
float_float inplace_multiply = float_value
float_float inplace_power = float_value
float_float inplace_subtract = float_value
float_float inplace_true_divide = float_value
float_float _ = any_value

unfoldable pub float_integer : BinaryOp → AbstractValue
float_integer binary_add = float_value
float_integer binary_floor_divide = float_value
float_integer binary_modulo = float_value
float_integer binary_multiply = float_value
float_integer binary_power = float_value
float_integer binary_subtract = float_value
float_integer binary_true_divide = float_value
float_integer inplace_add = float_value
float_integer inplace_floor_divide = float_value
float_integer inplace_modulo = float_value
float_integer inplace_multiply = float_value
float_integer inplace_power = float_value
float_integer inplace_subtract = float_value
float_integer inplace_true_divide = float_value
float_integer _ = any_value

unfoldable pub float_big_integer : BinaryOp → AbstractValue
float_big_integer binary_add = float_value
float_big_integer binary_floor_divide = float_value
float_big_integer binary_modulo = float_value
float_big_integer binary_multiply = float_value
float_big_integer binary_power = float_value
float_big_integer binary_subtract = float_value
float_big_integer binary_true_divide = float_value
float_big_integer inplace_add = float_value
float_big_integer inplace_floor_divide = float_value
float_big_integer inplace_modulo = float_value
float_big_integer inplace_multiply = float_value
float_big_integer inplace_power = float_value
float_big_integer inplace_subtract = float_value
float_big_integer inplace_true_divide = float_value
float_big_integer _ = any_value

unfoldable pub float_binary : AbstractValueKind → BinaryOp → AbstractValue
unfolding float_bool float_complex float_float float_integer float_big_integer
float_binary avk_bool op = float_bool op
float_binary avk_complex op = float_complex op
float_binary avk_float op = float_float op
float_binary avk_integer op = float_integer op
float_binary avk_big_integer op = float_big_integer op
float_binary _ op = any_value
