-- ===== src/Binary/Complexes.antt =====
-- The result types of `ComplexValue::binary` (src/pyjion/absvalue.cpp): a
-- function for each kind of the right operand that the source tests for, with the cases of its
-- switch, and the function that picks one.
use pyjion.Kind.{AbstractValueKind, avk_integer, avk_float, avk_bool, avk_complex}
use pyjion.Opcode.{
  BinaryOp, binary_power, binary_multiply, binary_add, binary_subtract, binary_true_divide,
  inplace_power, inplace_multiply, inplace_add, inplace_subtract, inplace_true_divide,
}
use pyjion.Value.{AbstractValue, any_value, complex_value}

unfoldable pub complex_bool : BinaryOp → AbstractValue
complex_bool binary_add = complex_value
complex_bool binary_multiply = complex_value
complex_bool binary_power = complex_value
complex_bool binary_subtract = complex_value
complex_bool binary_true_divide = complex_value
complex_bool inplace_add = complex_value
complex_bool inplace_multiply = complex_value
complex_bool inplace_power = complex_value
complex_bool inplace_subtract = complex_value
complex_bool inplace_true_divide = complex_value
complex_bool _ = any_value

unfoldable pub complex_complex : BinaryOp → AbstractValue
complex_complex binary_add = complex_value
complex_complex binary_multiply = complex_value
complex_complex binary_power = complex_value
complex_complex binary_subtract = complex_value
complex_complex binary_true_divide = complex_value
complex_complex inplace_add = complex_value
complex_complex inplace_multiply = complex_value
complex_complex inplace_power = complex_value
complex_complex inplace_subtract = complex_value
complex_complex inplace_true_divide = complex_value
complex_complex _ = any_value

unfoldable pub complex_float : BinaryOp → AbstractValue
complex_float binary_add = complex_value
complex_float binary_multiply = complex_value
complex_float binary_power = complex_value
complex_float binary_subtract = complex_value
complex_float binary_true_divide = complex_value
complex_float inplace_add = complex_value
complex_float inplace_multiply = complex_value
complex_float inplace_power = complex_value
complex_float inplace_subtract = complex_value
complex_float inplace_true_divide = complex_value
complex_float _ = any_value

unfoldable pub complex_integer : BinaryOp → AbstractValue
complex_integer binary_add = complex_value
complex_integer binary_multiply = complex_value
complex_integer binary_power = complex_value
complex_integer binary_subtract = complex_value
complex_integer binary_true_divide = complex_value
complex_integer inplace_add = complex_value
complex_integer inplace_multiply = complex_value
complex_integer inplace_power = complex_value
complex_integer inplace_subtract = complex_value
complex_integer inplace_true_divide = complex_value
complex_integer _ = any_value

unfoldable pub complex_binary : AbstractValueKind → BinaryOp → AbstractValue
unfolding complex_bool complex_complex complex_float complex_integer
complex_binary avk_bool op = complex_bool op
complex_binary avk_complex op = complex_complex op
complex_binary avk_float op = complex_float op
complex_binary avk_integer op = complex_integer op
complex_binary _ op = any_value
