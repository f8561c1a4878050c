-- ===== src/Binary/BigIntegers.antt =====
-- The result types of `BigIntegerValue::binary` (src/pyjion/absvalue.cpp): a
-- function for each kind of the right operand that the source tests for, with the cases of its
-- switch, and the function that picks one.
use pyjion.Kind.{
  AbstractValueKind, avk_any, avk_integer, avk_float, avk_bool, avk_list, avk_tuple, avk_string,
  avk_bytes, avk_complex, avk_big_integer,
}
use pyjion.Opcode.{
  BinaryOp, binary_power, binary_multiply, binary_modulo, binary_add, binary_subtract,
  binary_floor_divide, binary_true_divide, binary_lshift, binary_rshift, binary_and, binary_xor,
  binary_or, inplace_power, inplace_multiply, inplace_modulo, inplace_add, inplace_subtract,
  inplace_floor_divide, inplace_true_divide, inplace_lshift, inplace_rshift, inplace_and,
  inplace_xor, inplace_or,
}
use pyjion.Value.{
  AbstractValue, any_value, bytes_value, complex_value, big_integer_value, string_value,
  float_value, list_value, tuple_value,
}

unfoldable pub big_integer_bool : BinaryOp → AbstractValue
big_integer_bool binary_true_divide = float_value
big_integer_bool inplace_true_divide = float_value
big_integer_bool binary_add = big_integer_value
big_integer_bool binary_and = big_integer_value
big_integer_bool binary_floor_divide = big_integer_value
big_integer_bool binary_lshift = big_integer_value
big_integer_bool binary_modulo = big_integer_value
big_integer_bool binary_multiply = big_integer_value
big_integer_bool binary_or = big_integer_value
big_integer_bool binary_power = big_integer_value
big_integer_bool binary_rshift = big_integer_value
big_integer_bool binary_subtract = big_integer_value
big_integer_bool binary_xor = big_integer_value
big_integer_bool inplace_add = big_integer_value
big_integer_bool inplace_and = big_integer_value
big_integer_bool inplace_floor_divide = big_integer_value
big_integer_bool inplace_lshift = big_integer_value
big_integer_bool inplace_modulo = big_integer_value
big_integer_bool inplace_multiply = big_integer_value
big_integer_bool inplace_or = big_integer_value
big_integer_bool inplace_power = big_integer_value
big_integer_bool inplace_rshift = big_integer_value
big_integer_bool inplace_subtract = big_integer_value
big_integer_bool inplace_xor = big_integer_value
big_integer_bool _ = any_value

unfoldable pub big_integer_bytes : BinaryOp → AbstractValue
big_integer_bytes binary_multiply = bytes_value
big_integer_bytes inplace_multiply = bytes_value
big_integer_bytes _ = any_value

unfoldable pub big_integer_complex : BinaryOp → AbstractValue
big_integer_complex binary_add = complex_value
big_integer_complex binary_multiply = complex_value
big_integer_complex binary_power = complex_value
big_integer_complex binary_subtract = complex_value
big_integer_complex binary_true_divide = complex_value
big_integer_complex inplace_add = complex_value
big_integer_complex inplace_multiply = complex_value
big_integer_complex inplace_power = complex_value
big_integer_complex inplace_subtract = complex_value
big_integer_complex inplace_true_divide = complex_value
big_integer_complex _ = any_value

unfoldable pub big_integer_float : BinaryOp → AbstractValue
big_integer_float binary_add = float_value
big_integer_float binary_floor_divide = float_value
big_integer_float binary_modulo = float_value
big_integer_float binary_multiply = float_value
big_integer_float binary_power = float_value
big_integer_float binary_subtract = float_value
big_integer_float binary_true_divide = float_value
big_integer_float inplace_add = float_value
big_integer_float inplace_floor_divide = float_value
big_integer_float inplace_modulo = float_value
big_integer_float inplace_multiply = float_value
big_integer_float inplace_power = float_value
big_integer_float inplace_subtract = float_value
big_integer_float inplace_true_divide = float_value
big_integer_float _ = any_value

unfoldable pub big_integer_integer : BinaryOp → AbstractValue
big_integer_integer binary_true_divide = float_value
big_integer_integer inplace_true_divide = float_value
big_integer_integer binary_multiply = big_integer_value
big_integer_integer inplace_multiply = big_integer_value
big_integer_integer binary_power = big_integer_value
big_integer_integer inplace_power = big_integer_value
big_integer_integer binary_add = big_integer_value
big_integer_integer binary_and = big_integer_value
big_integer_integer binary_floor_divide = big_integer_value
big_integer_integer binary_lshift = big_integer_value
big_integer_integer binary_modulo = big_integer_value
big_integer_integer binary_or = big_integer_value
big_integer_integer binary_rshift = big_integer_value
big_integer_integer binary_subtract = big_integer_value
big_integer_integer binary_xor = big_integer_value
big_integer_integer inplace_add = big_integer_value
big_integer_integer inplace_and = big_integer_value
big_integer_integer inplace_floor_divide = big_integer_value
big_integer_integer inplace_lshift = big_integer_value
big_integer_integer inplace_modulo = big_integer_value
big_integer_integer inplace_or = big_integer_value
big_integer_integer inplace_rshift = big_integer_value
big_integer_integer inplace_subtract = big_integer_value
big_integer_integer inplace_xor = big_integer_value
big_integer_integer _ = any_value

unfoldable pub big_integer_big_integer : BinaryOp → AbstractValue
big_integer_big_integer binary_true_divide = float_value
big_integer_big_integer inplace_true_divide = float_value
big_integer_big_integer binary_multiply = big_integer_value
big_integer_big_integer inplace_multiply = big_integer_value
big_integer_big_integer binary_power = big_integer_value
big_integer_big_integer inplace_power = big_integer_value
big_integer_big_integer binary_add = big_integer_value
big_integer_big_integer binary_and = big_integer_value
big_integer_big_integer binary_floor_divide = big_integer_value
big_integer_big_integer binary_lshift = big_integer_value
big_integer_big_integer binary_modulo = big_integer_value
big_integer_big_integer binary_or = big_integer_value
big_integer_big_integer binary_rshift = big_integer_value
big_integer_big_integer binary_subtract = big_integer_value
big_integer_big_integer binary_xor = big_integer_value
big_integer_big_integer inplace_add = big_integer_value
big_integer_big_integer inplace_and = big_integer_value
big_integer_big_integer inplace_floor_divide = big_integer_value
big_integer_big_integer inplace_lshift = big_integer_value
big_integer_big_integer inplace_modulo = big_integer_value
big_integer_big_integer inplace_or = big_integer_value
big_integer_big_integer inplace_rshift = big_integer_value
big_integer_big_integer inplace_subtract = big_integer_value
big_integer_big_integer inplace_xor = big_integer_value
big_integer_big_integer _ = any_value

unfoldable pub big_integer_list : BinaryOp → AbstractValue
big_integer_list binary_multiply = list_value
big_integer_list inplace_multiply = list_value
big_integer_list _ = any_value

unfoldable pub big_integer_string : BinaryOp → AbstractValue
big_integer_string binary_multiply = string_value
big_integer_string inplace_multiply = string_value
big_integer_string _ = any_value

unfoldable pub big_integer_tuple : BinaryOp → AbstractValue
big_integer_tuple binary_multiply = tuple_value avk_any
big_integer_tuple inplace_multiply = tuple_value avk_any
big_integer_tuple _ = any_value

unfoldable pub big_integer_binary : AbstractValueKind → BinaryOp → AbstractValue
unfolding big_integer_bool big_integer_bytes big_integer_complex big_integer_float
    big_integer_integer big_integer_big_integer big_integer_list big_integer_string
    big_integer_tuple
big_integer_binary avk_bool op = big_integer_bool op
big_integer_binary avk_bytes op = big_integer_bytes op
big_integer_binary avk_complex op = big_integer_complex op
big_integer_binary avk_float op = big_integer_float op
big_integer_binary avk_integer op = big_integer_integer op
big_integer_binary avk_big_integer op = big_integer_big_integer op
big_integer_binary avk_list op = big_integer_list op
big_integer_binary avk_string op = big_integer_string op
big_integer_binary avk_tuple op = big_integer_tuple op
big_integer_binary _ op = any_value
